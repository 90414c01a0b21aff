-- ===== src/Migrations/Overlap.antt =====
-- A file that is folded into the baseline and stands among the incremental ones.
use meet_millions_finance.Prelude.{
  if◌then◌else◌, Bool-cases, nat_eq, contains, contains-append, filter-contains, ◌≡◌, refl, sym,
  ◌∙◌, inl, inr, Bool, true, false, not, ◌||◌, List, [], ◌∷◌, ◌++◌, arith,
}
use mathlib.Core.Path.{subst}
use meet_millions_finance.Prelude.Text.{Text, text_eq}
use meet_millions_finance.Migrations.{
  Run, is_refuse, State, plan_migration, run_plan, record_all, apply_all, insert_ignore, stopped,
  has_baseline, pending_of,
}

contains_same :
    (x n : Text) (rows : List Text)
    → text_eq.beq x n ≡ true
    → contains n rows ≡ true
    → contains x rows ≡ true
contains_same x n rows h k = subst (λ z. contains z rows ≡ true) (sym ((text_eq.beq_iff x n).0 h)) k

swapped : (a b c d : Bool) → d ≡ (b || c) → (a || d) ≡ ((b || a) || c)
swapped a b c d h = ground arith

flip_or : (a b : Bool) → (a || (b || false)) ≡ (b || a)
flip_or a b = ground arith

contains-insert_ignore :
    (x n : Text) (rows : List Text)
    → contains x (insert_ignore n rows) ≡ (text_eq.beq x n || contains x rows)
contains-insert_ignore x n rows = elim (Bool-cases (contains n rows)) [
  | inl there ↦ elim (Bool-cases (text_eq.beq x n)) [
    | inl same ↦ rw (there, same) (contains_same x n rows same there)
    | inr other ↦ rw (there, other) refl
  ]
  | inr absent ↦
      rw (absent, contains-append x rows (n ∷ [])) (flip_or (contains x rows) (text_eq.beq x n))
]

-- What `INSERT IGNORE` of a list leaves in the table.
pub contains-record_all :
    (x : Text) (names rows : List Text)
    → contains x (record_all names rows) ≡ (contains x names || contains x rows)
unfolding record_all
contains-record_all x [] rows = refl
contains-record_all x (n ∷ names) rows =
    contains-record_all x names (insert_ignore n rows)
    ∙ swapped (contains x names) _ _ _ (contains-insert_ignore x n rows)

pub not_same :
    (x f : Text) (rows : List Text)
    → contains x rows ≡ true
    → contains f rows ≡ false
    → text_eq.beq x f ≡ false
not_same x f rows h k = elim (Bool-cases (text_eq.beq x f)) [
  | inl s ↦
      let there : contains f rows ≡ true =
        subst (λ z. contains z rows ≡ true) ((text_eq.beq_iff x f).0 s) h in
      cc
  | inr n ↦ n
]

second_false : (a b : Bool) → (a || b) ≡ false → b ≡ false
second_false a b h = ground arith

-- A file that is in the table already stops the run.
stops :
    (works : Text → Bool) (x : Text) (files rows : List Text)
    → contains x files ≡ true
    → contains x rows ≡ true
    → (after : List Text) × (apply_all works files rows ≡ stopped after)
unfolding apply_all
stops works x [] rows h k = cc
stops works x (f ∷ files) rows h k = elim (Bool-cases (not (works f) || contains f rows)) [
  | inl there ↦ (rows, rw there refl)
  | inr absent ↦
      let new : contains f rows ≡ false = second_false (not (works f)) (contains f rows) absent in
      let other : text_eq.beq x f ≡ false = not_same x f rows k new in
      let more : contains x (rows ++ f ∷ []) ≡ true =
        rw (contains-append x rows (f ∷ []), k) refl in
      let rest = stops works x files (rows ++ f ∷ []) (rw other at h) more in
      (rest.0, rw absent rest.1)
]

-- A run that stops however the baseline goes.
stopped_either :
    (test : Bool) (rows : List Text) (r : Run)
    → ((after : List Text) × (r ≡ stopped after))
    → (after : List Text) × ((if test then stopped rows else r) ≡ stopped after)
stopped_either true rows r h = (rows, refl)
stopped_either false rows r h = h

-- The plan for a database without tables and without a record of the baseline.
fresh_plan :
    (s : State)
    → has_baseline s ≡ false
    → s.table_count ≡ 0
    → ((plan_migration s).pending ≡ pending_of s)
      × ((plan_migration s).recorded ≡ s.baseline_name ∷ s.covered)
      × (is_refuse (plan_migration s).action ≡ false)
      × ((plan_migration s).safe ≡ true)
unfolding plan_migration
fresh_plan s h e = rw (h, e) (refl, refl, refl, refl)

in_later : (a b c : Bool) → b ≡ true → ((a || b) || c) ≡ true
in_later a b c h = ground arith

-- On an empty database, a file that is folded into the baseline, stands among the incremental ones and
-- is not recorded yet is both recorded and pending in a plan that counts as safe, and the run stops,
-- even if every statement is carried out.
pub covered_incremental_stops :
    (works : Text → Bool) (s : State) (x : Text)
    → has_baseline s ≡ false
    → s.table_count ≡ 0
    → contains x s.covered ≡ true
    → contains x s.incrementals ≡ true
    → contains x s.applied ≡ false
    → ((plan_migration s).safe ≡ true)
      × ((rows : List Text) × (run_plan works s.baseline_name (plan_migration s) s.applied
            ≡ stopped rows))
unfolding run_plan
covered_incremental_stops works s x h e c i a =
    let p = fresh_plan s h e in
    let twice : contains x (record_all (s.baseline_name ∷ s.covered) s.applied) ≡ true =
      contains-record_all x (s.baseline_name ∷ s.covered) s.applied
      ∙ in_later (text_eq.beq x s.baseline_name) (contains x s.covered) (contains x s.applied) c in
    let pending : contains x (pending_of s) ≡ true =
      filter-contains x (λ f. not (contains f s.applied)) s.incrementals i (rw a refl) in
    let stop =
      stops works x (pending_of s) (record_all (s.baseline_name ∷ s.covered) s.applied) pending
        twice in
    (p.3, rw (p.1, p.0) (stopped_either _ s.applied _ stop))
