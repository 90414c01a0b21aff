-- ===== src/Migrations/Settles.antt =====
-- A run that is not refused completes, and leaves nothing to do.
use meet_millions_finance.Prelude.{
  if◌then◌else◌, Bool-cases, nat_eq, filter, contains, contains-append, contains-filter,
  filter-contains, ℕ, ◌≡◌, refl, ap, ◌∙◌, inl, inr, Bool, true, false, not, ◌&&◌, ◌||◌, Option,
  List, [], ◌∷◌, ◌++◌, arith,
}
use meet_millions_finance.Prelude.Text.{Text, text_eq}
use meet_millions_finance.Migrations.{
  State, Verification, plan_migration, run_plan, record_all, apply_all, completed, has_baseline,
  pending_of, is_empty, current, unhandled, refusal, migrations_without_a_route,
}
use meet_millions_finance.Migrations.Asked.{safe_plan}
use meet_millions_finance.Migrations.Overlap.{contains-record_all, not_same}

-- No name stands twice in the list.
abbrev pub IsDistinct : List Text → Type 0
IsDistinct [] = Unit
IsDistinct (f ∷ files) = (contains f files ≡ false) × IsDistinct files

reordered :
    (x f : Text) (files rows : List Text)
    → (contains x files || contains x (rows ++ f ∷ []))
      ≡ (contains x (f ∷ files) || contains x rows)
reordered x f files rows = rw (contains-append x rows (f ∷ [])) (ground arith)

in_tail : (a b : Bool) → b ≡ true → (a || b) ≡ true
in_tail a b h = ground arith

completes :
    (works : Text → Bool) (files rows : List Text)
    → ((x : Text) → contains x files ≡ true → works x ≡ true)
    → IsDistinct files
    → ((x : Text) → contains x files ≡ true → contains x rows ≡ false)
    → (after : List Text) × (apply_all works files rows ≡ completed after)
      × ((x : Text) → contains x after ≡ (contains x files || contains x rows))
unfolding apply_all
completes works [] rows g d h = (rows, refl, λ x. refl)
completes works (f ∷ files) rows g d h =
    let carried : works f ≡ true = g f (rw ((text_eq.beq_iff f f).1 refl) refl) in
    let absent : contains f rows ≡ false = h f (rw ((text_eq.beq_iff f f).1 refl) refl) in
    let later : (x : Text) → contains x files ≡ true → contains x (rows ++ f ∷ []) ≡ false = λ x k.
      let other : text_eq.beq x f ≡ false = not_same x f files k d.0 in
      let out : contains x rows ≡ false = h x (rw (other, k) refl) in
      contains-append x rows (f ∷ []) ∙ (rw (out, other) refl) in
    let rest =
      completes works files (rows ++ f ∷ [])
        (λ x k. g x (in_tail (text_eq.beq x f) (contains x files) k)) d.1 later in
    (rest.0, rw (carried, absent) (rest.1), λ x. rest.2 x ∙ reordered x f files rows)

filter_none :
    (p : Text → Bool) (xs : List Text)
    → ((x : Text) → contains x xs ≡ true → p x ≡ false)
    → filter p xs ≡ []
filter_none p [] h = refl
filter_none p (x ∷ xs) h =
    let out : p x ≡ false = h x (rw ((text_eq.beq_iff x x).1 refl) refl) in
    rw out (filter_none p xs (λ y k. h y (in_tail (text_eq.beq y x) (contains y xs) k)))

absent-filter :
    (x : Text) (p : Text → Bool) (xs : List Text)
    → contains x xs ≡ false
    → contains x (filter p xs) ≡ false
absent-filter x p xs h = elim (Bool-cases (contains x (filter p xs))) [
  | inl t ↦ let there = (contains-filter x p xs t).0 in cc
  | inr n ↦ n
]

filter-IsDistinct : (p : Text → Bool) (xs : List Text) → IsDistinct xs → IsDistinct (filter p xs)
filter-IsDistinct p [] d = tt
filter-IsDistinct p (x ∷ xs) d = elim (Bool-cases (p x)) [
  | inl here ↦ rw here (absent-filter x p xs d.0, filter-IsDistinct p xs d.1)
  | inr there ↦ rw there (filter-IsDistinct p xs d.1)
]

-- The incremental files are distinct, and none is folded into the baseline or named like it.
pub record IsWellNamed (s : State) : Type 0 where
  pub distinct : IsDistinct s.incrementals
  pub apart :
      (f : Text)
      → contains f s.incrementals ≡ true
      → contains f (s.baseline_name ∷ s.covered) ≡ false

not_recorded :
    (s : State) (b : Bool) (x : Text)
    → contains x (s.baseline_name ∷ s.covered) ≡ false
    → contains x s.applied ≡ false
    → (contains x (if b then [] else s.baseline_name ∷ s.covered) || contains x s.applied) ≡ false
not_recorded s true x h k = k
not_recorded s false x h k = rw (h, k) refl

not_stopped : (r a w : Bool) → r ≡ false → w ≡ true → (r || a && not w) ≡ false
not_stopped r a w h k = ground arith

module _ (works : Text → Bool) (s : State) where
  -- The statements of the baseline and of every incremental file are carried out.
  abbrev pub IsCarriedOut : Type 0
  IsCarriedOut = (f : Text) → contains f (s.baseline_name ∷ s.incrementals) ≡ true → works f ≡ true

  -- The files in `schema_migrations` after the run of a safe plan.
  ran :
      IsWellNamed s
      → IsCarriedOut
      → (plan_migration s).safe ≡ true
      → (rows : List Text) × (run_plan works s.baseline_name (plan_migration s) s.applied
          ≡ completed rows)
        × ((x : Text)
            → contains x rows ≡ (
                contains x (pending_of s)
                || (contains x (if has_baseline s then [] else s.baseline_name ∷ s.covered)
                    || contains x s.applied)))
  unfolding run_plan
  ran w g h =
      let p = safe_plan s h in
      let recorded = if has_baseline s then [] else s.baseline_name ∷ s.covered in
      let is_new : Text → Bool = λ f. not (contains f s.applied) in
      let absent : (x : Text)
          → contains x (pending_of s) ≡ true
          → contains x (record_all recorded s.applied) ≡ false =
        λ x k.
          let from = contains-filter x is_new s.incrementals k in
          let out : contains x s.applied ≡ false = ground (arith, from.1) in
          contains-record_all x recorded s.applied
          ∙ not_recorded s (has_baseline s) x (w.apart x from.0) out in
      let baseline : works s.baseline_name ≡ true =
        g s.baseline_name (rw ((text_eq.beq_iff s.baseline_name s.baseline_name).1 refl) refl) in
      let carried : (x : Text) → contains x (pending_of s) ≡ true → works x ≡ true =
        λ x k. g x (in_tail _ _ (contains-filter x is_new s.incrementals k).0) in
      let all =
        completes works (pending_of s) (record_all recorded s.applied) carried
          (filter-IsDistinct is_new s.incrementals w.distinct) absent in
      let going = not_stopped _ (plan_migration s).apply_baseline _ p.0 baseline in
      (
        all.0,
        rw (going, p.1, p.2) (all.1),
        λ x.
            all.2 x
            ∙ ap (λ b. contains x (pending_of s) || b) (contains-record_all x recorded s.applied),
      )

settled :
    (t : State)
    → has_baseline t ≡ true
    → pending_of t ≡ []
    → plan_migration t
      ≡ (if is_empty (unhandled t) then current else refusal migrations_without_a_route)
unfolding plan_migration
settled t b p = elim (Bool-cases (is_empty (unhandled t))) [
  | inl e ↦ rw (b, p, e) refl
  | inr n ↦ rw (b, p, n) refl
]

baseline_there :
    (s : State) (b : Bool) (p : Bool)
    → has_baseline s ≡ b
    → (p
        || (contains s.baseline_name (if b then [] else s.baseline_name ∷ s.covered)
            || contains s.baseline_name s.applied))
      ≡ true
baseline_there s true p h = rw h (ground arith)
baseline_there s false p h =
    rw ((text_eq.beq_iff s.baseline_name s.baseline_name).1 refl) (ground arith)

nothing_left :
    (s : State) (rows : List Text) (recorded : List Text)
    → ((x : Text)
        → contains x rows
          ≡ (contains x (pending_of s) || (contains x recorded || contains x s.applied)))
    → filter (λ f. not (contains f rows)) s.incrementals ≡ []
nothing_left s rows recorded h =
    filter_none (λ f. not (contains f rows)) s.incrementals
      (λ f k. elim (Bool-cases (contains f s.applied)) [
        | inl a ↦ let there : contains f rows ≡ true = h f ∙ (rw a (ground arith)) in rw there refl
        | inr n ↦
            let waits : contains f (pending_of s) ≡ true =
              filter-contains f (λ g. not (contains g s.applied)) s.incrementals k (rw n refl) in
            let there : contains f rows ≡ true = h f ∙ (rw waits refl) in rw there refl
      ])

-- On distinct incremental files of which none is folded into the baseline or named like it, where the
-- statements of the baseline and of every incremental file are carried out, the run of a plan that is
-- safe completes, and the next plan over what it recorded, whatever tables and verification it finds,
-- has nothing to do, unless a source migration has no route: then it refuses.
pub run_settles :
    (works : Text → Bool) (s : State) (n : ℕ) (v : Option Verification)
    → IsWellNamed s
    → IsCarriedOut works s
    → (plan_migration s).safe ≡ true
    → (rows : List Text) × (run_plan works s.baseline_name (plan_migration s) s.applied
        ≡ completed rows)
      × (plan_migration (record s { applied = rows; table_count = n; verification = v })
          ≡ (if is_empty (unhandled s) then current else refusal migrations_without_a_route))
run_settles works s n v w g h =
    let r = ran works s w g h in
    let after = record s { applied = r.0; table_count = n; verification = v } in
    (
      r.0,
      r.1,
      settled after (r.2 s.baseline_name ∙ baseline_there s (has_baseline s) _ refl)
          (nothing_left s r.0 _ (r.2)),
    )
