-- ===== src/Workflow/Desk/Spared.antt =====
-- What a bulk action answers for each id, and the documents after it.
use meet_millions_finance.Prelude.{
  ◌==◌, if◌then◌else◌, ==_iff, ==_refl, Bool-cases, nat_eq, contains, contains-append, ℕ, ◌+◌, ◌≡◌,
  refl, sym, ap, ◌∙◌, inl, inr, Bool, true, false, ◌&&◌, ◌||◌, Option, none, some, List, [], ◌∷◌,
  ◌++◌, arith,
}
use mathlib.Core.Path.{subst}
use meet_millions_finance.Store.{find}
use meet_millions_finance.Workflow.Documents.{Document}
use meet_millions_finance.Workflow.Desk.{Desk, document_row}
use meet_millions_finance.Workflow.Desk.Review.{Call}
use meet_millions_finance.Workflow.Desk.Bulk.{
  Bulk, BulkAction, SkipReason, approve_all, reject_all, assign_all, set_priority, bulk_ok,
  bulk_one, bulk_loop, bulk,
}
use meet_millions_finance.Workflow.Desk.Patched.{
  is_taken, patch_of, patched, Effect, bulk_one-Effect,
}

-- How often an id stands in a list.
abbrev pub times : ℕ → List ℕ → ℕ
times j [] = 0
times j (k ∷ ks) = (if j == k then 1 else 0) + times j ks

-- The ids of the skipped entries.
abbrev pub ids_of : List (ℕ × SkipReason) → List ℕ
ids_of [] = []
ids_of ((k, why) ∷ rest) = k ∷ ids_of rest

times-append : (j : ℕ) (xs ys : List ℕ) → times j (xs ++ ys) ≡ times j xs + times j ys
times-append j [] ys = omega arith
times-append j (x ∷ xs) ys = omega (arith, times-append j xs ys)

ids_of-append :
    (xs : List (ℕ × SkipReason)) (k : ℕ) (why : SkipReason)
    → ids_of (xs ++ (k, why) ∷ []) ≡ ids_of xs ++ k ∷ []
ids_of-append [] k why = refl
ids_of-append (x ∷ xs) k why = ap (λ ks. x.0 ∷ ks) (ids_of-append xs k why)

patch_twice :
    (c : Call) (action : BulkAction) (notes : Option ℕ) (d : Document)
    → patch_of c action notes (patch_of c action notes d) ≡ patch_of c action notes d
patch_twice c (assign_all who) notes d = refl
patch_twice c (set_priority p) notes d = refl
patch_twice c approve_all notes d = refl
patch_twice c reject_all notes d = refl

-- How often an id has been answered for.
abbrev answered : ℕ → Bulk → ℕ
answered j b = times j b.updated + times j (ids_of b.skipped)

answered-Effect :
    (served : Bool) (g : Document → Document) (j k : ℕ) (b b' : Bulk)
    → Effect served g k b b'
    → answered j b' ≡ answered j b + times j (k ∷ [])
answered-Effect true g j k b b' (u, s, f) =
    rw (u, s, times-append j b.updated (k ∷ [])) (omega arith)
answered-Effect false g j k b b' (why, e) =
    rw (e, ids_of-append b.skipped k why, times-append j (ids_of b.skipped) (k ∷ [])) (omega arith)

-- After some ids, of which `listed` says whether `j` was one: `j` is among the updated exactly if it was
-- listed and its document could be served, and then its row has the patch; else it is as it was.
abbrev IsAnswered : (Document → Document) → ℕ → Option Document → Bool → Bulk → Type 0
IsAnswered g j o served b =
    (contains j b.updated ≡ served)
    × (find j b.desk.documents ≡ (if served then patched g o else o))

all_listed : (l h v : Bool) → h ≡ true → ((l || h) && v) ≡ v
all_listed l h v e = ground arith

not_listed : (l h v : Bool) → h ≡ false → ((l || h) && v) ≡ (l && v)
not_listed l h v e = ground arith

nobody_more : (l : Bool) → l ≡ (l || false)
nobody_more l = ground arith

together : (l a b : Bool) → ((l || a) || b) ≡ (l || (a || b))
together l a b = ground arith

other_step :
    (served : Bool) (g : Document → Document) (j k : ℕ) (b b' : Bulk)
    → (j == k) ≡ false
    → Effect served g k b b'
    → (contains j b'.updated ≡ contains j b.updated)
      × (find j b'.desk.documents ≡ find j b.desk.documents)
other_step true g j k b b' n (u, s, f) = (
  ap (contains j) u ∙ contains-append j b.updated (k ∷ []) ∙ (rw n (ground arith)),
  f j ∙ (rw n refl),
)
other_step false g j k b b' n (why, e) =
    (ap (λ (x : Bulk). contains j x.updated) e, ap (λ (x : Bulk). find j x.desk.documents) e)

own_step :
    (served : Bool) (g : Document → Document) (k : ℕ) (b b' : Bulk)
    → Effect served g k b b'
    → (contains k b'.updated ≡ (served || contains k b.updated))
      × (find k b'.desk.documents
          ≡ (if served then patched g (find k b.desk.documents) else find k b.desk.documents))
own_step true g k b b' (u, s, f) = (
  ap (contains k) u ∙ contains-append k b.updated (k ∷ []) ∙ (rw (==_refl k) (ground arith)),
  f k ∙ (rw (==_refl k) refl),
)
own_step false g k b b' (why, e) =
    (ap (λ (x : Bulk). contains k x.updated) e, ap (λ (x : Bulk). find k x.desk.documents) e)

module _ (c : Call) (action : BulkAction) (notes : Option ℕ) where
  patched_twice :
      (o : Option Document)
      → patched (patch_of c action notes) (patched (patch_of c action notes) o)
        ≡ patched (patch_of c action notes) o
  patched_twice none = refl
  patched_twice (some d) = ap some (patch_twice c action notes d)

  -- Where `j` has been served already, a further turn changes nothing of it.
  again :
      (k : ℕ) (o : Option Document) (v : Bool) (b b' : Bulk)
      → IsAnswered (patch_of c action notes) k o true b
      → Effect v (patch_of c action notes) k b b'
      → IsAnswered (patch_of c action notes) k o true b'
  again k o true b b' a e =
      let own = own_step true (patch_of c action notes) k b b' e in
      (own.0, own.1 ∙ ap (patched (patch_of c action notes)) (a.1) ∙ patched_twice o)
  again k o false b b' a e =
      let own = own_step false (patch_of c action notes) k b b' e in (own.0 ∙ a.0, own.1 ∙ a.1)

  first_time :
      (k : ℕ) (o : Option Document) (v : Bool) (b b' : Bulk)
      → IsAnswered (patch_of c action notes) k o false b
      → Effect v (patch_of c action notes) k b b'
      → IsAnswered (patch_of c action notes) k o v b'
  first_time k o true b b' a e =
      let own = own_step true (patch_of c action notes) k b b' e in
      (own.0, own.1 ∙ ap (patched (patch_of c action notes)) (a.1))
  first_time k o false b b' a e =
      let own = own_step false (patch_of c action notes) k b b' e in (own.0 ∙ a.0, own.1 ∙ a.1)

  own_turn :
      (k : ℕ) (o : Option Document) (s : Bool) (b b' : Bulk)
      → (s ≡ true → is_taken action o ≡ true)
      → IsAnswered (patch_of c action notes) k o s b
      → Effect (is_taken action (find k b.desk.documents)) (patch_of c action notes) k b b'
      → IsAnswered (patch_of c action notes) k o (is_taken action o) b'
  own_turn k o true b b' h a e = rw (h refl) (again k o _ b b' a e)
  own_turn k o false b b' h a e =
      first_time k o (is_taken action o) b b' a
        (subst (λ z. Effect (is_taken action z) (patch_of c action notes) k b b') (a.1) e)

  turn :
      (j k : ℕ) (o : Option Document) (listed : Bool) (b b' : Bulk)
      → IsAnswered (patch_of c action notes) j o (listed && is_taken action o) b
      → Effect (is_taken action (find k b.desk.documents)) (patch_of c action notes) k b b'
      → IsAnswered (patch_of c action notes) j o ((listed || j == k) && is_taken action o) b'
  turn j k o listed b b' a e = elim (Bool-cases (j == k)) [
    | inl here ↦
        let same : k ≡ j = sym ((==_iff j k).0 here) in
        let here' : Effect (is_taken action (find j b.desk.documents)) (patch_of c action notes) j b
            b' =
          subst
            (λ i.
              Effect (is_taken action (find i b.desk.documents)) (patch_of c action notes) i b b')
            same e in
        let done = own_turn j o (listed && is_taken action o) b b' (λ h. ground arith) a here' in
        subst (λ z. IsAnswered (patch_of c action notes) j o z b')
          (sym (all_listed listed (j == k) (is_taken action o) here)) done
    | inr there ↦
        let kept = other_step _ (patch_of c action notes) j k b b' there e in
        subst (λ z. IsAnswered (patch_of c action notes) j o z b')
          (sym (not_listed listed (j == k) (is_taken action o) there)) (kept.0 ∙ a.0, kept.1 ∙ a.1)
  ]

  loop-IsAnswered :
      (j : ℕ) (o : Option Document) (listed : Bool) (ks : List ℕ) (b : Bulk)
      → IsAnswered (patch_of c action notes) j o (listed && is_taken action o) b
      → IsAnswered
          (patch_of c action notes)
          j
          o
          ((listed || contains j ks) && is_taken action o)
          (bulk_loop c action notes ks b)
  unfolding bulk_loop
  loop-IsAnswered j o listed [] b a =
      subst (λ z. IsAnswered (patch_of c action notes) j o (z && is_taken action o) b)
        (nobody_more listed) a
  loop-IsAnswered j o listed (k ∷ ks) b a =
      subst
        (λ z.
          IsAnswered (patch_of c action notes) j o (z && is_taken action o)
            (bulk_loop c action notes ks (bulk_one c action notes k b)))
        (together listed (j == k) (contains j ks))
        (loop-IsAnswered j o (listed || j == k) ks (bulk_one c action notes k b) (
          turn j k o listed b (bulk_one c action notes k b) a (bulk_one-Effect c action notes k b)))

  loop-answered :
      (j : ℕ) (ks : List ℕ) (b : Bulk)
      → answered j (bulk_loop c action notes ks b) ≡ answered j b + times j ks
  unfolding bulk_loop
  loop-answered j [] b = omega arith
  loop-answered j (k ∷ ks) b = omega (
    arith,
    loop-answered j ks (bulk_one c action notes k b),
    answered-Effect _ (patch_of c action notes) j k b (bulk_one c action notes k b)
        (bulk_one-Effect c action notes k b),
  )

bulk_started :
    (c : Call) (action : BulkAction) (notes : Option ℕ) (ks : List ℕ) (t : Desk) {b : Bulk}
    → bulk c action notes ks t ≡ bulk_ok b
    → b ≡ bulk_loop c action notes ks (record { desk = t; updated = []; skipped = [] })
unfolding bulk
bulk_started c action notes ks t {b} e = ground arith

-- An accepted bulk action answers for every id as often as it is listed, as updated or as skipped. An
-- id is among the updated ones exactly if it is listed and its document was there, not deleted, not
-- locked, and the action legal for its status; then its document has the patch of the action. Every
-- other document, a locked one among them, is as it was.
pub bulk_lem :
    (c : Call) (action : BulkAction) (notes : Option ℕ) (ks : List ℕ) (t : Desk) {b : Bulk} (j : ℕ)
    → bulk c action notes ks t ≡ bulk_ok b
    → let served = contains j ks && is_taken action (find j t.documents) in
      (times j b.updated + times j (ids_of b.skipped) ≡ times j ks)
      × (contains j b.updated ≡ served)
      × (find j b.desk.documents ≡ (
          if served
          then patched (patch_of c action notes) (find j t.documents)
          else find j t.documents))
bulk_lem c action notes ks t {b} j e =
    let start : Bulk = record { desk = t; updated = []; skipped = [] } in
    let q = bulk_started c action notes ks t e in
    let rows = loop-IsAnswered c action notes j (find j t.documents) false ks start (refl, refl) in
    (
      ap (answered j) q ∙ loop-answered c action notes j ks start ∙ (omega arith),
      ap (λ (x : Bulk). contains j x.updated) q ∙ rows.0,
      ap (λ (x : Bulk). find j x.desk.documents) q ∙ rows.1,
    )
