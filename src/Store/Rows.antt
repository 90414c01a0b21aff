-- ===== src/Store/Rows.antt =====
-- What an update does to the rows of a table, to what is found in it and to its totals.
use meet_millions_finance.Prelude.{
  ◌==◌, if◌then◌else◌, ==_iff, Bool-cases, nat_eq, filter, All, sum_by, All-imp, All-and, ℕ, ◌+◌,
  ◌≡◌, refl, sym, ◌≢◌, inl, inr, Bool, true, false, none, some, List, [], ◌∷◌, ◌++◌, arith,
}
use mathlib.Core.Path.{subst}
use meet_millions_finance.Store.{Row, find, update, DistinctIds}

module _ {A : Type 0} ⦃r : Row A⦄ where
  -- A patch leaves the id alone.
  abbrev pub KeepsId : (A → A) → Type 0
  KeepsId g = (x : A) → r.row_id (g x) ≡ r.row_id x

  pub find-update_self :
      (k : ℕ) (g : A → A) (xs : List A) {x : A}
      → KeepsId g
      → find k xs ≡ some x
      → find k (update k g xs) ≡ some (g x)
  unfolding find update
  find-update_self k g [] h e = cc
  find-update_self k g (y ∷ xs) {x} h e = ground (arith, find-update_self k g xs {x = x} h, h y)

  pub find-update_ne :
      (j k : ℕ) (g : A → A) (xs : List A) → KeepsId g → j ≢ k → find j (update k g xs) ≡ find j xs
  unfolding find update
  find-update_ne j k g [] h n = refl
  find-update_ne j k g (y ∷ xs) h n = ground (arith, find-update_ne j k g xs h, h y)

  find-none-update :
      (j k : ℕ) (g : A → A) (xs : List A)
      → KeepsId g
      → find j xs ≡ none
      → find j (update k g xs) ≡ none
  unfolding find update
  find-none-update j k g [] h e = refl
  find-none-update j k g (y ∷ xs) h e = ground (arith, find-none-update j k g xs h, h y)

  pub update-DistinctIds :
      (k : ℕ) (g : A → A) (xs : List A) → KeepsId g → DistinctIds xs → DistinctIds (update k g xs)
  unfolding update
  update-DistinctIds k g [] h d = tt
  update-DistinctIds k g (y ∷ xs) h d = (
    ground (arith, find-none-update (r.row_id y) k g xs h d.0, h y),
    update-DistinctIds k g xs h d.1,
  )

  -- An update at an id that no row has changes nothing.
  pub update_absent : (k : ℕ) (g : A → A) (xs : List A) → find k xs ≡ none → update k g xs ≡ xs
  unfolding find update
  update_absent k g [] e = refl
  update_absent k g (y ∷ xs) e = ground (arith, update_absent k g xs)

  -- A total moves by what the one updated row moves.
  pub sum_by-update :
      (f : A → ℕ) (k : ℕ) (g : A → A) (xs : List A) {x : A}
      → DistinctIds xs
      → find k xs ≡ some x
      → sum_by f (update k g xs) + f x ≡ sum_by f xs + f (g x)
  unfolding find update
  sum_by-update f k g [] d e = cc
  sum_by-update f k g (y ∷ xs) {x} d e = elim (Bool-cases (r.row_id y == k)) [
    | inl here ↦
        let found : some y ≡ some x = rw here at e in
        let q : y ≡ x = cc in
        let absent : find k xs ≡ none = rw (← (==_iff (r.row_id y) k).0 here) d.0 in
        rw (here, ← q, update_absent k g xs absent) (omega arith)
    | inr there ↦
        let e' : find k xs ≡ some x = rw there at e in
        rw there (omega (arith, sum_by-update f k g xs d.1 e'))
  ]

  -- What holds of the row at the id after the patch, and of every other row, holds of all rows after
  -- the update.
  pub All-update {κ μ} :
      (P : A → Type κ) (Q : A → Type μ) (k : ℕ) (g : A → A) (xs : List A)
      → ((x : A) → r.row_id x ≡ k → P x → Q (g x))
      → ((x : A) → r.row_id x ≢ k → P x → Q x)
      → All P xs
      → All Q (update k g xs)
  unfolding update
  All-update P Q k g [] at other h = tt
  All-update P Q k g (y ∷ xs) at other h = elim (Bool-cases (r.row_id y == k)) [
    | inl here ↦ rw here (at y ((==_iff _ _).0 here) h.0, All-update P Q k g xs at other h.1)
    | inr there ↦ rw there (
      other y (λ e. let s : (r.row_id y == k) ≡ true = (==_iff _ _).1 e in cc) h.0,
      All-update P Q k g xs at other h.1,
    )
  ]

  -- No row has an id that is not found.
  pub All-absent : (k : ℕ) (xs : List A) → find k xs ≡ none → All (λ x. r.row_id x ≢ k) xs
  unfolding find
  All-absent k [] e = tt
  All-absent k (y ∷ xs) e = elim (Bool-cases (r.row_id y == k)) [
    | inl here ↦ let bad : some y ≡ none = rw here at e in cc
    | inr there ↦
        let rest : find k xs ≡ none = rw there at e in
        ((λ q. let s : (r.row_id y == k) ≡ true = (==_iff _ _).1 q in cc), All-absent k xs rest)
  ]

  All-absent_imp {κ μ} :
      (P : A → Type κ) (Q : A → Type μ) (k : ℕ) (xs : List A)
      → find k xs ≡ none
      → ((x : A) → r.row_id x ≢ k → P x → Q x)
      → All P xs
      → All Q xs
  All-absent_imp P Q k xs e other h =
      All-imp _ Q xs (λ x w. other x w.1 w.0)
        (All-and P (λ x. r.row_id x ≢ k) xs h (All-absent k xs e))

  pub find-append_none :
      (k : ℕ) (xs : List A) (x : A)
      → find k xs ≡ none
      → find k (xs ++ x ∷ []) ≡ (if r.row_id x == k then some x else none)
  unfolding find
  find-append_none k [] x e = refl
  find-append_none k (y ∷ xs) x e = ground (arith, find-append_none k xs x)

  -- A row with a fresh id keeps the ids distinct.
  pub append-DistinctIds :
      (xs : List A) (x : A)
      → find (r.row_id x) xs ≡ none
      → DistinctIds xs
      → DistinctIds (xs ++ x ∷ [])
  unfolding find
  append-DistinctIds [] x e d = (refl, tt)
  append-DistinctIds (y ∷ xs) x e d = (
    ground (arith, find-append_none (r.row_id y) xs x d.0),
    append-DistinctIds xs x (ground arith) d.1,
  )

  pub All-find {κ} :
      (P : A → Type κ) (k : ℕ) (xs : List A) {x : A} → All P xs → find k xs ≡ some x → P x
  unfolding find
  All-find P k [] h e = cc
  All-find P k (y ∷ xs) {x} h e = elim (Bool-cases (r.row_id y == k)) [
    | inl here ↦ let found : some y ≡ some x = rw here at e in let q : y ≡ x = cc in subst P q h.0
    | inr there ↦ All-find P k xs h.1 (rw there at e)
  ]

  pub find_id : (k : ℕ) (xs : List A) {x : A} → find k xs ≡ some x → r.row_id x ≡ k
  unfolding find
  find_id k [] e = cc
  find_id k (y ∷ xs) {x} e = ground (arith, find_id k xs {x = x})

  pub find_own : (k : ℕ) (xs : List A) {x : A} → find k xs ≡ some x → find (r.row_id x) xs ≡ some x
  find_own k xs {x} e = subst (λ j. find j xs ≡ some x) (sym (find_id k xs e)) e

  -- As `All-update`, where the row at the id is known.
  pub All-update_found {κ μ} :
      (P : A → Type κ) (Q : A → Type μ) (k : ℕ) (g : A → A) (xs : List A) {y : A}
      → DistinctIds xs
      → find k xs ≡ some y
      → Q (g y)
      → ((x : A) → r.row_id x ≢ k → P x → Q x)
      → All P xs
      → All Q (update k g xs)
  unfolding find update
  All-update_found P Q k g [] d e at other h = tt
  All-update_found P Q k g (x ∷ xs) {y} d e at other h = elim (Bool-cases (r.row_id x == k)) [
    | inl here ↦
        let found : some x ≡ some y = rw here at e in
        let q : y ≡ x = cc in
        let absent : find k xs ≡ none = rw (← (==_iff (r.row_id x) k).0 here) d.0 in
        rw (here, update_absent k g xs absent)
          (subst (λ z. Q (g z)) q at, All-absent_imp P Q k xs absent other h.1)
    | inr there ↦
        let e' : find k xs ≡ some y = rw there at e in
        rw there (
          other x (λ i. let s : (r.row_id x == k) ≡ true = (==_iff _ _).1 i in cc) h.0,
          All-update_found P Q k g xs d.1 e' at other h.1,
        )
  ]

  -- A row that a test refuses before and after the patch does not show among those the test selects.
  pub filter-update_out :
      (p : A → Bool) (k : ℕ) (g : A → A) (xs : List A) {x : A}
      → DistinctIds xs
      → find k xs ≡ some x
      → p x ≡ false
      → p (g x) ≡ false
      → filter p (update k g xs) ≡ filter p xs
  unfolding find update
  filter-update_out p k g [] d e h h' = refl
  filter-update_out p k g (y ∷ xs) {x} d e h h' = elim (Bool-cases (r.row_id y == k)) [
    | inl here ↦
        let found : some y ≡ some x = rw here at e in
        let q : x ≡ y = cc in
        let absent : find k xs ≡ none = rw (← (==_iff (r.row_id y) k).0 here) d.0 in
        let before : p y ≡ false = subst (λ z. p z ≡ false) q h in
        let after : p (g y) ≡ false = subst (λ z. p (g z) ≡ false) q h' in
        rw (here, update_absent k g xs absent, before, after) refl
    | inr there ↦
        let e' : find k xs ≡ some x = rw there at e in
        rw (there, filter-update_out p k g xs d.1 e' h h') refl
  ]

  -- A total that the patch moves on no row stays.
  pub sum_by-update_same :
      (f : A → ℕ) (k : ℕ) (g : A → A) (xs : List A)
      → ((x : A) → f (g x) ≡ f x)
      → sum_by f (update k g xs) ≡ sum_by f xs
  unfolding update
  sum_by-update_same f k g [] h = refl
  sum_by-update_same f k g (y ∷ xs) h = ground (arith, sum_by-update_same f k g xs h, h y)
