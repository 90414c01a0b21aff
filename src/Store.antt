-- ===== src/Store.antt =====
-- Tables of rows with an id, as the data layer gives them to the services (`first` and `update` of
-- src/db/tenancy.js): the rows of one organisation, in the order of insertion.
use meet_millions_finance.Prelude.{
  ltb, leb, ◌==◌, if◌then◌else◌, ltb→lt, leb→le, ==_iff, ==_refl, Bool-cases, Option-cases, or_else,
  is_some, Eq, nat_eq, beq_of, beq_of_iff, length, filter, any, All, length-append, length-filter,
  contains, sum_by, sum_by-append, ℕ, zero, suc, ◌+◌, ◌-◌, ◌*◌, ◌/◌, ◌%◌, ◌^◌, ◌≤◌, ◌<◌, max, min,
  String, ◌≡◌, refl, sym, ap, ap₂, ◌∙◌, ◌≢◌, ◌↔◌, ◌⊎◌, inl, inr, Bool, true, false, not, ◌&&◌, ◌||◌,
  Option, none, some, List, [], ◌∷◌, ◌++◌, map, foldl, arith,
}
pub mod Rows

-- A type of rows, and the id of a row.
pub record Row (A : Type 0) : Type 0 where
  pub row_id : A → ℕ

module _ {A : Type 0} ⦃r : Row A⦄ where
  -- `scope.first(table, { id })`.
  unfoldable pub find : ℕ → List A → Option A
  find k [] = none
  find k (x ∷ xs) = if r.row_id x == k then some x else find k xs

  -- `scope.update(table, id, patch)`.
  unfoldable pub update : ℕ → (A → A) → List A → List A
  update k g [] = []
  update k g (x ∷ xs) = (if r.row_id x == k then g x else x) ∷ update k g xs

  -- The primary key: no two rows have one id.
  abbrev pub DistinctIds : List A → Type 0
  DistinctIds [] = Unit
  DistinctIds (x ∷ xs) = (find (r.row_id x) xs ≡ none) × DistinctIds xs
