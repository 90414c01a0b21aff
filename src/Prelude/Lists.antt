-- ===== src/Prelude/Lists.antt =====
-- Lists measured by native numbers, and the list operations of JavaScript that the source uses.
use Prim.Native.Nat.{ℕ, suc, ◌+◌, ◌≤◌}
use mathlib.Core.Path.{◌≡◌, refl, sym, ap, ◌∙◌}
use mathlib.Core.Logic.{inl, inr}
use mathlib.Core.Bool.{Bool, true, false, ◌||◌}
use mathlib.Core.List.{List, [], ◌∷◌, ◌++◌}
use native.Mathlib.Omega.{arith}
use meet_millions_finance.Prelude.Tests.{Eq, Bool-cases, if◌then◌else◌}

module _ {ℓ} {A : Type ℓ} where
  abbrev pub length : List A → ℕ
  length [] = 0
  length (x ∷ xs) = suc (length xs)

  -- `Array.prototype.filter` on a Boolean test.
  abbrev pub filter : (A → Bool) → List A → List A
  filter p [] = []
  filter p (x ∷ xs) = let rest = filter p xs in if p x then x ∷ rest else rest

  -- `Array.prototype.some`.
  abbrev pub any : (A → Bool) → List A → Bool
  any p [] = false
  any p (x ∷ xs) = p x || any p xs

  -- Every element satisfies `P`.
  abbrev pub All {κ} : (A → Type κ) → List A → Type κ
  All P [] = Unit
  All P (x ∷ xs) = P x × All P xs

  pub length-append : (xs ys : List A) → length (xs ++ ys) ≡ length xs + length ys
  length-append [] ys = omega arith
  length-append (x ∷ xs) ys = omega (arith, length-append xs ys)

  pub length-filter : (p : A → Bool) (xs : List A) → length (filter p xs) ≤ length xs
  length-filter p [] = omega arith
  length-filter p (x ∷ xs) = ground (arith, length-filter p xs)

module _ {ℓ} {A : Type ℓ} ⦃e : Eq A⦄ where
  -- `Array.prototype.includes`.
  abbrev pub contains : A → List A → Bool
  contains a [] = false
  contains a (x ∷ xs) = e.beq a x || contains a xs

  pub contains-append :
      (x : A) (xs ys : List A) → contains x (xs ++ ys) ≡ (contains x xs || contains x ys)
  contains-append x [] ys = refl
  contains-append x (z ∷ xs) ys = ground (arith, contains-append x xs ys)

  pub contains-filter :
      (x : A) (p : A → Bool) (xs : List A)
      → contains x (filter p xs) ≡ true
      → (contains x xs ≡ true) × (p x ≡ true)
  contains-filter x p [] h = cc
  contains-filter x p (z ∷ xs) h = elim (Bool-cases (p z)) [
    | inl here ↦ elim (Bool-cases (e.beq x z)) [
      | inl same ↦ (rw same refl, ap p ((e.beq_iff x z).0 same) ∙ here)
      | inr other ↦
          let rest : contains x (filter p xs) ≡ true = rw (here, other) at h in
          let deep = contains-filter x p xs rest in (rw (other, deep.0) refl, deep.1)
    ]
    | inr there ↦
        let rest : contains x (filter p xs) ≡ true = rw there at h in
        let deep = contains-filter x p xs rest in (ground (arith, deep.0), deep.1)
  ]

  pub filter-contains :
      (x : A) (p : A → Bool) (xs : List A)
      → contains x xs ≡ true
      → p x ≡ true
      → contains x (filter p xs) ≡ true
  filter-contains x p [] h k = cc
  filter-contains x p (z ∷ xs) h k = elim (Bool-cases (e.beq x z)) [
    | inl same ↦
        let here : p z ≡ true = sym (ap p ((e.beq_iff x z).0 same)) ∙ k in rw (here, same) refl
    | inr other ↦
        let rest : contains x xs ≡ true = rw other at h in
        let deep = filter-contains x p xs rest k in
        elim (Bool-cases (p z)) [
          | inl here ↦ rw (here, other, deep) refl
          | inr there ↦ rw there deep
        ]
  ]

-- The sum of a number per element, added from the right.
abbrev pub sum_by {ℓ} : {A : Type ℓ} → (A → ℕ) → List A → ℕ
sum_by f [] = 0
sum_by f (x ∷ xs) = f x + sum_by f xs

pub sum_by-append {ℓ} :
    {A : Type ℓ} (f : A → ℕ) (xs ys : List A) → sum_by f (xs ++ ys) ≡ sum_by f xs + sum_by f ys
sum_by-append f [] ys = omega arith
sum_by-append f (x ∷ xs) ys = omega (arith, sum_by-append f xs ys)

-- A property that follows from another holds of every element where the other does.
pub All-imp {ℓ κ μ} :
    {A : Type ℓ} (P : A → Type κ) (Q : A → Type μ) (xs : List A)
    → ((x : A) → P x → Q x)
    → All P xs
    → All Q xs
All-imp P Q [] f h = tt
All-imp P Q (x ∷ xs) f h = (f x h.0, All-imp P Q xs f h.1)

pub All-and {ℓ κ μ} :
    {A : Type ℓ} (P : A → Type κ) (Q : A → Type μ) (xs : List A)
    → All P xs
    → All Q xs
    → All (λ x. P x × Q x) xs
All-and P Q [] h k = tt
All-and P Q (x ∷ xs) h k = ((h.0, k.0), All-and P Q xs h.1 k.1)

pub All-append {ℓ κ} :
    {A : Type ℓ} (P : A → Type κ) (xs ys : List A) → All P xs → All P ys → All P (xs ++ ys)
All-append P [] ys h k = k
All-append P (x ∷ xs) ys h k = (h.0, All-append P xs ys h.1 k)
