-- ===== src/Money/Split.antt =====
-- Splitting an amount into equal parts (`splitPaise`).
use meet_millions_finance.Prelude.{
  ℕ, zero, suc, ◌+◌, ◌-◌, ◌*◌, ◌/◌, ◌≤◌, ◌<◌, ◌≡◌, refl, arith, sum_by, length, All, min,
}
use meet_millions_finance.Money.{split_from, split_paise}

length-split_from : (b r i k : ℕ) → length (split_from b r i k) ≡ k
unfolding split_from
length-split_from b r i zero = refl
length-split_from b r i (suc k) = omega (arith, length-split_from b r (suc i) k)

-- From index `i` on, `min k (r - i)` parts hold the extra paisa.
sum_by-split_from : (b r i k : ℕ) → sum_by (λ x. x) (split_from b r i k) ≡ b * k + min k (r - i)
unfolding split_from
sum_by-split_from b r i zero = omega arith
sum_by-split_from b r i (suc k) = ground (arith, sum_by-split_from b r (suc i) k)

All-split_from : (b r i k : ℕ) → All (λ x. (b ≤ x) × (x ≤ b + 1)) (split_from b r i k)
unfolding split_from
All-split_from b r i zero = tt
All-split_from b r i (suc k) = (ground arith, All-split_from b r (suc i) k)

remainder_small : (t p : ℕ) → 0 < p → t - t / p * p < p
remainder_small t p h = grind arith

base_fits : (t p : ℕ) → t / p * p ≤ t
base_fits t p = grind arith

-- Splitting loses no paisa: for at least one part, the parts are as many as asked, add up to the
-- total, and differ from the floor of the quotient by at most one paisa each.
pub split_paise_exact :
    (total parts : ℕ)
    → 0 < parts
    → (length (split_paise total parts) ≡ parts)
      × (sum_by (λ x. x) (split_paise total parts) ≡ total)
      × All (λ x. (total / parts ≤ x) × (x ≤ total / parts + 1)) (split_paise total parts)
unfolding split_paise
split_paise_exact total parts h = (
  length-split_from _ _ 0 parts,
  omega (
    arith,
    sum_by-split_from (total / parts) (total - total / parts * parts) 0 parts,
    remainder_small total parts h,
    base_fits total parts,
  ),
  All-split_from _ _ 0 parts,
)
