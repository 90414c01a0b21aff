-- ===== src/Money/Rounding.antt =====
-- Rounding a percentage: how far the rounded figure is from the exact one.
use meet_millions_finance.Prelude.{ℕ, ◌+◌, ◌*◌, ◌≤◌, ◌<◌, ◌≡◌, List, [], ◌∷◌, arith, sum_by, foldl}
use meet_millions_finance.Money.{pct_of_paise, sum_paise, add_paise}

-- A rounded percentage is at most half a paisa above the exact one and less than half a paisa below
-- it.
pct_of_paise_nearest :
    (paise pct : ℕ)
    → (200000 * pct_of_paise paise pct ≤ 2 * (paise * pct) + 100000)
      × (2 * (paise * pct) < 200000 * pct_of_paise paise pct + 100000)
unfolding pct_of_paise
pct_of_paise_nearest paise pct = omega arith

pub pct_of_paise_mono :
    (paise pct pct' : ℕ) → pct ≤ pct' → pct_of_paise paise pct ≤ pct_of_paise paise pct'
unfolding pct_of_paise
pct_of_paise_mono paise pct pct' h = grind arith

pub pct_of_paise_zero : (paise : ℕ) → pct_of_paise paise 0 ≡ 0
unfolding pct_of_paise
pct_of_paise_zero paise = omega arith

-- A rate of at most 100% takes at most the amount.
pub pct_of_paise-le : (paise pct : ℕ) → pct ≤ 100000 → pct_of_paise paise pct ≤ paise
unfolding pct_of_paise
pct_of_paise-le paise pct h = grind arith

foldl-add_paise : (acc : ℕ) (xs : List ℕ) → foldl add_paise acc xs ≡ acc + sum_by (λ x. x) xs
foldl-add_paise acc [] = omega arith
foldl-add_paise acc (x ∷ xs) = omega (arith, foldl-add_paise (acc + x) xs)

pub sum_paise-eq-sum_by : (xs : List ℕ) → sum_paise xs ≡ sum_by (λ x. x) xs
unfolding sum_paise
sum_paise-eq-sum_by xs = omega (arith, foldl-add_paise 0 xs)
