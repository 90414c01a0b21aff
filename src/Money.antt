-- ===== src/Money.antt =====
-- Money in integer paise (src/utils/money.js).
use meet_millions_finance.Prelude.{
  ℕ, zero, suc, ◌+◌, ◌-◌, ◌*◌, ◌/◌, ◌%◌, ◌≤◌, ◌<◌, ◌≡◌, refl, List, [], ◌∷◌, arith, ltb,
  if◌then◌else◌, sum_by, length, All, ap, ◌∙◌, foldl,
}
pub mod Rounding
pub mod Split

-- One percent, in the unit of a rate: a rate is a number of thousandths of a percent, so that 0.25%
-- and its half are whole numbers.
abbrev pub rate_unit : ℕ
rate_unit = 1000

-- `Math.round(n / d)` at a non-negative quotient: half rounds up.
unfoldable pub round_div : ℕ → ℕ → ℕ
round_div n d = (2 * n + d) / (2 * d)

-- `pctOfPaise`: `base * rate / 100`, rounded half up. The product is exact: for a rate that a double
-- does not hold, such as 2.3%, the source may get a product just below a half and round it down.
unfoldable pub pct_of_paise : ℕ → ℕ → ℕ
unfolding round_div
pct_of_paise paise pct = round_div (paise * pct) 100000

-- The loop of `sumPaise`.
abbrev add_paise : ℕ → ℕ → ℕ
add_paise total v = total + v

pub sum_paise : List ℕ → ℕ
sum_paise = foldl add_paise 0

-- `Array.from({ length: parts }, (_, i) => base + (i < remainder ? 1 : 0))`, from index `i` on.
unfoldable pub split_from : ℕ → ℕ → ℕ → ℕ → List ℕ
split_from base remainder i zero = []
split_from base remainder i (suc k) =
    (base + (if ltb i remainder then 1 else 0)) ∷ split_from base remainder (suc i) k

-- `splitPaise`.
unfoldable pub split_paise : ℕ → ℕ → List ℕ
unfolding split_from
split_paise total parts = let base = total / parts in split_from base (total - base * parts) 0 parts
