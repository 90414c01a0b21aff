-- ===== src/Tax/Summary/Net.antt =====
-- The net figures of a summary.
use meet_millions_finance.Prelude.{
  if◌then◌else◌, nat_eq, length, filter, sum_by, ℕ, ◌+◌, ◌≡◌, refl, ◌∙◌, ◌⊎◌, ◌&&◌, List, [], ◌∷◌,
  map, arith,
}
use meet_millions_finance.Money.{sum_paise}
use meet_millions_finance.Money.Rounding.{sum_paise-eq-sum_by}
use meet_millions_finance.Tax.Summary.{GstRow, is_outward, is_inward, summarise_gst}

-- The tax of a line as the summary counts it: its four heads.
abbrev pub line_tax : GstRow → ℕ
line_tax l = l.cgst_paise + l.sgst_paise + l.igst_paise + l.cess_paise

abbrev pub output_tax : GstRow → ℕ
output_tax l = if is_outward l then line_tax l else 0

abbrev pub input_credit : GstRow → ℕ
input_credit l = if is_inward l && l.itc_eligible then line_tax l else 0

pub sum-map : (f : GstRow → ℕ) (xs : List GstRow) → sum_paise (map f xs) ≡ sum_by f xs
sum-map f xs = sum_paise-eq-sum_by (map f xs) ∙ plain xs
  where
    plain : (ys : List GstRow) → sum_by (λ x. x) (map f ys) ≡ sum_by f ys
    plain [] = refl
    plain (y ∷ ys) = omega (arith, plain ys)

heads :
    (xs : List GstRow)
    → sum_by (λ (l : GstRow). l.cgst_paise) xs
        + sum_by (λ (l : GstRow). l.sgst_paise) xs
        + sum_by (λ (l : GstRow). l.igst_paise) xs
        + sum_by (λ (l : GstRow). l.cess_paise) xs
      ≡ sum_by line_tax xs
heads [] = omega arith
heads (x ∷ xs) = omega (arith, heads xs)

outward_total : (xs : List GstRow) → sum_by line_tax (filter is_outward xs) ≡ sum_by output_tax xs
outward_total [] = refl
outward_total (x ∷ xs) = ground (arith, outward_total xs)

credit_total :
    (xs : List GstRow)
    → sum_by line_tax (filter (λ (l : GstRow). l.itc_eligible) (filter is_inward xs))
      ≡ sum_by input_credit xs
credit_total [] = refl
credit_total (x ∷ xs) = ground (arith, credit_total xs)

counted :
    (xs : List GstRow) → length (filter is_outward xs) + length (filter is_inward xs) ≡ length xs
counted [] = omega arith
counted (x ∷ xs) = ground (arith, counted xs)

-- A summary's total tax is the tax of the outward lines, its credit is that of the inward lines that
-- are eligible, and what is payable less what is carried forward is the difference: payable and the
-- credit make up tax and carry-forward, and one of the two is nil. Every line is counted once.
pub summary_balances :
    (lines : List GstRow)
    → let s = summarise_gst lines in
      (s.total_tax_paise ≡ sum_by output_tax lines)
      × (s.itc_total_paise ≡ sum_by input_credit lines)
      × (s.net_payable_paise + s.itc_total_paise
          ≡ s.total_tax_paise + s.credit_carried_forward_paise)
      × ((s.net_payable_paise ≡ 0) ⊎ (s.credit_carried_forward_paise ≡ 0))
      × (s.outward_count + s.inward_count ≡ s.line_count)
unfolding summarise_gst
summary_balances lines = (
  simp sum-map (heads _ ∙ outward_total lines),
  simp sum-map (heads _ ∙ credit_total lines),
  omega arith,
  omega arith,
  counted lines,
)
