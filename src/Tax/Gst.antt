-- ===== src/Tax/Gst.antt =====
-- Tax on one GST line (`isInterState`, `computeGstLine` of src/services/tax-engine.js). Amounts are
-- paise; a rate is a number of thousandths of a percent. A state code is its list of code points.
use meet_millions_finance.Prelude.{
  ltb, leb, ◌==◌, if◌then◌else◌, ltb→lt, leb→le, ==_iff, ==_refl, Bool-cases, Option-cases, or_else,
  is_some, Eq, nat_eq, beq_of, beq_of_iff, length, filter, any, All, length-append, length-filter,
  contains, sum_by, sum_by-append, ℕ, zero, suc, ◌+◌, ◌-◌, ◌*◌, ◌/◌, ◌%◌, ◌^◌, ◌≤◌, ◌<◌, max, min,
  String, ◌≡◌, refl, sym, ap, ◌∙◌, ◌≢◌, ◌↔◌, ◌⊎◌, inl, inr, Bool, true, false, not, ◌&&◌, ◌||◌,
  Option, none, some, List, [], ◌∷◌, ◌++◌, map, foldl, arith,
}
use meet_millions_finance.Money.{round_div, pct_of_paise}
pub mod Line
pub mod Place

pub data SupplyType : Type 0 where
  intra inter export sez exempt nil non_gst rcm : SupplyType

pub SupplyType-discrete : Discrete SupplyType
SupplyType-discrete = hlevel

-- The set `ZERO_TAX_SUPPLY`.
abbrev pub is_zero_tax_supply : SupplyType → Bool
is_zero_tax_supply exempt = true
is_zero_tax_supply nil = true
is_zero_tax_supply non_gst = true
is_zero_tax_supply _ = false

abbrev pub Code : Type 0
Code = List ℕ

-- `s.padStart(n, c)` for a one-character `c`.
abbrev pub pad_start : ℕ → ℕ → Code → Code
pad_start n c s = pad (n - length s) s
  where
    pad : ℕ → Code → Code
    pad zero r = r
    pad (suc k) r = c ∷ pad k r

abbrev pub code_eq : Code → Code → Bool
code_eq [] [] = true
code_eq (a ∷ r) (b ∷ s) = a == b && code_eq r s
code_eq _ _ = false

-- A code that is null or empty is false in a test.
abbrev pub is_blank : Option Code → Bool
is_blank (some (c ∷ s)) = false
is_blank _ = true

-- The last line of `isInterState`, where both codes are present.
abbrev pub codes_differ : Option Code → Option Code → Bool
codes_differ (some s) (some p) = not (code_eq (pad_start 2 b'0' s) (pad_start 2 b'0' p))
codes_differ _ _ = false

unfoldable pub is_inter_state : Option Code → Option Code → SupplyType → Bool
is_inter_state supplier place export = true
is_inter_state supplier place sez = true
is_inter_state supplier place inter = true
is_inter_state supplier place intra = false
is_inter_state supplier place _ =
    if is_blank supplier || is_blank place then false else codes_differ supplier place

pub record GstTax : Type 0 where
  pub cgst_paise : ℕ
  pub sgst_paise : ℕ
  pub igst_paise : ℕ
  pub cess_paise : ℕ
  pub total_tax_paise : ℕ
  pub invoice_total_paise : ℕ

-- `pctOfPaise(taxable, ratePct / 2)`: the half of a rate is exact in binary floating point.
unfoldable pub pct_of_half_rate : ℕ → ℕ → ℕ
unfolding round_div
pct_of_half_rate paise pct = round_div (paise * pct) 200000

-- `cessPct ? pctOfPaise(taxable, cessPct) : 0`.
unfoldable pub cess_on : ℕ → ℕ → ℕ
unfolding pct_of_paise
cess_on taxable cess_pct = if cess_pct == 0 then 0 else pct_of_paise taxable cess_pct

-- The early return: no tax, or the cess alone where only the rate is nil.
abbrev pub untaxed_line : ℕ → ℕ → SupplyType → GstTax
untaxed_line taxable cess_pct supply_type =
    let zero_tax = if is_zero_tax_supply supply_type then 0 else cess_on taxable cess_pct in
    record {
      cgst_paise = 0;
      sgst_paise = 0;
      igst_paise = 0;
      cess_paise = zero_tax;
      total_tax_paise = zero_tax;
      invoice_total_paise = taxable + zero_tax;
    }

abbrev pub taxed_line : ℕ → ℕ → ℕ → Bool → GstTax
taxed_line taxable rate_pct cess_pct inter_state =
    let cess = cess_on taxable cess_pct in
    let cgst = if inter_state then 0 else pct_of_half_rate taxable rate_pct in
    let sgst = if inter_state then 0 else pct_of_paise taxable rate_pct - cgst in
    let igst = if inter_state then pct_of_paise taxable rate_pct else 0 in
    let total_tax = cgst + sgst + igst + cess in
    record {
      cgst_paise = cgst;
      sgst_paise = sgst;
      igst_paise = igst;
      cess_paise = cess;
      total_tax_paise = total_tax;
      invoice_total_paise = taxable + total_tax;
    }

unfoldable pub compute_gst_line : ℕ → ℕ → ℕ → Bool → SupplyType → GstTax
compute_gst_line taxable rate_pct cess_pct inter_state supply_type =
    if is_zero_tax_supply supply_type || rate_pct == 0
    then untaxed_line taxable cess_pct supply_type
    else taxed_line taxable rate_pct cess_pct inter_state
