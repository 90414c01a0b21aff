-- ===== src/Tax/Summary.antt =====
-- The summary of a period's GST lines (`summariseGst`, `groupByRate` of src/services/tax-engine.js).
-- A row has the columns of the table `gst_records` that the engine reads or writes; all amounts are
-- non-negative by the checks of src/modules/tax.js, and no column but the two keys may be null.
use meet_millions_finance.Prelude.{
  ltb, leb, ◌==◌, if◌then◌else◌, ltb→lt, leb→le, ==_iff, ==_refl, Bool-cases, Option-cases, or_else,
  is_some, Eq, nat_eq, beq_of, beq_of_iff, length, filter, any, All, length-append, length-filter,
  contains, sum_by, sum_by-append, ℕ, zero, suc, ◌+◌, ◌-◌, ◌*◌, ◌/◌, ◌%◌, ◌^◌, ◌≤◌, ◌<◌, max, min,
  String, ◌≡◌, refl, sym, ap, ◌∙◌, ◌≢◌, ◌↔◌, ◌⊎◌, inl, inr, Bool, true, false, not, ◌&&◌, ◌||◌,
  Option, none, some, List, [], ◌∷◌, ◌++◌, map, foldl, arith,
}
use meet_millions_finance.Money.{sum_paise}
use meet_millions_finance.Tax.Gst.{SupplyType, Code}
pub mod Net
pub mod ByRate

pub data Direction : Type 0 where
  outward inward : Direction

pub record GstRow : Type 0 where
  pub id : ℕ
  pub computation_id : ℕ
  pub document_id : Option ℕ
  pub direction : Direction
  pub supply_type : SupplyType
  pub place_of_supply : Option Code
  pub taxable_value_paise : ℕ
  pub rate_pct : ℕ
  pub cgst_paise : ℕ
  pub sgst_paise : ℕ
  pub igst_paise : ℕ
  pub cess_paise : ℕ
  pub total_paise : ℕ
  pub itc_eligible : Bool

abbrev pub is_outward : GstRow → Bool
is_outward l = elim l.direction [ outward ↦ true | inward ↦ false ]

abbrev pub is_inward : GstRow → Bool
is_inward l = elim l.direction [ outward ↦ false | inward ↦ true ]

pub record RateGroup : Type 0 where
  pub rate_pct : ℕ
  pub taxable_value_paise : ℕ
  pub cgst_paise : ℕ
  pub sgst_paise : ℕ
  pub igst_paise : ℕ
  pub cess_paise : ℕ
  pub count : ℕ

abbrev pub empty_group : ℕ → RateGroup
empty_group rate = record {
  rate_pct = rate;
  taxable_value_paise = 0;
  cgst_paise = 0;
  sgst_paise = 0;
  igst_paise = 0;
  cess_paise = 0;
  count = 0;
}

-- The six `+=` lines of the loop body.
abbrev pub add_row : RateGroup → GstRow → RateGroup
add_row g l = record {
  rate_pct = g.rate_pct;
  taxable_value_paise = g.taxable_value_paise + l.taxable_value_paise;
  cgst_paise = g.cgst_paise + l.cgst_paise;
  sgst_paise = g.sgst_paise + l.sgst_paise;
  igst_paise = g.igst_paise + l.igst_paise;
  cess_paise = g.cess_paise + l.cess_paise;
  count = g.count + 1;
}

-- The loop body on the Map, which keeps its keys in the order of insertion.
unfoldable pub group_row : List RateGroup → GstRow → List RateGroup
group_row [] l = add_row (empty_group l.rate_pct) l ∷ []
group_row (g ∷ gs) l = if g.rate_pct == l.rate_pct then add_row g l ∷ gs else g ∷ group_row gs l

-- `sort((a, b) => a.ratePct - b.ratePct)`, which is stable.
unfoldable pub insert_group : RateGroup → List RateGroup → List RateGroup
insert_group g [] = g ∷ []
insert_group g (h ∷ hs) = if leb g.rate_pct h.rate_pct then g ∷ h ∷ hs else h ∷ insert_group g hs

unfoldable pub sort_groups : List RateGroup → List RateGroup
unfolding insert_group
sort_groups [] = []
sort_groups (g ∷ gs) = insert_group g (sort_groups gs)

unfoldable pub group_by_rate : List GstRow → List RateGroup
group_by_rate lines = sort_groups (foldl group_row [] lines)

pub record GstSummary : Type 0 where
  pub taxable_value_paise : ℕ
  pub cgst_paise : ℕ
  pub sgst_paise : ℕ
  pub igst_paise : ℕ
  pub cess_paise : ℕ
  pub total_tax_paise : ℕ
  pub itc_taxable_paise : ℕ
  pub itc_cgst_paise : ℕ
  pub itc_sgst_paise : ℕ
  pub itc_igst_paise : ℕ
  pub itc_cess_paise : ℕ
  pub itc_total_paise : ℕ
  pub net_payable_paise : ℕ
  pub credit_carried_forward_paise : ℕ
  pub outward_count : ℕ
  pub inward_count : ℕ
  pub line_count : ℕ
  pub by_rate : List RateGroup

abbrev sum : List GstRow → (GstRow → ℕ) → ℕ
sum rows field = sum_paise (map field rows)

-- `Math.max(0, a - b)` is the truncated difference.
unfoldable pub summarise_gst : List GstRow → GstSummary
summarise_gst lines =
    let outward_rows = filter is_outward lines in
    let inward_rows = filter is_inward lines in
    let cgst = sum outward_rows (λ l. l.cgst_paise) in
    let sgst = sum outward_rows (λ l. l.sgst_paise) in
    let igst = sum outward_rows (λ l. l.igst_paise) in
    let cess = sum outward_rows (λ l. l.cess_paise) in
    let total_tax = cgst + sgst + igst + cess in
    let eligible = filter (λ (l : GstRow). l.itc_eligible) inward_rows in
    let itc_cgst = sum eligible (λ l. l.cgst_paise) in
    let itc_sgst = sum eligible (λ l. l.sgst_paise) in
    let itc_igst = sum eligible (λ l. l.igst_paise) in
    let itc_cess = sum eligible (λ l. l.cess_paise) in
    let itc_total = itc_cgst + itc_sgst + itc_igst + itc_cess in
    record {
      taxable_value_paise = sum outward_rows (λ l. l.taxable_value_paise);
      cgst_paise = cgst;
      sgst_paise = sgst;
      igst_paise = igst;
      cess_paise = cess;
      total_tax_paise = total_tax;
      itc_taxable_paise = sum eligible (λ l. l.taxable_value_paise);
      itc_cgst_paise = itc_cgst;
      itc_sgst_paise = itc_sgst;
      itc_igst_paise = itc_igst;
      itc_cess_paise = itc_cess;
      itc_total_paise = itc_total;
      net_payable_paise = total_tax - itc_total;
      credit_carried_forward_paise = itc_total - total_tax;
      outward_count = length outward_rows;
      inward_count = length inward_rows;
      line_count = length lines;
      by_rate = group_by_rate outward_rows;
    }
