-- ===== src/Tax/Run.antt =====
-- A computation over a filing period (`runComputation` of src/services/tax-engine.js): the lines that
-- count, their recalculation and the rows written back. The company's state code and GSTIN are texts;
-- ids and instants are numbers.
use meet_millions_finance.Prelude.{
  ltb, leb, ◌==◌, if◌then◌else◌, ltb→lt, leb→le, ==_iff, ==_refl, Bool-cases, Option-cases, or_else,
  is_some, Eq, nat_eq, beq_of, beq_of_iff, length, filter, any, All, length-append, length-filter,
  contains, sum_by, sum_by-append, All-imp, All-and, All-append, ℕ, zero, suc, ◌+◌, ◌-◌, ◌*◌, ◌/◌,
  ◌%◌, ◌^◌, ◌≤◌, ◌<◌, max, min, String, ◌≡◌, refl, sym, ap, ap₂, ◌∙◌, ◌≢◌, ◌↔◌, ◌⊎◌, inl, inr, Bool,
  true, false, not, ◌&&◌, ◌||◌, Option, none, some, List, [], ◌∷◌, ◌++◌, map, foldl, arith,
}
use meet_millions_finance.Store.{Row, update}
use meet_millions_finance.Workflow.Documents.{DocStatus, Document, doc_eq}
use meet_millions_finance.Workflow.Periods.{Period, of_period, verified_statuses}
use meet_millions_finance.Tax.Gst.{
  intra, inter, SupplyType, Code, code_eq, is_inter_state, GstTax, compute_gst_line,
}
use meet_millions_finance.Tax.Rules.{Regime, TaxRule, resolve_rule}
use meet_millions_finance.Tax.Summary.{GstRow, GstSummary, summarise_gst}
use meet_millions_finance.Tax.Tds.{PayeeType, TdsRow, or_text, tds_loop, TdsSummary, tds_totals}
pub mod Lines
pub mod Handler
pub mod History

-- `gstinStateCode`: the first two characters.
abbrev pub gstin_state_code : Option Code → Option Code
gstin_state_code (some (a ∷ b ∷ s)) = some (a ∷ b ∷ [])
gstin_state_code _ = none

-- `company.state_code || gstinStateCode(company.gstin) || '33'`.
abbrev pub supplier_state : Option Code → Option Code → Code
supplier_state state_code gstin =
    or_text state_code (or_text (gstin_state_code gstin) (b'3' ∷ b'3' ∷ []))

-- The set `verifiedIds`.
abbrev pub verified_ids : ℕ → List Document → List ℕ
verified_ids period docs =
    map (λ (d : Document). d.id)
      (filter (λ (d : Document). contains d.status verified_statuses) (of_period period docs))

-- `!line.document_id || verifiedIds.has(line.document_id)`.
abbrev pub counts : List ℕ → Option ℕ → Bool
counts verified none = true
counts verified (some d) = contains d verified

-- The supply type that is written back.
abbrev pub new_supply_type : Bool → SupplyType → SupplyType
new_supply_type away intra = if away then inter else intra
new_supply_type away inter = if away then inter else intra
new_supply_type away supply = supply

-- One GST line, recalculated from its taxable value and rate; the stored cess stays.
unfoldable pub recompute_gst : Code → GstRow → GstRow
recompute_gst supplier l =
    let away = is_inter_state (some supplier) l.place_of_supply l.supply_type in
    let tax = compute_gst_line l.taxable_value_paise l.rate_pct 0 away l.supply_type in
    record l {
      cgst_paise = tax.cgst_paise;
      sgst_paise = tax.sgst_paise;
      igst_paise = tax.igst_paise;
      total_paise = tax.invoice_total_paise;
      supply_type = new_supply_type away l.supply_type;
    }

-- The loop over the lines of a computation.
unfoldable pub recompute_lines : Code → List ℕ → List GstRow → List GstRow
recompute_lines supplier verified lines =
    map (recompute_gst supplier) (filter (λ (l : GstRow). counts verified l.document_id) lines)

-- A line before another of an earlier date; a line without a date comes first.
abbrev pub date_key : TdsRow → ℕ
date_key l = elim l.payment_date [ none ↦ 0 | some d ↦ d + 1 ]

unfoldable pub insert_by_date : TdsRow → List TdsRow → List TdsRow
insert_by_date l [] = l ∷ []
insert_by_date l (m ∷ ms) =
    let rest = insert_by_date l ms in if leb (date_key l) (date_key m) then l ∷ m ∷ ms else m ∷ rest

-- `sort(sortByPaymentDate)`, a stable sort.
unfoldable pub sort_by_payment_date : List TdsRow → List TdsRow
unfolding insert_by_date
sort_by_payment_date [] = []
sort_by_payment_date (l ∷ ls) = insert_by_date l (sort_by_payment_date ls)

-- `String(sectionCode).toUpperCase()` on ASCII text, less what `[^0-9A-Z-]` matches.
abbrev pub upper_char : ℕ → ℕ
upper_char c = if leb b'a' c && leb c b'z' then c - 32 else c

abbrev pub is_section_char : ℕ → Bool
is_section_char c = leb b'0' c && leb c b'9' || leb b'A' c && leb c b'Z' || c == b'-'

abbrev pub tds_text : Code → Code
tds_text section = b'T' ∷ b'D' ∷ b'S' ∷ b'_' ∷ section

abbrev pub is_individual : PayeeType → Bool
is_individual PayeeType.individual = true
is_individual PayeeType.huf = true
is_individual _ = false

-- The entries of `map` whose rule code is not `TDS_` and the section, and the default.
abbrev pub rule_code : Code → PayeeType → Code
rule_code section payee =
    if code_eq section (b'1' ∷ b'9' ∷ b'4' ∷ b'C' ∷ [])
    then if is_individual payee
      then tds_text (section ++ b'_' ∷ b'I' ∷ b'N' ∷ b'D' ∷ [])
      else tds_text (section ++ b'_' ∷ b'C' ∷ b'O' ∷ [])
    else if code_eq section (b'1' ∷ b'9' ∷ b'4' ∷ b'I' ∷ [])
    then tds_text (section ++ b'_' ∷ b'L' ∷ b'B' ∷ [])
    else if code_eq section (b'1' ∷ b'9' ∷ b'4' ∷ b'J' ∷ [])
    then tds_text (section ++ b'_' ∷ b'P' ∷ b'R' ∷ b'O' ∷ [])
    else if code_eq section (b'1' ∷ b'9' ∷ b'4' ∷ b'-' ∷ b'I' ∷ b'B' ∷ [])
    then tds_text (b'1' ∷ b'9' ∷ b'4' ∷ b'I' ∷ b'B' ∷ [])
    else tds_text section

-- `tdsCodeFor`.
unfoldable pub tds_code_for : Code → PayeeType → Code
tds_code_for section payee = rule_code (filter is_section_char (map upper_char section)) payee

-- The rule in force for a line; an empty section code resolves no rule.
abbrev pub rule_for_line : List TaxRule → ℕ → ℕ → TdsRow → Option TaxRule
rule_for_line rules tenant period_end l = at l.section_code
  where
    at : Code → Option TaxRule
    at [] = none
    at (c ∷ s) =
        resolve_rule rules tenant Regime.tds (tds_code_for (c ∷ s) l.payee_type)
          (or_else l.payment_date period_end) true

-- The lines of a TDS computation, recalculated.
unfoldable pub recompute_payments : List TaxRule → ℕ → ℕ → List ℕ → List TdsRow → List TdsRow
recompute_payments rules tenant period_end verified lines =
    tds_loop (rule_for_line rules tenant period_end) []
      (sort_by_payment_date (filter (λ (l : TdsRow). counts verified l.document_id) lines))
