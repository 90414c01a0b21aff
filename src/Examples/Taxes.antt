-- ===== src/Examples/Taxes.antt =====
-- Money, GST and TDS at concrete inputs.
use meet_millions_finance.Prelude.{
  nat_eq, length, All, sum_by, ℕ, ◌+◌, ◌/◌, ◌≤◌, ◌≡◌, ◌⊎◌, Bool, true, false, Option, none, some,
  List, [], ◌∷◌, arith,
}
use meet_millions_finance.Money.{split_paise}
use meet_millions_finance.Money.Split.{split_paise_exact}
use meet_millions_finance.Tax.Gst.{GstTax, intra, inter, Code, SupplyType, compute_gst_line}
use meet_millions_finance.Tax.Gst.Line.{gst_due, gst_line_adds_up}
use meet_millions_finance.Tax.Rules.{TaxRule, Regime, resolve_rule}
use meet_millions_finance.Tax.Summary.{GstRow, Direction, summarise_gst, group_by_rate}
use meet_millions_finance.Tax.Summary.Net.{output_tax, input_credit, summary_balances}
use meet_millions_finance.Tax.Summary.ByRate.{
  lookup_rate, RisingRates, rate_totals, group_by_rate_lem,
}
use meet_millions_finance.Tax.Tds.{PayeeType, TdsRow, tds_loop}
use meet_millions_finance.Tax.Run.Handler.{gst_row_row, computation_row}
use meet_millions_finance.Tax.Tds.Ytd.{recompute_all, tds_loop_lem}

split_paise_exact_example :
    (length (split_paise 1000 7) ≡ 7)
    × (sum_by (λ x. x) (split_paise 1000 7) ≡ 1000)
    × All (λ x. (1000 / 7 ≤ x) × (x ≤ 1000 / 7 + 1)) (split_paise 1000 7)
split_paise_exact_example = split_paise_exact 1000 7 (omega arith)

abbrev line_at : Bool → SupplyType → GstTax
line_at away supply = compute_gst_line 33333 18000 1000 away supply

gst_line_adds_up_example :
    ((line_at false intra).cgst_paise
        + (line_at false intra).sgst_paise
        + (line_at false intra).igst_paise
      ≡ gst_due 33333 18000 intra)
    × ((line_at false intra).total_tax_paise
        ≡ gst_due 33333 18000 intra + (line_at false intra).cess_paise)
    × ((line_at false intra).invoice_total_paise ≡ 33333 + (line_at false intra).total_tax_paise)
gst_line_adds_up_example = gst_line_adds_up 33333 18000 1000 false intra

-- Maharashtra and Karnataka, and the code 7 written with one digit and with two.
abbrev pub maharashtra : Option Code
maharashtra = some (b'2' ∷ b'7' ∷ [])

abbrev karnataka : Option Code
karnataka = some (b'2' ∷ b'9' ∷ [])

abbrev rule : Option ℕ → ℕ → ℕ → TaxRule
rule tenant from threshold = record {
  tenant_id = tenant;
  regime = Regime.tds;
  code = b'J' ∷ [];
  rate_pct = 10000;
  threshold_paise = threshold;
  effective_from = from;
  effective_to = none;
  is_verified = true;
}

abbrev pub rules : List TaxRule
rules = rule none 5 3000000 ∷ rule (some 1) 2 5000000 ∷ rule (some 2) 9 0 ∷ []

abbrev pub gst_row : ℕ → Direction → ℕ → ℕ → GstRow
gst_row id direction rate tax = record {
  id = id;
  computation_id = 1;
  document_id = none;
  direction = direction;
  supply_type = inter;
  place_of_supply = karnataka;
  taxable_value_paise = 100000;
  rate_pct = rate;
  cgst_paise = 0;
  sgst_paise = 0;
  igst_paise = tax;
  cess_paise = 0;
  total_paise = 100000 + tax;
  itc_eligible = true;
}

abbrev pub gst_rows : List GstRow
gst_rows =
    gst_row 1 Direction.outward 18000 18000
    ∷ gst_row 2 Direction.inward 28000 28000
    ∷ gst_row 3 Direction.outward 5000 5000
    ∷ []

summary_balances_example :
    ((summarise_gst gst_rows).total_tax_paise ≡ sum_by output_tax gst_rows)
    × ((summarise_gst gst_rows).itc_total_paise ≡ sum_by input_credit gst_rows)
    × ((summarise_gst gst_rows).net_payable_paise + (summarise_gst gst_rows).itc_total_paise
        ≡ (summarise_gst gst_rows).total_tax_paise
          + (summarise_gst gst_rows).credit_carried_forward_paise)
    × (((summarise_gst gst_rows).net_payable_paise ≡ 0)
        ⊎ ((summarise_gst gst_rows).credit_carried_forward_paise ≡ 0))
    × ((summarise_gst gst_rows).outward_count + (summarise_gst gst_rows).inward_count
        ≡ (summarise_gst gst_rows).line_count)
summary_balances_example = summary_balances gst_rows

group_by_rate_lem_example :
    RisingRates 0 (group_by_rate gst_rows)
    × ((r : ℕ) → lookup_rate r (group_by_rate gst_rows) ≡ rate_totals r gst_rows)
group_by_rate_lem_example = group_by_rate_lem gst_rows

abbrev fee : ℕ → Option Code → ℕ → TdsRow
fee id pan amount = record {
  id = id ∷ [];
  computation_id = 1;
  document_id = none;
  section_code = b'J' ∷ [];
  deductee_name = some (b'A' ∷ []);
  deductee_pan = pan;
  payee_type = PayeeType.individual;
  payment_date = some 10;
  amount_paise = amount;
  rate_pct = 0;
  tds_paise = 0;
  deposited_paise = 0;
}

abbrev pub fees : List TdsRow
fees = fee 1 (some (b'P' ∷ [])) 2000000 ∷ fee 2 none 700000 ∷ fee 3 (some (b'P' ∷ [])) 1500000 ∷ []

tds_loop_lem_example :
    tds_loop (λ l. resolve_rule rules 1 Regime.tds l.section_code 10 true) [] fees
    ≡ recompute_all (λ l. resolve_rule rules 1 Regime.tds l.section_code 10 true) [] fees
tds_loop_lem_example =
    tds_loop_lem (λ l. resolve_rule rules 1 Regime.tds l.section_code 10 true) fees
