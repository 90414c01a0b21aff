-- ===== src/Tax/Run/Handler.antt =====
-- The whole of `runComputation` (src/services/tax-engine.js): its guard, the lines written back and the
-- row of the computation.
use meet_millions_finance.Prelude.{
  ◌==◌, if◌then◌else◌, nat_eq, beq_of, length, filter, ℕ, Bool, true, false, not, ◌&&◌, Option,
  none, some, List, [], ◌∷◌, ◌++◌, map, foldl,
}
use meet_millions_finance.Store.{Row, update}
use meet_millions_finance.Workflow.Documents.{Document}
use meet_millions_finance.Workflow.Periods.{Period}
use meet_millions_finance.Tax.Gst.{Code, code_eq}
use meet_millions_finance.Tax.Rules.{Regime, Regime-discrete, TaxRule}
use meet_millions_finance.Tax.Summary.{GstRow, GstSummary, summarise_gst}
use meet_millions_finance.Tax.Tds.{TdsRow, TdsSummary, tds_totals}
use meet_millions_finance.Tax.Run.{
  supplier_state, verified_ids, recompute_lines, recompute_payments,
}

pub data ComputationStatus : Type 0 where
  draft computed stale superseded final : ComputationStatus

-- The columns of `tax_computations` that the engine fills from its figures.
pub record Computation : Type 0 where
  pub id : ℕ
  pub client_id : ℕ
  pub filing_period_id : ℕ
  pub regime : Regime
  pub taxable_value_paise : ℕ
  pub total_tax_paise : ℕ
  pub itc_total_paise : ℕ
  pub net_payable_paise : ℕ
  pub tds_base_paise : ℕ
  pub tds_deducted_paise : ℕ
  pub tds_deposited_paise : ℕ
  pub status : ComputationStatus
  pub source_document_count : ℕ
  pub line_count : ℕ
  pub computed_by : ℕ
  pub computed_at : ℕ

instance abbrev pub gst_row_row : Row GstRow
gst_row_row = record { row_id = λ l. l.id }

instance abbrev pub computation_row : Row Computation
computation_row = record { row_id = λ c. c.id }

-- The tables that a run reads and writes.
pub record Tables : Type 0 where
  pub gst_records : List GstRow
  pub tds_records : List TdsRow
  pub computations : List Computation

-- The arguments of a run and what the clock and the id generator give.
pub record RunInput : Type 0 where
  pub client_id : ℕ
  pub tenant : ℕ
  pub computed_by : ℕ
  pub now : ℕ
  pub new_id : ℕ

pub data RunError : Type 0 where
  wrong_client unknown_regime : RunError

pub data Ran : Type 0 where
  ran : Computation → Tables → Ran
  failed : RunError → Ran

abbrev pub is_superseded : ComputationStatus → Bool
is_superseded superseded = true
is_superseded _ = false

-- The test of the query for an earlier computation.
abbrev pub is_current : ℕ → Regime → Computation → Bool
is_current period regime c =
    c.filing_period_id == period
    && beq_of Regime-discrete c.regime regime
    && not (is_superseded c.status)

-- `ORDER BY created_at DESC LIMIT 1`: the last one inserted.
abbrev pub last_computation : List Computation → Option Computation
last_computation [] = none
last_computation (c ∷ cs) = elim (last_computation cs) [ none ↦ some c | some d ↦ some d ]

abbrev pub existing : ℕ → Regime → List Computation → Option Computation
existing period regime cs = last_computation (filter (is_current period regime) cs)

-- `existing?.id ?? ID.computation()`.
abbrev pub chosen_id : ℕ → Option Computation → ℕ
chosen_id new_id none = new_id
chosen_id new_id (some c) = c.id

-- The batch of `UPDATE gst_records … WHERE id = ?`.
abbrev pub patch_gst : GstRow → GstRow → GstRow
patch_gst l row = record row {
  cgst_paise = l.cgst_paise;
  sgst_paise = l.sgst_paise;
  igst_paise = l.igst_paise;
  cess_paise = l.cess_paise;
  total_paise = l.total_paise;
  supply_type = l.supply_type;
}

abbrev pub write_gst : List GstRow → List GstRow → List GstRow
write_gst rows lines = foldl (λ t (l : GstRow). update l.id (patch_gst l) t) rows lines

-- The batch of `UPDATE tds_records … WHERE id = ?`.
abbrev pub patch_tds : List TdsRow → TdsRow → List TdsRow
patch_tds rows l =
    map
      (λ (r : TdsRow).
        if code_eq r.id l.id
        then (record r { rate_pct = l.rate_pct; tds_paise = l.tds_paise })
        else r)
      rows

abbrev pub write_tds : List TdsRow → List TdsRow → List TdsRow
write_tds rows lines = foldl patch_tds rows lines

-- The figures of a row that the two branches fill differently.
abbrev pub gst_computation : RunInput → ℕ → ℕ → ℕ → GstSummary → Computation
gst_computation q period id sources s = record {
  id = id;
  client_id = q.client_id;
  filing_period_id = period;
  regime = Regime.gst;
  taxable_value_paise = s.taxable_value_paise;
  total_tax_paise = s.total_tax_paise;
  itc_total_paise = s.itc_total_paise;
  net_payable_paise = s.net_payable_paise;
  tds_base_paise = 0;
  tds_deducted_paise = 0;
  tds_deposited_paise = 0;
  status = computed;
  source_document_count = sources;
  line_count = s.line_count;
  computed_by = q.computed_by;
  computed_at = q.now;
}

abbrev pub tds_computation : RunInput → ℕ → ℕ → ℕ → TdsSummary → Computation
tds_computation q period id sources s = record {
  id = id;
  client_id = q.client_id;
  filing_period_id = period;
  regime = Regime.tds;
  taxable_value_paise = 0;
  total_tax_paise = s.deducted_paise;
  itc_total_paise = 0;
  net_payable_paise = s.outstanding_paise;
  tds_base_paise = s.base_paise;
  tds_deducted_paise = s.deducted_paise;
  tds_deposited_paise = s.deposited_paise;
  status = computed;
  source_document_count = sources;
  line_count = s.line_count;
  computed_by = q.computed_by;
  computed_at = q.now;
}

-- `if (existing) update else insert`.
abbrev pub write_computation :
    Option Computation → Computation → List Computation → List Computation
write_computation none row cs = cs ++ row ∷ []
write_computation (some c) row cs = update c.id (λ _. row) cs

abbrev pub run_gst : RunInput → Code → List Document → Period → Tables → Option Computation → Ran
run_gst q supplier docs p t before =
    let id = chosen_id q.new_id before in
    let verified = verified_ids p.id docs in
    let lines =
      recompute_lines supplier verified
        (filter (λ (l : GstRow). l.computation_id == id) t.gst_records) in
    let row = gst_computation q p.id id (length verified) (summarise_gst lines) in
    ran row (record t {
      gst_records = write_gst t.gst_records lines;
      computations = write_computation before row t.computations;
    })

abbrev pub run_tds :
    RunInput → List TaxRule → List Document → Period → Tables → Option Computation → Ran
run_tds q rules docs p t before =
    let id = chosen_id q.new_id before in
    let verified = verified_ids p.id docs in
    let lines =
      recompute_payments rules q.tenant p.period_end verified
        (filter (λ (l : TdsRow). l.computation_id == id) t.tds_records) in
    let row = tds_computation q p.id id (length verified) (tds_totals lines) in
    ran row (record t {
      tds_records = write_tds t.tds_records lines;
      computations = write_computation before row t.computations;
    })

abbrev pub run_regime :
    RunInput → Code → List TaxRule → List Document → Period → Regime → Tables → Ran
run_regime q supplier rules docs p Regime.gst t =
    run_gst q supplier docs p t (existing p.id Regime.gst t.computations)
run_regime q supplier rules docs p Regime.tds t =
    run_tds q rules docs p t (existing p.id Regime.tds t.computations)
run_regime q supplier rules docs p Regime.cess t = failed unknown_regime

-- `runComputation`, once the period, the client and the company are found.
unfoldable pub run_computation :
    RunInput
    → Option Code
    → Option Code
    → List TaxRule
    → List Document
    → Period
    → Regime
    → Tables
    → Ran
run_computation q state_code gstin rules docs p regime t =
    if not (p.client_id == q.client_id)
    then failed wrong_client
    else run_regime q (supplier_state state_code gstin) rules docs p regime t
