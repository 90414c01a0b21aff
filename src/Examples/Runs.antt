-- ===== src/Examples/Runs.antt =====
-- A computation over a period at concrete inputs.
use meet_millions_finance.Prelude.{◌==◌, nat_eq, filter, All, ◌≡◌, true, some, List, [], ◌∷◌}
use meet_millions_finance.Examples.Taxes.{rules, gst_row, gst_rows, fees}
use meet_millions_finance.Tax.Summary.{GstRow, Direction, summarise_gst}
use meet_millions_finance.Tax.Tds.{TdsRow}
use meet_millions_finance.Store.{update}
use meet_millions_finance.Workflow.Periods.{Period, PeriodStatus}
use meet_millions_finance.Tax.Run.{counts, recompute_lines, recompute_payments}
use meet_millions_finance.Tax.Run.Lines.{InOrder, gst_rerun_lem, payments-InOrder}
use meet_millions_finance.Tax.Run.Handler.{
  gst_row_row, computation_row, Computation, ComputationStatus, Tables, RunInput, gst_computation,
  write_gst,
}

abbrev stored_rows : List GstRow
stored_rows = (record (gst_row 1 Direction.outward 18000 0) { document_id = some 6 }) ∷ gst_rows

abbrev recomputed : List GstRow
recomputed = recompute_lines (b'2' ∷ b'7' ∷ []) (5 ∷ []) stored_rows

gst_rerun_lem_example :
    All (λ (l : GstRow). counts (5 ∷ []) l.document_id ≡ true) recomputed
    × (recompute_lines (b'2' ∷ b'7' ∷ []) (5 ∷ []) recomputed ≡ recomputed)
gst_rerun_lem_example = gst_rerun_lem (b'2' ∷ b'7' ∷ []) (5 ∷ []) stored_rows

-- A line whose stored cess is 500 paise.
abbrev with_cess : GstRow
with_cess = record (gst_row 1 Direction.outward 18000 0) { cess_paise = 500 }

payments-InOrder_example :
    All (λ (l : TdsRow). counts [] l.document_id ≡ true) (recompute_payments rules 1 20 [] fees)
    × InOrder 0 (recompute_payments rules 1 20 [] fees)
payments-InOrder_example = payments-InOrder rules 1 20 [] fees

abbrev march : Period
march = record {
  id = 3;
  client_id = 4;
  status = PeriodStatus.verified;
  documents_expected = 0;
  documents_received = 0;
  documents_verified = 0;
  period_end = 20;
}

abbrev run_input : RunInput
run_input = record { client_id = 4; tenant = 1; computed_by = 8; now = 30; new_id = 2 }

abbrev earlier : Computation
earlier = record (gst_computation run_input 3 1 0 (summarise_gst [])) {
  status = ComputationStatus.final;
}

abbrev tables : Tables
tables = record { gst_records = gst_rows; tds_records = fees; computations = earlier ∷ [] }

abbrev second_lines : List GstRow
second_lines =
    recompute_lines (b'2' ∷ b'7' ∷ []) [] (filter (λ (l : GstRow). l.computation_id == 1) gst_rows)

abbrev second_row : Computation
second_row = gst_computation run_input 3 1 0 (summarise_gst second_lines)

abbrev second_tables : Tables
second_tables = record tables {
  gst_records = write_gst gst_rows second_lines;
  computations = update 1 (λ _. second_row) (earlier ∷ []);
}
