-- ===== src/Examples/Reports.antt =====
-- Reports and approvals at concrete inputs.
use meet_millions_finance.Prelude.{
  nat_eq, ℕ, ◌≡◌, refl, Bool, true, false, Option, none, some, List, [], ◌∷◌,
}
use meet_millions_finance.Store.{find, update}
use meet_millions_finance.Workflow.Documents.{DocStatus, Document, DecisionInput, locked}
use meet_millions_finance.Workflow.Periods.{Period, PeriodStatus, can_transition_period}
use meet_millions_finance.Workflow.Desk as Desk
use meet_millions_finance.Workflow.Desk.{document_row, desk_period_row}
use meet_millions_finance.Workflow.Desk.Review.{Call, decide_document}
use meet_millions_finance.Reports.{Report, ReportStatus, Office, ok, report_row}
use meet_millions_finance.Reports.Routes.{Caller, ReportVerdict}
use meet_millions_finance.Reports.SignOff.{
  archive_document, archive_report, archive_package, archive_row, sign_off,
}
use meet_millions_finance.Reports.Steps.{IsReviewed}
use meet_millions_finance.Reports.History.{
  serve, submit, decide, office_after, at_first, and_then, reports-IsReviewed,
}
use meet_millions_finance.Workflow.Desk.Bulk.{Bulk, BulkAction, bulk, bulk_ok}
use meet_millions_finance.Reports.Archived.{archive_closes_documents}
use meet_millions_finance.Reports.Paid.{sign_off_forgets_payment}
use meet_millions_finance.Examples.Flow.{document}

abbrev report : ReportStatus → Option ℕ → Report
report status approved_by = record {
  id = 8;
  client_id = some 4;
  filing_period_id = some 1;
  computation_id = none;
  reference_no = (2026, 1);
  status = status;
  submitted_at = none;
  approved_by = approved_by;
  approved_at = approved_by;
  rejected_reason = none;
  client_signed_off_by = none;
  client_signed_off_at = none;
}

abbrev period : PeriodStatus → Period
period status = record {
  id = 1;
  client_id = 4;
  status = status;
  documents_expected = 0;
  documents_received = 1;
  documents_verified = 1;
  period_end = 1000;
}

abbrev office : ReportStatus → Option ℕ → PeriodStatus → Office
office status approved_by stage = record {
  desk = record {
    documents = document 1 DocStatus.verified ∷ [];
    checklist = [];
    queries = [];
    replies = [];
    records = [];
    periods = period stage ∷ [];
  };
  reports = report status approved_by ∷ [];
  approvals = [];
  computations = [];
}

abbrev drafted : Office
drafted = office ReportStatus.draft none PeriodStatus.calculated

drafted_reviewed : IsReviewed drafted
unfolding find
drafted_reviewed = record {
  report_ids = (refl, tt);
  approval_ids = tt;
  tracked = (record { pending = refl; cleared = λ e. cc }, tt);
}

abbrev caller : Caller
caller = record { user = 7; now = 50; year = 2026; new_id = 90 }

abbrev accepted : ReportVerdict
accepted = record { approves = true; comment = none; send_to_client = true }

abbrev submitted : Office
submitted = office_after (serve (submit caller true none (some 9) none none 8) drafted) drafted

reports-IsReviewed_example :
    IsReviewed (office_after (serve (decide caller accepted 8) submitted) submitted)
unfolding find
reports-IsReviewed_example = reports-IsReviewed drafted_reviewed (
    and_then (and_then at_first (submit caller true none (some 9) none none 8) refl)
      (decide caller accepted 8) tt)

abbrev signed : Office
signed = office ReportStatus.signed_off (some 7) PeriodStatus.signed_off

abbrev archived : Office
archived = record signed {
  desk = archive_package caller (some 1) signed.desk;
  reports = archive_row (report ReportStatus.signed_off (some 7)) ∷ [];
}

abbrev closed : Document
closed = archive_document caller 1 (document 1 DocStatus.verified)

archive_closes_documents_example :
    (find 1 archived.desk.documents ≡ some closed)
    × (closed.status ≡ DocStatus.archived)
    × ((call : Call) (may_lock : Bool) (input : DecisionInput)
        → decide_document call may_lock input 1 archived.desk
          ≡ Desk.Answer.err (Desk.DeskError.undecided locked))
    × ((call : Call) (action : BulkAction) (notes : Option ℕ) (ks : List ℕ) (b : Bulk)
        → bulk call action notes ks archived.desk ≡ bulk_ok b
        → find 1 b.desk.documents ≡ some closed)
unfolding find update archive_report
archive_closes_documents_example =
    archive_closes_documents caller 8 1 1 signed {r = report ReportStatus.signed_off (some 7)}
      {d = document 1 DocStatus.verified} {o' = archived} refl refl refl refl refl refl

abbrev paid_office : Office
paid_office = office ReportStatus.client_review (some 7) PeriodStatus.paid

sign_off_forgets_payment_example :
    (can_transition_period PeriodStatus.paid PeriodStatus.signed_off ≡ false)
    × ((o' : Office) × (p' : Period) × (sign_off caller true [] true none 8 paid_office ≡ ok o')
        × (find 1 o'.desk.periods ≡ some p')
        × (p'.status ≡ PeriodStatus.signed_off))
unfolding find
sign_off_forgets_payment_example =
    sign_off_forgets_payment caller true [] none 8 1 paid_office
      {r = report ReportStatus.client_review (some 7)} {p = period PeriodStatus.paid} refl refl refl
      refl refl
