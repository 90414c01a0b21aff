-- ===== src/Reports/SignOff.antt =====
-- The client's sign-off, archiving, and the approvals of other things (src/modules/reports.js,
-- src/modules/approvals.js).
use meet_millions_finance.Prelude.{
  if◌then◌else◌, is_some, nat_eq, contains, ℕ, Bool, true, false, not, ◌&&◌, Option, none, some,
  List, [], ◌∷◌, ◌++◌, map,
}
use meet_millions_finance.Store.{find, update}
use meet_millions_finance.Workflow.Documents.{Document, DocStatus}
use meet_millions_finance.Workflow.Periods.{PeriodStatus}
use meet_millions_finance.Workflow.Desk.{Desk, is_of, refresh_at}
use meet_millions_finance.Reports.{
  Report, ReportStatus, Approval, ApprovalStatus, Stage, EntityType, Office, ReportError, Served,
  ok, err, report_row, approval_row, is_report, is_pending, move_period,
}
use meet_millions_finance.Reports.Routes.{Caller, decide_approval}

abbrev pub may_sign : ReportStatus → Bool
may_sign ReportStatus.client_review = true
may_sign ReportStatus.approved = true
may_sign _ = false

abbrev pub object_row : Option ℕ → Report → Report
object_row comment row = record row { status = ReportStatus.rejected; rejected_reason = comment }

abbrev pub sign_row : Caller → Report → Report
sign_row c row = record row {
  status = ReportStatus.signed_off;
  client_signed_off_by = some c.user;
  client_signed_off_at = some c.now;
}

abbrev pub client_approval : Caller → Option ℕ → Report → Approval
client_approval c comment r = record {
  id = c.new_id;
  entity_type = EntityType.report;
  entity_id = r.id;
  stage = Stage.client;
  status = ApprovalStatus.approved;
  requested_by = r.approved_by;
  assignee_id = some c.user;
  decided_by = some c.user;
  decided_at = some c.now;
  comment = comment;
  sequence = 2;
}

abbrev pub object : Option ℕ → Report → Office → Office
object comment r o = record o {
  desk = move_period PeriodStatus.calculated r.filing_period_id o.desk;
  reports = update r.id (object_row comment) o.reports;
}

abbrev pub accept : Caller → Option ℕ → Report → Office → Office
accept c comment r o = record o {
  desk =
      refresh_at r.filing_period_id (move_period PeriodStatus.signed_off r.filing_period_id o.desk);
  reports = update r.id (sign_row c) o.reports;
  approvals = o.approvals ++ client_approval c comment r ∷ [];
}

abbrev pub sign_off_at : Caller → Bool → Option ℕ → Option Report → Office → Served
sign_off_at c accepted comment none o = err ReportError.not_found
sign_off_at c accepted comment (some r) o =
    if not (may_sign r.status)
    then err ReportError.not_ready
    else if accepted
    then ok (accept c comment r o)
    else if is_some comment
    then ok (object comment r o)
    else err ReportError.comment_required

abbrev pub is_shown : ReportStatus → Bool
is_shown ReportStatus.draft = false
is_shown ReportStatus.pending_approval = false
is_shown ReportStatus.rejected = false
is_shown _ = true

abbrev pub is_client_of : List ℕ → Option ℕ → Bool
is_client_of clients none = false
is_client_of clients (some k) = contains k clients

-- `getVisibleReport`: staff who may view reports see all, others the shown reports of their clients.
abbrev pub visible_report : Bool → List ℕ → Option Report → Option Report
visible_report views_all clients none = none
visible_report views_all clients (some r) =
    if views_all
    then some r
    else if is_client_of clients r.client_id && is_shown r.status
    then some r
    else none

-- `POST /:id/sign-off`.
unfoldable pub sign_off : Caller → Bool → List ℕ → Bool → Option ℕ → ℕ → Office → Served
sign_off c views_all clients accepted comment k o =
    sign_off_at c accepted comment (visible_report views_all clients (find k o.reports)) o

abbrev pub may_archive : ReportStatus → Bool
may_archive ReportStatus.signed_off = true
may_archive ReportStatus.approved = true
may_archive ReportStatus.published = true
may_archive _ = false

abbrev pub archive_row : Report → Report
archive_row row = record row { status = ReportStatus.archived }

-- One document of the update of all documents of the period.
abbrev pub archive_document : Caller → ℕ → Document → Document
archive_document c k d =
    if is_of k d.filing_period_id
    then record d {
      status = DocStatus.archived;
      is_locked = true;
      locked_at = some c.now;
      locked_by = some c.user;
    }
    else d

abbrev pub archive_package : Caller → Option ℕ → Desk → Desk
archive_package c none t = t
archive_package c (some k) t = record (move_period PeriodStatus.archived (some k) t) {
  documents = map (archive_document c k) t.documents;
}

abbrev pub archive_at : Caller → Option Report → Office → Served
archive_at c none o = err ReportError.not_found
archive_at c (some r) o =
    if may_archive r.status
    then ok (record o {
      desk = archive_package c r.filing_period_id o.desk;
      reports = update r.id archive_row o.reports;
    })
    else err ReportError.not_signed_off

-- `POST /:id/archive`.
unfoldable pub archive_report : Caller → ℕ → Office → Served
archive_report c k o = archive_at c (find k o.reports) o

abbrev pub decide_other_at : Caller → Bool → Option ℕ → Option Approval → Office → Served
decide_other_at c approves comment none o = err ReportError.not_found
decide_other_at c approves comment (some a) o =
    if not (is_pending a.status)
    then err ReportError.already_decided
    else if not approves && not (is_some comment)
    then err ReportError.comment_required
    else if is_report a.entity_type
    then err ReportError.through_report
    else ok (record o { approvals = update a.id (decide_approval c approves comment) o.approvals })

-- `POST /:id/decide` of the approvals.
unfoldable pub decide_other : Caller → Bool → Option ℕ → ℕ → Office → Served
decide_other c approves comment k o = decide_other_at c approves comment (find k o.approvals) o
