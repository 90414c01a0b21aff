-- ===== src/Reports/Routes.antt =====
-- The routes of reports and approvals (src/modules/reports.js, src/modules/approvals.js).
use meet_millions_finance.Prelude.{
  ◌==◌, if◌then◌else◌, is_some, nat_eq, sum_by, ℕ, ◌+◌, Bool, true, false, not, ◌&&◌, Option, none,
  some, List, [], ◌∷◌, ◌++◌,
}
use meet_millions_finance.Store.{find, update}
use meet_millions_finance.Workflow.Periods.{PeriodStatus}
use meet_millions_finance.Workflow.Desk.{desk_period_row}
use meet_millions_finance.Reports.{
  Report, ReportStatus, Approval, ApprovalStatus, Stage, EntityType, Office, ReportError, Served,
  ok, err, report_row, approval_row, pending_approval_of, move_period, finalise_at,
}

-- The user, the clock and a fresh id.
pub record Caller : Type 0 where
  pub user : ℕ
  pub now : ℕ
  pub year : ℕ
  pub new_id : ℕ

-- What a builder found: client, period and computation.
pub record Built : Type 0 where
  pub client_id : Option ℕ
  pub filing_period_id : Option ℕ
  pub computation_id : Option ℕ

abbrev pub has_report_year : ℕ → Report → ℕ
has_report_year year r = if r.reference_no.0 == year then 1 else 0

-- The row that `generateReport` inserts.
abbrev pub new_report : Caller → Built → List Report → Report
new_report c b reports = record {
  id = c.new_id;
  client_id = b.client_id;
  filing_period_id = b.filing_period_id;
  computation_id = b.computation_id;
  reference_no = (c.year, sum_by (has_report_year c.year) reports + 1);
  status = ReportStatus.draft;
  submitted_at = none;
  approved_by = none;
  approved_at = none;
  rejected_reason = none;
  client_signed_off_by = none;
  client_signed_off_at = none;
}

-- The keys of `REPORT_TYPES`, and any other text.
pub data ReportType : Type 0 where
  gst_summary monthly_tax quarterly yearly tds_summary revenue expenses outstanding_payments
        client_report audit_report team_performance call_report analytics unlisted :
      ReportType

pub data Scope : Type 0 where
  of_client of_tenant : Scope

-- `REPORT_TYPE_MAP.get(type)?.scope`.
abbrev pub scope_of : ReportType → Option Scope
scope_of unlisted = none
scope_of revenue = some of_tenant
scope_of outstanding_payments = some of_tenant
scope_of audit_report = some of_tenant
scope_of team_performance = some of_tenant
scope_of call_report = some of_tenant
scope_of analytics = some of_tenant
scope_of _ = some of_client

abbrev pub is_client_scope : Scope → Bool
is_client_scope of_client = true
is_client_scope of_tenant = false

abbrev pub generate_at : Caller → Option Scope → Bool → Built → Office → Served
generate_at c none builds b o = err ReportError.unknown_type
generate_at c (some scope) builds b o =
    if is_client_scope scope && not (is_some b.client_id)
    then err ReportError.client_needed
    else if builds
    then ok (record o { reports = o.reports ++ new_report c b o.reports ∷ [] })
    else err ReportError.not_found

-- `generateReport`; `builds` says that the builder finds its client.
unfoldable pub generate_report : Caller → ReportType → Bool → Built → Office → Served
generate_report c type builds b o = generate_at c (scope_of type) builds b o

abbrev pub may_submit : ReportStatus → Bool
may_submit ReportStatus.draft = true
may_submit ReportStatus.rejected = true
may_submit _ = false

abbrev pub submit_row : ℕ → Report → Report
submit_row now row = record row { status = ReportStatus.pending_approval; submitted_at = some now }

abbrev pub manager_approval : Caller → Option ℕ → Option ℕ → ℕ → Approval
manager_approval c assignee comment k = record {
  id = c.new_id;
  entity_type = EntityType.report;
  entity_id = k;
  stage = Stage.manager;
  status = ApprovalStatus.pending;
  requested_by = some c.user;
  assignee_id = assignee;
  decided_by = none;
  decided_at = none;
  comment = comment;
  sequence = 1;
}

abbrev pub first_named : Option ℕ → Option ℕ → Option ℕ
first_named none b = b
first_named (some a) b = some a

-- The named manager, the manager of the report's client, or any manager.
abbrev pub assignee_of : Option ℕ → Option ℕ → Option ℕ → Report → Option ℕ
assignee_of named client_manager any_manager r =
    first_named named
      (first_named (elim r.client_id [ none ↦ none | some _ ↦ client_manager ]) any_manager)

abbrev pub submit_at :
    Caller → Option ℕ → Option ℕ → Option ℕ → Option ℕ → Option Report → Office → Served
submit_at c named client_manager any_manager comment none o = err ReportError.not_found
submit_at c named client_manager any_manager comment (some r) o =
    if may_submit r.status
    then ok (record {
      desk = move_period PeriodStatus.pending_approval r.filing_period_id o.desk;
      reports = update r.id (submit_row c.now) o.reports;
      approvals =
          o.approvals
          ++ manager_approval c (assignee_of named client_manager any_manager r) comment r.id ∷ [];
      computations = o.computations;
    })
    else err ReportError.already_submitted

-- `POST /:id/submit`; `has_feature` says that the plan includes manager approval.
unfoldable pub submit_report :
    Caller → Bool → Option ℕ → Option ℕ → Option ℕ → Option ℕ → ℕ → Office → Served
submit_report c has_feature named client_manager any_manager comment k o =
    if has_feature
    then submit_at c named client_manager any_manager comment (find k o.reports) o
    else err ReportError.feature_locked

pub record ReportVerdict : Type 0 where
  pub approves : Bool
  pub comment : Option ℕ
  pub send_to_client : Bool

abbrev pub decide_approval : Caller → Bool → Option ℕ → Approval → Approval
decide_approval c approves comment row = record row {
  status = if approves then ApprovalStatus.approved else ApprovalStatus.rejected;
  decided_by = some c.user;
  decided_at = some c.now;
  comment = comment;
}

abbrev pub close_approval :
    Caller → Bool → Option ℕ → Option Approval → List Approval → List Approval
close_approval c approves comment none approvals = approvals
close_approval c approves comment (some a) approvals =
    update a.id (decide_approval c approves comment) approvals

abbrev pub verdict_status : ReportVerdict → ReportStatus
verdict_status v =
    if v.approves
    then (if v.send_to_client then ReportStatus.client_review else ReportStatus.approved)
    else ReportStatus.rejected

abbrev pub verdict_period : ReportVerdict → PeriodStatus
verdict_period v =
    if v.approves
    then (if v.send_to_client then PeriodStatus.client_review else PeriodStatus.approved)
    else PeriodStatus.calculated

abbrev pub verdict_row : Caller → ReportVerdict → Report → Report
verdict_row c v row = record row {
  status = verdict_status v;
  approved_by = if v.approves then some c.user else none;
  approved_at = if v.approves then some c.now else none;
  rejected_reason = if v.approves then none else v.comment;
}

abbrev pub is_waiting : ReportStatus → Bool
is_waiting ReportStatus.pending_approval = true
is_waiting _ = false

abbrev pub decide_found : Caller → ReportVerdict → Report → Office → Office
decide_found c v r o = record {
  desk = move_period (verdict_period v) r.filing_period_id o.desk;
  reports = update r.id (verdict_row c v) o.reports;
  approvals =
      close_approval c v.approves v.comment (pending_approval_of r.id o.approvals) o.approvals;
  computations = if v.approves then finalise_at r.computation_id o.computations else o.computations;
}

abbrev pub decide_report_at : Caller → ReportVerdict → Option Report → Office → Served
decide_report_at c v none o = err ReportError.not_found
decide_report_at c v (some r) o =
    if not (is_waiting r.status)
    then err ReportError.not_waiting
    else if not v.approves && not (is_some v.comment)
    then err ReportError.comment_required
    else ok (decide_found c v r o)

-- `POST /:id/decision`.
unfoldable pub decide_report : Caller → ReportVerdict → ℕ → Office → Served
decide_report c v k o = decide_report_at c v (find k o.reports) o
