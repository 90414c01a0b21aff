-- ===== src/Reports.antt =====
-- Reports and their approvals (src/modules/reports.js, src/modules/approvals.js): the tables, and the
-- rows that the routes write.
use meet_millions_finance.Prelude.{
  ltb, leb, ◌==◌, if◌then◌else◌, ltb→lt, leb→le, ==_iff, ==_refl, Bool-cases, Option-cases, or_else,
  is_some, Eq, nat_eq, beq_of, beq_of_iff, length, filter, any, All, length-append, length-filter,
  contains, contains-append, contains-filter, filter-contains, sum_by, sum_by-append, All-imp,
  All-and, All-append, ℕ, zero, suc, ◌+◌, ◌-◌, ◌*◌, ◌/◌, ◌%◌, ◌^◌, ◌≤◌, ◌<◌, max, min, String, ◌≡◌,
  refl, sym, ap, ap₂, ◌∙◌, ◌≢◌, ◌↔◌, ◌⊎◌, inl, inr, Bool, true, false, not, ◌&&◌, ◌||◌, Option,
  none, some, List, [], ◌∷◌, ◌++◌, map, foldl, arith,
}
use meet_millions_finance.Store.{Row, update}
use meet_millions_finance.Workflow.Documents.{Document, DocStatus}
use meet_millions_finance.Workflow.Periods.{Period, PeriodStatus}
use meet_millions_finance.Workflow.Desk.{Desk, desk_period_row}
use meet_millions_finance.Tax.Run.Handler.{Computation, ComputationStatus, computation_row}
pub mod Routes
pub mod SignOff
pub mod Counted
pub mod Steps
pub mod Review
pub mod Signed
pub mod History
pub mod Archived
pub mod Paid

pub data ReportStatus : Type 0 where
  draft pending_approval approved rejected client_review signed_off published archived :
      ReportStatus

pub ReportStatus-discrete : Discrete ReportStatus
ReportStatus-discrete = hlevel

-- The columns of `reports` that the routes read or write. A reference number is a year and a running
-- number; users, texts and instants are numbers.
pub record Report : Type 0 where
  pub id : ℕ
  pub client_id : Option ℕ
  pub filing_period_id : Option ℕ
  pub computation_id : Option ℕ
  pub reference_no : ℕ × ℕ
  pub status : ReportStatus
  pub submitted_at : Option ℕ
  pub approved_by : Option ℕ
  pub approved_at : Option ℕ
  pub rejected_reason : Option ℕ
  pub client_signed_off_by : Option ℕ
  pub client_signed_off_at : Option ℕ

pub data ApprovalStatus : Type 0 where
  pending approved rejected withdrawn skipped : ApprovalStatus

pub ApprovalStatus-discrete : Discrete ApprovalStatus
ApprovalStatus-discrete = hlevel

pub data Stage : Type 0 where
  executive manager admin client : Stage

pub data EntityType : Type 0 where
  report tax_computation payout user addon : EntityType

-- The columns of `approvals`.
pub record Approval : Type 0 where
  pub id : ℕ
  pub entity_type : EntityType
  pub entity_id : ℕ
  pub stage : Stage
  pub status : ApprovalStatus
  pub requested_by : Option ℕ
  pub assignee_id : Option ℕ
  pub decided_by : Option ℕ
  pub decided_at : Option ℕ
  pub comment : Option ℕ
  pub sequence : ℕ

instance abbrev pub report_row : Row Report
report_row = record { row_id = λ r. r.id }

instance abbrev pub approval_row : Row Approval
approval_row = record { row_id = λ a. a.id }

pub record Office : Type 0 where
  pub desk : Desk
  pub reports : List Report
  pub approvals : List Approval
  pub computations : List Computation

pub data ReportError : Type 0 where
  not_found feature_locked already_submitted not_waiting comment_required not_ready not_signed_off
        already_decided through_report unknown_type client_needed :
      ReportError

pub data Served : Type 0 where
  ok : Office → Served
  err : ReportError → Served

abbrev pub is_report : EntityType → Bool
is_report report = true
is_report _ = false

abbrev pub is_pending : ApprovalStatus → Bool
is_pending ApprovalStatus.pending = true
is_pending _ = false

-- The `WHERE` clause of the query for a report's pending approval.
abbrev pub is_pending_for : ℕ → Approval → Bool
is_pending_for k a = is_report a.entity_type && a.entity_id == k && is_pending a.status

abbrev pub higher : Approval → Option Approval → Approval
higher a none = a
higher a (some b) = if leb b.sequence a.sequence then a else b

-- `ORDER BY sequence DESC LIMIT 1`.
unfoldable pub pending_approval_of : ℕ → List Approval → Option Approval
pending_approval_of k [] = none
pending_approval_of k (a ∷ later) =
    let rest = pending_approval_of k later in
    if is_pending_for k a then some (higher a rest) else rest

abbrev pub set_status : PeriodStatus → Period → Period
set_status s row = record row { status = s }

-- `if (report.filing_period_id) scope.update('filing_periods', …)`.
abbrev pub move_period : PeriodStatus → Option ℕ → Desk → Desk
move_period s none t = t
move_period s (some k) t = record t { periods = update k (set_status s) t.periods }

abbrev pub finalise : Computation → Computation
finalise row = record row { status = ComputationStatus.final }

-- `if (approved && report.computation_id) …`.
abbrev pub finalise_at : Option ℕ → List Computation → List Computation
finalise_at none rows = rows
finalise_at (some k) rows = update k finalise rows
