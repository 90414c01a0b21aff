-- ===== src/Reports/History.antt =====
-- Histories of the routes of reports and approvals.
use meet_millions_finance.Prelude.{
  Bool-cases, is_some, nat_eq, ℕ, ◌≡◌, refl, inl, inr, Bool, true, false, not, ◌&&◌, Option, none,
  some, List,
}
use meet_millions_finance.Store.{find}
use meet_millions_finance.Reports.{Report, Office, Served, ok, err, report_row, approval_row}
use meet_millions_finance.Reports.Routes.{
  Caller, Built, ReportType, Scope, scope_of, is_client_scope, generate_at, ReportVerdict,
  generate_report, submit_report, decide_report,
}
use meet_millions_finance.Reports.SignOff.{
  sign_off, visible_report, is_client_of, is_shown, archive_report, decide_other,
}
use meet_millions_finance.Reports.Counted.{pending_count}
use meet_millions_finance.Reports.Steps.{IsReviewed, Keeps}
use meet_millions_finance.Reports.Review.{submit_at-Keeps, decide_report_at-Keeps}
use meet_millions_finance.Reports.Signed.{
  new_report-IsReviewed, sign_off_at-Keeps, archive_at-Keeps, decide_other_at-Keeps,
}

-- The requests, with what the clock, the id generator and the directory of users give.
pub data ReportRequest : Type 0 where
  generate : Caller → ReportType → Bool → Built → ReportRequest
  submit : Caller → Bool → Option ℕ → Option ℕ → Option ℕ → Option ℕ → ℕ → ReportRequest
  decide : Caller → ReportVerdict → ℕ → ReportRequest
  sign : Caller → Bool → List ℕ → Bool → Option ℕ → ℕ → ReportRequest
  archive : Caller → ℕ → ReportRequest
  decide_item : Caller → Bool → Option ℕ → ℕ → ReportRequest

abbrev pub serve : ReportRequest → Office → Served
serve (generate c type builds b) o = generate_report c type builds b o
serve (submit c has_feature named client_manager any_manager comment k) o =
    submit_report c has_feature named client_manager any_manager comment k o
serve (decide c v k) o = decide_report c v k o
serve (sign c views_all clients accepted comment k) o =
    sign_off c views_all clients accepted comment k o
serve (archive c k) o = archive_report c k o
serve (decide_item c approves comment k) o = decide_other c approves comment k o

-- The id that a request writes is fresh; no approval is pending of the id of a new report.
abbrev pub IsFresh : ReportRequest → Office → Type 0
IsFresh (generate c type builds b) o =
    (find c.new_id o.reports ≡ none) × (pending_count c.new_id o.approvals ≡ 0)
IsFresh (submit c has_feature named client_manager any_manager comment k) o =
    find c.new_id o.approvals ≡ none
IsFresh (sign c views_all clients accepted comment k) o = find c.new_id o.approvals ≡ none
IsFresh _ o = Unit

visible_found :
    (views_all : Bool) (clients : List ℕ) (o : Option Report) (r : Report)
    → visible_report views_all clients o ≡ some r
    → o ≡ some r
visible_found views_all clients none r e = cc
visible_found true clients (some x) r e = e
visible_found false clients (some x) r e =
    elim (Bool-cases (is_client_of clients x.client_id && is_shown x.status)) [
      | inl h ↦ rw h at e
      | inr h ↦ let bad : none ≡ some r = rw h at e in cc
    ]

generate_at-Keeps :
    (c : Caller) (scope : Option Scope) (builds : Bool) (b : Built) (o : Office)
    → find c.new_id o.reports ≡ none
    → pending_count c.new_id o.approvals ≡ 0
    → IsReviewed o
    → Keeps (generate_at c scope builds b o)
generate_at-Keeps c none builds b o f n v = tt
generate_at-Keeps c (some scope) builds b o f n v =
    elim (Bool-cases (is_client_scope scope && not (is_some b.client_id))) [
      | inl lacking ↦ rw lacking tt
      | inr given ↦ elim (Bool-cases builds) [
        | inl there ↦ rw (given, there) (new_report-IsReviewed c b o f n v)
        | inr absent ↦ rw (given, absent) tt
      ]
    ]

serve-Keeps : (q : ReportRequest) (o : Office) → IsFresh q o → IsReviewed o → Keeps (serve q o)
unfolding generate_report submit_report decide_report sign_off archive_report decide_other
serve-Keeps (generate c type builds b) o fresh v =
    generate_at-Keeps c (scope_of type) builds b o fresh.0 fresh.1 v
serve-Keeps (submit c true named client_manager any_manager comment k) o fresh v =
    submit_at-Keeps c named client_manager any_manager comment k (find k o.reports) o refl fresh v
serve-Keeps (submit c false named client_manager any_manager comment k) o fresh v = tt
serve-Keeps (decide c verdict k) o fresh v =
    decide_report_at-Keeps c verdict k (find k o.reports) o refl v
serve-Keeps (sign c views_all clients accepted comment k) o fresh v =
    sign_off_at-Keeps c accepted comment k (visible_report views_all clients (find k o.reports)) o
      (λ r e. visible_found views_all clients (find k o.reports) r e) fresh v
serve-Keeps (archive c k) o fresh v = archive_at-Keeps c k (find k o.reports) o refl v
serve-Keeps (decide_item c approves comment k) o fresh v =
    decide_other_at-Keeps c approves comment k (find k o.approvals) o refl v

-- The tables after a request: an error leaves them as they were.
abbrev pub office_after : Served → Office → Office
office_after (ok o') o = o'
office_after (err e) o = o

-- Requests served one after the other.
pub data OfficeHistory (o : Office) : Office → Type 0 where
  at_first : OfficeHistory o o
  and_then :
      {n : Office}
      → OfficeHistory o n
      → (q : ReportRequest) → IsFresh q n
      → OfficeHistory o (office_after (serve q n) n)

kept : (s : Served) (o : Office) → Keeps s → IsReviewed o → IsReviewed (office_after s o)
kept (ok o') o k v = k
kept (err e) o k v = v

-- Whatever reports are generated, submitted, decided, signed off and archived and whatever other items
-- are decided, in any order, with fresh ids: if at first every report has one pending approval while
-- it waits for one and none otherwise, and names its approver from its approval on, then so it is
-- afterwards.
pub reports-IsReviewed : {o n : Office} → IsReviewed o → OfficeHistory o n → IsReviewed n
reports-IsReviewed v at_first = v
reports-IsReviewed v (and_then {n = n} h q fresh) =
    let before = reports-IsReviewed v h in kept (serve q n) n (serve-Keeps q n fresh before) before
