-- ===== src/Reports/Signed.antt =====
-- Generating, signing off and archiving a report, and deciding on other things, keep the approvals in step
-- with the reports.
use meet_millions_finance.Prelude.{
  Bool-cases, is_some, nat_eq, All-imp, All-append, ℕ, ◌≡◌, refl, sym, ◌∙◌, inl, inr, Bool, true,
  false, not, ◌&&◌, Option, none, some, [], ◌∷◌, ◌++◌, arith,
}
use meet_millions_finance.Store.{find, update}
use meet_millions_finance.Store.Rows.{
  KeepsId, update-DistinctIds, append-DistinctIds, find_own, sum_by-update,
}
use meet_millions_finance.Workflow.Desk.{Desk, refresh_at}
use meet_millions_finance.Workflow.Periods.{PeriodStatus}
use meet_millions_finance.Reports.{
  Report, ReportStatus, Approval, Office, report_row, approval_row, is_report, is_pending,
  move_period,
}
use meet_millions_finance.Reports.Counted.{pending_one, pending_count, decided_not_pending}
use meet_millions_finance.Reports.Steps.{
  is_cleared, IsTracked, IsReviewed, Keeps, same-IsTracked, update-IsReviewed, appended_count,
}
use meet_millions_finance.Reports.Routes.{Caller, Built, new_report, decide_approval, is_waiting}
use meet_millions_finance.Reports.SignOff.{
  may_sign, object_row, sign_row, client_approval, accept, sign_off_at, may_archive, archive_row,
  archive_at, decide_other_at,
}

-- A new report, of whose id no approval is pending.
pub new_report-IsReviewed :
    (c : Caller) (b : Built) (o : Office)
    → find c.new_id o.reports ≡ none
    → pending_count c.new_id o.approvals ≡ 0
    → IsReviewed o
    → IsReviewed (record o { reports = o.reports ++ new_report c b o.reports ∷ [] })
new_report-IsReviewed c b o fresh unused v =
    let r = new_report c b o.reports in
    record {
      report_ids = append-DistinctIds o.reports r fresh v.report_ids;
      approval_ids = v.approval_ids;
      tracked =
          All-append (IsTracked o.approvals) o.reports (r ∷ []) v.tracked
            (record { pending = unused; cleared = λ e. cc }, tt);
    }

-- A change of one report alone that leaves its waiting as it was, and its approver if it is cleared.
changed-IsReviewed :
    (o : Office) (k : ℕ) (g : Report → Report) {r : Report} (desk : Desk)
    → find k o.reports ≡ some r
    → KeepsId g
    → is_waiting (g r).status ≡ is_waiting r.status
    → (is_cleared (g r).status ≡ true → is_cleared r.status ≡ true)
    → (g r).approved_by ≡ r.approved_by
    → IsReviewed o
    → IsReviewed (record o { desk = desk; reports = update r.id g o.reports })
changed-IsReviewed o k g {r} desk f keeps w cl a v =
    update-IsReviewed o k g o.approvals desk o.computations f keeps v.approval_ids (λ j n. refl)
      (λ t. record { pending = rw (w, keeps r) t.pending; cleared = λ e. rw a (t.cleared (cl e)) })
      v

client_approval_one :
    (c : Caller) (comment : Option ℕ) (r : Report) (j : ℕ)
    → pending_one j (client_approval c comment r) ≡ 0
client_approval_one c comment r j = ground arith

-- A further approval that is not pending.
added-IsReviewed :
    (o : Office) (a : Approval)
    → find a.id o.approvals ≡ none
    → ((j : ℕ) → pending_one j a ≡ 0)
    → IsReviewed o
    → IsReviewed (record o { approvals = o.approvals ++ a ∷ [] })
added-IsReviewed o a fresh quiet v = record {
  report_ids = v.report_ids;
  approval_ids = append-DistinctIds o.approvals a fresh v.approval_ids;
  tracked =
      All-imp _ _ o.reports
        (λ r t.
          same-IsTracked o.approvals (o.approvals ++ a ∷ []) r
            (appended_count r.id o.approvals a ∙ (omega (arith, quiet r.id))) t)
        v.tracked;
}

signable : (s : ReportStatus) → may_sign s ≡ true → (is_waiting s ≡ false) × (is_cleared s ≡ true)
signable s h = ground arith

accept-IsReviewed :
    (c : Caller) (comment : Option ℕ) (k : ℕ) (r : Report) (o : Office)
    → find k o.reports ≡ some r
    → find c.new_id o.approvals ≡ none
    → may_sign r.status ≡ true
    → IsReviewed o
    → IsReviewed (accept c comment r o)
accept-IsReviewed c comment k r o f fresh e v =
    added-IsReviewed
      (record o {
        desk =
            refresh_at r.filing_period_id
              (move_period PeriodStatus.signed_off r.filing_period_id o.desk);
        reports = update r.id (sign_row c) o.reports;
      })
      (client_approval c comment r) fresh (client_approval_one c comment r)
      (changed-IsReviewed o k (sign_row c)
        (refresh_at r.filing_period_id
          (move_period PeriodStatus.signed_off r.filing_period_id o.desk))
        f (λ x. refl) (sym ((signable r.status e).0)) (λ q. (signable r.status e).1) refl v)

pub sign_off_at-Keeps :
    (c : Caller) (accepted : Bool) (comment : Option ℕ) (k : ℕ) (found : Option Report) (o : Office)
    → ((r : Report) → found ≡ some r → find k o.reports ≡ some r)
    → find c.new_id o.approvals ≡ none
    → IsReviewed o
    → Keeps (sign_off_at c accepted comment found o)
sign_off_at-Keeps c accepted comment k none o f fresh v = tt
sign_off_at-Keeps c true comment k (some r) o f fresh v = elim (Bool-cases (may_sign r.status)) [
  | inr e ↦ rw e tt
  | inl e ↦ rw e (accept-IsReviewed c comment k r o (f r refl) fresh e v)
]
sign_off_at-Keeps c false none k (some r) o f fresh v = elim (Bool-cases (may_sign r.status)) [
  | inr e ↦ rw e tt
  | inl e ↦ rw e tt
]
sign_off_at-Keeps c false (some text) k (some r) o f fresh v =
    elim (Bool-cases (may_sign r.status)) [
      | inr e ↦ rw e tt
      | inl e ↦ rw e (
          changed-IsReviewed o k (object_row (some text)) _ (f r refl) (λ x. refl)
            (sym ((signable r.status e).0)) (λ q. cc) refl v)
    ]

archivable :
    (s : ReportStatus) → may_archive s ≡ true → (is_waiting s ≡ false) × (is_cleared s ≡ true)
archivable s h = ground arith

pub archive_at-Keeps :
    (c : Caller) (k : ℕ) (found : Option Report) (o : Office)
    → find k o.reports ≡ found
    → IsReviewed o
    → Keeps (archive_at c found o)
archive_at-Keeps c k none o f v = tt
archive_at-Keeps c k (some r) o f v = elim (Bool-cases (may_archive r.status)) [
  | inr e ↦ rw e tt
  | inl e ↦ rw e (
      changed-IsReviewed o k archive_row _ f (λ x. refl) (sym ((archivable r.status e).0))
        (λ q. (archivable r.status e).1) refl v)
]

other_one : (j : ℕ) (a : Approval) → is_report a.entity_type ≡ false → pending_one j a ≡ 0
other_one j a h = ground arith

other-IsReviewed :
    (c : Caller) (approves : Bool) (comment : Option ℕ) (k : ℕ) (a : Approval) (o : Office)
    → find k o.approvals ≡ some a
    → is_report a.entity_type ≡ false
    → IsReviewed o
    → IsReviewed
        (record o { approvals = update a.id (decide_approval c approves comment) o.approvals })
other-IsReviewed c approves comment k a o f n v =
    let g = decide_approval c approves comment in
    record {
      report_ids = v.report_ids;
      approval_ids = update-DistinctIds a.id g o.approvals (λ x. refl) v.approval_ids;
      tracked =
          All-imp _ _ o.reports
            (λ r t.
              let moved =
                sum_by-update (pending_one r.id) a.id g o.approvals v.approval_ids
                  (find_own k o.approvals f) in
              let before = other_one r.id a n in
              let after = decided_not_pending r.id c approves comment a in
              same-IsTracked o.approvals (update a.id g o.approvals) r
                (omega (arith, moved, before, after)) t)
            v.tracked;
    }

pub decide_other_at-Keeps :
    (c : Caller) (approves : Bool) (comment : Option ℕ) (k : ℕ) (found : Option Approval)
    (o : Office)
    → find k o.approvals ≡ found
    → IsReviewed o
    → Keeps (decide_other_at c approves comment found o)
decide_other_at-Keeps c approves comment k none o f v = tt
decide_other_at-Keeps c approves comment k (some a) o f v =
    elim (Bool-cases (is_pending a.status)) [
      | inr e ↦ rw e tt
      | inl e ↦ rw e (elim (Bool-cases (not approves && not (is_some comment))) [
        | inl m ↦ rw m tt
        | inr m ↦ rw m (elim (Bool-cases (is_report a.entity_type)) [
          | inl q ↦ rw q tt
          | inr q ↦ rw q (other-IsReviewed c approves comment k a o f q v)
        ])
      ])
    ]
