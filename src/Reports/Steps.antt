-- ===== src/Reports/Steps.antt =====
-- What holds of every report, and that each route keeps it.
use meet_millions_finance.Prelude.{
  if◌then◌else◌, is_some, nat_eq, All, sum_by-append, ℕ, ◌+◌, ◌≡◌, ◌∙◌, ◌≢◌, Bool, true, false,
  some, List, [], ◌∷◌, ◌++◌, arith,
}
use meet_millions_finance.Store.{find, update, DistinctIds}
use meet_millions_finance.Store.Rows.{
  KeepsId, All-update_found, update-DistinctIds, find_own, All-find,
}
use meet_millions_finance.Workflow.Desk.{Desk}
use meet_millions_finance.Tax.Run.Handler.{Computation}
use meet_millions_finance.Reports.{
  Report, ReportStatus, Approval, Office, Served, ok, err, report_row, approval_row,
}
use meet_millions_finance.Reports.Routes.{is_waiting}
use meet_millions_finance.Reports.Counted.{pending_one, pending_count}

-- The statuses that a report has from its approval on.
abbrev pub is_cleared : ReportStatus → Bool
is_cleared ReportStatus.draft = false
is_cleared ReportStatus.pending_approval = false
is_cleared ReportStatus.rejected = false
is_cleared _ = true

-- A report has one pending approval while it waits for one and none otherwise, and from its approval on
-- it names who approved it.
pub record IsTracked (approvals : List Approval) (r : Report) : Type 0 where
  pub pending : pending_count r.id approvals ≡ (if is_waiting r.status then 1 else 0)
  pub cleared : is_cleared r.status ≡ true → is_some r.approved_by ≡ true

pub record IsReviewed (o : Office) : Type 0 where
  pub report_ids : DistinctIds o.reports
  pub approval_ids : DistinctIds o.approvals
  pub tracked : All (IsTracked o.approvals) o.reports

abbrev pub Keeps : Served → Type 0
Keeps (ok o) = IsReviewed o
Keeps (err e) = Unit

pub same-IsTracked :
    (approvals after : List Approval) (r : Report)
    → pending_count r.id after ≡ pending_count r.id approvals
    → IsTracked approvals r
    → IsTracked after r
same-IsTracked approvals after r e t = record { pending = e ∙ t.pending; cleared = t.cleared }

-- A change of one report and of approvals that no other report counts.
pub update-IsReviewed :
    (o : Office) (k : ℕ) (g : Report → Report) {r : Report} (after : List Approval) (desk : Desk)
    (computations : List Computation)
    → find k o.reports ≡ some r
    → KeepsId g
    → DistinctIds after
    → ((j : ℕ) → j ≢ r.id → pending_count j after ≡ pending_count j o.approvals)
    → (IsTracked o.approvals r → IsTracked after (g r))
    → IsReviewed o
    → IsReviewed (record {
      desk = desk;
      reports = update r.id g o.reports;
      approvals = after;
      computations = computations;
    })
update-IsReviewed o k g {r} after desk computations f keeps d others own v = record {
  report_ids = update-DistinctIds r.id g o.reports keeps v.report_ids;
  approval_ids = d;
  tracked =
      All-update_found (IsTracked o.approvals) (IsTracked after) r.id g o.reports v.report_ids
        (find_own k o.reports f) (own (All-find (IsTracked o.approvals) k o.reports v.tracked f))
        (λ x n t. same-IsTracked o.approvals after x (others x.id n) t) v.tracked;
}

pub appended_count :
    (j : ℕ) (approvals : List Approval) (a : Approval)
    → pending_count j (approvals ++ a ∷ []) ≡ pending_count j approvals + pending_one j a
appended_count j approvals a = rw (sum_by-append (pending_one j) approvals (a ∷ [])) (omega arith)
