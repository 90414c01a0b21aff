-- ===== src/Reports/Review.antt =====
-- Submitting a report and deciding on it keep the approvals in step with the reports.
use meet_millions_finance.Prelude.{
  Bool-cases, is_some, nat_eq, ℕ, ◌≡◌, refl, ◌∙◌, ◌≢◌, inl, inr, Bool, true, false, not, ◌&&◌,
  Option, none, some, List, [], ◌∷◌, ◌++◌, arith,
}
use meet_millions_finance.Store.{find, DistinctIds}
use meet_millions_finance.Store.Rows.{update-DistinctIds, append-DistinctIds}
use meet_millions_finance.Reports.{
  Report, ReportStatus, Approval, Office, report_row, approval_row, pending_approval_of,
}
use meet_millions_finance.Reports.Counted.{pending_one, pending_count, close_other, close_own}
use meet_millions_finance.Reports.Steps.{
  is_cleared, IsTracked, IsReviewed, Keeps, update-IsReviewed, appended_count,
}
use meet_millions_finance.Reports.Routes.{
  Caller, may_submit, submit_row, submit_at, assignee_of, manager_approval, ReportVerdict,
  verdict_status, decide_approval, close_approval, verdict_row, is_waiting, decide_report_at,
}

submit_other :
    (c : Caller) (assignee comment : Option ℕ) (j k : ℕ)
    → j ≢ k
    → pending_one j (manager_approval c assignee comment k) ≡ 0
submit_other c assignee comment j k n = ground arith

submit_own :
    (c : Caller) (assignee comment : Option ℕ) (k : ℕ)
    → pending_one k (manager_approval c assignee comment k) ≡ 1
submit_own c assignee comment k = ground arith

not_waiting : (s : ReportStatus) → may_submit s ≡ true → is_waiting s ≡ false
not_waiting s h = ground arith

submit_row-IsTracked :
    (c : Caller) (assignee comment : Option ℕ) (approvals : List Approval) (r : Report)
    → may_submit r.status ≡ true
    → IsTracked approvals r
    → IsTracked (approvals ++ manager_approval c assignee comment r.id ∷ []) (submit_row c.now r)
submit_row-IsTracked c assignee comment approvals r h t =
    let none_yet : pending_count r.id approvals ≡ 0 =
      t.pending ∙ (rw (not_waiting r.status h) refl) in
    let one = submit_own c assignee comment r.id in
    record {
      pending =
          appended_count r.id approvals (manager_approval c assignee comment r.id)
          ∙ (omega (arith, none_yet, one));
      cleared = λ e. cc;
    }

pub submit_at-Keeps :
    (c : Caller) (named client_manager any_manager comment : Option ℕ) (k : ℕ)
    (found : Option Report) (o : Office)
    → find k o.reports ≡ found
    → find c.new_id o.approvals ≡ none
    → IsReviewed o
    → Keeps (submit_at c named client_manager any_manager comment found o)
submit_at-Keeps c named client_manager any_manager comment k none o f fresh v = tt
submit_at-Keeps c named client_manager any_manager comment k (some r) o f fresh v =
    let a = manager_approval c (assignee_of named client_manager any_manager r) comment r.id in
    elim (Bool-cases (may_submit r.status)) [
      | inl e ↦ rw e (
          update-IsReviewed o k (submit_row c.now) (o.approvals ++ a ∷ []) _ _ f (λ x. refl)
            (append-DistinctIds o.approvals a fresh v.approval_ids)
            (λ j n. ground (
              arith,
              appended_count j o.approvals a,
              submit_other c (assignee_of named client_manager any_manager r) comment j r.id n,
            ))
            (submit_row-IsTracked c (assignee_of named client_manager any_manager r) comment
              o.approvals r e)
            v)
      | inr e ↦ rw e tt
    ]

close-DistinctIds :
    (c : Caller) (approves : Bool) (comment : Option ℕ) (o : Option Approval) (xs : List Approval)
    → DistinctIds xs
    → DistinctIds (close_approval c approves comment o xs)
close-DistinctIds c approves comment none xs d = d
close-DistinctIds c approves comment (some a) xs d =
    update-DistinctIds a.id (decide_approval c approves comment) xs (λ x. refl) d

verdict_not_waiting : (v : ReportVerdict) → is_waiting (verdict_status v) ≡ false
verdict_not_waiting v = ground arith

verdict_cleared :
    (c : Caller) (v : ReportVerdict) (r : Report)
    → is_cleared (verdict_status v) ≡ true
    → is_some (verdict_row c v r).approved_by ≡ true
verdict_cleared c v r h = ground arith

verdict_row-IsTracked :
    (c : Caller) (v : ReportVerdict) (approvals : List Approval) (r : Report)
    → DistinctIds approvals
    → is_waiting r.status ≡ true
    → IsTracked approvals r
    → IsTracked
        (close_approval c v.approves v.comment (pending_approval_of r.id approvals) approvals)
        (verdict_row c v r)
verdict_row-IsTracked c v approvals r d h t = record {
  pending =
      close_own c v.approves v.comment r.id (pending_approval_of r.id approvals) approvals d refl
        (t.pending ∙ (rw h refl))
      ∙ (rw (verdict_not_waiting v) refl);
  cleared = verdict_cleared c v r;
}

pub decide_report_at-Keeps :
    (c : Caller) (v : ReportVerdict) (k : ℕ) (found : Option Report) (o : Office)
    → find k o.reports ≡ found
    → IsReviewed o
    → Keeps (decide_report_at c v found o)
decide_report_at-Keeps c v k none o f w = tt
decide_report_at-Keeps c v k (some r) o f w = elim (Bool-cases (is_waiting r.status)) [
  | inr e ↦ rw e tt
  | inl e ↦ rw e (elim (Bool-cases (not v.approves && not (is_some v.comment))) [
    | inl m ↦ rw m tt
    | inr m ↦ rw m (
        update-IsReviewed o k (verdict_row c v)
          (close_approval c v.approves v.comment (pending_approval_of r.id o.approvals) o.approvals)
          _ _ f (λ x. refl)
          (close-DistinctIds c v.approves v.comment (pending_approval_of r.id o.approvals)
            o.approvals w.approval_ids)
          (λ j n.
            close_other c v.approves v.comment j r.id (pending_approval_of r.id o.approvals)
              o.approvals w.approval_ids refl n)
          (verdict_row-IsTracked c v o.approvals r w.approval_ids e) w)
  ])
]
