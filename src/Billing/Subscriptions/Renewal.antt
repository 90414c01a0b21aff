-- ===== src/Billing/Subscriptions/Renewal.antt =====
-- What the three routes do to a subscription, one after the other.
use meet_millions_finance.Prelude.{
  is_some, nat_eq, ℕ, ◌≤◌, ◌<◌, ◌≡◌, ◌≢◌, ◌↔◌, Bool, true, false, not, Option, none, some, arith,
}
use meet_millions_finance.Tax.Gst.{Code}
use meet_millions_finance.Billing.Invoices.{InvoiceFigures}
use meet_millions_finance.Billing.Subscriptions.{
  Plan, Usage, Subscription, SubscriptionStatus, PlanChange, Renewed, renewed, bytes_of,
  change_plan, cancel, resume, price_of,
}

-- No more is used than a limit allows.
abbrev pub Fits : ℕ → Option ℕ → Type 0
Fits used none = Unit
Fits used (some limit) = used ≤ limit

-- What a change of plan leaves: within every limit of the plan, active on it; an invoice exactly for
-- a price; otherwise an organisation that uses more than one of the limits.
abbrev pub Changed : Plan → Usage → PlanChange → Renewed → Type 0
Changed plan u q (renewed s invoice) =
    Fits u.users plan.max_users
    × Fits u.companies plan.max_companies
    × Fits u.used_bytes (bytes_of plan.storage_gb)
    × (s.plan_id ≡ plan.id)
    × (s.status ≡ SubscriptionStatus.active)
    × ((is_some invoice ≡ true) ↔ (0 < price_of q.cycle plan))
Changed plan u q (Renewed.stopped e) = ¬ (
    Fits u.users plan.max_users
    × Fits u.companies plan.max_companies
    × Fits u.used_bytes (bytes_of plan.storage_gb))

-- A plan is taken exactly if its limits of users, companies and storage hold what is in use; an
-- invoice is raised exactly if the plan has a price in the cycle chosen.
pub change_plan_lem :
    (supplier : Code) (q : PlanChange) (plan : Plan) (u : Usage) (current : Option Subscription)
    → Changed plan u q (change_plan supplier q plan u current)
unfolding change_plan
change_plan_lem supplier q plan u current = ground arith

-- A subscription that has not ended, is cancelled for the end of its period and then resumed is as
-- it was before, but for renewal being on and no cancellation or reason being noted.
cancel_then_resume :
    (reason : Option ℕ) (now : ℕ) (s s' : Subscription) {i : Option InvoiceFigures}
    → s.status ≢ SubscriptionStatus.cancelled
    → cancel false reason now (some s) ≡ renewed s' i
    → resume (some s')
      ≡ renewed
          (record s {
            cancel_at_period_end = false;
            cancelled_at = none;
            cancellation_reason = none;
            auto_renew = true;
          })
          none
unfolding cancel resume
cancel_then_resume reason now s s' n h = ground arith

-- A subscription that was cancelled, at once or for the end of its period, and is then given a plan
-- again is active and may be invoiced, but keeps the mark of its cancellation: it does not renew.
change_plan_keeps_cancellation :
    (immediate : Bool) (reason : Option ℕ) (now : ℕ) (supplier : Code) (q : PlanChange)
    (plan : Plan) (u : Usage) (s s' s'' : Subscription) {i j : Option InvoiceFigures}
    → cancel immediate reason now (some s) ≡ renewed s' i
    → change_plan supplier q plan u (some s') ≡ renewed s'' j
    → (s''.status ≡ SubscriptionStatus.active)
      × (s''.auto_renew ≡ false)
      × (s''.cancel_at_period_end ≡ not immediate)
unfolding cancel change_plan
change_plan_keeps_cancellation immediate reason now supplier q plan u s s' s'' h k = ground arith
