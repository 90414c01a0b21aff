-- ===== src/Billing/Subscriptions.antt =====
-- The tenant's own subscription (src/modules/billing.js: change-plan, cancel and resume). Prices are
-- paise, instants are numbers, and a limit of a plan is none where the source has a negative one.
use meet_millions_finance.Prelude.{
  ltb, leb, ◌==◌, if◌then◌else◌, ltb→lt, leb→le, ==_iff, ==_refl, Bool-cases, Option-cases, or_else,
  is_some, Eq, nat_eq, beq_of, beq_of_iff, length, filter, any, All, length-append, length-filter,
  contains, sum_by, sum_by-append, All-imp, All-and, All-append, ℕ, zero, suc, ◌+◌, ◌-◌, ◌*◌, ◌/◌,
  ◌%◌, ◌^◌, ◌≤◌, ◌<◌, max, min, String, ◌≡◌, refl, sym, ap, ap₂, ◌∙◌, ◌≢◌, ◌↔◌, ◌⊎◌, inl, inr, Bool,
  true, false, not, ◌&&◌, ◌||◌, Option, none, some, List, [], ◌∷◌, ◌++◌, map, foldl, arith,
}
use meet_millions_finance.Tax.Gst.{Code}
use meet_millions_finance.Billing.Invoices.{ItemInput, InvoiceFigures, create_invoice}
pub mod Renewal

pub data BillingCycle : Type 0 where
  monthly yearly : BillingCycle

pub data SubscriptionStatus : Type 0 where
  trialing active past_due paused cancelled expired : SubscriptionStatus

pub record Plan : Type 0 where
  pub id : ℕ
  pub max_users : Option ℕ
  pub max_companies : Option ℕ
  pub storage_gb : Option ℕ
  pub monthly_price_paise : ℕ
  pub yearly_price_paise : ℕ

-- What the organisation uses: users, companies and bytes.
pub record Usage : Type 0 where
  pub users : ℕ
  pub companies : ℕ
  pub used_bytes : ℕ

pub record Subscription : Type 0 where
  pub plan_id : ℕ
  pub status : SubscriptionStatus
  pub billing_cycle : BillingCycle
  pub seats : ℕ
  pub unit_price_paise : ℕ
  pub current_period_start : ℕ
  pub current_period_end : ℕ
  pub cancel_at_period_end : Bool
  pub cancelled_at : Option ℕ
  pub cancellation_reason : Option ℕ
  pub auto_renew : Bool

pub data Resource : Type 0 where
  users companies storage : Resource

pub data PlanError : Type 0 where
  smaller_than_usage : List Resource → PlanError
  no_subscription already_ended : PlanError

-- What a route leaves: the subscription, and the invoice it raised.
pub data Renewed : Type 0 where
  renewed : Subscription → Option InvoiceFigures → Renewed
  stopped : PlanError → Renewed

abbrev pub over : ℕ → Option ℕ → Bool
over used none = false
over used (some limit) = ltb limit used

abbrev pub bytes_of : Option ℕ → Option ℕ
bytes_of o = elim o [ none ↦ none | some gb ↦ some (gb * 1024 * 1024 * 1024) ]

abbrev pub block : Bool → Resource → List Resource → List Resource
block b r rest = if b then r ∷ rest else rest

-- The list `blockers`.
abbrev pub blockers : Plan → Usage → List Resource
blockers plan u = block (over u.users plan.max_users) users (
    block (over u.companies plan.max_companies) companies
      (block (over u.used_bytes (bytes_of plan.storage_gb)) storage []))

abbrev pub price_of : BillingCycle → Plan → ℕ
price_of monthly plan = plan.monthly_price_paise
price_of yearly plan = plan.yearly_price_paise

-- `validate` has read a cycle and a number of seats; the clock gives the start and the two ends.
pub record PlanChange : Type 0 where
  pub cycle : BillingCycle
  pub seats : ℕ
  pub now : ℕ
  pub in_a_month : ℕ
  pub in_a_year : ℕ

abbrev pub renewal_end : PlanChange → ℕ
renewal_end q = elim q.cycle [ monthly ↦ q.in_a_month | yearly ↦ q.in_a_year ]

-- The update of a subscription that is there, or the row inserted.
abbrev pub changed : PlanChange → Plan → Option Subscription → Subscription
changed q plan (some s) = record s {
  plan_id = plan.id;
  billing_cycle = q.cycle;
  seats = q.seats;
  unit_price_paise = price_of q.cycle plan;
  status = active;
  current_period_start = q.now;
  current_period_end = renewal_end q;
}
changed q plan none = record {
  plan_id = plan.id;
  status = active;
  billing_cycle = q.cycle;
  seats = q.seats;
  unit_price_paise = price_of q.cycle plan;
  current_period_start = q.now;
  current_period_end = renewal_end q;
  cancel_at_period_end = false;
  cancelled_at = none;
  cancellation_reason = none;
  auto_renew = true;
}

-- `if (unitPrice > 0) { … }`: one item at 18%, with no place of supply.
abbrev pub plan_invoice : Code → PlanChange → Plan → Option InvoiceFigures
plan_invoice supplier q plan =
    if ltb 0 (price_of q.cycle plan)
    then some (
        create_invoice supplier none (
          (record {
            quantity = q.seats * 1000;
            unit_price_paise = price_of q.cycle plan;
            discount_paise = 0;
            tax_rate_pct = 18000;
          })
          ∷ []))
    else none

abbrev pub no_blockers : List Resource → Bool
no_blockers [] = true
no_blockers (r ∷ rs) = false

-- `POST /subscription/change-plan`, once the plan is found.
unfoldable pub change_plan : Code → PlanChange → Plan → Usage → Option Subscription → Renewed
change_plan supplier q plan u current =
    if no_blockers (blockers plan u)
    then renewed (changed q plan current) (plan_invoice supplier q plan)
    else stopped (smaller_than_usage (blockers plan u))

-- `POST /subscription/cancel`: at once, or at the end of the period.
unfoldable pub cancel : Bool → Option ℕ → ℕ → Option Subscription → Renewed
cancel immediate reason now none = stopped no_subscription
cancel immediate reason now (some s) =
    renewed
      (record s {
        status = if immediate then cancelled else s.status;
        cancel_at_period_end = not immediate;
        cancelled_at = if immediate then some now else none;
        cancellation_reason = reason;
        auto_renew = false;
      })
      none

abbrev pub is_cancelled : SubscriptionStatus → Bool
is_cancelled cancelled = true
is_cancelled _ = false

-- `POST /subscription/resume`.
unfoldable pub resume : Option Subscription → Renewed
resume none = stopped no_subscription
resume (some s) =
    if is_cancelled s.status
    then stopped already_ended
    else if not s.cancel_at_period_end
    then renewed s none
    else renewed
        (record s {
          cancel_at_period_end = false;
          cancelled_at = none;
          cancellation_reason = none;
          auto_renew = true;
        })
        none
