-- ===== src/Examples/Plans.antt =====
-- Subscriptions and rate limits at concrete inputs.
use meet_millions_finance.Prelude.{
  nat_eq, ◌+◌, ◌-◌, min, ◌≡◌, refl, true, false, none, some, List, [], ◌∷◌,
}
use meet_millions_finance.Billing.Subscriptions.{
  BillingCycle, Plan, Usage, Subscription, SubscriptionStatus, PlanChange, change_plan,
}
use meet_millions_finance.Billing.Subscriptions.Renewal.{Changed, change_plan_lem}
use meet_millions_finance.RateLimit.{
  Bucket, Identity, RateKey, Request, RateOption, bucket_for, per_key_max, identity_for, count_at,
}
use meet_millions_finance.RateLimit.Quota.{Arrival, passed_of, passed_of_lem}

abbrev starter : Plan
starter = record {
  id = 2;
  max_users = some 5;
  max_companies = none;
  storage_gb = some 10;
  monthly_price_paise = 99900;
  yearly_price_paise = 999000;
}

abbrev usage : Usage
usage = record { users = 5; companies = 40; used_bytes = 4096 }

abbrev change : PlanChange
change = record {
  cycle = BillingCycle.yearly;
  seats = 3;
  now = 100;
  in_a_month = 130;
  in_a_year = 465;
}

abbrev running : Subscription
running = record {
  plan_id = 1;
  status = SubscriptionStatus.active;
  billing_cycle = BillingCycle.monthly;
  seats = 1;
  unit_price_paise = 49900;
  current_period_start = 70;
  current_period_end = 100;
  cancel_at_period_end = false;
  cancelled_at = none;
  cancellation_reason = none;
  auto_renew = true;
}

change_plan_lem_example :
    Changed starter usage change (change_plan [] change starter usage (some running))
change_plan_lem_example = change_plan_lem [] change starter usage (some running)

abbrev visitor : Request
visitor = record { api_key = none; user_id = none; address = 7; is_webhook_path = false }

abbrev login_key : RateKey
login_key = record { bucket = Bucket.auth_login; identity = Identity.ip 7; window = 12 }

-- Three logins from one address, of which the cache answers two, after nine counted ones in the cache.
abbrev logins : List Arrival
logins =
    record { answers = true; at = 3601 }
    ∷ record { answers = true; at = 3700 }
    ∷ record { answers = false; at = 3899 }
    ∷ []

passed_of_lem_example :
    (passed_of visitor
        (RateOption.explicit Bucket.auth_login)
        logins
        (record { cache = some ((login_key, 9) ∷ []); table = [] })
      ≡ min 2 (10 - 9) + min 1 (10 - 0))
    × (passed_of visitor
          (RateOption.explicit Bucket.auth_login)
          logins
          (record { cache = none; table = [] })
        ≡ min 3 (10 - 0))
unfolding bucket_for per_key_max identity_for count_at
passed_of_lem_example =
    passed_of_lem visitor (RateOption.explicit Bucket.auth_login) Bucket.auth_login 12 logins
      ((login_key, 9) ∷ []) [] refl (refl, (refl, (refl, tt)))
