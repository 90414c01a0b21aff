-- ===== src/Examples/Entitled.antt =====
-- The check of a feature at a concrete input.
use meet_millions_finance.Prelude.{nat_eq, ◌≡◌, refl, ◌↔◌, true, false, none, some, [], ◌∷◌}
use meet_millions_finance.Billing.Subscriptions.{SubscriptionStatus}
use meet_millions_finance.Features.Granted.{is_granted, feature_check_lem}
use meet_millions_finance.Features.{FeatureTables, get_entitlements, assert_feature, included}

-- A basic plan with the OCR add-on; a flag that took document reading away has expired.
abbrev entitled : FeatureTables
entitled = record {
  subscriptions =
      record {
        tenant_id = 1;
        status = SubscriptionStatus.active;
        created_at = 10;
        plan_id = 1;
        plan_key = 0;
        max_users = some 2;
        max_companies = some 1;
        storage_gb = none;
        max_uploads_month = none;
      }
      ∷ [];
  plan_features = [];
  add_on_subscriptions =
      record { tenant_id = 1; status = SubscriptionStatus.active; key = 0; feature_keys = [] } ∷ [];
  feature_flags =
      record { tenant_id = some 1; feature_key = 5; enabled = false; expires_at = some 50 } ∷ [];
}

ocr_included : assert_feature 5 (get_entitlements 100 (some 1) entitled) ≡ included
unfolding get_entitlements assert_feature
ocr_included = refl

feature_check_lem_example :
    (assert_feature 5 (get_entitlements 100 (some 1) entitled) ≡ included)
    ↔ (is_granted 100 1 entitled 5 ≡ true)
feature_check_lem_example = feature_check_lem 100 1 entitled 5
