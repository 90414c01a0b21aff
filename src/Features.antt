-- ===== src/Features.antt =====
-- What a tenant is entitled to (src/services/features.js). Keys of plans, features and add-ons are
-- numbers with names; a query is a filter that keeps the order of its table (the source asks for none
-- but among subscriptions), and instants are numbers. A limit of -1 is `none`.
use meet_millions_finance.Prelude.{
  ltb, leb, ◌==◌, if◌then◌else◌, ltb→lt, leb→le, ==_iff, ==_refl, Bool-cases, Option-cases, or_else,
  is_some, Eq, nat_eq, beq_of, beq_of_iff, length, filter, any, All, length-append, length-filter,
  contains, contains-append, contains-filter, filter-contains, sum_by, sum_by-append, All-imp,
  All-and, All-append, ℕ, zero, suc, ◌+◌, ◌-◌, ◌*◌, ◌/◌, ◌%◌, ◌^◌, ◌≤◌, ◌<◌, max, min, String, ◌≡◌,
  refl, sym, ap, ap₂, ◌∙◌, ◌≢◌, ◌↔◌, ◌⊎◌, inl, inr, Bool, true, false, not, ◌&&◌, ◌||◌, Option,
  none, some, List, [], ◌∷◌, ◌++◌, map, foldl, arith,
}
pub mod Catalogue
pub mod Granted
use meet_millions_finance.Billing.Subscriptions.{SubscriptionStatus}
use meet_millions_finance.Features.Catalogue.{Feature, basic, features_table}

-- A row of `plan_features`.
pub record PlanFeature : Type 0 where
  pub plan_id : ℕ
  pub feature_key : ℕ
  pub enabled : Bool

-- A subscription joined with its plan.
pub record PlanSubscription : Type 0 where
  pub tenant_id : ℕ
  pub status : SubscriptionStatus
  pub created_at : ℕ
  pub plan_id : ℕ
  pub plan_key : ℕ
  pub max_users : Option ℕ
  pub max_companies : Option ℕ
  pub storage_gb : Option ℕ
  pub max_uploads_month : Option ℕ

-- An add-on subscription joined with its add-on, whose `feature_keys_json` is read already.
pub record AddOnSubscription : Type 0 where
  pub tenant_id : ℕ
  pub status : SubscriptionStatus
  pub key : ℕ
  pub feature_keys : List ℕ

-- A row of `feature_flags`; one without a tenant is for all.
pub record FeatureFlag : Type 0 where
  pub tenant_id : Option ℕ
  pub feature_key : ℕ
  pub enabled : Bool
  pub expires_at : Option ℕ

pub record FeatureTables : Type 0 where
  pub subscriptions : List PlanSubscription
  pub plan_features : List PlanFeature
  pub add_on_subscriptions : List AddOnSubscription
  pub feature_flags : List FeatureFlag

pub record Limits : Type 0 where
  pub users : Option ℕ
  pub companies : Option ℕ
  pub storage_bytes : Option ℕ
  pub uploads : Option ℕ

pub record Entitlements : Type 0 where
  pub plan_key : Option ℕ
  pub features : List ℕ
  pub add_ons : List ℕ
  pub limits : Limits
  pub unlimited : Bool

-- `Set.prototype.add`.
abbrev pub add_key : ℕ → List ℕ → List ℕ
add_key k s = if contains k s then s else s ++ k ∷ []

-- `Set.prototype.delete`.
abbrev pub delete_key : ℕ → List ℕ → List ℕ
delete_key k s = filter (λ x. not (k == x)) s

abbrev pub set_key : Bool → ℕ → List ℕ → List ℕ
set_key true k s = add_key k s
set_key false k s = delete_key k s

-- The features that a plan includes outright.
abbrev pub include_plan : ℕ → List Feature → List ℕ → List ℕ
include_plan plan [] s = s
include_plan plan (f ∷ fs) s =
    include_plan plan fs (if contains plan f.plans then add_key f.key s else s)

abbrev pub apply_plan_features : List PlanFeature → List ℕ → List ℕ
apply_plan_features [] s = s
apply_plan_features (r ∷ rs) s = apply_plan_features rs (set_key r.enabled r.feature_key s)

abbrev pub is_add_on : Option ℕ → ℕ → Bool
is_add_on none key = false
is_add_on (some a) key = a == key

-- The features that name an add-on.
abbrev pub include_add_on : ℕ → List Feature → List ℕ → List ℕ
include_add_on key [] s = s
include_add_on key (f ∷ fs) s =
    include_add_on key fs (if is_add_on f.add_on key then add_key f.key s else s)

abbrev pub add_keys : List ℕ → List ℕ → List ℕ
add_keys [] s = s
add_keys (k ∷ ks) s = add_keys ks (add_key k s)

abbrev pub unlock : List AddOnSubscription → List ℕ → List ℕ
unlock [] s = s
unlock (r ∷ rs) s = unlock rs (add_keys r.feature_keys (include_add_on r.key features_table s))

abbrev pub is_expired : ℕ → Option ℕ → Bool
is_expired now none = false
is_expired now (some end) = ltb end now

abbrev pub apply_flags : ℕ → List FeatureFlag → List ℕ → List ℕ
apply_flags now [] s = s
apply_flags now (f ∷ fs) s =
    apply_flags now fs
      (if is_expired now f.expires_at then s else set_key f.enabled f.feature_key s)

abbrev pub is_live : SubscriptionStatus → Bool
is_live SubscriptionStatus.trialing = true
is_live SubscriptionStatus.active = true
is_live SubscriptionStatus.past_due = true
is_live _ = false

abbrev pub is_served : SubscriptionStatus → Bool
is_served SubscriptionStatus.trialing = true
is_served SubscriptionStatus.active = true
is_served _ = false

abbrev pub newer : PlanSubscription → Option PlanSubscription → PlanSubscription
newer s none = s
newer s (some t) = if ltb s.created_at t.created_at then t else s

-- `ORDER BY created_at DESC LIMIT 1`.
abbrev pub newest : List PlanSubscription → Option PlanSubscription
newest [] = none
newest (s ∷ ss) = some (newer s (newest ss))

abbrev pub subscription_of : ℕ → FeatureTables → Option PlanSubscription
subscription_of tenant db =
    newest (filter (λ s. (s.tenant_id == tenant) && is_live s.status) db.subscriptions)

abbrev pub add_ons_of : ℕ → FeatureTables → List AddOnSubscription
add_ons_of tenant db =
    filter (λ s. (s.tenant_id == tenant) && is_served s.status) db.add_on_subscriptions

abbrev pub is_for : ℕ → Option ℕ → Bool
is_for tenant none = true
is_for tenant (some t) = t == tenant

abbrev pub flags_of : ℕ → FeatureTables → List FeatureFlag
flags_of tenant db = filter (λ f. is_for tenant f.tenant_id) db.feature_flags

abbrev pub plan_key_of : Option PlanSubscription → ℕ
plan_key_of none = basic
plan_key_of (some s) = s.plan_key

abbrev pub plan_features_of : Option PlanSubscription → FeatureTables → List PlanFeature
plan_features_of none db = []
plan_features_of (some s) db = filter (λ r. r.plan_id == s.plan_id) db.plan_features

abbrev pub gigabytes : Option ℕ → Option ℕ
gigabytes none = none
gigabytes (some n) = some (n * 1024 * 1024 * 1024)

abbrev pub limits_of : Option PlanSubscription → Limits
limits_of none = record {
  users = some 1;
  companies = some 1;
  storage_bytes = some (5 * 1024 * 1024 * 1024);
  uploads = some 50;
}
limits_of (some s) = record {
  users = s.max_users;
  companies = s.max_companies;
  storage_bytes = gigabytes s.storage_gb;
  uploads = s.max_uploads_month;
}

abbrev pub unlimited_limits : Limits
unlimited_limits = record { users = none; companies = none; storage_bytes = none; uploads = none }

abbrev pub features_of : ℕ → ℕ → FeatureTables → List ℕ
features_of now tenant db =
    let s = subscription_of tenant db in
    apply_flags now (flags_of tenant db) (
      unlock (add_ons_of tenant db) (
        apply_plan_features (plan_features_of s db)
          (include_plan (plan_key_of s) features_table [])))

-- `getEntitlements`, without the counters of usage and the texts that it passes on.
unfoldable pub get_entitlements : ℕ → Option ℕ → FeatureTables → Entitlements
get_entitlements now none db = record {
  plan_key = none;
  features = map (λ f. f.key) features_table;
  add_ons = [];
  limits = unlimited_limits;
  unlimited = true;
}
get_entitlements now (some tenant) db = record {
  plan_key = some (plan_key_of (subscription_of tenant db));
  features = features_of now tenant db;
  add_ons = add_keys (map (λ r. r.key) (add_ons_of tenant db)) [];
  limits = limits_of (subscription_of tenant db);
  unlimited = false;
}

pub data FeatureAnswer : Type 0 where
  included : FeatureAnswer
  -- The plan and the add-on that would unlock it.
  feature_locked : Option ℕ → Option ℕ → FeatureAnswer

abbrev pub first_plan : List ℕ → Option ℕ
first_plan [] = none
first_plan (p ∷ ps) = some p

abbrev pub unlocked_by : ℕ → List Feature → FeatureAnswer
unlocked_by k [] = feature_locked none none
unlocked_by k (f ∷ fs) =
    let rest = unlocked_by k fs in
    if f.key == k then feature_locked (first_plan f.plans) f.add_on else rest

-- `assertFeature`.
unfoldable pub assert_feature : ℕ → Entitlements → FeatureAnswer
assert_feature k e = if contains k e.features then included else unlocked_by k features_table
