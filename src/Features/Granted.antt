-- ===== src/Features/Granted.antt =====
-- What decides whether a tenant has a feature.
use meet_millions_finance.Prelude.{
  ◌==◌, if◌then◌else◌, ==_iff, Bool-cases, or_else, nat_eq, any, contains, contains-append, ℕ, ◌≡◌,
  refl, sym, ap, ◌∙◌, ◌≢◌, ◌↔◌, inl, inr, Bool, true, false, not, ◌&&◌, ◌||◌, Option, none, some,
  List, [], ◌∷◌, arith,
}
use meet_millions_finance.Features.Catalogue.{Feature, features_table}
use meet_millions_finance.Features.{
  PlanFeature, AddOnSubscription, FeatureFlag, FeatureTables, Entitlements, add_key, delete_key,
  set_key, include_plan, apply_plan_features, is_add_on, include_add_on, add_keys, unlock,
  is_expired, apply_flags, subscription_of, add_ons_of, flags_of, plan_key_of, plan_features_of,
  features_of, get_entitlements, included, assert_feature, unlocked_by,
}

-- A word said later counts.
abbrev pub later : Option Bool → Option Bool → Option Bool
later (some b) first = some b
later none first = first

abbrev pub word : Bool → Bool → Option Bool
word true b = some b
word false b = none

-- The last word of the rows of a plan on a feature.
abbrev pub plan_word : ℕ → List PlanFeature → Option Bool
plan_word k [] = none
plan_word k (r ∷ rs) = later (plan_word k rs) (word (k == r.feature_key) r.enabled)

-- The last word on a feature of the flags that have not expired.
abbrev pub flag_word : ℕ → ℕ → List FeatureFlag → Option Bool
flag_word now k [] = none
flag_word now k (f ∷ fs) =
    later (flag_word now k fs)
      (word (not (is_expired now f.expires_at) && (k == f.feature_key)) f.enabled)

-- The plan lists the feature.
abbrev pub in_plan : ℕ → ℕ → List Feature → Bool
in_plan plan k fs = any (λ f. contains plan f.plans && (k == f.key)) fs

-- An add-on brings the feature: it is the one the feature names, or lists the feature.
abbrev pub brings : ℕ → AddOnSubscription → Bool
brings k r =
    contains k r.feature_keys || any (λ f. is_add_on f.add_on r.key && (k == f.key)) features_table

-- The flags decide first, then the add-ons, then the rows of the plan, then the plan itself.
abbrev pub is_granted : ℕ → ℕ → FeatureTables → ℕ → Bool
is_granted now tenant db k =
    let s = subscription_of tenant db in
    or_else (flag_word now k (flags_of tenant db)) (
      any (brings k) (add_ons_of tenant db)
      || or_else (plan_word k (plan_features_of s db)) (in_plan (plan_key_of s) k features_table))

contains-add_key : (k a : ℕ) (s : List ℕ) → contains k (add_key a s) ≡ ((k == a) || contains k s)
contains-add_key k a s = elim (Bool-cases (contains a s)) [
  | inl here ↦ elim (Bool-cases (k == a)) [
    | inl same ↦
        let e : k ≡ a = (==_iff k a).0 same in
        let there : contains k s ≡ true = rw e here in rw (here, there) ground arith
    | inr other ↦ rw (here, other) refl
  ]
  | inr there ↦ rw (there, contains-append k s (a ∷ [])) ground arith
]

contains-delete_key :
    (k a : ℕ) (s : List ℕ) → contains k (delete_key a s) ≡ (not (k == a) && contains k s)
contains-delete_key k a [] = ground arith
contains-delete_key k a (x ∷ s) = ground (arith, contains-delete_key k a s)

contains-set_key :
    (b : Bool) (k a : ℕ) (s : List ℕ)
    → contains k (set_key b a s) ≡ or_else (word (k == a) b) (contains k s)
contains-set_key true k a s = rw (contains-add_key k a s) ground arith
contains-set_key false k a s = rw (contains-delete_key k a s) ground arith

or_else-later : (v w : Option Bool) (d : Bool) → or_else v (or_else w d) ≡ or_else (later v w) d
or_else-later none w d = refl
or_else-later (some b) w d = refl

contains-plan_features :
    (k : ℕ) (rs : List PlanFeature) (s : List ℕ)
    → contains k (apply_plan_features rs s) ≡ or_else (plan_word k rs) (contains k s)
contains-plan_features k [] s = refl
contains-plan_features k (r ∷ rs) s =
    contains-plan_features k rs (set_key r.enabled r.feature_key s)
    ∙ ap (or_else (plan_word k rs)) (contains-set_key r.enabled k r.feature_key s)
    ∙ or_else-later (plan_word k rs) (word (k == r.feature_key) r.enabled) (contains k s)

flag_step :
    (now k : ℕ) (f : FeatureFlag) (s : List ℕ)
    → contains k (if is_expired now f.expires_at then s else set_key f.enabled f.feature_key s)
      ≡ or_else
          (word (not (is_expired now f.expires_at) && (k == f.feature_key)) f.enabled)
          (contains k s)
flag_step now k f s = elim (Bool-cases (is_expired now f.expires_at)) [
  | inl old ↦ rw old refl
  | inr fresh ↦ rw fresh (contains-set_key f.enabled k f.feature_key s)
]

contains-flags :
    (now k : ℕ) (fs : List FeatureFlag) (s : List ℕ)
    → contains k (apply_flags now fs s) ≡ or_else (flag_word now k fs) (contains k s)
contains-flags now k [] s = refl
contains-flags now k (f ∷ fs) s =
    contains-flags now k fs
      (if is_expired now f.expires_at then s else set_key f.enabled f.feature_key s)
    ∙ ap (or_else (flag_word now k fs)) (flag_step now k f s)
    ∙ or_else-later (flag_word now k fs)
        (word (not (is_expired now f.expires_at) && (k == f.feature_key)) f.enabled) (contains k s)

contains-include_plan :
    (plan k : ℕ) (fs : List Feature) (s : List ℕ)
    → contains k (include_plan plan fs s) ≡ (contains k s || in_plan plan k fs)
contains-include_plan plan k [] s = ground arith
contains-include_plan plan k (f ∷ fs) s = elim (Bool-cases (contains plan f.plans)) [
  | inl here ↦
      rw (here, contains-include_plan plan k fs (add_key f.key s), contains-add_key k f.key s)
        ground arith
  | inr there ↦ rw (there, contains-include_plan plan k fs s) refl
]

contains-include_add_on :
    (key k : ℕ) (fs : List Feature) (s : List ℕ)
    → contains k (include_add_on key fs s)
      ≡ (contains k s || any (λ f. is_add_on f.add_on key && (k == f.key)) fs)
contains-include_add_on key k [] s = ground arith
contains-include_add_on key k (f ∷ fs) s = elim (Bool-cases (is_add_on f.add_on key)) [
  | inl here ↦
      rw (here, contains-include_add_on key k fs (add_key f.key s), contains-add_key k f.key s)
        ground arith
  | inr there ↦ rw (there, contains-include_add_on key k fs s) refl
]

contains-add_keys :
    (k : ℕ) (ks s : List ℕ) → contains k (add_keys ks s) ≡ (contains k s || contains k ks)
contains-add_keys k [] s = ground arith
contains-add_keys k (a ∷ ks) s =
    rw (contains-add_keys k ks (add_key a s), contains-add_key k a s) ground arith

or_shuffle : (a b c d : Bool) → (((a || b) || c) || d) ≡ (a || ((c || b) || d))
or_shuffle a b c d = ground arith

or_swap : (a b : Bool) → (a || b) ≡ (b || a)
or_swap a b = ground arith

contains-unlock :
    (k : ℕ) (rs : List AddOnSubscription) (s : List ℕ)
    → contains k (unlock rs s) ≡ (contains k s || any (brings k) rs)
contains-unlock k [] s = ground arith
contains-unlock k (r ∷ rs) s =
    contains-unlock k rs (add_keys r.feature_keys (include_add_on r.key features_table s))
    ∙ ap (λ b. b || any (brings k) rs)
        (contains-add_keys k r.feature_keys (include_add_on r.key features_table s)
          ∙ ap (λ b. b || contains k r.feature_keys)
              (contains-include_add_on r.key k features_table s))
    ∙ or_shuffle (contains k s) (any (λ f. is_add_on f.add_on r.key && (k == f.key)) features_table)
        (contains k r.feature_keys) (any (brings k) rs)

contains-features_of :
    (now tenant : ℕ) (db : FeatureTables) (k : ℕ)
    → contains k (features_of now tenant db) ≡ is_granted now tenant db k
contains-features_of now tenant db k =
    let s = subscription_of tenant db in
    let listed = include_plan (plan_key_of s) features_table [] in
    let planned = apply_plan_features (plan_features_of s db) listed in
    let plan =
      contains-plan_features k (plan_features_of s db) listed
      ∙ ap (or_else (plan_word k (plan_features_of s db)))
          (contains-include_plan (plan_key_of s) k features_table []) in
    let added =
      contains-unlock k (add_ons_of tenant db) planned
      ∙ or_swap (contains k planned) (any (brings k) (add_ons_of tenant db))
      ∙ ap (λ b. any (brings k) (add_ons_of tenant db) || b) plan in
    contains-flags now k (flags_of tenant db) (unlock (add_ons_of tenant db) planned)
    ∙ ap (or_else (flag_word now k (flags_of tenant db))) added

unlocked_by-included : (k : ℕ) (fs : List Feature) → unlocked_by k fs ≢ included
unlocked_by-included k [] = λ e. cc
unlocked_by-included k (f ∷ fs) = elim (Bool-cases (f.key == k)) [
  | inl same ↦ rw same (λ e. cc)
  | inr other ↦ rw other (unlocked_by-included k fs)
]

answer_of :
    (k : ℕ) (e : Entitlements) → (assert_feature k e ≡ included) ↔ (contains k e.features ≡ true)
unfolding assert_feature
answer_of k e = elim (Bool-cases (contains k e.features)) [
  | inl here ↦ rw here ((λ h. refl), (λ h. refl))
  | inr there ↦ rw there ((λ h. elim (unlocked_by-included k features_table h) [ ]), (λ h. cc))
]

-- A tenant passes the check of a feature exactly if the last flag on it that has not expired, in the
-- order of the table, turns it on; without such a flag, if an add-on in use brings it; else as the last
-- row of its plan says; and without such a row, if the plan lists it.
pub feature_check_lem :
    (now tenant : ℕ) (db : FeatureTables) (k : ℕ)
    → (assert_feature k (get_entitlements now (some tenant) db) ≡ included)
      ↔ (is_granted now tenant db k ≡ true)
unfolding get_entitlements
feature_check_lem now tenant db k =
    rw (sym (contains-features_of now tenant db k))
      (answer_of k (get_entitlements now (some tenant) db))
