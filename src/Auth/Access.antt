-- ===== src/Auth/Access.antt =====
-- The requirements that a route declares (`authorize` of src/auth/middleware.js). Keys of roles,
-- permissions and features are texts. Whether the address may reach the organisation and whether a
-- feature is switched on come from services, as arguments.
use meet_millions_finance.Prelude.{
  ltb, leb, ◌==◌, if◌then◌else◌, ltb→lt, leb→le, ==_iff, ==_refl, Bool-cases, Option-cases, or_else,
  is_some, Eq, nat_eq, beq_of, beq_of_iff, length, filter, any, All, length-append, length-filter,
  contains, contains-append, contains-filter, filter-contains, sum_by, sum_by-append, All-imp,
  All-and, All-append, ℕ, zero, suc, ◌+◌, ◌-◌, ◌*◌, ◌/◌, ◌%◌, ◌^◌, ◌≤◌, ◌<◌, max, min, String, ◌≡◌,
  refl, sym, ap, ap₂, ◌∙◌, ◌≢◌, ◌↔◌, ◌⊎◌, inl, inr, Bool, true, false, not, ◌&&◌, ◌||◌, Option,
  none, some, List, [], ◌∷◌, ◌++◌, map, foldl, arith,
}
use meet_millions_finance.Prelude.Text.{Text, text_eq}
use meet_millions_finance.Auth.Sessions.{is_step_up_fresh}
pub mod Passed

pub data Method : Type 0 where
  get head options post put patch delete : Method

abbrev pub is_reading : Method → Bool
is_reading get = true
is_reading head = true
is_reading options = true
is_reading _ = false

pub data SupportMode : Type 0 where
  view support : SupportMode

pub record User : Type 0 where
  pub must_change_password : Bool
  pub twofa_enabled : Bool

-- What a route asks of the session.
pub record Standing : Type 0 where
  pub twofa_satisfied : Bool
  pub step_up_at : Option ℕ

pub record Context : Type 0 where
  pub user : Option User
  pub has_api_key : Bool
  pub session : Option Standing
  pub support_access : Option SupportMode
  pub method : Method
  -- The path is one of `VIEW_MODE_EXEMPT`.
  pub is_exempt : Bool
  pub step_up_for_sensitive : Bool
  pub has_tenant : Bool
  pub is_ip_allowed : Bool
  pub roles : List Text
  pub permissions : List Text
  pub has_feature : Text → Bool
  pub now : ℕ

pub record RouteOptions : Type 0 where
  pub is_public : Bool
  pub allow_password_change : Bool
  pub allow_pending_2fa : Bool
  pub step_up : Bool
  pub step_up_minutes : Option ℕ
  pub skip_ip_check : Bool
  pub role : Option (List Text)
  pub permission : Option Text
  pub any_permission : List Text
  pub all_permissions : List Text
  pub feature : Option Text

pub data AccessError : Type 0 where
  sign_in_needed support_view_only password_change_needed twofa_needed step_up_needed ip_refused
        role_missing permission_missing feature_locked :
      AccessError

pub data Access : Type 0 where
  allowed : Access
  denied : AccessError → Access

-- `ctx.has`: `*` grants every permission.
abbrev pub has : Context → Text → Bool
has c p = contains p c.permissions || contains (b'*' ∷ []) c.permissions

abbrev pub is_view : Option SupportMode → Bool
is_view (some view) = true
is_view _ = false

abbrev pub must_change : Option User → Bool
must_change none = false
must_change (some u) = u.must_change_password

abbrev pub is_pending_2fa : Option User → Option Standing → Bool
is_pending_2fa (some u) (some s) = not s.twofa_satisfied && u.twofa_enabled
is_pending_2fa _ _ = false

abbrev pub is_stepped_up : Context → RouteOptions → Option Standing → Bool
is_stepped_up c o none = true
is_stepped_up c o (some s) =
    if c.step_up_for_sensitive
    then is_step_up_fresh c.now (or_else o.step_up_minutes 15) s.step_up_at
    else is_some s.step_up_at

abbrev pub lacks_role : Context → Option (List Text) → Bool
lacks_role c none = false
lacks_role c (some needed) = not (any (λ r. contains r c.roles) needed)

abbrev pub lacks_permission : Context → Option Text → Bool
lacks_permission c none = false
lacks_permission c (some p) = not (has c p)

abbrev pub lacks_any : Context → List Text → Bool
lacks_any c [] = false
lacks_any c (p ∷ ps) = not (any (has c) (p ∷ ps))

abbrev pub lacks_all : Context → List Text → Bool
lacks_all c ps = any (λ p. not (has c p)) ps

abbrev pub lacks_feature : Context → Option Text → Bool
lacks_feature c none = false
lacks_feature c (some f) = not (c.has_feature f)

-- `authorize`.
unfoldable pub authorize : Context → RouteOptions → Access
authorize c o =
    if o.is_public
    then allowed
    else if not (is_some c.user) && not c.has_api_key
    then denied sign_in_needed
    else if is_view c.support_access && not (is_reading c.method) && not c.is_exempt
    then denied support_view_only
    else if must_change c.user && not o.allow_password_change && not (is_some c.support_access)
    then denied password_change_needed
    else if is_pending_2fa c.user c.session && not o.allow_pending_2fa
    then denied twofa_needed
    else if o.step_up && not (is_stepped_up c o c.session)
    then denied step_up_needed
    else if c.has_tenant && not o.skip_ip_check && not c.is_ip_allowed
    then denied ip_refused
    else if lacks_role c o.role
    then denied role_missing
    else if lacks_permission c o.permission
        || lacks_any c o.any_permission
        || lacks_all c o.all_permissions
    then denied permission_missing
    else if lacks_feature c o.feature
    then denied feature_locked
    else allowed
