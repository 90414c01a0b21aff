-- ===== src/Auth/Access/Passed.antt =====
-- What a request that passes has shown.
use meet_millions_finance.Prelude.{
  ltb, if◌then◌else◌, Bool-cases, or_else, is_some, nat_eq, any, All, contains, ℕ, ◌+◌, ◌*◌, ◌≤◌,
  ◌≡◌, refl, sym, ap, ap₂, ◌∙◌, ◌≢◌, inl, inr, Bool, true, false, not, ◌&&◌, ◌||◌, Option, none,
  some, List, [], ◌∷◌, arith,
}
use mathlib.Core.Path.{subst}
use meet_millions_finance.Prelude.Text.{Text, text_eq}
use meet_millions_finance.Auth.Sessions.{is_step_up_fresh}
use meet_millions_finance.Auth.Access.{
  lacks_role, AccessError, Context, RouteOptions, User, Standing, SupportMode, Access, allowed,
  denied, authorize, has, is_reading, is_view, must_change, is_pending_2fa, is_stepped_up,
  lacks_permission, lacks_any, lacks_all, lacks_feature,
}

-- Every guard of a route that is not public is passed.
pub record MayPass (c : Context) (o : RouteOptions) : Type 0 where
  pub signed_in : (is_some c.user || c.has_api_key) ≡ true
  pub reads_only :
      c.support_access ≡ some SupportMode.view → (is_reading c.method || c.is_exempt) ≡ true
  pub password_set :
      (u : User)
      → c.user ≡ some u
      → u.must_change_password ≡ true
      → (o.allow_password_change || is_some c.support_access) ≡ true
  pub second_factor :
      (u : User) (s : Standing)
      → c.user ≡ some u
      → c.session ≡ some s
      → u.twofa_enabled ≡ true
      → (s.twofa_satisfied || o.allow_pending_2fa) ≡ true
  pub stepped_up :
      (s : Standing) → c.session ≡ some s → o.step_up ≡ true → is_some s.step_up_at ≡ true
  pub recently :
      (s : Standing) (at : ℕ)
      → c.session ≡ some s
      → o.step_up ≡ true
      → c.step_up_for_sensitive ≡ true
      → s.step_up_at ≡ some at
      → c.now ≤ at + or_else o.step_up_minutes 15 * 60000
  pub known_address : c.has_tenant ≡ true → (o.skip_ip_check || c.is_ip_allowed) ≡ true
  pub in_role :
      (needed : List Text)
      → o.role ≡ some needed
      → (r : Text) × (contains r needed ≡ true) × (contains r c.roles ≡ true)
  pub permitted : (p : Text) → o.permission ≡ some p → has c p ≡ true
  pub any_permitted :
      o.any_permission ≢ [] → (p : Text) × (contains p o.any_permission ≡ true) × (has c p ≡ true)
  pub all_permitted : All (λ p. has c p ≡ true) o.all_permissions
  pub featured : (f : Text) → o.feature ≡ some f → c.has_feature f ≡ true

passes :
    (test : Bool) (e : AccessError) (rest : Access)
    → (if test then denied e else rest) ≡ allowed
    → (test ≡ false) × (rest ≡ allowed)
passes true e rest h = cc
passes false e rest h = (refl, h)

passes_second :
    (test : Bool) (rest : Access)
    → test ≡ false
    → (if test then allowed else rest) ≡ allowed
    → rest ≡ allowed
passes_second true rest n h = cc
passes_second false rest n h = h

somebody : (a b : Bool) → (not a && not b) ≡ false → (a || b) ≡ true
somebody a b h = ground arith

no_first : (a b d : Bool) → (a || b || d) ≡ false → a ≡ false
no_first a b d h = ground arith

no_middle : (a b d : Bool) → (a || b || d) ≡ false → b ≡ false
no_middle a b d h = ground arith

no_last : (a b d : Bool) → (a || b || d) ≡ false → d ≡ false
no_last a b d h = ground arith

-- The guards of a route that lets pass.
open_guards :
    (c : Context) (o : RouteOptions)
    → o.is_public ≡ false
    → authorize c o ≡ allowed
    → ((is_some c.user || c.has_api_key) ≡ true)
      × ((is_view c.support_access && not (is_reading c.method) && not c.is_exempt) ≡ false)
      × ((must_change c.user && not o.allow_password_change && not (is_some c.support_access))
          ≡ false)
      × ((is_pending_2fa c.user c.session && not o.allow_pending_2fa) ≡ false)
      × ((o.step_up && not (is_stepped_up c o c.session)) ≡ false)
      × ((c.has_tenant && not o.skip_ip_check && not c.is_ip_allowed) ≡ false)
      × (lacks_role c o.role ≡ false)
      × (lacks_permission c o.permission ≡ false)
      × (lacks_any c o.any_permission ≡ false)
      × (lacks_all c o.all_permissions ≡ false)
      × (lacks_feature c o.feature ≡ false)
unfolding authorize
open_guards c o n e =
    let s0 = passes_second o.is_public _ n e in
    let s1 = passes _ _ _ s0 in
    let s2 = passes _ _ _ (s1.1) in
    let s3 = passes _ _ _ (s2.1) in
    let s4 = passes _ _ _ (s3.1) in
    let s5 = passes _ _ _ (s4.1) in
    let s6 = passes _ _ _ (s5.1) in
    let s7 = passes _ _ _ (s6.1) in
    let s8 = passes _ _ _ (s7.1) in
    let s9 = passes _ _ _ (s8.1) in
    (
      somebody (is_some c.user) c.has_api_key s1.0,
      s2.0,
      s3.0,
      s4.0,
      s5.0,
      s6.0,
      s7.0,
      no_first (lacks_permission c o.permission) (lacks_any c o.any_permission)
          (lacks_all c o.all_permissions) s8.0,
      no_middle (lacks_permission c o.permission) (lacks_any c o.any_permission)
          (lacks_all c o.all_permissions) s8.0,
      no_last (lacks_permission c o.permission) (lacks_any c o.any_permission)
          (lacks_all c o.all_permissions) s8.0,
      s9.0,
    )

none_lacking :
    (c : Context) (ps : List Text) → lacks_all c ps ≡ false → All (λ p. has c p ≡ true) ps
none_lacking c [] h = tt
none_lacking c (p ∷ ps) h = (ground arith, none_lacking c ps (ground arith))

permission_held :
    (c : Context) (o : Option Text) (p : Text)
    → lacks_permission c o ≡ false
    → o ≡ some p
    → has c p ≡ true
permission_held c none p h e = cc
permission_held c (some q) p h e =
    let same : q ≡ p = cc in
    let held : has c q ≡ true = ground arith in subst (λ x. has c x ≡ true) same held

feature_held :
    (c : Context) (o : Option Text) (f : Text)
    → lacks_feature c o ≡ false
    → o ≡ some f
    → c.has_feature f ≡ true
feature_held c none f h e = cc
feature_held c (some q) f h e =
    let same : q ≡ f = cc in
    let held : c.has_feature q ≡ true = ground arith in
    subst (λ x. c.has_feature x ≡ true) same held

-- One of the texts passes a test that some text passes.
one_of :
    (p : Text → Bool) (xs : List Text)
    → any p xs ≡ true
    → (x : Text) × (contains x xs ≡ true) × (p x ≡ true)
one_of p [] h = cc
one_of p (x ∷ xs) h = elim (Bool-cases (p x)) [
  | inl here ↦ (x, rw ((text_eq.beq_iff x x).1 refl) refl, here)
  | inr there ↦
      let rest = one_of p xs (rw there at h) in
      let deep : contains (rest.0) xs ≡ true = rest.1 in (rest.0, rw deep (ground arith), rest.2)
]

role_held :
    (c : Context) (o : Option (List Text)) (needed : List Text)
    → lacks_role c o ≡ false
    → o ≡ some needed
    → (r : Text) × (contains r needed ≡ true) × (contains r c.roles ≡ true)
role_held c none needed h e = cc
role_held c (some ks) needed h e =
    let same : ks ≡ needed = cc in
    let held : any (λ r. contains r c.roles) ks ≡ true = ground arith in
    one_of (λ r. contains r c.roles) needed
      (subst (λ x. any (λ r. contains r c.roles) x ≡ true) same held)

any_held :
    (c : Context) (ps : List Text)
    → lacks_any c ps ≡ false
    → ps ≢ []
    → (p : Text) × (contains p ps ≡ true) × (has c p ≡ true)
any_held c [] h n = elim (n refl) [ ]
any_held c (p ∷ ps) h n =
    let held : any (has c) (p ∷ ps) ≡ true = ground arith in one_of (has c) (p ∷ ps) held

within : (n a m : ℕ) → not (ltb (a + m * 60 * 1000) n) ≡ true → n ≤ a + m * 60000
within n a m h = ground arith

fresh :
    (c : Context) (o : RouteOptions) (s : Standing) (at : ℕ)
    → is_stepped_up c o (some s) ≡ true
    → c.step_up_for_sensitive ≡ true
    → s.step_up_at ≡ some at
    → c.now ≤ at + or_else o.step_up_minutes 15 * 60000
fresh c o s at h e f =
    let given : is_step_up_fresh c.now (or_else o.step_up_minutes 15) (some at) ≡ true =
      rw (e, f) at h in
    within c.now at (or_else o.step_up_minutes 15) given

confirmed :
    (c : Context) (o : RouteOptions) (s : Standing)
    → is_stepped_up c o (some s) ≡ true
    → is_some s.step_up_at ≡ true
confirmed c o s h = ground arith

factor :
    (user : Option User) (session : Option Standing) (pending_allowed : Bool) (u : User)
    (s : Standing)
    → (is_pending_2fa user session && not pending_allowed) ≡ false
    → user ≡ some u
    → session ≡ some s
    → u.twofa_enabled ≡ true
    → (s.twofa_satisfied || pending_allowed) ≡ true
factor user session pending_allowed u s h q r t =
    let now : (is_pending_2fa (some u) (some s) && not pending_allowed) ≡ false =
      sym (ap₂ (λ x y. is_pending_2fa x y && not pending_allowed) q r) ∙ h in
    ground arith

both : (a b : Bool) → (a && not b) ≡ false → a ≡ true → b ≡ true
both a b h e = ground arith

either : (a b d : Bool) → (a && not b && not d) ≡ false → a ≡ true → (b || d) ≡ true
either a b d h e = ground arith

-- A request that passes a route that is not public comes from a user or an API key. It only reads in a
-- view-only support session, off the paths that end it. Its user has no password to change, unless the
-- route allows that or support acts for the user; the second factor is given or the route is part of
-- giving it; on a route that asks to confirm, the session has confirmed, and within the minutes of the
-- route (15 by default) where the organisation asks again for sensitive actions; the address is
-- allowed; the user has one of the roles, the permission, one of the permissions and all of the
-- permissions that the route names, and the feature.
pub authorize_lem :
    (c : Context) (o : RouteOptions) → o.is_public ≡ false → authorize c o ≡ allowed → MayPass c o
authorize_lem c o n e =
    let g = open_guards c o n e in
    record {
      signed_in = g.0;
      reads_only = λ q.
          either (is_view c.support_access) (is_reading c.method) c.is_exempt g.1 (ap is_view q);
      password_set = λ u q m.
          either (must_change c.user) o.allow_password_change (is_some c.support_access) g.2
            (ap must_change q ∙ m);
      second_factor = λ u s q r t. factor c.user c.session o.allow_pending_2fa u s g.3 q r t;
      stepped_up = λ s q t.
          confirmed c o s
            (sym (ap (is_stepped_up c o) q) ∙ both o.step_up (is_stepped_up c o c.session) g.4 t);
      known_address = λ t. either c.has_tenant o.skip_ip_check c.is_ip_allowed g.5 t;
      recently = λ s at q t a f.
          fresh c o s at
            (sym (ap (is_stepped_up c o) q) ∙ both o.step_up (is_stepped_up c o c.session) g.4 t) a
            f;
      in_role = λ ks q. role_held c o.role ks g.6 q;
      permitted = λ p q. permission_held c o.permission p g.7 q;
      any_permitted = λ q. any_held c o.any_permission g.8 q;
      all_permitted = none_lacking c o.all_permissions g.9;
      featured = λ f q. feature_held c o.feature f g.10 q;
    }
