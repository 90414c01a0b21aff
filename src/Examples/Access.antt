-- ===== src/Examples/Access.antt =====
-- Sessions, requirements of routes and roles at concrete inputs.
use meet_millions_finance.Prelude.{
  nat_eq, ◌≡◌, refl, true, false, none, some, List, [], ◌∷◌, ◌++◌, arith,
}
use meet_millions_finance.Prelude.Text.{split_dots, Text, text_eq}
use meet_millions_finance.Auth.Sessions.{
  Session, NewSession, mark_two_factor_satisfied, new_session, token_of, create_session,
  resolve_session, revoke_session,
}
use meet_millions_finance.Auth.Sessions.Resolved.{IsPlain, created_session_resolves}
use meet_millions_finance.Auth.Sessions.Revoked.{rows_after_all, satisfy, revoked_is_final}
use meet_millions_finance.Auth.Access.{Context, RouteOptions, Method, authorize, allowed}
use meet_millions_finance.Auth.Access.Passed.{MayPass, authorize_lem}

abbrev sixteen : Text
sixteen =
    b'k' ∷ b'e' ∷ b'y' ∷ b'k' ∷ b'e' ∷ b'y' ∷ b'k' ∷ b'e' ∷ b'y' ∷ b'k' ∷ b'e' ∷ b'y' ∷ b'k' ∷ b'e'
    ∷ b'y' ∷ b'1' ∷ []

-- Stand-ins for the hash functions, the first with 32 characters without a dot.
abbrev sign : Text → Text → Text
sign secret text = sixteen ++ sixteen

abbrev hash : Text → Text
hash text = text

abbrev id : Text
id = b's' ∷ b'e' ∷ b's' ∷ b'_' ∷ b'1' ∷ []

abbrev nonce : Text
nonce = sixteen ++ b'a' ∷ b'b' ∷ b'c' ∷ b'd' ∷ []

plain : IsPlain hash sign sixteen id nonce
plain = record {
  prefixed = ground arith;
  id_no_dot = ground arith;
  nonce_no_dot = ground arith;
  nonce_long = omega arith;
  signature_no_dot = ground arith;
  signature_long = refl;
}

abbrev asked : NewSession
asked = record {
  user_id = 7;
  tenant_id = some 1;
  active_company_id = none;
  twofa_satisfied = false;
  ttl_hours = 12;
  impersonator_user_id = none;
}

abbrev token : Text
token = token_of hash sign sixteen id nonce

abbrev made : Session
made = new_session hash sign 1000 token id asked

created_session_resolves_example :
    (create_session hash sign 1000 (some sixteen) id nonce asked [] ≡ some (token, made ∷ []))
    × ((resolve_session hash sign 2000 30 5 (some sixteen) token (made ∷ [])).session ≡ some made)
created_session_resolves_example =
    created_session_resolves hash sign 1000 2000 30 5 (some sixteen) sixteen id nonce asked []
      (ground arith) plain refl (omega arith) (λ _. omega arith)

abbrev other_id : Text
other_id = b's' ∷ b'e' ∷ b's' ∷ b'_' ∷ b'2' ∷ []

abbrev other_token : Text
other_token = token_of hash sign sixteen other_id nonce

abbrev other_made : Session
other_made = new_session hash sign 1000 other_token other_id asked

abbrev after_revoking : List Session
after_revoking =
    rows_after_all hash sign (satisfy 1500 id ∷ [])
      (revoke_session 1200 6 id (other_made ∷ made ∷ []))

resolves :
    (resolve_session hash sign 2000 0 5 (some sixteen) other_token after_revoking).session
    ≡ some other_made
unfolding resolve_session revoke_session mark_two_factor_satisfied split_dots
resolves = refl

revoked_is_final_example : text_eq.beq other_id id ≡ false
revoked_is_final_example =
    revoked_is_final hash sign 1200 6 id (other_made ∷ made ∷ []) (satisfy 1500 id ∷ []) (tt, tt)
      2000 0 5 (some sixteen) other_token other_made resolves

abbrev context : Context
context = record {
  user = some (record { must_change_password = false; twofa_enabled = true });
  has_api_key = false;
  session = some (record { twofa_satisfied = true; step_up_at = some 900 });
  support_access = none;
  method = Method.post;
  is_exempt = false;
  step_up_for_sensitive = true;
  has_tenant = true;
  is_ip_allowed = true;
  roles = sixteen ∷ [];
  permissions = nonce ∷ [];
  has_feature = λ f. true;
  now = 1000;
}

abbrev route : RouteOptions
route = record {
  is_public = false;
  allow_password_change = false;
  allow_pending_2fa = false;
  step_up = true;
  step_up_minutes = none;
  skip_ip_check = false;
  role = some (sixteen ∷ []);
  permission = some nonce;
  any_permission = [];
  all_permissions = nonce ∷ [];
  feature = none;
}

passes : authorize context route ≡ allowed
unfolding authorize
passes = refl

authorize_lem_example : MayPass context route
authorize_lem_example = authorize_lem context route refl passes
