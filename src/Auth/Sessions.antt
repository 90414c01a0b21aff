-- ===== src/Auth/Sessions.antt =====
-- Sessions and their tokens (src/auth/session.js). Texts are lists of character codes, users and
-- companies are numbers, instants are milliseconds; the hash functions are arguments.
use meet_millions_finance.Prelude.{
  ltb, leb, ◌==◌, if◌then◌else◌, ltb→lt, leb→le, ==_iff, ==_refl, Bool-cases, Option-cases, or_else,
  is_some, Eq, nat_eq, beq_of, beq_of_iff, length, filter, any, All, length-append, length-filter,
  contains, contains-append, contains-filter, filter-contains, sum_by, sum_by-append, All-imp,
  All-and, All-append, ℕ, zero, suc, ◌+◌, ◌-◌, ◌*◌, ◌/◌, ◌%◌, ◌^◌, ◌≤◌, ◌<◌, max, min, String, ◌≡◌,
  refl, sym, ap, ap₂, ◌∙◌, ◌≢◌, ◌↔◌, ◌⊎◌, inl, inr, Bool, true, false, not, ◌&&◌, ◌||◌, Option,
  none, some, List, [], ◌∷◌, ◌++◌, map, foldl, arith,
}
use meet_millions_finance.Prelude.Text.{Text, text_eq, slice, starts_with, split_dots}
pub mod Resolved
pub mod Revoked

-- The columns of `sessions` that are read back.
pub record Session : Type 0 where
  pub id : Text
  pub user_id : ℕ
  pub tenant_id : Option ℕ
  pub token_hash : Text
  pub active_company_id : Option ℕ
  pub twofa_satisfied : Bool
  pub step_up_at : Option ℕ
  pub impersonator_user_id : Option ℕ
  pub last_seen_at : ℕ
  pub expires_at : ℕ
  pub revoked_at : Option ℕ
  pub revoked_reason : Option ℕ

-- The options of the call.
pub record NewSession : Type 0 where
  pub user_id : ℕ
  pub tenant_id : Option ℕ
  pub active_company_id : Option ℕ
  pub twofa_satisfied : Bool
  pub ttl_hours : ℕ
  pub impersonator_user_id : Option ℕ

-- `replace-with-`.
abbrev pub placeholder : Text
placeholder =
    b'r' ∷ b'e' ∷ b'p' ∷ b'l' ∷ b'a' ∷ b'c' ∷ b'e' ∷ b'-' ∷ b'w' ∷ b'i' ∷ b't' ∷ b'h' ∷ b'-' ∷ []

-- `authSecret`: none where the source throws.
abbrev pub auth_secret : Option Text → Option Text
auth_secret none = none
auth_secret (some s) = if ltb (length s) 16 || starts_with s placeholder then none else some s

-- `ses_`.
abbrev pub session_prefix : Text
session_prefix = b's' ∷ b'e' ∷ b's' ∷ b'_' ∷ []

-- `isPast` of an instant.
abbrev pub is_past : ℕ → ℕ → Bool
is_past now t = ltb t now

abbrev pub add_minutes : ℕ → ℕ → ℕ
add_minutes minutes t = t + minutes * 60 * 1000

abbrev pub add_hours : ℕ → ℕ → ℕ
add_hours hours t = t + hours * 3600 * 1000

abbrev pub find_hash : Text → List Session → Option Session
find_hash h [] = none
find_hash h (s ∷ rows) =
    let rest = find_hash h rows in if text_eq.beq s.token_hash h then some s else rest

-- `UPDATE sessions SET … WHERE …`.
abbrev pub update_where : (Session → Bool) → (Session → Session) → List Session → List Session
update_where p g rows = map (λ (s : Session). if p s then g s else s) rows

abbrev pub has_id : Text → Session → Bool
has_id k s = text_eq.beq s.id k

abbrev pub revoke_row : ℕ → ℕ → Session → Session
revoke_row now reason s = record s { revoked_at = some now; revoked_reason = some reason }

-- `revokeSession`.
unfoldable pub revoke_session : ℕ → ℕ → Text → List Session → List Session
revoke_session now reason k rows = update_where (has_id k) (revoke_row now reason) rows

abbrev pub is_other : Option Text → Session → Bool
is_other none s = true
is_other (some k) s = not (text_eq.beq s.id k)

-- `revokeAllUserSessions`.
unfoldable pub revoke_all_user_sessions : ℕ → ℕ → ℕ → Option Text → List Session → List Session
revoke_all_user_sessions now reason user except rows =
    update_where
      (λ (s : Session). s.user_id == user && not (is_some s.revoked_at) && is_other except s)
      (revoke_row now reason) rows

-- `touchSession`.
unfoldable pub touch_session : ℕ → Session → List Session → List Session
touch_session now s rows =
    if ltb (now - s.last_seen_at) 60000
    then rows
    else update_where (has_id s.id) (λ (r : Session). record r { last_seen_at = now }) rows

-- `markTwoFactorSatisfied`.
unfoldable pub mark_two_factor_satisfied : ℕ → Text → List Session → List Session
mark_two_factor_satisfied now k rows =
    update_where (has_id k)
      (λ (r : Session). record r { twofa_satisfied = true; step_up_at = some now }) rows

-- `setActiveCompany`.
unfoldable pub set_active_company : ℕ → Text → List Session → List Session
set_active_company company k rows =
    update_where (has_id k) (λ (r : Session). record r { active_company_id = some company }) rows

-- `purgeExpiredSessions`.
unfoldable pub purge_expired_sessions : ℕ → ℕ → List Session → List Session
purge_expired_sessions now older_than rows =
    filter
      (λ (s : Session).
        not
          (ltb s.expires_at now || elim s.revoked_at [ none ↦ false | some t ↦ ltb t older_than ]))
      rows

-- `isStepUpFresh`.
abbrev pub is_step_up_fresh : ℕ → ℕ → Option ℕ → Bool
is_step_up_fresh now minutes none = false
is_step_up_fresh now minutes (some t) = not (is_past now (add_minutes minutes t))

-- The row found, if any, and the table after the call.
pub record Resolution : Type 0 where
  pub session : Option Session
  pub rows : List Session

module _ (sha256 : Text → Text) (hmac : Text → Text → Text) where
  -- The signature in a token.
  abbrev pub signature : Text → Text → Text → Text
  signature secret id nonce = slice 32 (hmac secret (id ++ b'.' ∷ nonce))

  abbrev pub token_of : Text → Text → Text → Text
  token_of secret id nonce = id ++ b'.' ∷ (nonce ++ b'.' ∷ signature secret id nonce)

  abbrev pub new_session : ℕ → Text → Text → NewSession → Session
  new_session now token id n = record {
    id = id;
    user_id = n.user_id;
    tenant_id = n.tenant_id;
    token_hash = sha256 token;
    active_company_id = n.active_company_id;
    twofa_satisfied = n.twofa_satisfied;
    step_up_at = if n.twofa_satisfied then some now else none;
    impersonator_user_id = n.impersonator_user_id;
    last_seen_at = now;
    expires_at = add_hours n.ttl_hours now;
    revoked_at = none;
    revoked_reason = none;
  }

  abbrev pub create_with :
      ℕ → Option Text → Text → Text → NewSession → List Session → Option (Text × List Session)
  create_with now none id nonce n rows = none
  create_with now (some secret) id nonce n rows =
      let token = token_of secret id nonce in some (token, rows ++ new_session now token id n ∷ [])

  -- `createSession`: the token and the table, or none where the source throws.
  unfoldable pub create_session :
      ℕ → Option Text → Text → Text → NewSession → List Session → Option (Text × List Session)
  create_session now secret id nonce n rows = create_with now (auth_secret secret) id nonce n rows

  abbrev pub is_signed : Option Text → Text → Text → Text → Bool
  is_signed none id nonce sig = false
  is_signed (some secret) id nonce sig = text_eq.beq (signature secret id nonce) sig

  abbrev pub well_formed_parts : Option Text → List Text → Bool
  well_formed_parts secret (id ∷ nonce ∷ sig ∷ []) =
      starts_with id session_prefix
      && leb 20 (length nonce)
      && length sig == 32
      && is_signed (auth_secret secret) id nonce sig
  well_formed_parts secret _ = false

  -- `isWellFormed`.
  abbrev pub is_well_formed : Option Text → Text → Bool
  is_well_formed secret token = well_formed_parts secret (split_dots token)

  abbrev pub is_idle : ℕ → ℕ → Session → Bool
  is_idle now idle_minutes s =
      ltb 0 idle_minutes && is_past now (add_minutes idle_minutes s.last_seen_at)

  -- `reason` is the text `idle_timeout`.
  abbrev pub resolve_found : ℕ → ℕ → ℕ → Option Session → List Session → Resolution
  resolve_found now idle_minutes reason none rows = record { session = none; rows = rows }
  resolve_found now idle_minutes reason (some s) rows =
      if is_some s.revoked_at || is_past now s.expires_at
      then record { session = none; rows = rows }
      else if is_idle now idle_minutes s
      then record { session = none; rows = revoke_session now reason s.id rows }
      else record { session = some s; rows = rows }

  -- `resolveSession`.
  unfoldable pub resolve_session : ℕ → ℕ → ℕ → Option Text → Text → List Session → Resolution
  resolve_session now idle_minutes reason secret token rows =
      if is_well_formed secret token
      then resolve_found now idle_minutes reason (find_hash (sha256 token) rows) rows
      else record { session = none; rows = rows }
