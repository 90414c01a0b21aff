-- ===== src/Auth/Sessions/Revoked.antt =====
-- A revoked session stays revoked.
use meet_millions_finance.Prelude.{
  ltb, if◌then◌else◌, Bool-cases, is_some, nat_eq, filter, All, All-append, ℕ, ◌-◌, ◌≡◌, refl, ap,
  inl, inr, Bool, true, false, ◌||◌, Option, none, some, List, [], ◌∷◌,
}
use mathlib.Core.Path.{subst}
use meet_millions_finance.Prelude.Text.{Text, text_eq}
use meet_millions_finance.Auth.Sessions.{
  Session, NewSession, Resolution, find_hash, update_where, has_id, revoke_row, revoke_session,
  revoke_all_user_sessions, touch_session, mark_two_factor_satisfied, set_active_company,
  purge_expired_sessions, create_session, create_with, auth_secret, resolve_session, resolve_found,
  is_well_formed, is_past, is_idle,
}
use meet_millions_finance.Auth.Sessions.Resolved.{resolve_session_lem}

-- Every session with the id is revoked.
abbrev IsRevoked : Text → Session → Type 0
IsRevoked k s = text_eq.beq s.id k ≡ true → is_some s.revoked_at ≡ true

abbrev pub AllRevoked : Text → List Session → Type 0
AllRevoked k rows = All (IsRevoked k) rows

All-filter {κ} :
    (P : Session → Type κ) (p : Session → Bool) (rows : List Session)
    → All P rows
    → All P (filter p rows)
All-filter P p [] h = tt
All-filter P p (s ∷ rows) h = elim (Bool-cases (p s)) [
  | inl e ↦ rw e (h.0, All-filter P p rows h.1)
  | inr e ↦ rw e (All-filter P p rows h.1)
]

-- A patch that keeps the id and revokes nothing back keeps the revoked sessions revoked.
update-AllRevoked :
    (k : Text) (p : Session → Bool) (g : Session → Session) (rows : List Session)
    → ((s : Session) → (g s).id ≡ s.id)
    → ((s : Session) → is_some s.revoked_at ≡ true → is_some (g s).revoked_at ≡ true)
    → AllRevoked k rows
    → AllRevoked k (update_where p g rows)
update-AllRevoked k p g [] i r h = tt
update-AllRevoked k p g (s ∷ rows) i r h = elim (Bool-cases (p s)) [
  | inl e ↦ rw e ((λ q. r s (h.0 (rw (i s) at q))), update-AllRevoked k p g rows i r h.1)
  | inr e ↦ rw e (h.0, update-AllRevoked k p g rows i r h.1)
]

-- Revoking a session revokes every row with its id.
pub revoke-AllRevoked :
    (now reason : ℕ) (k : Text) (rows : List Session)
    → AllRevoked k (revoke_session now reason k rows)
unfolding revoke_session
revoke-AllRevoked now reason k [] = tt
revoke-AllRevoked now reason k (s ∷ rows) = elim (Bool-cases (has_id k s)) [
  | inl e ↦ rw e ((λ q. refl), revoke-AllRevoked now reason k rows)
  | inr e ↦ rw e ((λ q. cc), revoke-AllRevoked now reason k rows)
]

module _ (sha256 : Text → Text) (hmac : Text → Text → Text) where
  -- A call on the sessions table; the new id of a session is given.
  pub data SessionCall : Type 0 where
    create : ℕ → Option Text → Text → Text → NewSession → SessionCall
    resolve : ℕ → ℕ → ℕ → Option Text → Text → SessionCall
    touch : ℕ → Session → SessionCall
    satisfy : ℕ → Text → SessionCall
    choose_company : ℕ → Text → SessionCall
    revoke : ℕ → ℕ → Text → SessionCall
    revoke_all : ℕ → ℕ → ℕ → Option Text → SessionCall
    purge : ℕ → ℕ → SessionCall

  abbrev pub created_rows : Option (Text × List Session) → List Session → List Session
  created_rows none rows = rows
  created_rows (some (token, rows')) rows = rows'

  abbrev pub rows_after : SessionCall → List Session → List Session
  rows_after (create now secret id nonce n) rows =
      created_rows (create_session sha256 hmac now secret id nonce n rows) rows
  rows_after (resolve now idle reason secret token) rows =
      (resolve_session sha256 hmac now idle reason secret token rows).rows
  rows_after (touch now s) rows = touch_session now s rows
  rows_after (satisfy now k) rows = mark_two_factor_satisfied now k rows
  rows_after (choose_company c k) rows = set_active_company c k rows
  rows_after (revoke now reason k) rows = revoke_session now reason k rows
  rows_after (revoke_all now reason user except) rows =
      revoke_all_user_sessions now reason user except rows
  rows_after (purge now older_than) rows = purge_expired_sessions now older_than rows

  -- No later session gets the id.
  abbrev pub IsOther : Text → SessionCall → Type 0
  IsOther k (create now secret id nonce n) = text_eq.beq id k ≡ false
  IsOther k _ = Unit

  abbrev pub rows_after_all : List SessionCall → List Session → List Session
  rows_after_all [] rows = rows
  rows_after_all (c ∷ cs) rows = rows_after_all cs (rows_after c rows)

  created-AllRevoked :
      (k : Text) (now : ℕ) (secret : Option Text) (id nonce : Text) (n : NewSession)
      (rows : List Session)
      → text_eq.beq id k ≡ false
      → AllRevoked k rows
      → AllRevoked k (created_rows (create_with sha256 hmac now secret id nonce n rows) rows)
  created-AllRevoked k now none id nonce n rows o h = h
  created-AllRevoked k now (some key) id nonce n rows o h =
      All-append (IsRevoked k) rows _ h ((λ q. cc), tt)

  either-AllRevoked :
      (k : Text) (test : Bool) (x y : Resolution)
      → AllRevoked k x.rows
      → AllRevoked k y.rows
      → AllRevoked k (if test then x else y).rows
  either-AllRevoked k true x y h g = h
  either-AllRevoked k false x y h g = g

  either_rows :
      (k : Text) (test : Bool) (x y : List Session)
      → AllRevoked k x
      → AllRevoked k y
      → AllRevoked k (if test then x else y)
  either_rows k true x y h g = h
  either_rows k false x y h g = g

  resolved-AllRevoked :
      (k : Text) (now idle reason : ℕ) (o : Option Session) (rows : List Session)
      → AllRevoked k rows
      → AllRevoked k (resolve_found sha256 hmac now idle reason o rows).rows
  unfolding revoke_session
  resolved-AllRevoked k now idle reason none rows h = h
  resolved-AllRevoked k now idle reason (some s) rows h =
      either-AllRevoked k (is_some s.revoked_at || is_past now s.expires_at) _ _ h (
        either-AllRevoked k (is_idle sha256 hmac now idle s) _ _
          (update-AllRevoked k (has_id s.id) (revoke_row now reason) rows (λ s. refl) (λ s e. refl)
            h)
          h)

  after-AllRevoked :
      (k : Text) (c : SessionCall) (rows : List Session)
      → IsOther k c
      → AllRevoked k rows
      → AllRevoked k (rows_after c rows)
  unfolding create_session resolve_session revoke_session revoke_all_user_sessions touch_session
      mark_two_factor_satisfied set_active_company purge_expired_sessions
  after-AllRevoked k (create now secret id nonce n) rows o h =
      created-AllRevoked k now (auth_secret secret) id nonce n rows o h
  after-AllRevoked k (resolve now idle reason secret token) rows o h =
      either-AllRevoked k (is_well_formed sha256 hmac secret token) _ _
        (resolved-AllRevoked k now idle reason (find_hash (sha256 token) rows) rows h) h
  after-AllRevoked k (touch now s) rows o h =
      either_rows k (ltb (now - s.last_seen_at) 60000) _ _ h
        (update-AllRevoked k (has_id s.id) _ rows (λ s. refl) (λ s e. e) h)
  after-AllRevoked k (satisfy now i) rows o h =
      update-AllRevoked k (has_id i) _ rows (λ s. refl) (λ s e. e) h
  after-AllRevoked k (choose_company c i) rows o h =
      update-AllRevoked k (has_id i) _ rows (λ s. refl) (λ s e. e) h
  after-AllRevoked k (revoke now reason i) rows o h =
      update-AllRevoked k (has_id i) (revoke_row now reason) rows (λ s. refl) (λ s e. refl) h
  after-AllRevoked k (revoke_all now reason user except) rows o h =
      update-AllRevoked k _ (revoke_row now reason) rows (λ s. refl) (λ s e. refl) h
  after-AllRevoked k (purge now older_than) rows o h = All-filter (IsRevoked k) _ rows h

  all_after-AllRevoked :
      (k : Text) (calls : List SessionCall) (rows : List Session)
      → All (IsOther k) calls
      → AllRevoked k rows
      → AllRevoked k (rows_after_all calls rows)
  all_after-AllRevoked k [] rows o h = h
  all_after-AllRevoked k (c ∷ calls) rows o h =
      all_after-AllRevoked k calls (rows_after c rows) o.1 (after-AllRevoked k c rows o.0 h)

  found-IsRevoked :
      (k h : Text) (rows : List Session) {s : Session}
      → AllRevoked k rows
      → find_hash h rows ≡ some s
      → IsRevoked k s
  found-IsRevoked k h [] a e = cc
  found-IsRevoked k h (x ∷ rows) {s} a e = elim (Bool-cases (text_eq.beq x.token_hash h)) [
    | inl here ↦
        let found : some x ≡ some s = rw here at e in
        let same : x ≡ s = cc in subst (IsRevoked k) same a.0
    | inr there ↦ found-IsRevoked k h rows a.1 (rw there at e)
  ]

  -- Once a session is revoked, whatever sessions are created with other ids, resolved, touched, raised
  -- to two factors, moved to a company, revoked or purged afterwards, no token resolves to it again.
  pub revoked_is_final :
      (now reason : ℕ) (k : Text) (rows : List Session) (calls : List SessionCall)
      → All (IsOther k) calls
      → (later idle why : ℕ) (secret : Option Text) (token : Text) (s : Session)
      → (resolve_session sha256 hmac later idle why secret token
          (rows_after_all calls (revoke_session now reason k rows))).session
        ≡ some s
      → text_eq.beq s.id k ≡ false
  revoked_is_final now reason k rows calls o later idle why secret token s e =
      let after = rows_after_all calls (revoke_session now reason k rows) in
      let dead =
        all_after-AllRevoked k calls (revoke_session now reason k rows) o
          (revoke-AllRevoked now reason k rows) in
      let r = resolve_session_lem sha256 hmac later idle why secret token after e in
      let revoked = found-IsRevoked k (sha256 token) after dead (r.1) in
      elim (Bool-cases (text_eq.beq s.id k)) [
        | inl same ↦
            let bad : is_some s.revoked_at ≡ true = revoked same in
            let live : is_some s.revoked_at ≡ false = ap is_some (r.2) in cc
        | inr other ↦ other
      ]
