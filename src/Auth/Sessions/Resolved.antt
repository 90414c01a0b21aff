-- ===== src/Auth/Sessions/Resolved.antt =====
-- When a token resolves to a session.
use meet_millions_finance.Prelude.{
  ltb, leb, ◌==◌, Bool-cases, nat_eq, length, ℕ, ◌≤◌, ◌<◌, ◌≡◌, refl, ap, ◌∙◌, inl, inr, Bool, true,
  false, ◌&&◌, Option, none, some, List, [], ◌∷◌, ◌++◌, arith,
}
use meet_millions_finance.Prelude.Text.{
  Text, text_eq, starts_with, split_dots, HasNoDot, split_dots-word, split_dots-append,
}
use meet_millions_finance.Auth.Sessions.{
  Session, NewSession, find_hash, auth_secret, session_prefix, is_past, is_idle, add_minutes,
  add_hours, signature, token_of, new_session, create_session, is_well_formed, resolve_found,
  resolve_session,
}

before_expiry : (now t : ℕ) → is_past now t ≡ false → now ≤ t
before_expiry now t h = ground arith

seen_lately :
    (now idle seen : ℕ)
    → (ltb 0 idle && is_past now (add_minutes idle seen)) ≡ false
    → 0 < idle
    → now ≤ add_minutes idle seen
seen_lately now idle seen h i = ground arith

four : (a : Bool) (n : ℕ) → 20 ≤ n → a ≡ true → (a && leb 20 n && 32 == 32 && true) ≡ true
four a n h e = ground arith

module _ (sha256 : Text → Text) (hmac : Text → Text → Text) where
  found_live :
      (now idle reason : ℕ) (o : Option Session) (rows : List Session) {s : Session}
      → (resolve_found sha256 hmac now idle reason o rows).session ≡ some s
      → (o ≡ some s)
        × (s.revoked_at ≡ none)
        × (is_past now s.expires_at ≡ false)
        × (is_idle sha256 hmac now idle s ≡ false)
        × ((resolve_found sha256 hmac now idle reason o rows).rows ≡ rows)
  found_live now idle reason none rows e = cc
  found_live now idle reason (some x) rows {s} e = ground arith

  -- A token that resolves is well formed under the deployment's secret, and its session is the one
  -- stored under the token's hash, not revoked, not past its expiry and, with an idle limit, seen within
  -- it; resolving it leaves the table as it was.
  pub resolve_session_lem :
      (now idle reason : ℕ) (secret : Option Text) (token : Text) (rows : List Session)
      {s : Session}
      → (resolve_session sha256 hmac now idle reason secret token rows).session ≡ some s
      → (is_well_formed sha256 hmac secret token ≡ true)
        × (find_hash (sha256 token) rows ≡ some s)
        × (s.revoked_at ≡ none)
        × (now ≤ s.expires_at)
        × (0 < idle → now ≤ add_minutes idle s.last_seen_at)
        × ((resolve_session sha256 hmac now idle reason secret token rows).rows ≡ rows)
  unfolding resolve_session
  resolve_session_lem now idle reason secret token rows {s} e =
      elim (Bool-cases (is_well_formed sha256 hmac secret token)) [
        | inl w ↦
            let live =
              found_live now idle reason (find_hash (sha256 token) rows) rows (rw w at e) in
            rw w (
              refl,
              live.0,
              live.1,
              before_expiry now s.expires_at (live.2),
              seen_lately now idle s.last_seen_at (live.3),
              live.4,
            )
        | inr n ↦ let bad : none ≡ some s = rw n at e in cc
      ]

  -- The parts of a token that the generator of ids and nonces and the hash function make.
  pub record IsPlain (secret id nonce : Text) : Type 0 where
    pub prefixed : starts_with id session_prefix ≡ true
    pub id_no_dot : HasNoDot id
    pub nonce_no_dot : HasNoDot nonce
    pub nonce_long : 20 ≤ length nonce
    pub signature_no_dot : HasNoDot (signature sha256 hmac secret id nonce)
    pub signature_long : length (signature sha256 hmac secret id nonce) ≡ 32

  token_parts :
      (secret id nonce : Text)
      → IsPlain secret id nonce
      → split_dots (token_of sha256 hmac secret id nonce)
        ≡ id ∷ nonce ∷ signature sha256 hmac secret id nonce ∷ []
  token_parts secret id nonce p =
      split_dots-append id _ p.id_no_dot
      ∙ ap (λ ws. id ∷ ws)
          (split_dots-append nonce _ p.nonce_no_dot
            ∙ ap (λ ws. nonce ∷ ws) (split_dots-word _ p.signature_no_dot))

  own_token :
      (secret : Option Text) (key id nonce : Text)
      → auth_secret secret ≡ some key
      → IsPlain key id nonce
      → is_well_formed sha256 hmac secret (token_of sha256 hmac key id nonce) ≡ true
  own_token secret key id nonce k p =
      rw
        (
          token_parts key id nonce p,
          p.prefixed,
          k,
          p.signature_long,
          (text_eq.beq_iff (signature sha256 hmac key id nonce)
                (signature sha256 hmac key id nonce)).1
              refl,
        )
        (four true (length nonce) p.nonce_long refl)

  found_new :
      (h : Text) (rows : List Session) (s : Session)
      → find_hash h rows ≡ none
      → s.token_hash ≡ h
      → find_hash h (rows ++ s ∷ []) ≡ some s
  found_new h [] s e q = rw ((text_eq.beq_iff s.token_hash h).1 q) refl
  found_new h (x ∷ rows) s e q = elim (Bool-cases (text_eq.beq x.token_hash h)) [
    | inl here ↦ let bad : some x ≡ none = rw here at e in cc
    | inr there ↦ rw there (found_new h rows s (rw there at e) q)
  ]

  live_found :
      (now idle reason : ℕ) (s : Session) (rows : List Session)
      → s.revoked_at ≡ none
      → now ≤ s.expires_at
      → (0 < idle → now ≤ add_minutes idle s.last_seen_at)
      → (resolve_found sha256 hmac now idle reason (some s) rows).session ≡ some s
  live_found now idle reason s rows r e i = ground arith

  -- A session that is created under a usable secret, with a plain id and nonce and a token of a new
  -- hash, is found again by its token from then on until it expires, as long as it was made within the
  -- idle limit, if there is one.
  pub created_session_resolves :
      (now later idle reason : ℕ) (secret : Option Text) (key id nonce : Text) (n : NewSession)
      (rows : List Session)
      → auth_secret secret ≡ some key
      → IsPlain key id nonce
      → find_hash (sha256 (token_of sha256 hmac key id nonce)) rows ≡ none
      → later ≤ add_hours n.ttl_hours now
      → (0 < idle → later ≤ add_minutes idle now)
      → let token = token_of sha256 hmac key id nonce in
        let made = new_session sha256 hmac now token id n in
        (create_session sha256 hmac now secret id nonce n rows ≡ some (token, rows ++ made ∷ []))
        × ((resolve_session sha256 hmac later idle reason secret token (rows ++ made ∷ [])).session
            ≡ some made)
  unfolding create_session resolve_session
  created_session_resolves now later idle reason secret key id nonce n rows k p fresh x i =
      let token = token_of sha256 hmac key id nonce in
      let made = new_session sha256 hmac now token id n in
      (
        rw k refl,
        rw (own_token secret key id nonce k p, found_new (sha256 token) rows made fresh refl)
            (live_found later idle reason made (rows ++ made ∷ []) refl x i),
      )
