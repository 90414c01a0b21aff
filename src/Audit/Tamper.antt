-- ===== src/Audit/Tamper.antt =====
-- Two valid chains with the same head hold the same history (src/services/audit.js, `verifyChain`),
-- or they show two texts with one SHA-256 hash.
use meet_millions_finance.Prelude.{
  Bool-cases, or_else, nat_eq, length, All, ℕ, ◌+◌, ◌<◌, ◌≡◌, refl, sym, ap, ap₂, ◌∙◌, ◌≢◌, ◌⊎◌,
  inl, inr, true, Option, none, some, List, [], ◌∷◌, ◌++◌, map, arith,
}
use mathlib.Core.Path.{subst}
use meet_millions_finance.Tax.Gst.{Code, code_eq}
use meet_millions_finance.Tax.Gst.Place.{code_eq_sound, code_eq_refl}
use meet_millions_finance.Audit.Canonical.{canonical_determines, hashed_value}
use meet_millions_finance.Audit.Chain.{Linked, verify_chain_sound}
use meet_millions_finance.Audit.{
  first_sequence, last_row, valid, hashed_fields, prev_hash_of, verify_chain, AuditRow, canonical,
  hashed_text,
}

-- A hash written in hexadecimal digits: not empty, and without a colon.
abbrev pub HasNoColon : Code → Type 0
HasNoColon s = All (λ c. c ≢ b':') s

abbrev pub IsHex : Code → Type 0
IsHex s = (0 < length s) × HasNoColon s

-- Two different texts with one hash.
abbrev pub Collision : (Code → Code) → Type 0
Collision sha256 = (s t : Code) × (s ≢ t) × (sha256 s ≡ sha256 t)

-- The hash that a row stores for its predecessor: none, or one in hexadecimal digits.
abbrev pub IsLink : Option Code → Type 0
IsLink none = Unit
IsLink (some s) = IsHex s

before_colon :
    (s t p q : Code)
    → HasNoColon s
    → HasNoColon t
    → s ++ b':' ∷ p ≡ t ++ b':' ∷ q
    → (s ≡ t) × (p ≡ q)
before_colon [] [] p q f g h = (refl, cc)
before_colon [] (d ∷ t) p q f g h = ground (arith, g.0)
before_colon (c ∷ s) [] p q f g h = ground (arith, f.0)
before_colon (c ∷ s) (d ∷ t) p q f g h =
    let tails : s ++ b':' ∷ p ≡ t ++ b':' ∷ q = cc in
    let rest = before_colon s t p q f.1 g.1 tails in
    let heads : c ≡ d = cc in (ap₂ (λ x xs. x ∷ xs) heads rest.0, rest.1)

link_text : (x y : Option Code) → IsLink x → IsLink y → or_else x [] ≡ or_else y [] → x ≡ y
link_text none none f g h = refl
link_text none (some []) f g h = ground (arith, g.0)
link_text none (some (d ∷ t)) f g h = cc
link_text (some []) none f g h = ground (arith, f.0)
link_text (some (c ∷ s)) none f g h = cc
link_text (some s) (some t) f g h = ap some h

link_colon : (x : Option Code) → IsLink x → HasNoColon (or_else x [])
link_colon none f = tt
link_colon (some s) f = f.1

-- The hashed text determines the link and the serialised fields.
hashed_text_determines :
    (x y : Option Code) (xs ys : List (Option Code))
    → IsLink x
    → IsLink y
    → hashed_text x xs ≡ hashed_text y ys
    → (x ≡ y) × (canonical xs ≡ canonical ys)
hashed_text_determines x y xs ys f g h =
    let parts =
      before_colon (or_else x []) (or_else y []) _ _ (link_colon x f) (link_colon y g) h in
    (link_text x y f g parts.0, cc)

same_hash : (sha256 : Code → Code) (s t : Code) → sha256 s ≡ sha256 t → (s ≡ t) ⊎ Collision sha256
same_hash sha256 s t h = elim (Bool-cases (code_eq s t)) [
  | inl e ↦ inl (code_eq_sound s t e)
  | inr e ↦
      let differ : s ≢ t = λ q.
        let k : code_eq s t ≡ true = subst (λ x. code_eq s x ≡ true) q (code_eq_refl s) in cc in
      inr (s, t, differ, h)
]

-- Two logs that agree in the fields of every row, up to `null` and the empty text.
abbrev pub SameHistory : List AuditRow → List AuditRow → Type 0
SameHistory xs ys =
    map (λ r. map hashed_value (hashed_fields r)) xs
    ≡ map (λ r. map hashed_value (hashed_fields r)) ys

-- A row has a value, possibly `null`, for each of the twenty columns behind the first two.
abbrev pub HasAllColumns : AuditRow → Type 0
HasAllColumns r = length r.details ≡ 20

last_hash : Option Code → List AuditRow → Option Code
last_hash prev [] = prev
last_hash prev (r ∷ rs) = last_hash (some r.hash) rs

row_same :
    (p q : Option Code) (x y : AuditRow)
    → IsLink p
    → IsLink q
    → HasAllColumns x
    → HasAllColumns y
    → hashed_text p (hashed_fields x) ≡ hashed_text q (hashed_fields y)
    → (p ≡ q) × (map hashed_value (hashed_fields x) ≡ map hashed_value (hashed_fields y))
row_same p q x y f g cx cy h =
    let both = hashed_text_determines p q (hashed_fields x) (hashed_fields y) f g h in
    (
      both.0,
      canonical_determines (hashed_fields x) (hashed_fields y) (omega (arith, cx, cy)) both.1,
    )

Linked-same :
    (sha256 : Code → Code) (hex : (t : Code) → IsHex (sha256 t)) (p q : Option Code) (m n : ℕ)
    (xs ys : List AuditRow)
    → IsLink p
    → IsLink q
    → All HasAllColumns xs
    → All HasAllColumns ys
    → Linked sha256 p m xs
    → Linked sha256 q n ys
    → length xs ≡ length ys
    → last_hash p xs ≡ last_hash q ys
    → ((p ≡ q) × SameHistory xs ys) ⊎ Collision sha256
unfolding last_hash
Linked-same sha256 hex p q m n [] [] f g cx cy lx ly e h = inl (h, refl)
Linked-same sha256 hex p q m n [] (y ∷ ys) f g cx cy lx ly e h = ground arith
Linked-same sha256 hex p q m n (x ∷ xs) [] f g cx cy lx ly e h = ground arith
Linked-same sha256 hex p q m n (x ∷ xs) (y ∷ ys) f g cx cy lx ly e h =
    let link_x : IsHex x.hash = subst IsHex (sym lx.0.2) (hex _) in
    let link_y : IsHex y.hash = subst IsHex (sym ly.0.2) (hex _) in
    elim (Linked-same sha256 hex (some x.hash) (some y.hash) (m + 1) (n + 1) xs ys link_x link_y
      cx.1 cy.1 lx.1 ly.1 (omega (arith, e)) h) [
        | inl (heads, rest) ↦
            let hashes : x.hash ≡ y.hash = cc in
            elim (same_hash sha256 _ _ (sym lx.0.2 ∙ hashes ∙ ly.0.2)) [
              | inl texts ↦
                  let both = row_same p q x y f g cx.0 cy.0 texts in
                  inl (both.0, ap₂ (λ z zs. z ∷ zs) both.1 rest)
              | inr c ↦ inr c
            ]
        | inr c ↦ inr c
      ]

last_hash-eq :
    (prev : Option Code) (r : AuditRow) (rs : List AuditRow)
    → last_hash prev (r ∷ rs) ≡ prev_hash_of (last_row (r ∷ rs))
unfolding last_hash
last_hash-eq prev r [] = refl
last_hash-eq prev r (s ∷ rs) = last_hash-eq (some r.hash) s rs

last_hash-none : (log : List AuditRow) → last_hash none log ≡ prev_hash_of (last_row log)
unfolding last_hash
last_hash-none [] = refl
last_hash-none (r ∷ rs) = last_hash-eq none r rs

-- Two logs of one length verify, their heads have one hash, every row has its twenty columns, and
-- the hash function writes hexadecimal digits. Then the logs agree in every hashed field of every
-- row, up to `null` and the empty text, or two different texts with one hash are at hand.
pub same_head-SameHistory :
    (sha256 : Code → Code) (hex : (t : Code) → IsHex (sha256 t)) (xs ys : List AuditRow)
    → All HasAllColumns xs
    → All HasAllColumns ys
    → verify_chain sha256 (length xs) xs ≡ valid
    → verify_chain sha256 (length ys) ys ≡ valid
    → length xs ≡ length ys
    → prev_hash_of (last_row xs) ≡ prev_hash_of (last_row ys)
    → SameHistory xs ys ⊎ Collision sha256
same_head-SameHistory sha256 hex xs ys cx cy vx vy e h =
    elim (Linked-same sha256 hex none none (first_sequence xs) (first_sequence ys) xs ys tt tt cx cy
      (verify_chain_sound sha256 xs vx) (verify_chain_sound sha256 ys vy) e
      (last_hash-none xs ∙ h ∙ sym (last_hash-none ys))) [ inl both ↦ inl both.1 | inr c ↦ inr c ]
