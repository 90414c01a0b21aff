-- ===== src/Ids/Order.antt =====
-- Identifiers sort by the time of their making.
use native.Mathlib.Numerals.{unary_clauses}
use meet_millions_finance.Prelude.{
  ltb, ◌==◌, ltb→lt, Bool-cases, nat_eq, length, length-append, ℕ, zero, suc, ◌*◌, ◌/◌, ◌%◌, ◌^◌,
  ◌<◌, ◌≡◌, refl, sym, ◌∙◌, inl, inr, Bool, true, false, ◌&&◌, ◌||◌, List, [], ◌∷◌, ◌++◌, arith,
}
use meet_millions_finance.Prelude.Text.{Text}
use meet_millions_finance.Ids.{b32_char, encode_time, encode_random, ulid, new_id}

-- The order of texts, character by character.
abbrev pub is_before : Text → Text → Bool
is_before [] [] = false
is_before [] (b ∷ t) = true
is_before (a ∷ s) [] = false
is_before (a ∷ s) (b ∷ t) = ltb a b || (a == b && is_before s t)

b32_char_order : (a b : ℕ) → a < b → b < 32 → b32_char a < b32_char b
b32_char_order a b h k = ground arith

length-encode_time : (len ms : ℕ) → length (encode_time len ms) ≡ len
unfolding encode_time
length-encode_time zero ms = refl
length-encode_time (suc len) ms =
    length-append (encode_time len (ms / 32)) (b32_char (ms % 32) ∷ [])
    ∙ (omega (arith, length-encode_time len (ms / 32)))

-- What follows two texts of one length that are in order does not matter.
before-append :
    (s t u v : Text)
    → length s ≡ length t
    → is_before s t ≡ true
    → is_before (s ++ u) (t ++ v) ≡ true
before-append [] [] u v l h = cc
before-append [] (b ∷ t) u v l h = ground arith
before-append (a ∷ s) [] u v l h = ground arith
before-append (a ∷ s) (b ∷ t) u v l h = ground (arith, before-append s t u v)

same_start : (s u v : Text) → is_before u v ≡ true → is_before (s ++ u) (s ++ v) ≡ true
same_start [] u v h = h
same_start (a ∷ s) u v h = ground (arith, same_start s u v h)

pow_step : (len b : ℕ) → b < 32 ^ suc len → b / 32 < 32 ^ len
pow_step len b k = let q : b < 32 ^ len * 32 = simp unary_clauses at k in omega arith

last_chars : (x y : ℕ) → x < y → is_before (x ∷ []) (y ∷ []) ≡ true
last_chars x y h = ground arith

encode_time_order :
    (len a b : ℕ) → a < b → b < 32 ^ len → is_before (encode_time len a) (encode_time len b) ≡ true
unfolding encode_time
encode_time_order zero a b h k = ground arith
encode_time_order (suc len) a b h k = elim (Bool-cases (ltb (a / 32) (b / 32))) [
  | inl e ↦
      before-append (encode_time len (a / 32)) (encode_time len (b / 32)) _ _
        (length-encode_time len (a / 32) ∙ sym (length-encode_time len (b / 32)))
        (encode_time_order len (a / 32) (b / 32) (ltb→lt (a / 32) (b / 32) e) (pow_step len b k))
  | inr e ↦
      let same : a / 32 ≡ b / 32 = ground arith in
      let less : a % 32 < b % 32 = omega arith in
      rw same (
        same_start (encode_time len (b / 32)) _ _ (
          last_chars (b32_char (a % 32)) (b32_char (b % 32))
            (b32_char_order (a % 32) (b % 32) less (omega arith))))
]

ulid_order :
    (a b : ℕ) (drawn drawn' : List ℕ)
    → a < b
    → b < 32 ^ 10
    → is_before (ulid a drawn) (ulid b drawn') ≡ true
ulid_order a b drawn drawn' h k =
    before-append (encode_time 10 a) (encode_time 10 b) (encode_random drawn) (encode_random drawn')
      (length-encode_time 10 a ∙ sym (length-encode_time 10 b)) (encode_time_order 10 a b h k)

-- Of two identifiers with one prefix, one made at least a millisecond after the other, the earlier comes
-- first in the order of texts, whatever bytes are drawn, for times below 32 to the tenth.
pub new_id_order :
    (prefix : Text) (a b : ℕ) (drawn drawn' : List ℕ)
    → a < b
    → b < 32 ^ 10
    → is_before (new_id prefix a drawn) (new_id prefix b drawn') ≡ true
new_id_order [] a b drawn drawn' h k = ulid_order a b drawn drawn' h k
new_id_order (c ∷ prefix) a b drawn drawn' h k =
    same_start (c ∷ prefix) _ _
      (same_start (b'_' ∷ []) (ulid a drawn) (ulid b drawn') (ulid_order a b drawn drawn' h k))
