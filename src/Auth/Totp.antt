-- ===== src/Auth/Totp.antt =====
-- The base-32 text of a TOTP secret, and the backup codes (src/auth/totp.js). Bytes, digits and
-- character codes are numbers. The source shifts 32-bit integers: `value << k` keeps the low 32 bits,
-- and `|` with a number below the shifted-in zeros adds it.
use meet_millions_finance.Prelude.{
  ltb, leb, ◌==◌, if◌then◌else◌, ltb→lt, leb→le, ==_iff, ==_refl, Bool-cases, Option-cases, or_else,
  is_some, Eq, nat_eq, beq_of, beq_of_iff, length, filter, any, All, length-append, length-filter,
  contains, contains-append, contains-filter, filter-contains, sum_by, sum_by-append, All-imp,
  All-and, All-append, ℕ, zero, suc, ◌+◌, ◌-◌, ◌*◌, ◌/◌, ◌%◌, ◌^◌, ◌≤◌, ◌<◌, max, min, String, ◌≡◌,
  refl, sym, ap, ap₂, ◌∙◌, ◌≢◌, ◌↔◌, ◌⊎◌, inl, inr, Bool, true, false, not, ◌&&◌, ◌||◌, Option,
  none, some, List, [], ◌∷◌, ◌++◌, map, foldl, arith,
}
use meet_millions_finance.Prelude.Text.{Text, text_eq}
pub mod Digits
pub mod RoundTrip

-- `(value << k) | low`.
abbrev pub shift_in : ℕ → ℕ → ℕ → ℕ
shift_in k low value = value * 2 ^ k % 2 ^ 32 + low

-- `while (bits >= 5)`: the digits that leave; every turn takes five of the bits, so `bits` turns are
-- enough.
unfoldable pub drain : ℕ → ℕ → ℕ → List ℕ
drain zero bits value = []
drain (suc turns) bits value =
    let rest = drain turns (bits - 5) value in
    if leb 5 bits then (value / 2 ^ (bits - 5) % 32) ∷ rest else []

-- The bits that stay.
unfoldable pub bits_left : ℕ → ℕ → ℕ
bits_left zero bits = bits
bits_left (suc turns) bits =
    let rest = bits_left turns (bits - 5) in if leb 5 bits then rest else bits

-- The loop of `base32Encode` over the bytes, and the last digit.
unfoldable pub encode_from : List ℕ → ℕ → ℕ → List ℕ
encode_from [] bits value = if ltb 0 bits then (value * 2 ^ (5 - bits) % 2 ^ 32 % 32) ∷ [] else []
encode_from (byte ∷ bytes) bits value =
    drain (bits + 8) (bits + 8) (shift_in 8 byte value)
    ++ encode_from bytes (bits_left (bits + 8) (bits + 8)) (shift_in 8 byte value)

-- `BASE32_ALPHABET[d]`: the capital letters, then 2 to 7.
abbrev pub digit_char : ℕ → ℕ
digit_char d = if ltb d 26 then b'A' + d else b'2' + (d - 26)

-- `BASE32_ALPHABET.indexOf(ch)`: none for -1.
abbrev pub char_digit : ℕ → Option ℕ
char_digit c =
    if leb b'A' c && leb c b'Z'
    then some (c - b'A')
    else if leb b'2' c && leb c b'7'
    then some (c - b'2' + 26)
    else none

unfoldable pub base32_encode : List ℕ → Text
base32_encode bytes = map digit_char (encode_from bytes 0 0)

-- The loop of `base32Decode` over the digits.
unfoldable pub decode_from : List ℕ → ℕ → ℕ → List ℕ
decode_from [] bits value = []
decode_from (d ∷ ds) bits value =
    let rest =
      decode_from ds (if leb 8 (bits + 5) then bits + 5 - 8 else bits + 5) (shift_in 5 d value) in
    if leb 8 (bits + 5) then (shift_in 5 d value / 2 ^ (bits + 5 - 8) % 256) ∷ rest else rest

-- `toUpperCase`, for ASCII characters.
abbrev pub upper : ℕ → ℕ
upper c = if leb b'a' c && leb c b'z' then c - 32 else c

-- The characters that `/[=\s-]/g` strips, for ASCII characters.
abbrev pub is_stripped : ℕ → Bool
is_stripped c = c == b'=' || c == b'-' || c == 32 || (leb 9 c && leb c 13)

unfoldable pub clean : Text → Text
clean s = filter (λ c. not (is_stripped c)) (map upper s)

abbrev pub cons_digit : Option ℕ → Option (List ℕ) → Option (List ℕ)
cons_digit (some d) (some ds) = some (d ∷ ds)
cons_digit _ _ = none

-- The digits of a text, or none at a character that is not in the alphabet.
unfoldable pub digits_of : Text → Option (List ℕ)
digits_of [] = some []
digits_of (c ∷ s) = cons_digit (char_digit c) (digits_of s)

abbrev pub decode_digits : Option (List ℕ) → Option (List ℕ)
decode_digits none = none
decode_digits (some ds) = some (decode_from ds 0 0)

-- `base32Decode`: none where the source throws.
unfoldable pub base32_decode : Text → Option (List ℕ)
base32_decode s = decode_digits (digits_of (clean s))
