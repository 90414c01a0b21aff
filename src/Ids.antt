-- ===== src/Ids.antt =====
-- Identifiers (src/utils/id.js): ten characters of time and sixteen of chance, in Crockford's base 32.
use meet_millions_finance.Prelude.{
  ltb, leb, ◌==◌, if◌then◌else◌, ltb→lt, leb→le, ==_iff, ==_refl, Bool-cases, Option-cases, or_else,
  is_some, Eq, nat_eq, beq_of, beq_of_iff, length, filter, any, All, length-append, length-filter,
  contains, contains-append, contains-filter, filter-contains, sum_by, sum_by-append, All-imp,
  All-and, All-append, ℕ, zero, suc, ◌+◌, ◌-◌, ◌*◌, ◌/◌, ◌%◌, ◌^◌, ◌≤◌, ◌<◌, max, min, String, ◌≡◌,
  refl, sym, ap, ap₂, ◌∙◌, ◌≢◌, ◌↔◌, ◌⊎◌, inl, inr, Bool, true, false, not, ◌&&◌, ◌||◌, Option,
  none, some, List, [], ◌∷◌, ◌++◌, map, foldl, arith,
}
use meet_millions_finance.Prelude.Text.{Text}
pub mod Order

-- `B32[d]`: the digits, then the capital letters without I, L, O and U.
abbrev pub b32_char : ℕ → ℕ
b32_char d =
    if ltb d 10
    then b'0' + d
    else if ltb d 18
    then b'A' + (d - 10)
    else if ltb d 20
    then b'J' + (d - 18)
    else if ltb d 22
    then b'M' + (d - 20)
    else if ltb d 27
    then b'P' + (d - 22)
    else b'V' + (d - 27)

-- `encodeTime`.
unfoldable pub encode_time : ℕ → ℕ → Text
encode_time zero ms = []
encode_time (suc len) ms = encode_time len (ms / 32) ++ b32_char (ms % 32) ∷ []

-- `encodeRandom`, of the bytes drawn.
abbrev pub encode_random : List ℕ → Text
encode_random bytes = map (λ b. b32_char (b % 32)) bytes

-- `ulid`, given the bytes drawn.
abbrev pub ulid : ℕ → List ℕ → Text
ulid now bytes = encode_time 10 now ++ encode_random bytes

-- `newId`; an empty prefix is false in the test.
abbrev pub new_id : Text → ℕ → List ℕ → Text
new_id [] now bytes = ulid now bytes
new_id (c ∷ prefix) now bytes = (c ∷ prefix) ++ b'_' ∷ ulid now bytes
