-- ===== src/Auth/Totp/Digits.antt =====
-- The characters of the digits.
use meet_millions_finance.Prelude.{
  ltb, leb, Bool-cases, nat_eq, All, All-append, ℕ, zero, suc, ◌+◌, ◌-◌, ◌<◌, ◌≡◌, refl, inl, inr,
  false, some, List, [], ◌∷◌, map, arith,
}
use meet_millions_finance.Auth.Totp.{
  shift_in, drain, bits_left, encode_from, digit_char, char_digit, upper, is_stripped, clean,
  digits_of, base32_encode, base32_decode,
}
use meet_millions_finance.Auth.Totp.RoundTrip.{decode_from-encode_from}

abbrev AreDigits : List ℕ → Type 0
AreDigits ds = All (λ d. d < 32) ds

drain-AreDigits : (turns bits value : ℕ) → AreDigits (drain turns bits value)
unfolding drain
drain-AreDigits zero bits value = tt
drain-AreDigits (suc turns) bits value = elim (Bool-cases (leb 5 bits)) [
  | inl e ↦ rw e (omega arith, drain-AreDigits turns (bits - 5) value)
  | inr e ↦ rw e tt
]

encode_from-AreDigits : (bytes : List ℕ) (bits value : ℕ) → AreDigits (encode_from bytes bits value)
unfolding encode_from
encode_from-AreDigits [] bits value = elim (Bool-cases (ltb 0 bits)) [
  | inl e ↦ rw e (omega arith, tt)
  | inr e ↦ rw e tt
]
encode_from-AreDigits (b ∷ bytes) bits value =
    All-append (λ d. d < 32) (drain (bits + 8) (bits + 8) (shift_in 8 b value)) _
      (drain-AreDigits (bits + 8) (bits + 8) (shift_in 8 b value))
      (encode_from-AreDigits bytes (bits_left (bits + 8) (bits + 8)) (shift_in 8 b value))

char_digit-digit_char : (d : ℕ) → d < 32 → char_digit (digit_char d) ≡ some d
char_digit-digit_char d h = ground arith

kept_char :
    (d : ℕ) → d < 32 → (upper (digit_char d) ≡ digit_char d) × (is_stripped (digit_char d) ≡ false)
kept_char d h = (ground arith, ground arith)

clean-digits : (ds : List ℕ) → AreDigits ds → clean (map digit_char ds) ≡ map digit_char ds
unfolding clean
clean-digits [] h = refl
clean-digits (d ∷ ds) h = let k = kept_char d h.0 in rw (k.0, k.1, clean-digits ds h.1) refl

digits_of-digits : (ds : List ℕ) → AreDigits ds → digits_of (map digit_char ds) ≡ some ds
unfolding digits_of
digits_of-digits [] h = refl
digits_of-digits (d ∷ ds) h = rw (char_digit-digit_char d h.0, digits_of-digits ds h.1) refl

-- The text of a secret in base 32 decodes to its bytes, for every list of bytes.
pub base32_round_trip :
    (bytes : List ℕ) → All (λ b. b < 256) bytes → base32_decode (base32_encode bytes) ≡ some bytes
unfolding base32_encode base32_decode
base32_round_trip bytes h =
    let ds = encode_from-AreDigits bytes 0 0 in
    rw
      (
        clean-digits (encode_from bytes 0 0) ds,
        digits_of-digits (encode_from bytes 0 0) ds,
        decode_from-encode_from bytes h,
      )
      refl
