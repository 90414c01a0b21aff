-- ===== src/Auth/Totp/RoundTrip.antt =====
-- Decoding gives the bytes back.
use meet_millions_finance.Prelude.{
  nat_eq, All, ℕ, ◌+◌, ◌*◌, ◌/◌, ◌%◌, ◌<◌, ◌≡◌, refl, ap, ap₂, ◌∙◌, List, [], ◌∷◌, arith,
}
use meet_millions_finance.Auth.Totp.{shift_in, drain, bits_left, encode_from, decode_from}

-- The last byte, of which the encoder holds the low bits and the decoder the high ones.
abbrev last_byte : ℕ → ℕ → ℕ → ℕ → ℕ
last_byte low high value held = held % high * low + value % low

-- What the decoder still gives out, from each number of bits that the encoder may hold.
record Decodes (bytes : List ℕ) : Type 0 where
  at_0 : (value held : ℕ) → decode_from (encode_from bytes 0 value) 0 held ≡ bytes
  at_1 :
      (value held : ℕ)
      → decode_from (encode_from bytes 1 value) 7 held ≡ last_byte 2 128 value held ∷ bytes
  at_2 :
      (value held : ℕ)
      → decode_from (encode_from bytes 2 value) 6 held ≡ last_byte 4 64 value held ∷ bytes
  at_3 :
      (value held : ℕ)
      → decode_from (encode_from bytes 3 value) 5 held ≡ last_byte 8 32 value held ∷ bytes
  at_4 :
      (value held : ℕ)
      → decode_from (encode_from bytes 4 value) 4 held ≡ last_byte 16 16 value held ∷ bytes

Decodes-nil : Decodes []
unfolding encode_from decode_from
Decodes-nil = record {
  at_0 = λ v h. refl;
  at_1 = λ v h. ap (λ x. x ∷ []) (omega arith);
  at_2 = λ v h. ap (λ x. x ∷ []) (omega arith);
  at_3 = λ v h. ap (λ x. x ∷ []) (omega arith);
  at_4 = λ v h. ap (λ x. x ∷ []) (omega arith);
}

Decodes-cons : (b : ℕ) (bytes : List ℕ) → b < 256 → Decodes bytes → Decodes (b ∷ bytes)
unfolding encode_from decode_from drain bits_left
Decodes-cons b bytes h r = record {
  at_0 = λ v w.
      r.at_3 (shift_in 8 b v) (shift_in 5 (shift_in 8 b v / 8 % 32) w)
      ∙ ap (λ x. x ∷ bytes) (omega arith);
  at_1 = λ v w.
      ap₂ (λ x xs. x ∷ xs) (omega arith)
        (r.at_4 (shift_in 8 b v) (shift_in 5 (shift_in 8 b v / 16 % 32) w)
          ∙ ap (λ x. x ∷ bytes) (omega arith));
  at_2 = λ v w.
      ap₂ (λ x xs. x ∷ xs) (omega arith)
        (ap₂ (λ x xs. x ∷ xs) (omega arith) (r.at_0 (shift_in 8 b v) _));
  at_3 = λ v w.
      ap₂ (λ x xs. x ∷ xs) (omega arith)
        (r.at_1 (shift_in 8 b v)
            (shift_in 5 (shift_in 8 b v / 2 % 32) (shift_in 5 (shift_in 8 b v / 64 % 32) w))
          ∙ ap (λ x. x ∷ bytes) (omega arith));
  at_4 = λ v w.
      ap₂ (λ x xs. x ∷ xs) (omega arith)
        (r.at_2 (shift_in 8 b v)
            (shift_in 5 (shift_in 8 b v / 4 % 32) (shift_in 5 (shift_in 8 b v / 128 % 32) w))
          ∙ ap (λ x. x ∷ bytes) (omega arith));
}

decodes : (bytes : List ℕ) → All (λ b. b < 256) bytes → Decodes bytes
decodes [] h = Decodes-nil
decodes (b ∷ bytes) h = Decodes-cons b bytes h.0 (decodes bytes h.1)

-- The decoder undoes the encoder on the digits.
pub decode_from-encode_from :
    (bytes : List ℕ) → All (λ b. b < 256) bytes → decode_from (encode_from bytes 0 0) 0 0 ≡ bytes
decode_from-encode_from bytes h = (decodes bytes h).at_0 0 0
