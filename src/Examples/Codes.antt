-- ===== src/Examples/Codes.antt =====
-- Identifiers and the text of a TOTP secret at concrete inputs.
use meet_millions_finance.Prelude.{nat_eq, ◌≡◌, true, some, [], ◌∷◌, arith}
use meet_millions_finance.Auth.Totp.{base32_encode, base32_decode}
use meet_millions_finance.Auth.Totp.Digits.{base32_round_trip}
use meet_millions_finance.Ids.{new_id}
use meet_millions_finance.Ids.Order.{is_before, new_id_order}

base32_round_trip_example :
    base32_decode (base32_encode (72 ∷ 255 ∷ 0 ∷ [])) ≡ some (72 ∷ 255 ∷ 0 ∷ [])
base32_round_trip_example =
    base32_round_trip (72 ∷ 255 ∷ 0 ∷ []) (omega arith, (omega arith, (omega arith, tt)))

new_id_order_example :
    is_before
      (new_id (b'd' ∷ b'o' ∷ b'c' ∷ []) 1000 (255 ∷ 1 ∷ []))
      (new_id (b'd' ∷ b'o' ∷ b'c' ∷ []) 1001 (0 ∷ 1 ∷ []))
    ≡ true
new_id_order_example =
    new_id_order (b'd' ∷ b'o' ∷ b'c' ∷ []) 1000 1001 (255 ∷ 1 ∷ []) (0 ∷ 1 ∷ []) (omega arith)
      (omega arith)
