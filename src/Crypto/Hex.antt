-- ===== src/Crypto/Hex.antt =====
-- crypto/crypto.go, `EncodePublicKey` to `DecodePrivateKey`: keys as hexadecimal text.
-- encoding/hex is the standard library: `Encode` writes two lower-case digits for each byte, `Decode`
-- reads pairs of digits of either case, and fails at another character or at an odd length.
-- The text is the list of its ASCII codes.
use loom.Crypto.{Bytes}
use loom.Prelude.{
  ℕ, ◌+◌, ◌-◌, ◌*◌, ◌/◌, ◌%◌, ◌≤◌, ◌<◌, ◌≡◌, refl, ◌&&◌, Option, none, some, [], ◌∷◌, arith, ltb,
  leb, if◌then◌else◌, length, All,
}

-- One digit of `hex.Encode`.
unfoldable pub hex_digit : ℕ → ℕ
hex_digit n = if ltb n 10 then n + 48 else n + 87

unfoldable pub from_hex_digit : ℕ → Option ℕ
from_hex_digit c =
    if leb 48 c && leb c 57
    then some (c - 48)
    else if leb 97 c && leb c 102
    then some (c - 87)
    else if leb 65 c && leb c 70
    then some (c - 55)
    else none

-- `EncodePublicKey` and `EncodePrivateKey`
unfoldable pub encode_key : Bytes → Bytes
unfolding hex_digit
encode_key [] = []
encode_key (b ∷ bytes) = hex_digit (b / 16) ∷ hex_digit (b % 16) ∷ encode_key bytes

-- `DecodePublicKey` and `DecodePrivateKey`; `none` is the error.
unfoldable pub decode_key : Bytes → Option Bytes
unfolding from_hex_digit
decode_key [] = some []
decode_key (c ∷ []) = none
decode_key (c ∷ d ∷ text) = elim (from_hex_digit c) [
  | none ↦ none
  | some hi ↦ elim (from_hex_digit d) [
    | none ↦ none
    | some lo ↦ elim (decode_key text) [ none ↦ none | some bytes ↦ some ((16 * hi + lo) ∷ bytes) ]
  ]
]

abbrev pub AreBytes : Bytes → Type 0
AreBytes = All (λ b. b < 256)

-- A key of bytes is read back from its hexadecimal text, which is twice as long and holds only the
-- characters 0-9 and a-f.
pub decode_key-encode_key :
    (key : Bytes)
    → AreBytes key
    → (decode_key (encode_key key) ≡ some key)
      × (length (encode_key key) ≡ 2 * length key)
      × All (λ c. (48 ≤ c) × (c ≤ 102)) (encode_key key)
unfolding encode_key decode_key
decode_key-encode_key [] h = (refl, refl, tt)
decode_key-encode_key (b ∷ key) h = ground (arith, decode_key-encode_key key)
