-- ===== src/Text/Hex.antt =====
-- `encoding/hex`, and the exclusive or of bytes.
use nodelume.Prelude.{
  ℕ, zero, suc, ◌+◌, ◌-◌, ◌*◌, ◌/◌, ◌%◌, ◌^◌, ◌<◌, ◌≡◌, refl, arith, ◌&&◌, [], ◌∷◌, Option, none,
  some, Bytes, is_empty, ltb, leb, ◌==◌, if◌then◌else◌,
}

unfoldable pub hex_digit : ℕ → ℕ
hex_digit n = if ltb n 10 then b'0' + n else b'a' + (n - 10)

-- `hex.EncodeToString`
unfoldable pub encode_hex : Bytes → Bytes
unfolding hex_digit
encode_hex [] = []
encode_hex (b ∷ s) = hex_digit (b / 16) ∷ hex_digit (b % 16) ∷ encode_hex s

unfoldable pub hex_value : ℕ → Option ℕ
hex_value c =
    if leb b'0' c && leb c b'9'
    then some (c - b'0')
    else if leb b'a' c && leb c b'f'
    then some (c - b'a' + 10)
    else if leb b'A' c && leb c b'F'
    then some (c - b'A' + 10)
    else none

abbrev pair_value : Option ℕ → Option ℕ → Option Bytes → Option Bytes
pair_value (some h) (some l) (some rest) = some ((h * 16 + l) ∷ rest)
pair_value _ _ _ = none

-- `hex.DecodeString`; an error is `none`.
unfoldable pub decode_hex : Bytes → Option Bytes
unfolding hex_value
decode_hex [] = some []
decode_hex (c ∷ []) = none
decode_hex (c ∷ d ∷ s) = pair_value (hex_value c) (hex_value d) (decode_hex s)

abbrev pub AllBytes : Bytes → Type 0
AllBytes [] = Unit
AllBytes (b ∷ s) = (b < 256) × AllBytes s

hex_value-digit : (n : ℕ) → n < 16 → hex_value (hex_digit n) ≡ some n
unfolding hex_value hex_digit
hex_value-digit n h = ground arith

pub decode_hex-encode : (s : Bytes) → AllBytes s → decode_hex (encode_hex s) ≡ some s
unfolding decode_hex encode_hex
decode_hex-encode [] _ = refl
decode_hex-encode (b ∷ s) (h, hs) =
    let e : b / 16 * 16 + b % 16 ≡ b = omega arith in
    rw (
      hex_value-digit (b / 16) (omega arith),
      hex_value-digit (b % 16) (omega arith),
      decode_hex-encode s hs,
      e,
    )

-- The low `n` bits of an exclusive or.
unfoldable pub xor_bits : ℕ → ℕ → ℕ → ℕ
xor_bits zero a b = 0
xor_bits (suc n) a b = (if a % 2 == b % 2 then 0 else 1) + 2 * xor_bits n (a / 2) (b / 2)

xor_bits-lt : (n a b : ℕ) → xor_bits n a b < 2 ^ n
unfolding xor_bits
xor_bits-lt zero a b = omega arith
xor_bits-lt (suc n) a b = ground (arith, xor_bits-lt n (a / 2) (b / 2))

abbrev pub xor_byte : ℕ → ℕ → ℕ
xor_byte a b = xor_bits 8 a b

pub xor_byte-lt : (a b : ℕ) → xor_byte a b < 256
xor_byte-lt a b = xor_bits-lt 8 a b

pub is_empty-encode_hex : (s : Bytes) → is_empty (encode_hex s) ≡ is_empty s
unfolding encode_hex
is_empty-encode_hex [] = refl
is_empty-encode_hex (b ∷ s) = refl
