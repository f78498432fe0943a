-- ===== src/Strings/Hex.antt =====
-- encoding/hex: `hex.DecodeString`, and `fmt.Sprintf("%x", bytes)`.
use mytonprovider_agent.Common.{
  ℕ, ◌+◌, ◌-◌, ◌*◌, ◌/◌, ◌%◌, ◌<◌, ◌≡◌, refl, ◌&&◌, List, [], ◌∷◌, Option, none, some, arith, ltb,
  leb, if◌then◌else◌, All, Text, codes,
}

unfoldable pub hex_value : ℕ → Option ℕ
hex_value c =
    if leb b'0' c && leb c b'9'
    then some (c - b'0')
    else if leb b'a' c && leb c b'f'
    then some (c - b'a' + 10)
    else if leb b'A' c && leb c b'F'
    then some (c - b'A' + 10)
    else none

abbrev join_nibbles : Option ℕ → Option ℕ → Option (List ℕ) → Option (List ℕ)
join_nibbles (some a) (some b) (some rest) = some ((a * 16 + b) ∷ rest)
join_nibbles _ _ _ = none

-- hex.DecodeString; `none` is an error: an odd length, or a byte that is no hexadecimal digit
unfoldable pub decode_hex : Text → Option (List ℕ)
unfolding hex_value
decode_hex [] = some []
decode_hex (a ∷ []) = none
decode_hex (a ∷ b ∷ s) = join_nibbles (hex_value a) (hex_value b) (decode_hex s)

hex_digit : ℕ → ℕ
hex_digit n = if ltb n 10 then b'0' + n else b'a' + (n - 10)

-- fmt.Sprintf("%x", bytes)
unfoldable pub encode_hex : List ℕ → Text
unfolding hex_digit
encode_hex [] = []
encode_hex (b ∷ bs) = hex_digit (b / 16) ∷ hex_digit (b % 16) ∷ encode_hex bs

hex_value-hex_digit : (n : ℕ) → n < 16 → hex_value (hex_digit n) ≡ some n
unfolding hex_value hex_digit
hex_value-hex_digit n h = ground arith

-- Printing bytes by `%x` and decoding the text gives the bytes back.
decode_hex-encode_hex : (bs : List ℕ) → All (λ b. b < 256) bs → decode_hex (encode_hex bs) ≡ some bs
unfolding encode_hex decode_hex
decode_hex-encode_hex [] h = refl
decode_hex-encode_hex (b ∷ bs) h =
    rw
      (
        hex_value-hex_digit (b / 16) (omega (arith, h.0)),
        hex_value-hex_digit (b % 16) (omega arith),
        decode_hex-encode_hex bs h.1,
      )
      (ground arith)

decode_sample : decode_hex (codes "00fF1a") ≡ some (0 ∷ 255 ∷ 26 ∷ [])
unfolding decode_hex
decode_sample = refl

decode_odd : decode_hex (codes "00f") ≡ none
unfolding decode_hex
decode_odd = refl
