-- ===== src/Utils/BagIds.antt =====
-- What a valid bag id is good for.
use mytonprovider_agent.Common.{
  ℕ, zero, suc, ◌+◌, ◌*◌, ◌≡◌, ◌≢◌, refl, true, Option, some, none, List, [], ◌∷◌, length, Text,
  arith,
}
use mytonprovider_agent.Strings.{to_lower, lower_char}
use mytonprovider_agent.Strings.Hex.{hex_value, decode_hex}
use mytonprovider_agent.Utils.{is_hex_digit, all_hex, validate_bag_id}

some_of : (o : Option ℕ) → o ≢ none → (v : ℕ) × (o ≡ some v)
some_of none h = absurd (h refl)
some_of (some v) h = (v, refl)

hex_value-ne-none : (c : ℕ) → is_hex_digit (lower_char c) ≡ true → hex_value c ≢ none
unfolding is_hex_digit lower_char hex_value
hex_value-ne-none c h = λ e. ground (arith, h, e)

hex_value-is_hex_digit :
    (c : ℕ) → is_hex_digit (lower_char c) ≡ true → (v : ℕ) × (hex_value c ≡ some v)
hex_value-is_hex_digit c h = some_of (hex_value c) (hex_value-ne-none c h)

all_hex_head :
    (c : ℕ) (s : Text) → all_hex (c ∷ s) ≡ true → (is_hex_digit c ≡ true) × (all_hex s ≡ true)
unfolding all_hex
all_hex_head c s h = ground (arith, h)

decode_all_hex :
    (n : ℕ) (s : Text)
    → length s ≡ 2 * n
    → all_hex (to_lower s) ≡ true
    → (bs : List ℕ) × (decode_hex s ≡ some bs) × (length bs ≡ n)
unfolding to_lower decode_hex
decode_all_hex zero [] e h = ([], refl, refl)
decode_all_hex zero (a ∷ s) e h = absurd (omega (arith, e))
decode_all_hex (suc n) [] e h = absurd (omega (arith, e))
decode_all_hex (suc n) (a ∷ []) e h = absurd (omega (arith, e))
decode_all_hex (suc n) (a ∷ b ∷ s) e h =
    let (ha, h1) = all_hex_head (lower_char a) (lower_char b ∷ to_lower s) h in
    let (hb, h2) = all_hex_head (lower_char b) (to_lower s) h1 in
    let (x, ex) = hex_value-is_hex_digit a ha in
    let (y, ey) = hex_value-is_hex_digit b hb in
    let (bs, decoded, size) = decode_all_hex n s (omega (arith, e)) h2 in
    ((x * 16 + y) ∷ bs, rw (ex, ey, decoded) refl, omega (arith, size))

checked : (s : Text) → validate_bag_id s ≡ true → (length s ≡ 64) × (all_hex (to_lower s) ≡ true)
unfolding validate_bag_id
checked s h = ground (arith, h)

-- Every bag id that `ValidateBagID` accepts is the hexadecimal text of 32 bytes, so that
-- `hex.DecodeString` takes it without an error.
validate_bag_id-decode_hex :
    (s : Text)
    → validate_bag_id s ≡ true
    → (bs : List ℕ) × (decode_hex s ≡ some bs) × (length bs ≡ 32)
validate_bag_id-decode_hex s h = let (size, digits) = checked s h in decode_all_hex 32 s size digits
