-- ===== src/Strings.antt =====
-- What the code uses of Go's strings, encoding/hex, regexp and strconv, over byte lists.
-- `strings.ToLower` is modelled byte by byte: exact for ASCII, and a byte above 127 stays as it is.
pub mod Hex
pub mod Decimal
use mytonprovider_agent.Common.{
  ℕ, ◌+◌, ◌≡◌, refl, Bool, true, false, ◌&&◌, ◌||◌, List, [], ◌∷◌, map, Option, none, some, arith,
  ltb, leb, ◌==◌, if◌then◌else◌, length, Text, codes,
}

-- strings.ToLower
unfoldable pub lower_char : ℕ → ℕ
lower_char c = if leb b'A' c && leb c b'Z' then c + 32 else c

unfoldable pub to_lower : Text → Text
unfolding lower_char
to_lower = map lower_char

lower_char_idem : (c : ℕ) → lower_char (lower_char c) ≡ lower_char c
unfolding lower_char
lower_char_idem c = ground arith

pub to_lower_idem : (s : Text) → to_lower (to_lower s) ≡ to_lower s
unfolding to_lower
to_lower_idem [] = refl
to_lower_idem (c ∷ s) = cc (lower_char_idem c, to_lower_idem s)

length-to_lower : (s : Text) → length (to_lower s) ≡ length s
unfolding to_lower
length-to_lower [] = refl
length-to_lower (c ∷ s) = omega (arith, length-to_lower s)

-- strings.HasPrefix, with the rest of the text
strip_prefix : Text → Text → Option Text
strip_prefix [] s = some s
strip_prefix (p ∷ ps) [] = none
strip_prefix (p ∷ ps) (c ∷ s) = let rest = strip_prefix ps s in if p == c then rest else none

-- `pos := strings.Index(s, sep)`, and the text from `pos + len(sep)` on; `none` for -1
unfoldable pub after_first : Text → Text → Option Text
unfolding strip_prefix
after_first sep [] = strip_prefix sep []
after_first sep (c ∷ s) =
    let rest = after_first sep s in
    elim (strip_prefix sep (c ∷ s)) [ some tail ↦ some tail | none ↦ rest ]

-- one character of [A-Za-z0-9_-]
is_base64url : ℕ → Bool
is_base64url c =
    (leb b'A' c && leb c b'Z')
    || (leb b'a' c && leb c b'z')
    || (leb b'0' c && leb c b'9')
    || c == b'_'
    || c == b'-'

all_base64url : Text → Bool
all_base64url [] = true
all_base64url (c ∷ s) = is_base64url c && all_base64url s

-- ^[EUk0][Qq][A-Za-z0-9_-]{46}$
matches_template : Text → Bool
matches_template (a ∷ b ∷ s) =
    (a == b'E' || a == b'U' || a == b'k' || a == b'0')
    && (b == b'Q' || b == b'q')
    && length s == 46
    && all_base64url s
matches_template _ = false

-- helper.go of usecase/discovery, and master_scanner.go
unfoldable pub is_user_friendly : Text → Bool
unfolding matches_template all_base64url is_base64url
is_user_friendly s = length s == 48 && matches_template s

lower_sample : to_lower (codes "AbC-9z") ≡ codes "abc-9z"
unfolding to_lower
lower_sample = refl

after_first_sample : after_first (codes "tsp-") (codes "xx tsp-12") ≡ some (codes "12")
unfolding after_first
after_first_sample = refl

is_user_friendly_sample :
    is_user_friendly (codes "EQB3ncyBUTjZUA5EnFKR5_EnOMI9V1tTEAAPaiU71gc4TiUt") ≡ true
unfolding is_user_friendly
is_user_friendly_sample = refl
