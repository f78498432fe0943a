-- ===== src/Strings/Decimal.antt =====
-- strconv: `FormatUint(n, 10)` and `ParseUint(s, 10, 64)`.
use mytonprovider_agent.Common.{
  ℕ, zero, suc, ◌+◌, ◌-◌, ◌*◌, ◌/◌, ◌%◌, ◌^◌, ◌≤◌, ◌<◌, ◌≡◌, refl, ◌≢◌, ◌||◌, [], ◌∷◌, Option, none,
  some, arith, ltb, ◌==◌, if◌then◌else◌, Text, codes, ◌∙◌,
}

-- `for n > 0 { … }` from the last digit on; `n` itself is fuel enough
digits : ℕ → ℕ → Text → Text
digits zero n out = out
digits (suc f) n out =
    let rest = digits f (n / 10) ((b'0' + n % 10) ∷ out) in if n == 0 then out else rest

unfoldable pub format_uint : ℕ → Text
unfolding digits
format_uint n = if n == 0 then b'0' ∷ [] else digits n n []

-- the loop of `ParseUint`: a byte that is no digit, or a value past 2^64 - 1, is an error
scan : Text → ℕ → Option ℕ
scan [] n = some n
scan (c ∷ s) n =
    let m = n * 10 + (c - b'0') in
    let rest = scan s m in if ltb c b'0' || ltb b'9' c || ltb (2 ^ 64 - 1) m then none else rest

unfoldable pub parse_uint : Text → Option ℕ
unfolding scan
parse_uint [] = none
parse_uint (c ∷ s) = scan (c ∷ s) 0

scan_last : (n : ℕ) (out : Text) → n < 2 ^ 64 → scan ((b'0' + n % 10) ∷ out) (n / 10) ≡ scan out n
unfolding scan
scan_last n out h = ground (arith, digit_back)
  where
    digit_back : n / 10 * 10 + (b'0' + n % 10 - b'0') ≡ n
    digit_back = omega arith

scan-digits : (f n : ℕ) (out : Text) → n ≤ f → n < 2 ^ 64 → scan (digits f n out) 0 ≡ scan out n
unfolding digits
scan-digits zero zero out h fits = refl
scan-digits zero (suc n) out h fits = absurd (omega arith)
scan-digits (suc f) n out h fits =
    ground (arith, scan-digits f (n / 10) ((b'0' + n % 10) ∷ out), scan_last n out fits)

digits-ne-nil : (f n : ℕ) (c : ℕ) (out : Text) → digits f n (c ∷ out) ≢ []
unfolding digits
digits-ne-nil zero n c out = λ e. cc
digits-ne-nil (suc f) n c out = ground (arith, digits-ne-nil f (n / 10) (b'0' + n % 10) (c ∷ out))

format_uint-ne-nil : (n : ℕ) → format_uint n ≢ []
unfolding format_uint digits
format_uint-ne-nil zero = λ e. cc
format_uint-ne-nil (suc n) = ground (arith, digits-ne-nil n (suc n / 10) (b'0' + suc n % 10) [])

parse_uint-scan : (s : Text) → s ≢ [] → parse_uint s ≡ scan s 0
unfolding parse_uint
parse_uint-scan [] h = absurd (h refl)
parse_uint-scan (c ∷ s) h = refl

format_uint-digits : (n : ℕ) → n < 2 ^ 64 → scan (format_uint n) 0 ≡ some n
unfolding format_uint scan
format_uint-digits zero h = refl
format_uint-digits (suc n) h = ground (arith, scan-digits (suc n) (suc n) [] (omega arith) h)

-- Every uint64 is read back from its decimal print.
pub parse_uint-format_uint : (n : ℕ) → n < 2 ^ 64 → parse_uint (format_uint n) ≡ some n
parse_uint-format_uint n h =
    parse_uint-scan (format_uint n) (format_uint-ne-nil n) ∙ format_uint-digits n h

pub format_uint-not_empty : (n : ℕ) → format_uint n ≢ []
format_uint-not_empty = format_uint-ne-nil

format_sample : format_uint 46098 ≡ codes "46098"
unfolding format_uint
format_sample = refl

parse_overflow : parse_uint (codes "18446744073709551616") ≡ none
unfolding parse_uint
parse_overflow = refl
