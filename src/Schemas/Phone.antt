-- ===== src/Schemas/Phone.antt =====
-- app/schemas/stk.py, `normalise_phone`. `\s` and `\d` are those of Python's Unicode patterns.
pub mod Digits
pub mod Formats
use daraja_payment_wrapper.Prelude.{
  ℕ, zero, suc, ◌+◌, ◌≤◌, ◌<◌, inl, inr, Bool-cases, Text, codes, text_eq, starts_with, length,
  drop, any, all, Bool, true, false, not, ◌&&◌, ◌||◌, List, [], ◌∷◌, ◌++◌, ltb, leb, ◌==◌,
  if◌then◌else◌, ◌≡◌, refl, arith,
}
use daraja_payment_wrapper.Errors.{Result, ok, err, value_error}

-- The zeros of the decimal digits, category Nd of Unicode 15; each stands before its nine others.
abbrev decimal_zeros : List ℕ
decimal_zeros =
    0x30 ∷ 0x660 ∷ 0x6F0 ∷ 0x7C0 ∷ 0x966 ∷ 0x9E6 ∷ 0xA66 ∷ 0xAE6 ∷ 0xB66 ∷ 0xBE6 ∷ 0xC66 ∷ 0xCE6
    ∷ 0xD66 ∷ 0xDE6 ∷ 0xE50 ∷ 0xED0 ∷ 0xF20 ∷ 0x1040 ∷ 0x1090 ∷ 0x17E0 ∷ 0x1810 ∷ 0x1946 ∷ 0x19D0
    ∷ 0x1A80 ∷ 0x1A90 ∷ 0x1B50 ∷ 0x1BB0 ∷ 0x1C40 ∷ 0x1C50 ∷ 0xA620 ∷ 0xA8D0 ∷ 0xA900 ∷ 0xA9D0
    ∷ 0xA9F0 ∷ 0xAA50 ∷ 0xABF0 ∷ 0xFF10 ∷ 0x104A0 ∷ 0x10D30 ∷ 0x11066 ∷ 0x110F0 ∷ 0x11136 ∷ 0x111D0
    ∷ 0x112F0 ∷ 0x11450 ∷ 0x114D0 ∷ 0x11650 ∷ 0x116C0 ∷ 0x11730 ∷ 0x118E0 ∷ 0x11950 ∷ 0x11C50
    ∷ 0x11D50 ∷ 0x11DA0 ∷ 0x11F50 ∷ 0x16A60 ∷ 0x16AC0 ∷ 0x16B50 ∷ 0x1D7CE ∷ 0x1D7D8 ∷ 0x1D7E2
    ∷ 0x1D7EC ∷ 0x1D7F6 ∷ 0x1E140 ∷ 0x1E2F0 ∷ 0x1E4F0 ∷ 0x1E950 ∷ 0x1FBF0 ∷ []

-- `\d`
unfoldable pub is_decimal : ℕ → Bool
is_decimal c = any (λ z. leb z c && ltb c (z + 10)) decimal_zeros

-- `\s`
unfoldable pub is_space : ℕ → Bool
is_space c =
    (leb 9 c && leb c 13)
    || (leb 28 c && leb c 32)
    || c == 0x85
    || c == 0xA0
    || c == 0x1680
    || (leb 0x2000 c && leb c 0x200A)
    || c == 0x2028
    || c == 0x2029
    || c == 0x202F
    || c == 0x205F
    || c == 0x3000

-- `[\s\-\(\)]`
unfoldable pub is_separator : ℕ → Bool
unfolding is_space
is_separator c = is_space c || c == b'-' || c == b'(' || c == b')'

-- `re.sub` with the empty text
unfoldable pub remove : (ℕ → Bool) → Text → Text
remove test [] = []
remove test (c ∷ s) = if test c then remove test s else c ∷ remove test s

-- `2547\d{8}|2541\d{8}`
unfoldable pub is_msisdn : Text → Bool
is_msisdn s =
    (starts_with s (codes "2547") || starts_with s (codes "2541"))
    && all is_decimal (drop 4 s)
    && length s == 12

-- The leading `+` is dropped.
unfoldable pub unsigned : Text → Text
unsigned [] = []
unsigned (c ∷ s) = if c == b'+' then s else c ∷ s

unfoldable pub normalise_raw : Text → Result Text
normalise_raw raw =
    if starts_with raw (codes "254")
    then ok raw
    else if starts_with raw (codes "0") && length raw == 10
    then ok (codes "254" ++ drop 1 raw)
    else if length raw == 9
    then ok (codes "254" ++ raw)
    else err value_error

unfoldable pub check_msisdn : Result Text → Result Text
check_msisdn (ok normalised) = if is_msisdn normalised then ok normalised else err value_error
check_msisdn (err e) = err e

unfoldable pub normalise_phone : Text → Result Text
normalise_phone v = check_msisdn (normalise_raw (unsigned (remove is_separator v)))

tests :
    (normalise_phone (codes "0712 345-678") ≡ ok (codes "254712345678"))
    × (normalise_phone (codes "+254 (112) 345678") ≡ ok (codes "254112345678"))
    × (normalise_phone (codes "254812345678") ≡ err value_error)
unfolding normalise_phone is_separator remove unsigned normalise_raw check_msisdn is_msisdn
    is_decimal
tests = (refl, refl, refl)
