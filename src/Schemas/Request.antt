-- ===== src/Schemas/Request.antt =====
-- app/schemas/stk.py: the declared constraints and the validators of `STKPushInitiateRequest`.
-- pydantic strips the texts, applies every constraint and answers a failure of any with 422.
pub mod Valid
use daraja_payment_wrapper.Prelude.{
  ℕ, zero, suc, ◌+◌, ◌*◌, ◌/◌, ◌%◌, ◌^◌, ◌≤◌, ◌<◌, Text, codes, length, all, Bool, true, false, not,
  ◌&&◌, ◌||◌, Option, none, some, List, [], ◌∷◌, ◌++◌, ltb, leb, ◌==◌, if◌then◌else◌, ◌≡◌, refl,
  arith,
}
use daraja_payment_wrapper.Prelude.Int.{ℤ, pos, negsuc}
use daraja_payment_wrapper.Errors.{Result, ok, err, request_validation}
use daraja_payment_wrapper.Payment.{Decimal}
use daraja_payment_wrapper.Schemas.{StkPushInitiateRequest}
use daraja_payment_wrapper.Schemas.Phone.{is_space, is_msisdn, normalise_phone}
use daraja_payment_wrapper.Schemas.Phone.Formats.{normalise_phone-is_msisdn}

lstrip : (ℕ → Bool) → Text → Text
lstrip is_blank [] = []
lstrip is_blank (c ∷ s) = if is_blank c then lstrip is_blank s else c ∷ s

abbrev drop_blank : (ℕ → Bool) → ℕ → Text → Text
drop_blank is_blank c [] = if is_blank c then [] else c ∷ []
drop_blank is_blank c (d ∷ t) = c ∷ d ∷ t

rstrip : (ℕ → Bool) → Text → Text
rstrip is_blank [] = []
rstrip is_blank (c ∷ s) = drop_blank is_blank c (rstrip is_blank s)

-- `str.strip`
unfoldable pub strip : Text → Text
unfolding lstrip rstrip
strip s = lstrip is_space (rstrip is_space s)

-- The characters that pydantic strips: those with Unicode's property White_Space. Python's blanks are
-- these and the four separators from U+001C.
unfoldable pub is_white_space : ℕ → Bool
unfolding is_space
is_white_space c = is_space c && not (leb 28 c && leb c 31)

-- `str_strip_whitespace=True`
unfoldable pub str_strip_whitespace : Text → Text
unfolding lstrip rstrip is_white_space
str_strip_whitespace s = lstrip is_white_space (rstrip is_white_space s)

-- `int(amount)` of an amount that is not negative
unfoldable pub shillings : Decimal → ℕ
shillings d = elim d.coefficient [ pos n ↦ n / 10 ^ d.places | negsuc _ ↦ 0 ]

-- `gt=0`, `le=300_000` and `must_be_whole_shillings`
unfoldable pub is_valid_amount : Decimal → Bool
is_valid_amount d = elim d.coefficient [
  | pos n ↦ ltb 0 n && leb n (300000 * 10 ^ d.places) && n % 10 ^ d.places == 0
  | negsuc _ ↦ false
]

-- `[a-zA-Z0-9\-_/]`
unfoldable pub is_safe : ℕ → Bool
is_safe c =
    (leb b'a' c && leb c b'z')
    || (leb b'A' c && leb c b'Z')
    || (leb b'0' c && leb c b'9')
    || c == b'-'
    || c == b'_'
    || c == b'/'

within : ℕ → ℕ → Text → Bool
within lo hi s = leb lo (length s) && leb (length s) hi

unfoldable pub has_valid_fields : StkPushInitiateRequest → Bool
unfolding within
has_valid_fields r =
    is_valid_amount r.amount
    && within 1 12 r.account_reference
    && within 1 13 r.transaction_desc
    && within 8 64 r.idempotency_key
    && all is_safe r.account_reference

unfoldable pub stripped : StkPushInitiateRequest → StkPushInitiateRequest
stripped r = record r {
  account_reference = str_strip_whitespace r.account_reference;
  transaction_desc = str_strip_whitespace r.transaction_desc;
  idempotency_key = str_strip_whitespace r.idempotency_key;
  transaction_type = str_strip_whitespace r.transaction_type;
}

unfoldable pub with_phone : StkPushInitiateRequest → Result Text → Result StkPushInitiateRequest
with_phone r (ok phone) = ok (record r { phone_number = phone })
with_phone r (err _) = err request_validation

unfoldable pub validate : StkPushInitiateRequest → Result StkPushInitiateRequest
validate raw =
    let r = stripped raw in
    if has_valid_fields r
    then with_phone r (normalise_phone (str_strip_whitespace raw.phone_number))
    else err request_validation

-- What a validated request promises to the service and to Daraja.
pub record IsValid (r : StkPushInitiateRequest) : Type 0 where
  pub phone : is_msisdn r.phone_number ≡ true
  pub whole : r.amount.coefficient ≡ pos (shillings r.amount * 10 ^ r.amount.places)
  pub amount_low : 1 ≤ shillings r.amount
  pub amount_high : shillings r.amount ≤ 300000
  pub reference_some : 1 ≤ length r.account_reference
  pub reference : length r.account_reference ≤ 12
  pub reference_safe : all is_safe r.account_reference ≡ true
  pub description_some : 1 ≤ length r.transaction_desc
  pub description : length r.transaction_desc ≤ 13
  pub key_short : length r.idempotency_key ≤ 64
  pub key_long : 8 ≤ length r.idempotency_key
