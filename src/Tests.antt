-- ===== src/Tests.antt =====
-- The theorems on app/exceptions.py, app/main.py and app/schemas/stk.py at concrete inputs.
use daraja_payment_wrapper.Prelude.{Text, codes, all, ◌≡◌, refl, true}
use daraja_payment_wrapper.Prelude.Int.{pos}
use daraja_payment_wrapper.Errors.{ok}
use daraja_payment_wrapper.Schemas.{StkPushInitiateRequest}
use daraja_payment_wrapper.Schemas.Phone.{
  is_decimal, is_separator, remove, unsigned, normalise_raw, check_msisdn, is_msisdn,
  normalise_phone,
}
use daraja_payment_wrapper.Schemas.Request.{
  IsValid, validate, stripped, str_strip_whitespace, has_valid_fields, is_valid_amount, is_safe,
  with_phone,
}
use daraja_payment_wrapper.Schemas.Request.Valid.{validate-IsValid}

abbrev local : Text
local = codes "0712 345-678"

abbrev international : Text
international = codes "254712345678"

local_ok : normalise_phone local ≡ ok international
unfolding normalise_phone is_separator remove unsigned normalise_raw check_msisdn is_msisdn
    is_decimal
local_ok = refl

abbrev digits : Text
digits = codes "12345678"

digits_decimal : all is_decimal digits ≡ true
unfolding is_decimal
digits_decimal = refl

abbrev raw : StkPushInitiateRequest
raw = record {
  phone_number = local;
  amount = record { coefficient = pos 10000; places = 2 };
  account_reference = codes " INV-1 ";
  transaction_desc = codes "Rent";
  idempotency_key = codes "order-00001";
  transaction_type = codes "CustomerPayBillOnline";
}

abbrev cooked : StkPushInitiateRequest
cooked = record raw { phone_number = international; account_reference = codes "INV-1" }

raw_ok : validate raw ≡ ok cooked
unfolding validate stripped str_strip_whitespace has_valid_fields is_valid_amount is_safe with_phone
    normalise_phone is_separator remove unsigned normalise_raw check_msisdn is_msisdn is_decimal
raw_ok = refl

validate-IsValid_example : IsValid cooked
validate-IsValid_example = validate-IsValid raw cooked raw_ok
