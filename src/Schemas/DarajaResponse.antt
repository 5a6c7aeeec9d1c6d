-- ===== src/Schemas/DarajaResponse.antt =====
-- app/schemas/stk.py, `DarajaSTKResponse`: pydantic wants every field, as a text, and nothing else.
use daraja_payment_wrapper.Prelude.{
  Text, codes, text_eq, any, all, Option, none, some, List, [], ◌∷◌, if◌then◌else◌,
}
use daraja_payment_wrapper.Json.{Value, str, Dict, lookup}

pub record DarajaStkResponse : Type 0 where
  pub checkout_request_id : Text
  pub merchant_request_id : Text
  pub response_code : Text
  pub response_description : Text
  pub customer_message : Text

infixl 10 ◌>>=◌
abbrev ◌>>=◌ : {A B : Type 0} → Option A → (A → Option B) → Option B
o >>= f = elim o [ none ↦ none | some a ↦ f a ]

-- Every required field is a text, and no other key is there.
abbrev aliases : List Text
aliases =
    codes "CheckoutRequestID"
    ∷ codes "MerchantRequestID"
    ∷ codes "ResponseCode"
    ∷ codes "ResponseDescription"
    ∷ codes "CustomerMessage"
    ∷ []

abbrev pub text_of : Value → Option Text
text_of (str s) = some s
text_of _ = none

unfoldable pub text_field : Text → Dict → Option Text
text_field k d = elim (lookup k d) [ none ↦ none | some v ↦ text_of v ]

unfoldable pub read_fields : Dict → Option DarajaStkResponse
read_fields d = do
  checkout ← text_field (codes "CheckoutRequestID") d
  merchant ← text_field (codes "MerchantRequestID") d
  code ← text_field (codes "ResponseCode") d
  description ← text_field (codes "ResponseDescription") d
  message ← text_field (codes "CustomerMessage") d
  some (record {
    checkout_request_id = checkout;
    merchant_request_id = merchant;
    response_code = code;
    response_description = description;
    customer_message = message;
  })

-- `DarajaSTKResponse.model_validate`
unfoldable pub model_validate : Dict → Option DarajaStkResponse
model_validate d = if all (λ (k, v). any (text_eq k) aliases) d then read_fields d else none
