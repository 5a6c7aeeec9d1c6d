-- ===== src/Daraja/Stk/Accepted.antt =====
-- What an accepted STK Push tells.
use daraja_payment_wrapper.Prelude.{
  Text, codes, text_eq_iff, ◌≡◌, inl, inr, some, arith, Option-cases,
}
use daraja_payment_wrapper.Errors.{ok}
use daraja_payment_wrapper.Exec.{Result-cases}
use daraja_payment_wrapper.Json.{Value, null, int, float, str, other, Dict, lookup}
use daraja_payment_wrapper.Schemas.DarajaResponse.{text_of, text_field, read_fields, model_validate}
use daraja_payment_wrapper.Daraja.{Platform, Host, Tenacity}
use daraja_payment_wrapper.Daraja.Client.{fields, other_value, post}
use daraja_payment_wrapper.Daraja.Stk.{
  StkArgs, StkInitiationResult, check_response, stk_payload, generate_stk_password, initiate,
}

-- The fields of a result are those of the response.
pub record IsAnswer (d : Dict) (r : StkInitiationResult) : Type 0 where
  pub checkout : lookup (codes "CheckoutRequestID") d ≡ some (str r.checkout_request_id)
  pub merchant : lookup (codes "MerchantRequestID") d ≡ some (str r.merchant_request_id)
  pub code : lookup (codes "ResponseCode") d ≡ some (str (codes "0"))
  pub same_code : r.response_code ≡ codes "0"
  pub message : lookup (codes "CustomerMessage") d ≡ some (str r.customer_message)

text_of_lem : (v : Value) (s : Text) → text_of v ≡ some s → v ≡ str s
text_of_lem (str t) s h = ground arith
text_of_lem null s h = cc
text_of_lem (int n) s h = cc
text_of_lem (float d) s h = cc
text_of_lem (other b) s h = cc

text_field_lem : (k s : Text) (d : Dict) → text_field k d ≡ some s → lookup k d ≡ some (str s)
unfolding text_field
text_field_lem k s d h = elim (Option-cases (lookup k d)) [
  | inl e ↦ absurd (ground arith)
  | inr (v, e) ↦ ground (arith, text_of_lem v s)
]

answer :
    (d : Dict) (r : StkInitiationResult) → check_response (model_validate d) ≡ ok r → IsAnswer d r
unfolding check_response model_validate read_fields
answer d r h = ground (
  arith,
  text_field_lem (codes "CheckoutRequestID") r.checkout_request_id d,
  text_field_lem (codes "MerchantRequestID") r.merchant_request_id d,
  text_field_lem (codes "ResponseCode") r.response_code d,
  text_field_lem (codes "CustomerMessage") r.customer_message d,
  text_eq_iff r.response_code (codes "0"),
)

-- When `initiate` returns, Daraja has answered the one payload with an object that holds ResponseCode
-- "0", and the result has the identifiers of that answer.
pub initiate_accepted :
    (env : Platform) (tenacity : Tenacity (Host env)) (a : StkArgs) (w w' : Host env)
    (r : StkInitiationResult)
    → initiate env tenacity a w ≡ (ok r, w')
    → (d : Dict) × (post env tenacity
          (codes "/mpesa/stkpush/v1/processrequest")
          (stk_payload env a (
            generate_stk_password env.b64encode env.daraja_shortcode env.daraja_passkey
              (env.timestamp w.net)))
          w
        ≡ (ok (fields d), w'))
      × IsAnswer d r
unfolding initiate check_response
initiate_accepted env tenacity a w w' r h =
    let path = codes "/mpesa/stkpush/v1/processrequest" in
    let payload = stk_payload env a (
      generate_stk_password env.b64encode env.daraja_shortcode env.daraja_passkey
        (env.timestamp w.net)) in
    elim (Result-cases (post env tenacity path payload w).0) [
      | inr (e, failed) ↦ absurd (ground arith)
      | inl (other_value, done) ↦ absurd (ground arith)
      | inl (fields d, done) ↦ (d, ground arith, answer d r (ground arith))
    ]
