-- ===== src/Daraja/Stk.antt =====
-- app/daraja/stk.py: `STKPushInitiator`, and `DarajaAuthManager.generate_stk_password`.
pub mod Payload
pub mod Accepted
use daraja_payment_wrapper.Prelude.{
  ℕ, suc, ◌-◌, ◌+◌, ◌/◌, ◌^◌, Text, codes, text_eq, take, any, all, Bool, true, false, not, ◌&&◌,
  Option, none, some, List, [], ◌∷◌, ◌++◌, ◌==◌, if◌then◌else◌, zero,
}
use daraja_payment_wrapper.Prelude.Int.{ℤ, pos, negsuc}
use daraja_payment_wrapper.Errors.{Error, Result, ok, err, app, daraja_error}
use daraja_payment_wrapper.Exec.{Exec, pure, raise, ◌>>=◌}
use daraja_payment_wrapper.Payment.{Decimal}
use daraja_payment_wrapper.Json.{Value, null, int, float, str, other, Dict, lookup}
use daraja_payment_wrapper.Schemas.DarajaResponse.{DarajaStkResponse, model_validate}
use daraja_payment_wrapper.Daraja.{Platform, Host, Tenacity}
use daraja_payment_wrapper.Daraja.Client.{Json, fields, other_value, post}

-- The keyword arguments of `initiate`, and its result.
pub record StkArgs : Type 0 where
  pub phone : Text
  pub amount : Decimal
  pub account_reference : Text
  pub transaction_desc : Text
  pub transaction_type : Text

pub record StkInitiationResult : Type 0 where
  pub checkout_request_id : Text
  pub merchant_request_id : Text
  pub response_code : Text
  pub response_description : Text
  pub customer_message : Text

-- `int(amount)`: towards zero
unfoldable pub int_amount : Decimal → ℤ
int_amount d = elim d.coefficient [
  | pos n ↦ pos (n / 10 ^ d.places)
  | negsuc n ↦ truncated (suc n / 10 ^ d.places)
]
  where
    truncated : ℕ → ℤ
    truncated zero = pos 0
    truncated (suc m) = negsuc m

-- The password and the timestamp that it contains.
unfoldable pub generate_stk_password : (Text → Text) → Text → Text → Text → Text × Text
generate_stk_password b64encode shortcode passkey timestamp =
    (b64encode (shortcode ++ passkey ++ timestamp), timestamp)

abbrev to_result : DarajaStkResponse → StkInitiationResult
to_result r = record {
  checkout_request_id = r.checkout_request_id;
  merchant_request_id = r.merchant_request_id;
  response_code = r.response_code;
  response_description = r.response_description;
  customer_message = r.customer_message;
}

abbrev pub validated : Json → Option DarajaStkResponse
validated (fields d) = model_validate d
validated other_value = none

unfoldable pub check_response : Option DarajaStkResponse → Result StkInitiationResult
check_response none = err (
    app
      (daraja_error (record { daraja_code = null; daraja_description = null; http_status = none })))
check_response (some r) =
    if text_eq r.response_code (codes "0")
    then ok (to_result r)
    else err (
        app (
          daraja_error (record {
            daraja_code = str r.response_code;
            daraja_description = str r.response_description;
            http_status = none;
          })))

module _ (env : Platform) where
  unfoldable pub stk_payload : StkArgs → Text × Text → Dict
  stk_payload a (password, timestamp) =
      (codes "BusinessShortCode", str env.daraja_shortcode)
      ∷ (codes "Password", str password)
      ∷ (codes "Timestamp", str timestamp)
      ∷ (codes "TransactionType", str a.transaction_type)
      ∷ (codes "Amount", int (int_amount a.amount))
      ∷ (codes "PartyA", str a.phone)
      ∷ (codes "PartyB", str env.daraja_shortcode)
      ∷ (codes "PhoneNumber", str a.phone)
      ∷ (codes "CallBackURL", str (env.daraja_callback_base_url ++ codes "/api/v1/callback/stk"))
      ∷ (codes "AccountReference", str (take 12 a.account_reference))
      ∷ (codes "TransactionDesc", str (take 13 a.transaction_desc))
      ∷ []

  unfoldable pub initiate : Tenacity (Host env) → StkArgs → Exec (Host env) StkInitiationResult
  initiate tenacity a w =
      let password =
        generate_stk_password env.b64encode env.daraja_shortcode env.daraja_passkey
          (env.timestamp w.net) in
      (post env tenacity (codes "/mpesa/stkpush/v1/processrequest") (stk_payload a password)
          >>= λ raw w'. (check_response (validated raw), w'))
        w
