-- ===== src/Daraja/Tests.antt =====
-- The theorems on app/daraja at concrete responses.
use daraja_payment_wrapper.Prelude.{
  ◌*◌, ◌^◌, Text, codes, text_eq, ◌++◌, ◌≡◌, refl, true, none, some, [], arith, if◌then◌else◌,
}
use daraja_payment_wrapper.Prelude.Int.{pos}
use daraja_payment_wrapper.Errors.{ok, is_transient}
use daraja_payment_wrapper.Exec.{◌>>◌}
use daraja_payment_wrapper.Json.{str, int, Dict, lookup}
use daraja_payment_wrapper.Daraja.{Host}
use daraja_payment_wrapper.Daraja.Circuit.{
  CircuitBreaker, new_circuit, closed, check_circuit, on_success, on_failure, initial, step, fails,
  circuit_never_opens,
}
use daraja_payment_wrapper.Daraja.Auth.{token_cache_key, token_lock_key, get_token}
use daraja_payment_wrapper.Daraja.Auth.Cache.{get_token_forgets}
use daraja_payment_wrapper.Daraja.Client.{
  fields, parse, check, read_response, execute_request, attempt, post,
}
use daraja_payment_wrapper.Daraja.Client.Retry.{post_unhandled}
use daraja_payment_wrapper.Daraja.Stk.{
  StkArgs, StkInitiationResult, generate_stk_password, stk_payload, check_response, initiate,
}
use daraja_payment_wrapper.Daraja.Stk.Payload.{stk_payload_complete}
use daraja_payment_wrapper.Daraja.Stk.Accepted.{IsAnswer, initiate_accepted}
use daraja_payment_wrapper.Schemas.DarajaResponse.{text_field, read_fields, model_validate}
use daraja_payment_wrapper.Schemas.Phone.{
  is_decimal, is_separator, remove, unsigned, normalise_raw, check_msisdn, is_msisdn,
  normalise_phone,
}
use daraja_payment_wrapper.Schemas.Request.{
  shillings, validate, stripped, str_strip_whitespace, has_valid_fields, is_valid_amount, is_safe,
  with_phone,
}
use daraja_payment_wrapper.Schemas.Request.Valid.{validate-IsValid}
use daraja_payment_wrapper.Service.Initiate.{args}
use daraja_payment_wrapper.Service.Sample.{request}
use daraja_payment_wrapper.Daraja.Sample.{tenacity, answer, platform, host}

broken : CircuitBreaker
broken = on_failure 1 7 (on_failure 1 5 new_circuit)

circuit_never_opens_example :
    (broken.state ≡ closed) × (check_circuit 60 9 broken ≡ (ok tt, broken))
unfolding broken
circuit_never_opens_example =
    circuit_never_opens 60 1 9 (on_failure 1 7 (on_failure 1 5 new_circuit))
      (step (step initial (fails 5 new_circuit)) (fails 7 (on_failure 1 5 new_circuit)))

abbrev cached : Host platform
cached = host true (λ k. if text_eq token_cache_key k then some (codes "abc") else none) (some 200)

abbrev empty : Host platform
empty = host true (λ k. none) (some 200)

get_token_forgets_example :
    (platform.redis.held (get_token platform empty).1.redis token_cache_key ≡ none)
    × (platform.redis.held (get_token platform empty).1.redis token_lock_key ≡ some (codes "1"))
get_token_forgets_example = get_token_forgets platform empty refl refl refl

abbrev path : Text
path = codes "/mpesa/stkpush/v1/processrequest"

abbrev url : Text
url = platform.daraja_base_url ++ path

post_unhandled_example :
    post platform tenacity path [] empty
    ≡ (check platform >> tenacity.retrying is_transient 3 (attempt platform url [])) empty
post_unhandled_example = post_unhandled platform tenacity path [] empty (omega arith)

abbrev stk_args : StkArgs
stk_args = args request

abbrev stk_result : StkInitiationResult
stk_result = record {
  checkout_request_id = codes "ws_CO_1";
  merchant_request_id = codes "29115-1";
  response_code = codes "0";
  response_description = codes "Success";
  customer_message = codes "Success";
}

abbrev sent_once : Host platform
sent_once = record cached { net = record { sent = 1; status = some 200 } }

initiate_returns : initiate platform tenacity stk_args cached ≡ (ok stk_result, sent_once)
unfolding initiate check_response model_validate read_fields text_field post check check_circuit
    attempt execute_request read_response parse get_token lookup on_success
initiate_returns = refl

initiate_accepted_example :
    (d : Dict) × (post platform tenacity path
        (stk_payload platform stk_args (
          generate_stk_password platform.b64encode platform.daraja_shortcode platform.daraja_passkey
            (platform.timestamp cached.net)))
        cached
      ≡ (ok (fields d), sent_once))
    × IsAnswer d stk_result
initiate_accepted_example =
    initiate_accepted platform tenacity stk_args cached sent_once stk_result initiate_returns

request_ok : validate request ≡ ok request
unfolding validate stripped str_strip_whitespace has_valid_fields is_valid_amount is_safe with_phone
    normalise_phone is_separator remove unsigned normalise_raw check_msisdn is_msisdn is_decimal
request_ok = refl

stk_payload_complete_example :
    let payload = stk_payload platform (args request) (codes "cGFzcw==", codes "20260410133540") in
    (lookup (codes "PhoneNumber") payload ≡ some (str request.phone_number))
    × (lookup (codes "Amount") payload ≡ some (int (pos (shillings request.amount))))
    × (request.amount.coefficient ≡ pos (shillings request.amount * 10 ^ 0))
    × (lookup (codes "AccountReference") payload ≡ some (str request.account_reference))
    × (lookup (codes "TransactionDesc") payload ≡ some (str request.transaction_desc))
stk_payload_complete_example =
    stk_payload_complete platform request (codes "cGFzcw==", codes "20260410133540")
      (validate-IsValid request request request_ok)

abbrev query_path : Text
query_path = codes "/mpesa/accountbalance/v1/query"

post_returns : post platform tenacity query_path [] cached ≡ (ok (fields answer), sent_once)
unfolding post check check_circuit attempt execute_request read_response parse get_token on_success
post_returns = refl
