-- ===== src/Routes/Tests.antt =====
-- The theorems on app/routes at concrete requests.
use daraja_payment_wrapper.Prelude.{◌≡◌, true, some}
use daraja_payment_wrapper.Errors.{ok}
use daraja_payment_wrapper.Schemas.Callback.{StkCallbackBody}
use daraja_payment_wrapper.Service.Process.{process_callback}
use daraja_payment_wrapper.Service.Sample.{env, callback, waiting}
use daraja_payment_wrapper.Routes.{RequestBody, object, fields, accepted, receive, run_background}
use daraja_payment_wrapper.Routes.Acknowledges.{stk_push_callback_acknowledges}

-- Every value is a callback.
abbrev posted : RequestBody StkCallbackBody
posted = fields (some (object (some callback)))

stk_push_callback_acknowledges_example :
    let (reply, task) = receive some (λ raw. true) env posted in
    (reply ≡ ok accepted)
    × (run_background {Raw = StkCallbackBody} some (λ raw. true) env task waiting
        ≡ (ok tt, (process_callback env callback waiting).1))
stk_push_callback_acknowledges_example =
    stk_push_callback_acknowledges some (λ raw. true) env posted waiting
