-- ===== src/Service/Process.antt =====
-- app/services/stk.py, `process_callback`.
pub mod Outcome
pub mod Settle
pub mod Duplicates
use daraja_payment_wrapper.Prelude.{
  ℕ, Text, codes, Bool, true, false, Option, none, some, [], ◌∷◌, if◌then◌else◌,
}
use daraja_payment_wrapper.Errors.{Error, Result, ok, err}
use daraja_payment_wrapper.Exec.{Exec, pure, raise, ◌>>=◌, ◌>>◌}
use daraja_payment_wrapper.Payment.{Payment}
use daraja_payment_wrapper.Schemas.Callback.{
  StkCallbackBody, is_success, extract_payment_details, parse_daraja_transaction_date,
}
use daraja_payment_wrapper.Json.{Dict, get}
use daraja_payment_wrapper.Repository.{get_by_checkout_request_id, mark_completed, mark_failed}
use daraja_payment_wrapper.Service.{
  Environment, World, callback_idem_key, on_db, redis_set_nx, transact,
}

-- `except ValueError: details = {}`
unfoldable pub details_of : StkCallbackBody → Dict
details_of callback = elim (extract_payment_details callback) [ ok d ↦ d | err _ ↦ [] ]

module _ (env : Environment) where
  unfoldable pub complete : Payment → Dict → Exec (World env) (Unit {0})
  complete payment details = transact env (
      mark_completed env.database env.decimal payment.id (get (codes "MpesaReceiptNumber") details)
        (get (codes "Amount") details)
        (parse_daraja_transaction_date env.strptime (get (codes "TransactionDate") details)))

  unfoldable pub fail : Payment → StkCallbackBody → Exec (World env) (Unit {0})
  fail payment callback =
      transact env (mark_failed env.database payment.id callback.result_desc callback.result_code)

  unfoldable pub apply_outcome : StkCallbackBody → Option Payment → Exec (World env) (Unit {0})
  apply_outcome callback none = pure tt
  apply_outcome callback (some payment) =
      if is_success callback then complete payment (details_of callback) else fail payment callback

  unfoldable pub settle : StkCallbackBody → Exec (World env) (Unit {0})
  settle callback = do
    payment ← on_db env (get_by_checkout_request_id env.database callback.checkout_request_id)
    apply_outcome callback payment

  unfoldable pub process_callback : StkCallbackBody → Exec (World env) (Unit {0})
  process_callback callback = do
    first_time ←
        redis_set_nx env (callback_idem_key callback.checkout_request_id) (codes "1")
          env.idempotency_ttl_seconds
    if first_time then settle callback else pure tt
