-- ===== src/Service/Initiate.antt =====
-- app/services/stk.py, `initiate_stk_push`, in the order of its steps.
pub mod Calls
pub mod Safety
mod Reach
pub mod Lock
pub mod Replay
pub mod Failure
use daraja_payment_wrapper.Prelude.{
  ℕ, Text, codes, Bool, true, false, Option, none, some, [], ◌∷◌, if◌then◌else◌,
}
use daraja_payment_wrapper.Prelude.Int.{pos}
use daraja_payment_wrapper.Errors.{Error, Result, ok, err, app, duplicate_payment, is_daraja_error}
use daraja_payment_wrapper.Exec.{Exec, pure, raise, catch, catch_if, finally, ◌>>=◌, ◌>>◌}
use daraja_payment_wrapper.Payment.{Payment, pending, stk_push, is_settled}
use daraja_payment_wrapper.Database.{Database}
use daraja_payment_wrapper.Schemas.{StkPushInitiateRequest, StkPushInitiateResponse}
use daraja_payment_wrapper.Repository.{
  create, get_by_idempotency_key, update_daraja_ids, mark_failed,
}
use daraja_payment_wrapper.Daraja.Stk.{StkArgs, StkInitiationResult}
use daraja_payment_wrapper.Service.{
  Environment, World, Initiator, idem_cache_key, lock_key, on_redis, on_db, redis_get, redis_set_nx,
  redis_setex, redis_delete, new_uuid, transact,
}

abbrev pub args : StkPushInitiateRequest → StkArgs
args r = record {
  phone = r.phone_number;
  amount = r.amount;
  account_reference = r.account_reference;
  transaction_desc = r.transaction_desc;
  transaction_type = r.transaction_type;
}

-- The record that anchors the payment before Daraja is called.
unfoldable pub new_payment : StkPushInitiateRequest → Text → ℕ → Payment
new_payment r payment_id now = record {
  id = payment_id;
  payment_type = stk_push;
  status = pending;
  phone = r.phone_number;
  amount = r.amount;
  account_reference = r.account_reference;
  transaction_desc = r.transaction_desc;
  idempotency_key = r.idempotency_key;
  checkout_request_id = none;
  merchant_request_id = none;
  mpesa_receipt = none;
  amount_paid = none;
  mpesa_transaction_date = none;
  failure_reason = none;
  result_code = none;
  created_at = now;
  updated_at = now;
}

abbrev text_or_empty : Option Text → Text
text_or_empty none = []
text_or_empty (some s) = s

unfoldable pub payment_to_response : Payment → StkPushInitiateResponse
payment_to_response p = record {
  payment_id = p.id;
  checkout_request_id = text_or_empty p.checkout_request_id;
  merchant_request_id = text_or_empty p.merchant_request_id;
  response_code = codes "0";
  customer_message = codes "Payment already processed.";
  status = p.status;
}

unfoldable pub accepted : Text → StkInitiationResult → StkPushInitiateResponse
accepted payment_id result = record {
  payment_id = payment_id;
  checkout_request_id = result.checkout_request_id;
  merchant_request_id = result.merchant_request_id;
  response_code = result.response_code;
  customer_message = result.customer_message;
  status = pending;
}

module _ (env : Environment) where
  -- `except DarajaError`: the payment is marked failed, as far as the database allows.
  unfoldable pub mark_call_failed : Text → Exec (World env) (Unit {0})
  mark_call_failed payment_id =
      catch
        (on_db env (
          mark_failed env.database payment_id (codes "Daraja API call failed before initiation")
            (pos 1)
          >> env.database.commit))
        (λ e. on_db env env.database.rollback)

  unfoldable pub insert_new : StkPushInitiateRequest → Text → Exec env.database.Session (Unit {0})
  insert_new r payment_id s =
      create env.database (new_payment r payment_id (env.database.utcnow s)) s

module _ (env : Environment) (initiate : Initiator env) where
  unfoldable pub call_daraja : StkPushInitiateRequest → Text → Exec (World env) StkInitiationResult
  call_daraja r payment_id =
      catch_if is_daraja_error (initiate (args r)) (λ e. mark_call_failed env payment_id >> raise e)

  -- From the Daraja call to the cached response.
  unfoldable pub dispatch : StkPushInitiateRequest → Text → Exec (World env) StkPushInitiateResponse
  dispatch r payment_id = do
    result ← call_daraja r payment_id
    transact env (
        update_daraja_ids env.database payment_id result.checkout_request_id
          result.merchant_request_id)
    redis_setex env (idem_cache_key r.idempotency_key) env.idempotency_ttl_seconds
        (env.dump_json (accepted payment_id result))
    pure (accepted payment_id result)

  unfoldable pub start : StkPushInitiateRequest → Exec (World env) StkPushInitiateResponse
  start r = do
    payment_id ← new_uuid env
    transact env (insert_new env r payment_id)
    dispatch r payment_id

  -- An existing payment answers for itself once it is settled.
  unfoldable pub resume :
      StkPushInitiateRequest → Option Payment → Exec (World env) StkPushInitiateResponse
  resume r none = start r
  resume r (some p) = if is_settled p.status then pure (payment_to_response p) else start r

  unfoldable pub under_lock : StkPushInitiateRequest → Exec (World env) StkPushInitiateResponse
  under_lock r = do
    existing ← on_db env (get_by_idempotency_key env.database r.idempotency_key)
    resume r existing

  unfoldable pub locked : StkPushInitiateRequest → Exec (World env) StkPushInitiateResponse
  locked r = do
    acquired ← redis_set_nx env (lock_key r.idempotency_key) (codes "1") env.stk_lock_ttl_seconds
    if acquired
        then finally (under_lock r) (redis_delete env (lock_key r.idempotency_key))
        else raise (app duplicate_payment)

  -- `if cached_raw`: an empty value is no hit.
  unfoldable pub from_cache :
      StkPushInitiateRequest → Option Text → Exec (World env) StkPushInitiateResponse
  from_cache r none w = locked r w
  from_cache r (some []) w = locked r w
  from_cache r (some (c ∷ cs)) w = (env.validate_json (c ∷ cs), w)

  unfoldable pub initiate_stk_push :
      StkPushInitiateRequest → Exec (World env) StkPushInitiateResponse
  initiate_stk_push r = do
    cached_raw ← redis_get env (idem_cache_key r.idempotency_key)
    from_cache r cached_raw
