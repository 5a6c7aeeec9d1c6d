-- ===== src/Tasks/Stk/Ends.antt =====
-- The tasks come to an end, after how many runs and how long.
use daraja_payment_wrapper.Prelude.{
  ℕ, inl, inr, zero, suc, ◌+◌, ◌-◌, ◌*◌, ◌^◌, ◌≤◌, ◌<◌, ◌≡◌, refl, some, arith,
}
use daraja_payment_wrapper.Errors.{Result, ok}
use daraja_payment_wrapper.Schemas.{StkPushInitiateRequest, StkPushInitiateResponse}
use daraja_payment_wrapper.Schemas.Callback.{StkCallbackBody}
use daraja_payment_wrapper.Exec.{Result-cases}
use daraja_payment_wrapper.Service.{Environment, World, Initiator}
use daraja_payment_wrapper.Service.Process.{process_callback}
use daraja_payment_wrapper.Tasks.Worker.{Celery, total, deliver_ends, deliver_waits}
use daraja_payment_wrapper.Tasks.Stk.{
  max_retries, backoff, batch_max_retries, batch_backoff, in_session, process_stk_callback,
  initiate_run, initiate_stk_push_async,
}

-- What is left of 930 seconds after `n` countdowns.
abbrev budget : ℕ → ℕ
budget n = 30 * (32 - 2 ^ n)

pays : (n : ℕ) → n < 5 → backoff n + budget (suc n) ≤ budget n
pays zero h = omega arith
pays (suc zero) h = omega arith
pays (suc (suc zero)) h = omega arith
pays (suc (suc (suc zero))) h = omega arith
pays (suc (suc (suc (suc zero)))) h = omega arith
pays (suc (suc (suc (suc (suc n))))) h = absurd (omega arith)

abbrev batch_budget : ℕ → ℕ
batch_budget n = 5 * (9 - 3 ^ n)

batch_pays : (n : ℕ) → n < 2 → batch_backoff n + batch_budget (suc n) ≤ batch_budget n
batch_pays zero h = omega arith
batch_pays (suc zero) h = omega arith
batch_pays (suc (suc n)) h = absurd (omega arith)

module _ (env : Environment) (celery : Celery) {Payload : Type 0} where
  -- The callback task ends within six runs, whatever they raise, and waits 930 seconds at most.
  pub process_stk_callback_ends :
      (model_validate : Payload → Result StkCallbackBody) (payload : Payload) (w : World env)
      → let d = process_stk_callback env celery model_validate 6 payload w in
        (r : Result (Unit {0})) × (d.outcome ≡ some r) × (total d.waits ≤ 930)
  unfolding process_stk_callback
  process_stk_callback_ends model_validate payload w =
      elim (Result-cases (model_validate payload)) [
        | inr (e, malformed) ↦ rw (malformed, process_stk_callback) (ok tt, refl, omega arith)
        | inl (callback, valid) ↦
            let body = in_session env celery (process_callback env callback) in
            let (r, h) =
              deliver_ends celery max_retries backoff body 6 0 w (omega arith) (omega arith) in
            rw (valid, process_stk_callback)
              (r, h, deliver_waits celery max_retries backoff body budget pays 6 0 w)
      ]

  -- The batch task ends within three runs, and waits 40 seconds at most.
  pub initiate_stk_push_async_ends :
      (initiate : Initiator env) (model_validate : Payload → Result StkPushInitiateRequest)
      (request_data : Payload) (w : World env)
      → let d = initiate_stk_push_async env celery initiate model_validate 3 request_data w in
        (r : Result StkPushInitiateResponse) × (d.outcome ≡ some r) × (total d.waits ≤ 40)
  unfolding initiate_stk_push_async
  initiate_stk_push_async_ends initiate model_validate request_data w =
      let body = initiate_run env celery initiate (model_validate request_data) in
      let (r, h) =
        deliver_ends celery batch_max_retries batch_backoff body 3 0 w (omega arith)
          (omega arith) in
      (
        r,
        h,
        deliver_waits celery batch_max_retries batch_backoff body batch_budget batch_pays 3 0 w,
      )
