-- ===== src/Tasks/Stk/Batch.antt =====
-- The batch task retries a whole initiation, and yet asks Daraja for one charge at most.
use daraja_payment_wrapper.Prelude.{ℕ, ◌+◌, ◌≤◌, Text, ◌≡◌, ◌⊎◌, inl, inr, arith}
use daraja_payment_wrapper.Errors.{Result, ok, err}
use daraja_payment_wrapper.Schemas.{StkPushInitiateRequest}
use daraja_payment_wrapper.Repository.Held.{Held, rollback-Held}
use daraja_payment_wrapper.Daraja.Stk.{StkArgs}
use daraja_payment_wrapper.Service.{Environment, World, Initiator, on_db}
use daraja_payment_wrapper.Service.Initiate.{initiate_stk_push}
use daraja_payment_wrapper.Service.Once.Outcome.{initiate-Held, initiate_spends, initiate_quiet}
use daraja_payment_wrapper.Tasks.Worker.{Celery, deliver, deliver_keeps}
use daraja_payment_wrapper.Tasks.Stk.{
  batch_max_retries, batch_backoff, in_session, initiate_run, initiate_stk_push_async,
}

module _ (env : Environment) (celery : Celery) (calls : env.Daraja → ℕ) (limit : ℕ)
    (f : Initiator env) (only_client : (a : StkArgs) (w : World env) → (f a w).1.db ≡ w.db)
    (once : (a : StkArgs) (w : World env) → calls (f a w).1.daraja ≤ calls w.daraja + limit) where
  open env use {database as pg}

  -- At most `n` calls, or the key is held and at most `limit` more.
  abbrev Within : Text → ℕ → World env → Type 0
  Within k n w = (calls w.daraja ≤ n) ⊎ (Held pg k w.db × (calls w.daraja ≤ n + limit))

  closed-Within :
      (k : Text) (n : ℕ) (w : World env) → Within k n w → Within k n (on_db env pg.rollback w).1
  closed-Within k n w (inl c) = inl c
  closed-Within k n w (inr (h, c)) = inr ((rollback-Held pg k).at w.db h, c)

  initiated-Within :
      (r : StkPushInitiateRequest) (n : ℕ) (w : World env)
      → Within r.idempotency_key n w
      → Within r.idempotency_key n (initiate_stk_push env f r w).1
  initiated-Within r n w (inr (h, c)) = inr (
    initiate-Held env calls limit f only_client once r r.idempotency_key w h,
    omega (arith, initiate_quiet env calls limit f only_client once r w h),
  )
  initiated-Within r n w (inl c) = elim (initiate_spends env calls limit f only_client once r w) [
    | inl quiet ↦ inl (omega arith)
    | inr (h, more) ↦ inr (h, omega arith)
  ]

  run-Within :
      (r : StkPushInitiateRequest) (n : ℕ) (w : World env)
      → Within r.idempotency_key n w
      → Within r.idempotency_key n (initiate_run env celery f (ok r) w).1
  unfolding initiate_run in_session
  run-Within r n w h =
      closed-Within r.idempotency_key n (initiate_stk_push env f r w).1 (initiated-Within r n w h)

  -- If one initiation asks Daraja `limit` times at most and leaves the database's session alone, then
  -- so does the whole batch task, however often Celery runs it and for whatever reason a run raises.
  pub initiate_stk_push_async_within :
      {Payload : Type 0} (model_validate : Payload → Result StkPushInitiateRequest) (fuel : ℕ)
      (request_data : Payload) (w : World env)
      → calls (initiate_stk_push_async env celery f model_validate fuel request_data w).state.daraja
        ≤ calls w.daraja + limit
  unfolding initiate_stk_push_async initiate_run
  initiate_stk_push_async_within model_validate fuel request_data w =
      kept (model_validate request_data)
    where
      kept :
          (v : Result StkPushInitiateRequest)
          → calls
              (deliver celery batch_max_retries batch_backoff
                (initiate_run env celery f v)
                fuel
                0
                w).state.daraja
            ≤ calls w.daraja + limit
      kept (err e) = omega (
        arith,
        deliver_keeps celery batch_max_retries batch_backoff (initiate_run env celery f (err e))
            (λ s. calls s.daraja ≤ calls w.daraja) (λ s h. h) fuel 0 w (omega arith),
      )
      kept (ok r) =
          elim (deliver_keeps celery batch_max_retries batch_backoff
            (initiate_run env celery f (ok r)) (Within r.idempotency_key (calls w.daraja))
            (run-Within r (calls w.daraja)) fuel 0 w (inl (omega arith))) [
              | inl c ↦ omega arith
              | inr (h, c) ↦ c
            ]
