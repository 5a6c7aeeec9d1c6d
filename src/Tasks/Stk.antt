-- ===== src/Tasks/Stk.antt =====
-- app/tasks/stk_tasks.py: the two tasks. `model_validate` is pydantic's, on the payload of the message.
pub mod Ends
pub mod Retried
pub mod Batch
mod Tests
use daraja_payment_wrapper.Prelude.{ℕ, ◌*◌, ◌^◌, Option, none, some, []}
use daraja_payment_wrapper.Errors.{Result, ok, err}
use daraja_payment_wrapper.Exec.{Exec, pure, raise, finally, ◌>>=◌}
use daraja_payment_wrapper.Schemas.{StkPushInitiateRequest, StkPushInitiateResponse}
use daraja_payment_wrapper.Schemas.Callback.{StkCallbackBody}
use daraja_payment_wrapper.Service.{Environment, World, Initiator, on_db}
use daraja_payment_wrapper.Service.Initiate.{initiate_stk_push}
use daraja_payment_wrapper.Service.Process.{process_callback}
use daraja_payment_wrapper.Tasks.Worker.{Celery, Delivery, deliver}

abbrev pub max_retries : ℕ
max_retries = 5

abbrev pub backoff : ℕ → ℕ
backoff retries = 30 * 2 ^ retries

abbrev pub batch_max_retries : ℕ
batch_max_retries = 2

abbrev pub batch_backoff : ℕ → ℕ
batch_backoff retries = 10 * 3 ^ retries

module _ (env : Environment) (celery : Celery) where
  -- `async with session_factory() as session`: what is not committed at the end is rolled back.
  unfoldable pub in_session : {A : Type 0} → Exec (World env) A → Exec (World env) A
  in_session m = finally m (λ w. (on_db env env.database.rollback w).1)

  -- A malformed payload ends the task at once.
  unfoldable pub process_stk_callback :
      {Payload : Type 0}
      → (Payload → Result StkCallbackBody)
      → ℕ
      → Payload
      → World env
      → Delivery (World env) (Unit {0})
  process_stk_callback model_validate fuel payload w = elim (model_validate payload) [
    | err e ↦ record { outcome = some (ok tt); waits = []; state = w }
    | ok callback ↦
        deliver celery max_retries backoff (in_session (process_callback env callback)) fuel 0 w
  ]

  -- One run of the batch task: the request is validated inside of what is retried.
  unfoldable pub initiate_run :
      Initiator env → Result StkPushInitiateRequest → Exec (World env) StkPushInitiateResponse
  initiate_run initiate (err e) = raise e
  initiate_run initiate (ok request) = in_session (initiate_stk_push env initiate request)

  unfoldable pub initiate_stk_push_async :
      {Payload : Type 0}
      → Initiator env
      → (Payload → Result StkPushInitiateRequest)
      → ℕ
      → Payload
      → World env
      → Delivery (World env) StkPushInitiateResponse
  initiate_stk_push_async initiate model_validate fuel request_data w =
      deliver celery batch_max_retries batch_backoff
        (initiate_run initiate (model_validate request_data)) fuel 0 w
