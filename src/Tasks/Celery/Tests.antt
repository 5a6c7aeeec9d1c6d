-- ===== src/Tasks/Celery/Tests.antt =====
-- The theorems on the queues at concrete tasks.
use daraja_payment_wrapper.Prelude.{
  ℕ, ◌+◌, Text, codes, text_eq, any, length, ◌≡◌, refl, false, some, [], ◌∷◌, ◌++◌,
}
use daraja_payment_wrapper.Errors.{err, value_error, type_error}
use daraja_payment_wrapper.Exec.{Exec}
use daraja_payment_wrapper.Json.{str}
use daraja_payment_wrapper.Tasks.Stk.{max_retries, backoff}
use daraja_payment_wrapper.Tasks.Worker.{deliver}
use daraja_payment_wrapper.Tasks.Sample.{celery}
use daraja_payment_wrapper.Tasks.Celery.{
  task_routes, queue_of, delivered, registered, Failure, handle_task_falure, handle_all,
}
use daraja_payment_wrapper.Tasks.Celery.DeadLetter.{dead_letter_lost}
use daraja_payment_wrapper.Tasks.Celery.Delivered.{delivered_once}

abbrev expire_task : Text
expire_task = codes "app.tasks.reconciliation_tasks.expire_stale_pending_payments"

delivered_once_example :
    (delivered expire_task ≡ queue_of expire_task ∷ [])
    × (text_eq (queue_of expire_task) (codes "dead_letter") ≡ false)
delivered_once_example = delivered_once expire_task

expire_queue : queue_of expire_task ≡ codes "reconciliation"
unfolding queue_of task_routes
expire_queue = refl

-- The second task of the schedule is not one that a module declares.
unknown_scheduled :
    any (text_eq (codes "app.tasks.reconciliation_tasks.check_account_balance")) registered ≡ false
unknown_scheduled = refl

abbrev broken : Exec ℕ (Unit {0})
broken runs = (err value_error, runs + 1)

abbrev failure : Failure
failure = record {
  sender = some (record {
    name = codes "app.tasks.stk_tasks.process_stk_callback";
    retries = some 5;
    max_retries = 5;
  });
  task_id = str (codes "7f1c");
  exception = codes "bad";
  has_args = false;
  kwargs = some [];
}

failed_for_good : (deliver celery max_retries backoff broken 6 0 0).outcome ≡ some (err value_error)
unfolding deliver
failed_for_good = refl

waited : length (deliver celery max_retries backoff broken 6 0 0).waits ≡ 5
unfolding deliver
waited = refl

dead_letter_lost_example :
    (handle_task_falure failure [] ≡ (err type_error, []))
    × (handle_all ([] ++ failure ∷ failure ∷ []) [] ≡ [])
dead_letter_lost_example =
    dead_letter_lost celery max_retries backoff broken 6 0 value_error
      (codes "app.tasks.stk_tasks.process_stk_callback") failure [] (failure ∷ []) []
      failed_for_good (rw (waited) refl)
