-- ===== src/Tasks/Stk/Tests.antt =====
-- The theorems on app/tasks/stk_tasks.py at concrete messages.
use daraja_payment_wrapper.Prelude.{◌+◌, ◌≤◌, ◌≡◌, refl, false, some, [], ◌∷◌, arith}
use daraja_payment_wrapper.Errors.{Result, ok, err, db_failure}
use daraja_payment_wrapper.Repository.{get_by_checkout_request_id}
use daraja_payment_wrapper.Service.{World, redis_set_nx}
use daraja_payment_wrapper.Service.Process.{process_callback, settle}
use daraja_payment_wrapper.Service.Process.Duplicates.{claim}
use daraja_payment_wrapper.Service.Sample.{env, rejecting, request, callback, waiting, fresh}
use daraja_payment_wrapper.Tasks.Worker.{total}
use daraja_payment_wrapper.Tasks.Sample.{celery}
use daraja_payment_wrapper.Tasks.Stk.{in_session, process_stk_callback, initiate_stk_push_async}
use daraja_payment_wrapper.Tasks.Stk.Ends.{process_stk_callback_ends}
use daraja_payment_wrapper.Tasks.Stk.Retried.{process_stk_callback_retried}
use daraja_payment_wrapper.Tasks.Stk.Batch.{initiate_stk_push_async_within}

-- The database does not answer.
abbrev cut_off : World env
cut_off = record waiting { db = record waiting.db { up = false } }

process_stk_callback_ends_example :
    let d = process_stk_callback env celery ok 6 callback cut_off in
    (r : Result (Unit {0})) × (d.outcome ≡ some r) × (total d.waits ≤ 930)
process_stk_callback_ends_example = process_stk_callback_ends env celery ok callback cut_off

-- One run of the callback task.
abbrev first : World env
first = (in_session env celery (process_callback env callback) cut_off).1

abbrev claimed : env.redis.Store
claimed = (claim env callback cut_off.redis).1

first_fails : (process_callback env callback cut_off).0 ≡ err db_failure
unfolding process_callback settle redis_set_nx get_by_checkout_request_id
first_fails = refl

second_claim : claim env callback first.redis ≡ (ok false, first.redis)
unfolding in_session process_callback settle redis_set_nx get_by_checkout_request_id
second_claim = refl

process_stk_callback_retried_example :
    process_stk_callback env celery ok 2 callback cut_off ≡ record {
      outcome = some (ok tt);
      waits = 30 ∷ [];
      state = record first { redis = first.redis; db = (env.database.rollback first.db).1 };
    }
process_stk_callback_retried_example =
    process_stk_callback_retried env celery ok 0 callback callback cut_off db_failure claimed
      first.redis false refl refl first_fails second_claim

initiate_stk_push_async_within_example :
    (initiate_stk_push_async env celery rejecting ok 3 request fresh).state.daraja ≤ 0 + 1
initiate_stk_push_async_within_example =
    initiate_stk_push_async_within env celery (λ n. n) 1 rejecting (λ a w. refl)
      (λ a w. omega arith) ok 3 request fresh
