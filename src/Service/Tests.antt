-- ===== src/Service/Tests.antt =====
-- The theorems on app/services/stk.py at concrete requests and callbacks.
use daraja_payment_wrapper.Prelude.{
  show, List, Text, codes, text_eq, ◌≡◌, ◌≢◌, ◌⊎◌, refl, none, some, [], ◌∷◌, if◌then◌else◌,
}
use daraja_payment_wrapper.Errors.{
  ok, err, app, duplicate_payment, transport_error, Error, daraja_error,
}
use daraja_payment_wrapper.Payment.{Payment}
use daraja_payment_wrapper.Schemas.Callback.{extract_payment_details, to_dict}
use daraja_payment_wrapper.Json.{put, get, str, null}
use daraja_payment_wrapper.Repository.{
  paid_value, bind_text, mark_completed, get_by_checkout_request_id, create, update_daraja_ids,
  mark_failed, get_by_idempotency_key,
}
use daraja_payment_wrapper.Database.Rows.{by_id}
use daraja_payment_wrapper.Service.{
  World, Initiator, lock_key, callback_idem_key, redis_set_nx, transact, redis_get, redis_setex,
  redis_delete, new_uuid,
}
use daraja_payment_wrapper.Service.Initiate.Replay.{IsNew, initiate_replays}
use daraja_payment_wrapper.Service.Initiate.Failure.{marking, IsFailed, call_daraja_raises}
use daraja_payment_wrapper.Schemas.{StkPushInitiateRequest, StkPushInitiateResponse}
use daraja_payment_wrapper.Service.Initiate.{
  args, initiate_stk_push, accepted, from_cache, locked, under_lock, resume, start, insert_new,
  dispatch, call_daraja, new_payment,
}
use daraja_payment_wrapper.Service.Initiate.Safety.{
  IsAnchored, initiate_no_second_charge, initiate_anchored,
}
use daraja_payment_wrapper.Service.Initiate.Lock.{initiate_excluded, initiate_releases_lock}
use daraja_payment_wrapper.Service.Process.{
  process_callback, settle, apply_outcome, complete, details_of,
}
use daraja_payment_wrapper.Service.Process.Settle.{
  HasNoPayment, IsUnchanged, IsSettled, process_callback_outcome,
}
use daraja_payment_wrapper.Service.Sample.{
  env, accepting, rejecting, request, payment, server, fresh, waiting, callback, result,
}

initiate_no_second_charge_example :
    initiate_stk_push env accepting request waiting
    ≡ initiate_stk_push env rejecting request waiting
initiate_no_second_charge_example =
    initiate_no_second_charge env accepting rejecting request (codes "id-7") payment waiting refl
      refl

-- A client that fails unless some payment is durable.
abbrev cautious_on : List Payment → Initiator env
cautious_on [] a w = (err transport_error, w)
cautious_on (p ∷ ps) a w = accepting a w

abbrev cautious : Initiator env
cautious a w = cautious_on w.db.saved a w

cautious_on_agrees :
    (l : List Payment) (i : Text) (p : Payment) (w : World env)
    → by_id l i ≡ some p
    → accepting (args request) w ≡ cautious_on l (args request) w
cautious_on_agrees [] i p w h = cc
cautious_on_agrees (q ∷ l) i p w h = refl

cautious_agrees :
    (w : World env)
    → IsAnchored env request w
    → accepting (args request) w ≡ cautious (args request) w
cautious_agrees w anchor =
    cautious_on_agrees w.db.saved anchor.payment.id anchor.payment w anchor.durable

initiate_anchored_example :
    initiate_stk_push env accepting request fresh ≡ initiate_stk_push env cautious request fresh
initiate_anchored_example = initiate_anchored env accepting cautious request cautious_agrees fresh

abbrev held_elsewhere : World env
held_elsewhere = record fresh {
  redis =
      server (λ k. if text_eq (lock_key request.idempotency_key) k then some (codes "1") else none);
}

initiate_excluded_example :
    (s : env.redis.Store) × (initiate_stk_push env accepting request held_elsewhere
      ≡ (err (app duplicate_payment), record held_elsewhere { redis = s }))
initiate_excluded_example =
    initiate_excluded env accepting request held_elsewhere refl refl (λ h. cc)

initiate_releases_lock_example :
    env.redis.held
      (initiate_stk_push env accepting request fresh).1.redis
      (lock_key request.idempotency_key)
    ≡ none
initiate_releases_lock_example =
    initiate_releases_lock env accepting request (λ a. record { at = λ w h. h }) fresh refl refl

abbrev after_first : World env
after_first = (process_callback env callback waiting).1

first_returns : process_callback env callback waiting ≡ (ok tt, after_first)
unfolding process_callback settle apply_outcome complete details_of extract_payment_details to_dict
    put get redis_set_nx transact mark_completed get_by_checkout_request_id paid_value bind_text
first_returns = refl

process_callback_outcome_example :
    ((env.redis.held waiting.redis (callback_idem_key callback.checkout_request_id) ≢ none)
      × IsUnchanged env callback waiting after_first)
    ⊎ ((HasNoPayment env callback waiting × IsUnchanged env callback waiting after_first)
        ⊎ IsSettled env callback waiting after_first)
process_callback_outcome_example =
    process_callback_outcome env callback waiting after_first first_returns

abbrev after_accepted : World env
after_accepted = (initiate_stk_push env accepting request fresh).1

abbrev response : StkPushInitiateResponse
response = accepted (codes "id-0") result

request_accepted : initiate_stk_push env accepting request fresh ≡ (ok response, after_accepted)
unfolding initiate_stk_push redis_get from_cache locked redis_set_nx under_lock resume start
    new_uuid transact insert_new create dispatch call_daraja update_daraja_ids redis_setex
    redis_delete get_by_idempotency_key new_payment show
request_accepted = refl

abbrev changed : StkPushInitiateRequest
changed = record request { account_reference = codes "INV-2" }

fresh-IsNew : IsNew env request fresh.db
fresh-IsNew i p h = cc

initiate_replays_example :
    (s : env.redis.Store) × (initiate_stk_push env rejecting changed after_accepted
      ≡ (ok response, record after_accepted { redis = s }))
initiate_replays_example =
    initiate_replays env request accepting (λ a. record { at = λ w h. h }) rejecting changed
      response fresh after_accepted refl refl fresh-IsNew request_accepted refl

abbrev rejection : Error
rejection = app (
    daraja_error
      (record { daraja_code = str (codes "1"); daraja_description = null; http_status = none }))

abbrev asked : World env
asked = record waiting { daraja = 1 }

abbrev marked : env.database.Session
marked = (marking env (codes "id-7") asked.db).1

marking_returns : marking env (codes "id-7") asked.db ≡ (ok tt, marked)
unfolding mark_failed
marking_returns = refl

call_daraja_raises_example :
    (call_daraja env rejecting request (codes "id-7") waiting
      ≡ (err rejection, record asked { db = marked }))
    × IsFailed env (codes "id-7") marked
call_daraja_raises_example =
    (((call_daraja_raises env rejecting request (codes "id-7") rejection waiting asked refl).1)
        refl).0
      payment marked refl marking_returns
