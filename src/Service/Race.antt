-- ===== src/Service/Race.antt =====
-- app/services/stk.py, `initiate_stk_push`, when several requests with one idempotency key run at the
-- same time. A request is cut where another may come in between: at its transactions, each of which
-- another session sees as a whole, and at its Daraja call.
pub mod Safe
pub mod Alone
mod Tests
use daraja_payment_wrapper.Prelude.{
  ℕ, ◌+◌, Text, if◌then◌else◌, ◌≡◌, Option, none, some, List, [], ◌∷◌,
}
use daraja_payment_wrapper.Errors.{Error, Result, ok, err, is_daraja_error}
use daraja_payment_wrapper.Schemas.{StkPushInitiateRequest}
use daraja_payment_wrapper.Repository.{update_daraja_ids}
use daraja_payment_wrapper.Daraja.Stk.{StkInitiationResult}
use daraja_payment_wrapper.Service.{Environment, World, Initiator, on_db, new_uuid, transact}
use daraja_payment_wrapper.Service.Initiate.{args, insert_new, mark_call_failed}

-- How far a request with the key has come: it has not made its record yet; the record is durable; Daraja
-- has answered; Daraja has refused and the record is to be marked; it has returned or raised.
pub data Phase (key : Text) : Type 0 where
  waiting : (r : StkPushInitiateRequest) → r.idempotency_key ≡ key → Phase key
  anchored : (r : StkPushInitiateRequest) → (id : Text) → Phase key
  answered : (id : Text) → StkInitiationResult → Phase key
  failing : (id : Text) → Phase key
  finished : Phase key

module _ (env : Environment) (f : Initiator env) {key : Text} where
  abbrev after_insert : StkPushInitiateRequest → Text → Result (Unit {0}) → Phase key
  after_insert r id (ok u) = anchored r id
  after_insert r id (err e) = finished

  abbrev after_call : Text → Result StkInitiationResult → Phase key
  after_call id (ok result) = answered id result
  after_call id (err e) = if is_daraja_error e then failing id else finished

  -- The next part of the request, as `start` and `dispatch` run it.
  unfoldable pub advance : Phase key → World env → Phase key × World env
  advance (waiting r same) w =
      let w1 : World env = record w { draws = w.draws + 1 } in
      let (result, w') = transact env (insert_new env r (env.uuid4 w.draws)) w1 in
      (after_insert r (env.uuid4 w.draws) result, w')
  advance (anchored r id) w = let (result, w') = f (args r) w in (after_call id result, w')
  advance (answered id result) w = (
    finished,
    (transact env
        (update_daraja_ids env.database id result.checkout_request_id result.merchant_request_id)
        w).1,
  )
  advance (failing id) w = (finished, (mark_call_failed env id w).1)
  advance finished w = (finished, w)

  -- One of the requests moves: by its next part, or because the cache, the lock or an existing payment
  -- lets it end before it has made a record.
  pub data Move : World env → List (Phase key) → World env → List (Phase key) → Type 0 where
    advances :
        (p : Phase key) (ps : List (Phase key)) (w : World env)
        → Move w (p ∷ ps) (advance p w).1 ((advance p w).0 ∷ ps)
    returns :
        (r : StkPushInitiateRequest) (same : r.idempotency_key ≡ key) (ps : List (Phase key))
        (w : World env)
        → Move w (waiting r same ∷ ps) w (finished ∷ ps)
    later :
        {w w' : World env} (p : Phase key) {ps ps' : List (Phase key)}
        → Move w ps w' ps'
        → Move w (p ∷ ps) w' (p ∷ ps')
    -- Redis changes, whatever the requests have written there, and a lock may expire.
    redis_changes :
        (s : env.redis.Store) (ps : List (Phase key)) (w : World env)
        → Move w ps (record w { redis = s }) ps
    -- A new request with the key comes in.
    arrives :
        (r : StkPushInitiateRequest) (same : r.idempotency_key ≡ key) (ps : List (Phase key))
        (w : World env)
        → Move w ps w (waiting r same ∷ ps)

  pub data Run : World env → List (Phase key) → World env → List (Phase key) → Type 0 where
    done : {w : World env} {ps : List (Phase key)} → Run w ps w ps
    next :
        {w w' w'' : World env} {ps ps' ps'' : List (Phase key)}
        → Move w ps w' ps'
        → Run w' ps' w'' ps''
        → Run w ps w'' ps''
