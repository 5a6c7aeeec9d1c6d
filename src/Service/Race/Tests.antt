-- ===== src/Service/Race/Tests.antt =====
-- The theorems on interleaved requests at two with one key, where the second comes while the first is
-- on its way to Daraja, and Redis has lost the lock.
use daraja_payment_wrapper.Prelude.{show, ◌+◌, ◌≤◌, codes, refl, none, [], ◌∷◌, Text, arith}
use daraja_payment_wrapper.Schemas.{StkPushInitiateRequest}
use daraja_payment_wrapper.Repository.{create}
use daraja_payment_wrapper.Service.{World, transact}
use daraja_payment_wrapper.Service.Initiate.{new_payment, insert_new}
use daraja_payment_wrapper.Service.Race.{
  waiting, anchored, failing, finished, advance, Run, advances, later, redis_changes, arrives, done,
  next,
}
use daraja_payment_wrapper.Service.Race.Safe.{race_charges_once}
use daraja_payment_wrapper.Service.Sample.{env, rejecting, request, fresh, server}

abbrev key : Text
key = request.idempotency_key

abbrev second : StkPushInitiateRequest
second = record request { account_reference = codes "INV-2" }

-- The record of the first is durable.
abbrev inserted : World env
inserted = (advance env rejecting {key = key} (waiting request refl) fresh).1

abbrev lost : World env
lost = record inserted { redis = server (λ k. none) }

-- The second has been refused by the database.
abbrev refused : World env
refused = (advance env rejecting {key = key} (waiting second refl) lost).1

-- Daraja has been asked for the first.
abbrev asked : World env
asked = (advance env rejecting {key = key} (anchored request (codes "id-0")) refused).1

abbrev raced : Run env rejecting {key = key} fresh [] asked (finished ∷ failing (codes "id-0") ∷ [])
unfolding advance transact insert_new create new_payment show
raced = next (arrives request refl [] fresh) (
    next (advances (waiting request refl) [] fresh) (
      next (redis_changes (server (λ k. none)) _ inserted) (
        next (arrives second refl (anchored request (codes "id-0") ∷ []) lost) (
          next (advances (waiting second refl) (anchored request (codes "id-0") ∷ []) lost)
            (next (later finished (advances (anchored request (codes "id-0")) [] refused)) done)))))

race_charges_once_example : asked.daraja ≤ fresh.daraja + 1
race_charges_once_example =
    race_charges_once env (λ n. n) 1 rejecting (λ a w. refl) (λ a w. omega arith) key raced
