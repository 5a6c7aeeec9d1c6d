-- ===== src/Service/Once/History.antt =====
-- A history of the service: what happens to one database, one event after the other.
mod Kept
pub mod Refines
use daraja_payment_wrapper.Prelude.{
  ℕ, zero, suc, ◌+◌, ◌-◌, ◌≤◌, Text, text_eq, text_eq_iff, ◌≡◌, ◌⊎◌, refl, sym, subst, inl, inr,
  List, [], ◌∷◌, if◌then◌else◌, Bool-cases, arith, true, false, Option, none, some,
}
use daraja_payment_wrapper.Exec.{Exec, ◌>>=◌}
use daraja_payment_wrapper.Exec.Keeps.{Keeps, Keeps-bind, Keeps-pure, Keeps-if}
use daraja_payment_wrapper.Payment.{Payment}
use daraja_payment_wrapper.Schemas.{StkPushInitiateRequest}
use daraja_payment_wrapper.Schemas.Callback.{StkCallbackBody, is_success}
use daraja_payment_wrapper.Repository.Held.{
  Held, commit-Held, rollback-Held, get_by_id-Held, get_by_checkout_request_id-Held,
  mark_completed-Held, mark_failed-Held,
}
use daraja_payment_wrapper.Daraja.Stk.{StkArgs}
use daraja_payment_wrapper.Service.{Environment, World, Initiator, on_db, transact}
use daraja_payment_wrapper.Service.Initiate.{initiate_stk_push}
use daraja_payment_wrapper.Service.Process.{
  details_of, complete, fail, apply_outcome, settle, process_callback,
}
use daraja_payment_wrapper.Service.Status.{get_payment_status}
use daraja_payment_wrapper.Service.Once.Frame.{Over, redis_set_nx-Over, transact-Over}
use daraja_payment_wrapper.Service.Once.Outcome.{initiate-Held, initiate_spends, initiate_quiet}
use daraja_payment_wrapper.Service.Once.Ledger.{
  Entry, unspent, spent, Move, Moves, idle, done, next, Moves-within,
}

-- A request, a callback, a query; the end of a session, where what is not committed is rolled back;
-- and what befalls Redis, by expiry, eviction, a restart or another process.
pub data Event (env : Environment) : Type 0 where
  requested : StkPushInitiateRequest → Event env
  called_back : StkCallbackBody → Event env
  queried : Text → Event env
  session_ended : Event env
  redis_changed : env.redis.Store → Event env

module _ (env : Environment) where
  open env use {database as pg}

  -- Each event runs to its end, whether it returns or raises.
  unfoldable pub happen : Initiator env → Event env → World env → World env
  happen f (requested r) w = (initiate_stk_push env f r w).1
  happen f (called_back callback) w = (process_callback env callback w).1
  happen f (queried payment_id) w = (get_payment_status env payment_id w).1
  happen f session_ended w = (on_db env pg.rollback w).1
  happen f (redis_changed s) w = record w { redis = s }

  -- How often a request with the key has called Daraja, where `calls` counts.
  unfoldable pub charged : (env.Daraja → ℕ) → Initiator env → Text → Event env → World env → ℕ
  charged calls f k (requested r) w =
      if text_eq r.idempotency_key k
      then calls (happen f (requested r) w).daraja - calls w.daraja
      else 0
  charged calls f k _ w = 0

  unfoldable pub charges :
      (env.Daraja → ℕ) → Initiator env → Text → List (Event env) → World env → ℕ
  charges calls f k [] w = 0
  charges calls f k (e ∷ events) w = charged calls f k e w + charges calls f k events (happen f e w)

  -- The entry describes the state: a spent key is held by a payment.
  abbrev pub Describes : Entry → Text → World env → Type 0
  Describes unspent k w = Unit {0}
  Describes spent k w = Held pg k w.db

  unfoldable pub happen_all : Initiator env → List (Event env) → World env → World env
  happen_all f [] w = w
  happen_all f (e ∷ events) w = happen_all f events (happen f e w)
