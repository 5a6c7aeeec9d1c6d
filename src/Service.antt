-- ===== src/Service.antt =====
-- app/services/stk.py: what `STKService` is given, and its helpers. The methods are in the
-- children `Initiate`, `Process` and `Status`.
pub mod Sample
mod Tests
mod Steps
pub mod Initiate
pub mod Process
pub mod Status
pub mod Once
pub mod Wired
pub mod Race
use daraja_payment_wrapper.Prelude.{
  ℕ, ◌+◌, Text, codes, ◌≡◌, ◌≢◌, Bool, true, Option, none, [], ◌++◌,
}
use daraja_payment_wrapper.Errors.{Result, ok}
use daraja_payment_wrapper.Exec.{Exec, pure, raise, catch, ◌>>=◌, ◌>>◌}
use daraja_payment_wrapper.Payment.{Decimal}
use daraja_payment_wrapper.Redis.{Redis}
use daraja_payment_wrapper.Daraja.Stk.{StkArgs, StkInitiationResult}
use daraja_payment_wrapper.Database.{Database}
use daraja_payment_wrapper.Schemas.{StkPushInitiateResponse}

-- What the service uses and the repository does not define: the servers, the settings, Python's
-- `uuid4`, `strptime` and `Decimal`, and pydantic's JSON. `Daraja` is the state of the client.
pub record Environment : Type 1 where
  pub redis : Redis
  pub database : Database
  pub Daraja : Type 0
  pub uuid4 : ℕ → Text
  pub strptime : Text → Option ℕ
  pub decimal : Text → Option Decimal
  pub idempotency_ttl_seconds : ℕ
  pub stk_lock_ttl_seconds : ℕ
  pub dump_json : StkPushInitiateResponse → Text
  pub validate_json : Text → Result StkPushInitiateResponse
  pub dump_json-ne-nil : (r : StkPushInitiateResponse) → dump_json r ≢ []
  pub validate_json-dump_json : (r : StkPushInitiateResponse) → validate_json (dump_json r) ≡ ok r

-- The state that one service instance works on; `draws` counts the identifiers drawn.
pub record World (env : Environment) : Type 0 where
  pub redis : env.redis.Store
  pub db : env.database.Session
  pub daraja : env.Daraja
  pub draws : ℕ

abbrev pub Initiator : Environment → Type 0
Initiator env = StkArgs → Exec (World env) StkInitiationResult

abbrev pub idem_cache_key : Text → Text
idem_cache_key key = codes "stk:idem:" ++ key

abbrev pub lock_key : Text → Text
lock_key key = codes "stk:lock:" ++ key

abbrev pub callback_idem_key : Text → Text
callback_idem_key checkout_id = codes "stk:callback:" ++ checkout_id

module _ (env : Environment) where
  abbrev pub on_redis : {A : Type 0} → Exec env.redis.Store A → Exec (World env) A
  on_redis m w = let (r, s) = m w.redis in (r, record w { redis = s })

  abbrev pub on_db : {A : Type 0} → Exec env.database.Session A → Exec (World env) A
  on_db m w = let (r, s) = m w.db in (r, record w { db = s })

  -- A failure of Redis degrades: no cached value, the lock granted, the write skipped.
  unfoldable pub redis_get : Text → Exec (World env) (Option Text)
  redis_get key = catch (on_redis (env.redis.get key)) (λ e. pure none)

  unfoldable pub redis_set_nx : Text → Text → ℕ → Exec (World env) Bool
  redis_set_nx key value ttl = catch (on_redis (env.redis.set_nx key value ttl)) (λ e. pure true)

  unfoldable pub redis_setex : Text → ℕ → Text → Exec (World env) (Unit {0})
  redis_setex key ttl value = catch (on_redis (env.redis.setex key ttl value)) (λ e. pure tt)

  -- It raises nothing, so only the state comes back.
  unfoldable pub redis_delete : Text → World env → World env
  redis_delete key w = record w { redis = (env.redis.delete key w.redis).1 }

  unfoldable pub new_uuid : Exec (World env) Text
  new_uuid w = (ok (env.uuid4 w.draws), record w { draws = w.draws + 1 })

  -- `try: statement; commit  except Exception: rollback; raise`
  unfoldable pub transact : Exec env.database.Session (Unit {0}) → Exec (World env) (Unit {0})
  transact statement =
      catch (on_db (statement >> env.database.commit)) (λ e. on_db env.database.rollback >> raise e)
