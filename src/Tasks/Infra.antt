-- ===== src/Tasks/Infra.antt =====
-- app/tasks/_infra.py and app/tasks/_worker_utils.py: what one worker process makes once and keeps.
-- The constructors of SQLAlchemy, redis-py, httpx and asyncio are not part of the repository: each makes
-- a new object, named by the count of the objects that were made before.
pub mod Once
use mathlib.Core.Option
use daraja_payment_wrapper.Prelude.{
  ℕ, ◌+◌, ◌≡◌, Bool, true, false, ◌||◌, not, Option, none, some, ◌==◌, if◌then◌else◌,
}

module _ {Engine Factory RedisClient HttpClient : Type 0} (create_async_engine : ℕ → Engine)
    (async_sessionmaker : Engine → Factory) (from_url : ℕ → RedisClient)
    (async_client : ℕ → HttpClient) where
  -- The globals of the module.
  pub record Infra : Type 0 where
    pub engine : Option Engine
    pub session_factory : Option Factory
    pub redis : Option RedisClient
    pub http : Option HttpClient
    pub made : ℕ

  abbrev pub unmade : Infra
  unmade = record { engine = none; session_factory = none; redis = none; http = none; made = 0 }

  unfoldable pub get_engine : Infra → Engine × Infra
  get_engine w = elim w.engine [
    | some e ↦ (e, w)
    | none ↦ (
      create_async_engine w.made,
      record w {
        engine = some (create_async_engine w.made);
        session_factory = some (async_sessionmaker (create_async_engine w.made));
        made = w.made + 1;
      },
    )
  ]

  -- The global is returned as it is then.
  unfoldable pub get_session_factory : Infra → Option Factory × Infra
  get_session_factory w = elim w.session_factory [
    | some f ↦ (some f, w)
    | none ↦ ((get_engine w).1.session_factory, (get_engine w).1)
  ]

  unfoldable pub get_redis : Infra → RedisClient × Infra
  get_redis w = elim w.redis [
    | some r ↦ (r, w)
    | none ↦ (from_url w.made, record w { redis = some (from_url w.made); made = w.made + 1 })
  ]

  unfoldable pub get_http_client : Infra → HttpClient × Infra
  get_http_client w = elim w.http [
    | some h ↦ (h, w)
    | none ↦
        (async_client w.made, record w { http = some (async_client w.made); made = w.made + 1 })
  ]

-- The loops of a worker's threads; a loop is named by the count of those made before it.
pub record WorkerLoops : Type 0 where
  pub loop_of : ℕ → Option ℕ
  pub is_closed : ℕ → Bool
  pub made : ℕ

-- `tid not in _worker_loops or _worker_loops[tid].is_closed()`
abbrev pub needs_loop : WorkerLoops → Option ℕ → Bool
needs_loop w none = true
needs_loop w (some loop) = w.is_closed loop

abbrev pub new_loop : ℕ → WorkerLoops → WorkerLoops
new_loop tid w = record w {
  loop_of = λ t. if tid == t then some w.made else w.loop_of t;
  made = w.made + 1;
}

-- `get_worker_loop` of the thread, under its lock
unfoldable pub get_worker_loop : ℕ → WorkerLoops → Option ℕ × WorkerLoops
get_worker_loop tid w =
    if needs_loop w (w.loop_of tid)
    then ((new_loop tid w).loop_of tid, new_loop tid w)
    else (w.loop_of tid, w)
