-- ===== src/Tasks/Infra/Once.antt =====
-- The worker makes each object once, and hands it out again.
use mathlib.Core.Option
use daraja_payment_wrapper.Prelude.{
  ℕ, ◌≤◌, ◌≡◌, ◌≢◌, false, some, inl, inr, Option-cases, Bool-cases, arith,
}
use daraja_payment_wrapper.Tasks.Infra.{
  Infra, get_engine, get_session_factory, WorkerLoops, get_worker_loop,
}

module _ {Engine Factory RedisClient HttpClient : Type 0} (create_async_engine : ℕ → Engine)
    (async_sessionmaker : Engine → Factory) (from_url : ℕ → RedisClient)
    (async_client : ℕ → HttpClient) where
  abbrev State : Type 0
  State = Infra create_async_engine async_sessionmaker from_url async_client

  -- The session factory is that of the engine, and there is none before the engine.
  abbrev pub IsWired : State → Type 0
  IsWired w = w.session_factory ≡ Option.map async_sessionmaker w.engine

  -- In a wired process the session factory that is handed out is there, and is bound to the one engine
  -- that `get_engine` hands out, before and after; the process stays wired, and asking again makes
  -- nothing.
  pub get_session_factory_bound :
      (w : State)
      → IsWired w
      → let (factory, w') =
          get_session_factory create_async_engine async_sessionmaker from_url async_client w in
        let (e, w'') = get_engine create_async_engine async_sessionmaker from_url async_client w in
        (factory ≡ some (async_sessionmaker e))
        × IsWired w'
        × (get_engine create_async_engine async_sessionmaker from_url async_client w' ≡ (e, w'))
        × (get_session_factory create_async_engine async_sessionmaker from_url async_client w'
            ≡ (factory, w'))
  unfolding get_session_factory get_engine
  get_session_factory_bound w wired = elim (Option-cases w.engine) [
    | inl absent ↦ (ground arith, ground arith, ground arith, ground arith)
    | inr (e, there) ↦ (ground arith, ground arith, ground arith, ground arith)
  ]

-- A loop that is not made yet is not closed.
abbrev pub AreOpen : WorkerLoops → Type 0
AreOpen w = (loop : ℕ) → w.made ≤ loop → w.is_closed loop ≡ false

-- The loop that a thread gets is open, and the thread's from then on, so that the next call hands out
-- the same one; the loops of the other threads stay as they were.
pub get_worker_loop_lem :
    (tid : ℕ) (w : WorkerLoops)
    → AreOpen w
    → let w' = (get_worker_loop tid w).1 in
      (loop : ℕ) × (get_worker_loop tid w ≡ (some loop, w'))
      × (w'.is_closed loop ≡ false)
      × (get_worker_loop tid w' ≡ (some loop, w'))
      × ((t : ℕ) → t ≢ tid → w'.loop_of t ≡ w.loop_of t)
unfolding get_worker_loop
get_worker_loop_lem tid w fresh = elim (Option-cases (w.loop_of tid)) [
  | inl absent ↦ (
    w.made,
    ground (arith, fresh w.made),
    ground (arith, fresh w.made),
    ground (arith, fresh w.made),
    λ t differ. ground arith,
  )
  | inr (loop, there) ↦ elim (Bool-cases (w.is_closed loop)) [
    | inl shut ↦ (
      w.made,
      ground (arith, fresh w.made),
      ground (arith, fresh w.made),
      ground (arith, fresh w.made),
      λ t differ. ground arith,
    )
    | inr usable ↦ (loop, ground arith, ground arith, ground arith, λ t differ. ground arith)
  ]
]
