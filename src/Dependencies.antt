-- ===== src/Dependencies.antt =====
-- app/dependencies.py: what the application makes when it starts, hands out to requests, and closes.
-- The constructors of SQLAlchemy, redis-py and httpx are not part of the repository: each makes a new
-- object and connects to nothing yet. An object has the count of those made before it as its handle.
pub mod Scope
mod Tests
use daraja_payment_wrapper.Prelude.{
  ℕ, ◌+◌, ◌==◌, ◌≡◌, Bool, true, false, Option, none, some, List, [], ◌∷◌, if◌then◌else◌,
}
use daraja_payment_wrapper.Errors.{Error, Result, ok, err, runtime_error}
use daraja_payment_wrapper.Exec.{Exec, pure, raise, gets, ◌>>=◌, ◌>>◌}

-- `DarajaClient`, with the pool behind the Redis of its `DarajaAuthManager`, and the HTTP client of both.
pub record DarajaClient : Type 0 where
  pub auth_pool : ℕ
  pub http_client : ℕ

-- An object that is made for one request, and the engine or the pool that it is bound to.
pub record Bound : Type 0 where
  pub handle : ℕ
  pub to : ℕ

-- The globals of the module, and the objects of the process that are open.
pub record Process : Type 0 where
  pub engine : Option ℕ
  -- `_session_factory`, by the engine that it is bound to
  pub session_factory : Option ℕ
  pub redis_pool : Option ℕ
  pub http_client : Option ℕ
  pub daraja_client : Option DarajaClient
  pub is_open : ℕ → Bool
  pub made : ℕ

abbrev pub imported : Process
imported = record {
  engine = none;
  session_factory = none;
  redis_pool = none;
  http_client = none;
  daraja_client = none;
  is_open = λ h. false;
  made = 0;
}

abbrev pub set_open : ℕ → Bool → (ℕ → Bool) → ℕ → Bool
set_open handle b is_open h = if handle == h then b else is_open h

abbrev pub make : Exec Process ℕ
make p = (ok p.made, record p { is_open = set_open p.made true p.is_open; made = p.made + 1 })

-- `lifespan` up to its `yield`
unfoldable pub startup : Exec Process (Unit {0})
startup = do
  engine ← make
  pool ← make
  http ← make
  λ p. (
    ok tt,
    record p {
      engine = some engine;
      session_factory = some engine;
      redis_pool = some pool;
      http_client = some http;
      daraja_client = some (record { auth_pool = pool; http_client = http });
    },
  )

-- What a request is served with.
pub record Line : Type 0 where
  pub session : Bound
  pub redis : Bound
  pub daraja : DarajaClient

-- `close_error` says of an object what closing it raises, if anything.
module _ (close_error : ℕ → Option Error) where
  unfoldable pub close : ℕ → Exec Process (Unit {0})
  close h p = elim (close_error h) [
    | none ↦ (ok tt, record p { is_open = set_open h false p.is_open })
    | some e ↦ (err e, p)
  ]

  -- `if client: await client.aclose()`
  abbrev pub close_if : Option ℕ → Exec Process (Unit {0})
  close_if none = pure tt
  close_if (some h) = close h

  -- `lifespan` after its `yield`
  unfoldable pub shutdown : Exec Process (Unit {0})
  shutdown = do
    http ← gets (λ (p : Process). p.http_client)
    close_if http
    engine ← gets (λ (p : Process). p.engine)
    close_if engine
    pool ← gets (λ (p : Process). p.redis_pool)
    close_if pool

  -- `try: m  finally: await client.aclose()`
  abbrev pub closing : {A : Type 0} → ℕ → Exec Process A → Exec Process A
  closing h m p =
      let (r, p1) = m p in
      let (closed, p2) = close h p1 in elim closed [ ok u ↦ (r, p2) | err e ↦ (err e, p2) ]

  -- `if x is None: raise RuntimeError`, and else an object that is bound to it: the rest of the request
  -- runs at the `yield`, and the object is closed then.
  abbrev pub bound_to : {A : Type 0} → Option ℕ → (Bound → Exec Process A) → Exec Process A
  bound_to none body = raise runtime_error
  bound_to (some x) body =
      make >>= λ handle. closing handle (body (record { handle = handle; to = x }))

  unfoldable pub get_db_session : {A : Type 0} → (Bound → Exec Process A) → Exec Process A
  get_db_session body p = bound_to p.session_factory body p

  unfoldable pub get_redis : {A : Type 0} → (Bound → Exec Process A) → Exec Process A
  get_redis body p = bound_to p.redis_pool body p

  abbrev pub or_raise : Option DarajaClient → Exec Process DarajaClient
  or_raise none = raise runtime_error
  or_raise (some client) = pure client

  unfoldable pub get_daraja_client : Exec Process DarajaClient
  get_daraja_client p = or_raise p.daraja_client p

  -- The route with what it depends on, once the session and the client are there.
  abbrev pub on_redis : {A : Type 0} → (Line → Result A) → Bound → DarajaClient → Exec Process A
  on_redis route session client =
      get_redis
        (λ redis p. (route (record { session = session; redis = redis; daraja = client }), p))

  -- A request that depends on `get_stk_service`, whose parameters are resolved in their order.
  unfoldable pub serve : {A : Type 0} → (Line → Result A) → Exec Process A
  serve route = get_db_session (λ session. get_daraja_client >>= on_redis route session)

  -- One request after the other, whatever each returns or raises.
  unfoldable pub serve_all : {A : Type 0} → List (Line → Result A) → Process → Process
  serve_all [] p = p
  serve_all (route ∷ routes) p = serve_all routes (serve route p).1

  -- The process from its start to its end.
  unfoldable pub lifespan : {A : Type 0} → List (Line → Result A) → Process → Process
  lifespan routes p = (shutdown (serve_all routes (startup p).1)).1
