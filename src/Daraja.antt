-- ===== src/Daraja.antt =====
-- app/daraja: what the Daraja client works with that the repository does not define.
pub mod Circuit
pub mod Auth
pub mod Client
pub mod Stk
pub mod Query
pub mod Sample
mod Tests
use daraja_payment_wrapper.Prelude.{ℕ, Text, ◌≡◌, Bool, true, false, suc, Option}
use daraja_payment_wrapper.Prelude.Int.{ℤ}
use daraja_payment_wrapper.Errors.{Error, Result, ok, err, retry_exhausted}
use daraja_payment_wrapper.Exec.{Exec}
use daraja_payment_wrapper.Json.{Value, Dict, Body}
use daraja_payment_wrapper.Redis.{Redis}
use daraja_payment_wrapper.Daraja.Circuit.{CircuitBreaker}

-- An `httpx.Response`: its status, its text, and what `json()` makes of it.
pub record Response : Type 0 where
  pub status_code : ℕ
  pub text : Text
  pub json : Body

-- The settings that the client reads, the servers, httpx, and the conversions of Python and redis-py.
-- `Net` is what lies outside the process: Daraja, the network and the clock.
pub record Platform : Type 1 where
  pub redis : Redis
  pub Net : Type 0
  -- `time.monotonic()` in microseconds
  pub monotonic : Net → ℕ
  -- `httpx.AsyncClient.post` with a bearer token, and `get` with the basic credentials
  pub http_post : Text → Dict → Value → Exec Net Response
  pub http_get : Text → Text → Exec Net Response
  -- `asyncio.sleep(0.25)`
  pub sleep : Net → Net
  -- `datetime.now(timezone.utc).strftime("%Y%m%d%H%M%S")`
  pub timestamp : Net → Text
  pub b64encode : Text → Text
  -- `int(value)`, and the text that redis-py sends for a value; `none` where they raise
  pub to_int : Value → Option ℤ
  pub encode : Value → Option Text
  pub daraja_base_url : Text
  pub daraja_consumer_key : Text
  pub daraja_consumer_secret : Text
  pub daraja_shortcode : Text
  pub daraja_passkey : Text
  pub daraja_callback_base_url : Text
  pub daraja_b2c_initiator_name : Text
  pub daraja_b2c_security_credential : Text
  pub daraja_retry_attempts : ℕ
  pub circuit_breaker_failure_threshold : ℕ
  pub circuit_breaker_recovery_timeout : ℕ
  pub token_lock_ttl_ms : ℕ
  pub token_refresh_margin_seconds : ℕ

-- The state that one client works on; the circuit is local to the process.
pub record Host (env : Platform) : Type 0 where
  pub redis : env.redis.Store
  pub net : env.Net
  pub circuit : CircuitBreaker

-- tenacity's `AsyncRetrying` with `reraise=False`: the body runs until it returns, raises what is
-- not retried, or has been run `attempts` times, and then `RetryError` is raised. Between two runs
-- the caller sleeps.
pub record Tenacity (S : Type 0) : Type 1 where
  pub retrying : {A : Type 0} → (Error → Bool) → ℕ → Exec S A → Exec S A
  pub pause : S → S
  pub retrying_value :
      {A : Type 0} (p : Error → Bool) (n : ℕ) (body : Exec S A) (s s' : S) (a : A)
      → body s ≡ (ok a, s')
      → retrying p n body s ≡ (ok a, s')
  pub retrying_fatal :
      {A : Type 0} (p : Error → Bool) (n : ℕ) (body : Exec S A) (s s' : S) (e : Error)
      → body s ≡ (err e, s')
      → p e ≡ false
      → retrying p n body s ≡ (err e, s')
  pub retrying_last :
      {A : Type 0} (p : Error → Bool) (body : Exec S A) (s s' : S) (e : Error)
      → body s ≡ (err e, s')
      → p e ≡ true
      → retrying p 1 body s ≡ (err retry_exhausted, s')
  pub retrying_again :
      {A : Type 0} (p : Error → Bool) (n : ℕ) (body : Exec S A) (s s' : S) (e : Error)
      → body s ≡ (err e, s')
      → p e ≡ true
      → retrying p (suc (suc n)) body s ≡ retrying p (suc n) body (pause s')
