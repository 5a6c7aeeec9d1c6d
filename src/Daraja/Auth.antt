-- ===== src/Daraja/Auth.antt =====
-- app/daraja/auth.py: `DarajaAuthManager`, the bearer token and its cache.
pub mod Cache
pub mod Net
use daraja_payment_wrapper.Prelude.{
  ℕ, zero, suc, ◌-◌, ◌/◌, max, Text, codes, Bool, true, false, not, ◌&&◌, ◌||◌, Option, none, some,
  [], ◌∷◌, ◌++◌, leb, ltb, ◌==◌, if◌then◌else◌,
}
use daraja_payment_wrapper.Prelude.Int.{ℤ, pos, negsuc}
use daraja_payment_wrapper.Errors.{
  Error, Result, ok, err, app, daraja_auth_error, timeout_exception, value_error, attribute_error,
  is_transient,
}
use daraja_payment_wrapper.Exec.{Exec, pure, raise, catch, catch_if, ◌>>=◌, ◌>>◌}
use daraja_payment_wrapper.Json.{
  Value, null, int, str, Dict, lookup, get_or, Body, object, scalar, malformed,
}
use daraja_payment_wrapper.Prelude.{show}
use daraja_payment_wrapper.Daraja.{Platform, Host, Response}

abbrev pub token_cache_key : Text
token_cache_key = codes "daraja:oauth:token"

abbrev pub token_lock_key : Text
token_lock_key = codes "daraja:oauth:lock"

abbrev pub auth_error : Value → Option ℕ → Error
auth_error code status = app (
    daraja_auth_error
      (record { daraja_code = code; daraja_description = null; http_status = status }))

-- `response.raise_for_status()` and the handler of `HTTPStatusError`.
unfoldable pub check_oauth_status : Response → Result Response
check_oauth_status response =
    if leb 200 response.status_code && ltb response.status_code 300
    then ok response
    else if response.status_code == 401
    then err (auth_error (str (show response.status_code)) none)
    else err (auth_error null (some response.status_code))

-- `max(60, expire_in - margin)`
unfoldable pub cache_ttl : ℕ → ℤ → ℕ
cache_ttl margin (pos expire_in) = max 60 (expire_in - margin)
cache_ttl margin (negsuc _) = 60

module _ (env : Platform) where
  abbrev pub on_redis : {A : Type 0} → Exec env.redis.Store A → Exec (Host env) A
  on_redis m w = let (r, s) = m w.redis in (r, record w { redis = s })

  abbrev pub on_net : {A : Type 0} → Exec env.Net A → Exec (Host env) A
  on_net m w = let (r, s) = m w.net in (r, record w { net = s })

  -- The request for a token, with its handlers.
  unfoldable pub request_token : Exec (Host env) Response
  request_token =
      let credentials =
        env.b64encode (env.daraja_consumer_key ++ codes ":" ++ env.daraja_consumer_secret) in
      do
        response ←
            catch_if is_transient
              (on_net
                (env.http_get (env.daraja_base_url ++ codes "/oauth/v1/generate") credentials))
              (λ e. raise (auth_error null none))
        λ w. (check_oauth_status response, w)

  -- `setex`, where a failure, one of the encoding included, is not fatal
  unfoldable pub cache_token : ℕ → Value → Exec (Host env) (Unit {0})
  cache_token ttl token = elim (env.encode token) [
    | none ↦ pure tt
    | some text ↦ catch (on_redis (env.redis.setex token_cache_key ttl text)) (λ e. pure tt)
  ]

  unfoldable pub store_token : Dict → Value → Exec (Host env) Value
  store_token fields token =
      elim (env.to_int (get_or (codes "expires_in") (int (pos 3600)) fields)) [
        | none ↦ raise value_error
        | some expire_in ↦
            cache_token (cache_ttl env.token_refresh_margin_seconds expire_in) token >> pure token
      ]

  unfoldable pub read_token : Body → Exec (Host env) Value
  read_token (object fields) = elim (lookup (codes "access_token") fields) [
    | none ↦ raise (auth_error null none)
    | some token ↦ store_token fields token
  ]
  read_token scalar = raise attribute_error
  read_token malformed = raise value_error

  unfoldable pub fetch_new_token : Exec (Host env) Value
  fetch_new_token = do response ← request_token; read_token response.json

  -- `finally: await self._redis.delete(TOKEN_CACHE_KEY)`, which may raise itself
  unfoldable pub then_delete : {A : Type 0} → Exec (Host env) A → Exec (Host env) A
  then_delete m w =
      let (r, w') = m w in
      let (q, w'') = on_redis (env.redis.delete token_cache_key) w' in
      elim q [ ok _ ↦ (r, w'') | err e ↦ (err e, w'') ]

  -- The poll for the token of the lock's holder; each of the `n` rounds sleeps first.
  unfoldable pub poll : ℕ → Exec (Host env) Value
  poll zero w = fetch_new_token w
  poll (suc n) w =
      let w' : Host env = record w { net = env.sleep w.net } in
      let (cached, w'') = on_redis (env.redis.get token_cache_key) w' in
      elim cached [
        | err e ↦ poll n w''
        | ok none ↦ poll n w''
        | ok (some []) ↦ poll n w''
        | ok (some (c ∷ cs)) ↦ (ok (str (c ∷ cs)), w'')
      ]

  unfoldable pub acquire_lock_and_refresh : Exec (Host env) Value
  acquire_lock_and_refresh = do
    lock_acquired ← on_redis (env.redis.set_nx token_lock_key (codes "1") env.token_lock_ttl_ms)
    if lock_acquired then then_delete fetch_new_token else poll (env.token_lock_ttl_ms / 250)

  -- `if cached`: an empty value is no hit.
  unfoldable pub get_token : Exec (Host env) Value
  get_token w =
      let (cached, w') = on_redis (env.redis.get token_cache_key) w in
      elim cached [
        | err e ↦ fetch_new_token w'
        | ok none ↦ acquire_lock_and_refresh w'
        | ok (some []) ↦ acquire_lock_and_refresh w'
        | ok (some (c ∷ cs)) ↦ (ok (str (c ∷ cs)), w')
      ]
