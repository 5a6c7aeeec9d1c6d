-- ===== src/Config.antt =====
-- app/config.py: `Settings`, its constraints and its validators. The fields hold what pydantic has
-- read from the environment, or the default; floats are finite.
pub mod Fields
pub mod Safe
pub mod Keys
pub mod Getter
pub mod Sample
mod Tests
use daraja_payment_wrapper.Prelude.{
  ℕ, Text, codes, text_eq, starts_with, length, drop, all, any, Bool, true, false, not, ◌&&◌, ◌||◌,
  Option, none, some, List, [], ◌∷◌, ◌++◌, leb, ◌==◌, if◌then◌else◌,
}
use daraja_payment_wrapper.Prelude.Int.{ℤ, pos, negsuc, show_int}
use daraja_payment_wrapper.Errors.{Result, ok, err, value_error}
use daraja_payment_wrapper.Payment.{Decimal}
use daraja_payment_wrapper.Schemas.Phone.{is_decimal}
use daraja_payment_wrapper.Schemas.Request.{strip}
use daraja_payment_wrapper.Config.Fields.{contains, strip_trailing_slash, split_comma}

pub record Settings : Type 0 where
  pub daraja_base_url : Text
  pub daraja_consumer_key : Text
  pub daraja_consumer_secret : Text
  pub daraja_shortcode : Text
  pub daraja_passkey : Text
  pub daraja_callback_base_url : Text
  pub daraja_b2c_initiator_name : Text
  pub daraja_b2c_security_credential : Text
  pub daraja_connect_timeout : Decimal
  pub daraja_read_timeout : Decimal
  pub daraja_write_timeout : Decimal
  pub daraja_pool_timeout : Decimal
  pub daraja_max_connections : ℤ
  pub daraja_max_keepalive_connections : ℤ
  pub circuit_breaker_failure_threshold : ℤ
  pub circuit_breaker_recovery_timeout : ℤ
  pub daraja_retry_attempts : ℤ
  pub daraja_retry_initial_wait : Decimal
  pub daraja_retry_max_wait : Decimal
  pub postgres_user : Option Text
  pub postgres_password : Text
  pub postgres_server : Option Text
  pub postgres_port : ℤ
  pub postgres_db : Option Text
  pub database_url : Option Text
  pub database_pool_size : ℤ
  pub database_max_overflow : ℤ
  pub database_pool_timeout : Decimal
  pub database_pool_recycle : ℤ
  pub database_echo : Bool
  pub redis_url : Text
  pub redis_max_connections : ℤ
  pub redis_socket_timeout : Decimal
  pub redis_socket_connect_timeout : Decimal
  pub token_refresh_margin_seconds : ℤ
  pub token_lock_ttl_ms : ℤ
  pub idempotency_ttl_seconds : ℤ
  pub stk_lock_ttl_seconds : ℤ
  pub stk_rate_limit_capacity : ℤ
  pub stk_rate_limit_refill_rate : Decimal
  pub auth_rate_limit_capacity : ℤ
  pub auth_rate_limit_refill_rate : Decimal
  pub safaricom_allowed_ips : List Text
  pub trust_callback_ips_in_sandbox : Bool
  pub log_level : Text
  pub sentry_dsn : Option Text
  pub environment : Text
  pub service_name : Text
  pub internal_api_keys : Text

-- `Field(ge=low)` and `Field(gt=0)`
abbrev pub is_at_least : ℕ → ℤ → Bool
is_at_least low (pos n) = leb low n
is_at_least low (negsuc n) = false

abbrev pub is_at_most : ℕ → ℤ → Bool
is_at_most high (pos n) = leb n high
is_at_most high (negsuc n) = true

abbrev pub is_positive : Decimal → Bool
is_positive d = is_at_least 1 d.coefficient

unfoldable pub has_valid_bounds : Settings → Bool
has_valid_bounds s =
    all is_positive (
      s.daraja_connect_timeout ∷ s.daraja_read_timeout ∷ s.daraja_write_timeout
      ∷ s.daraja_pool_timeout ∷ s.daraja_retry_initial_wait ∷ s.daraja_retry_max_wait
      ∷ s.database_pool_timeout ∷ s.redis_socket_timeout ∷ s.redis_socket_connect_timeout ∷ [])
    && all (is_at_least 1) (
        s.daraja_max_connections ∷ s.daraja_max_keepalive_connections
        ∷ s.circuit_breaker_failure_threshold ∷ s.circuit_breaker_recovery_timeout
        ∷ s.redis_max_connections ∷ [])
    && (is_at_least 1 s.daraja_retry_attempts && is_at_most 5 s.daraja_retry_attempts)
    && (is_at_least 1 s.database_pool_size && is_at_most 50 s.database_pool_size)
    && is_at_least 0 s.database_max_overflow
    && is_at_least 60 s.token_refresh_margin_seconds

unfoldable pub fix_asyncpg_scheme : Option Text → Option Text
fix_asyncpg_scheme none = none
fix_asyncpg_scheme (some v) =
    if starts_with v (codes "postgresql://")
    then some (codes "postgresql+asyncpg://" ++ drop 13 v)
    else some v

unfoldable pub must_use_asyncpg : Option Text → Result (Option Text)
must_use_asyncpg none = ok none
must_use_asyncpg (some v) =
    if starts_with v (codes "postgresql+asyncpg://") then ok (some v) else err value_error

unfoldable pub must_be_https_in_prod : Text → Result Text
must_be_https_in_prod v =
    if starts_with v (codes "http://")
      && not (contains (codes "localhost") v)
      && not (contains (codes "127.0.0.1") v)
    then err value_error
    else ok v

-- `re.fullmatch(r"\d{5,7}", v)`
unfoldable pub shortcode_must_be_numeric : Text → Result Text
shortcode_must_be_numeric v =
    if all is_decimal v && leb 5 (length v) && leb (length v) 7 then ok v else err value_error

-- Python's truth value of an optional text
abbrev pub is_set : Option Text → Bool
is_set none = false
is_set (some []) = false
is_set (some (c ∷ s)) = true

abbrev pub text_of : Option Text → Text
text_of none = codes "None"
text_of (some s) = s

-- No URL is given, and all that one is built from is.
unfoldable pub lacks_database_url : Settings → Bool
lacks_database_url s =
    not (is_set s.database_url)
    && is_set s.postgres_user
    && is_set s.postgres_server
    && is_set s.postgres_db
    && is_set (some s.postgres_password)

unfoldable pub built_url : Settings → Text
built_url s =
    codes "postgresql+asyncpg://"
    ++ text_of s.postgres_user
    ++ codes ":"
    ++ s.postgres_password
    ++ codes "@"
    ++ text_of s.postgres_server
    ++ codes ":"
    ++ show_int s.postgres_port
    ++ codes "/"
    ++ text_of s.postgres_db

unfoldable pub build_database_url : Settings → Settings
build_database_url s =
    if lacks_database_url s then record s { database_url = some (built_url s) } else s

unfoldable pub prod_safety_checks : Settings → Result Settings
prod_safety_checks s =
    if not (contains (codes "sandbox") s.daraja_base_url) && s.trust_callback_ips_in_sandbox
    then err value_error
    else if text_eq s.environment (codes "production") && s.database_echo
    then err value_error
    else ok s

abbrev pub with_fields :
    Settings → Result Text → Result Text → Result (Option Text) → Result Settings
with_fields s (ok callback) (ok shortcode) (ok database) = ok (record s {
  daraja_base_url = strip_trailing_slash s.daraja_base_url;
  daraja_callback_base_url = callback;
  daraja_shortcode = shortcode;
  database_url = database;
})
with_fields s _ _ _ = err value_error

-- The validators of single fields; pydantic reports every failure in one `ValidationError`.
unfoldable pub validate_fields : Settings → Result Settings
validate_fields s =
    if has_valid_bounds s
    then with_fields s (must_be_https_in_prod (strip_trailing_slash s.daraja_callback_base_url))
        (shortcode_must_be_numeric s.daraja_shortcode)
        (must_use_asyncpg (fix_asyncpg_scheme s.database_url))
    else err value_error

-- The model validators follow the fields, in their order.
unfoldable pub validate : Settings → Result Settings
validate s = elim (validate_fields s) [
  | err e ↦ err e
  | ok valid ↦ prod_safety_checks (build_database_url valid)
]

-- A set as the list of its elements, without duplicates, and `set.add`.
abbrev pub add : Text → List Text → List Text
add k ks = if any (text_eq k) ks then ks else k ∷ ks

abbrev pub unless_empty : Text → List Text → List Text
unless_empty [] rest = rest
unless_empty (c ∷ s) rest = add (c ∷ s) rest

-- `k.strip() for k in keys if k.strip()`
unfoldable pub stripped : List Text → List Text
stripped [] = []
stripped (k ∷ ks) = unless_empty (strip k) (stripped ks)

-- `{k.strip() for k in internal_api_keys.split(",") if k.strip()}`
unfoldable pub parsed_api_keys : Text → List Text
parsed_api_keys keys = stripped (split_comma keys)
