-- ===== src/Config/Sample.antt =====
-- Settings as the environment of a developer has them.
use daraja_payment_wrapper.Prelude.{codes, true, false, none, some, [], ◌∷◌, ℕ}
use daraja_payment_wrapper.Prelude.Int.{pos}
use daraja_payment_wrapper.Payment.{Decimal}
use daraja_payment_wrapper.Config.{Settings}

abbrev pub whole : ℕ → Decimal
whole n = record { coefficient = pos n; places = 0 }

abbrev pub given : Settings
given = record {
  daraja_base_url = codes "https://sandbox.safaricom.co.ke/";
  daraja_consumer_key = codes "key";
  daraja_consumer_secret = codes "secret";
  daraja_shortcode = codes "174379";
  daraja_passkey = codes "passkey";
  daraja_callback_base_url = codes "https://pay.example.com//";
  daraja_b2c_initiator_name = codes "testapi";
  daraja_b2c_security_credential = codes "credential";
  daraja_connect_timeout = whole 10;
  daraja_read_timeout = whole 30;
  daraja_write_timeout = whole 10;
  daraja_pool_timeout = whole 5;
  daraja_max_connections = pos 20;
  daraja_max_keepalive_connections = pos 10;
  circuit_breaker_failure_threshold = pos 5;
  circuit_breaker_recovery_timeout = pos 60;
  daraja_retry_attempts = pos 3;
  daraja_retry_initial_wait = whole 1;
  daraja_retry_max_wait = whole 10;
  postgres_user = some (codes "pay");
  postgres_password = codes "pw";
  postgres_server = some (codes "db");
  postgres_port = pos 5432;
  postgres_db = some (codes "payments");
  database_url = none;
  database_pool_size = pos 10;
  database_max_overflow = pos 20;
  database_pool_timeout = whole 30;
  database_pool_recycle = pos 1800;
  database_echo = false;
  redis_url = codes "redis://localhost:6379/0";
  redis_max_connections = pos 20;
  redis_socket_timeout = whole 5;
  redis_socket_connect_timeout = whole 5;
  token_refresh_margin_seconds = pos 300;
  token_lock_ttl_ms = pos 10000;
  idempotency_ttl_seconds = pos 86400;
  stk_lock_ttl_seconds = pos 30;
  stk_rate_limit_capacity = pos 20;
  stk_rate_limit_refill_rate = record { coefficient = pos 5; places = 1 };
  auth_rate_limit_capacity = pos 5;
  auth_rate_limit_refill_rate = record { coefficient = pos 83; places = 3 };
  safaricom_allowed_ips = codes "196.201.214.200" ∷ [];
  trust_callback_ips_in_sandbox = true;
  log_level = codes "INFO";
  sentry_dsn = none;
  environment = codes "development";
  service_name = codes "daraja-payment-service";
  internal_api_keys = codes " key-abc123,key-xyz789 ,";
}
