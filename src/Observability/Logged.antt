-- ===== src/Observability/Logged.antt =====
-- What is written of an event, once the application is configured.
use mathlib.Core.Option
use daraja_payment_wrapper.Prelude.{
  ℕ, Text, codes, ◌≡◌, refl, true, false, Option, none, some, [], ◌∷◌, arith,
}
use daraja_payment_wrapper.Errors.{err, type_error}
use daraja_payment_wrapper.Json.{Value, Dict, lookup}
use daraja_payment_wrapper.Config.{Settings}
use daraja_payment_wrapper.Observability.{is_sensitive, redacted}
use daraja_payment_wrapper.Observability.Configured.{
  Libraries, level_or_info, Structlog, Tooling, processors_of, configure_structlog,
  configure_opentelemetry, configure_sentry, configure_observability, written,
}

-- Nothing is there, or the word of the redaction.
abbrev pub IsHidden : Option Value → Type 0
IsHidden none = Unit {0}
IsHidden (some v) = v ≡ redacted

module _ (lib : Libraries) (endpoint : Option Text) (settings : Settings) where
  abbrev KeepsSecret : Structlog → Type 0
  KeepsSecret s =
      (level : ℕ) (event d : Dict) (key : Text)
      → written lib s level event ≡ some d
      → is_sensitive (lib.lower key) ≡ true
      → IsHidden (lookup key d)

  unfoldable pub configured : Structlog
  unfolding configure_structlog
  configured = record {
    level = level_or_info (lib.logging_level (lib.upper settings.log_level));
    processors = processors_of lib settings;
  }

  sentry_leaves :
      (dsn : Option Text) (t : Tooling) → (configure_sentry lib dsn t).1.structlog ≡ t.structlog
  unfolding configure_sentry
  sentry_leaves none t = refl
  sentry_leaves (some []) t = refl
  sentry_leaves (some (c ∷ dsn)) t = ground arith

  pub configured_structlog :
      (t : Tooling)
      → (configure_observability lib endpoint settings t).1.structlog ≡ some configured
  unfolding configure_observability configure_structlog configure_opentelemetry configured
  configured_structlog t = sentry_leaves settings.sentry_dsn _

  -- If Sentry has no option `service_name`, an application with a DSN cannot be configured.
  pub configure_raises :
      (c : ℕ) (dsn : Text) (t : Tooling)
      → settings.sentry_dsn ≡ some (c ∷ dsn)
      → lib.sentry_knows (codes "service_name") ≡ false
      → ((configure_observability lib endpoint settings t).0 ≡ err type_error)
        × ((configure_observability lib endpoint settings t).1.sentry_dsn ≡ t.sentry_dsn)
  unfolding configure_observability configure_structlog configure_opentelemetry configure_sentry
  configure_raises c dsn t there unknown = ground arith
