-- ===== src/Observability/Configured.antt =====
-- app/observability.py: what `configure_observability` sets up, and what becomes of a log event then. The
-- processors of structlog, `logging`, OpenTelemetry and Sentry are not part of the repository.
use daraja_payment_wrapper.Prelude.{
  ℕ, ltb, Text, codes, all, Bool, Option, none, some, List, [], ◌∷◌, if◌then◌else◌,
}
use daraja_payment_wrapper.Errors.{ok, err, type_error}
use daraja_payment_wrapper.Exec.{Exec, ◌>>◌}
use daraja_payment_wrapper.Json.{Dict}
use daraja_payment_wrapper.Config.{Settings}
use daraja_payment_wrapper.Observability.{add_service_context, strip_pii_from_logs}

-- The libraries: `logging_level` is the value of an attribute of `logging`, `sentry_knows` says which
-- options `sentry_sdk.init` has; it raises a TypeError at another.
pub record Libraries : Type 0 where
  pub add_log_level : Dict → Dict
  pub add_logger_name : Dict → Dict
  pub time_stamper : Dict → Dict
  pub stack_info_renderer : Dict → Dict
  pub exception_renderer : Dict → Dict
  pub json_renderer : Dict → Text
  pub upper : Text → Text
  pub lower : Text → Text
  pub is_word : ℕ → Bool
  pub logging_level : Text → Option ℕ
  pub sentry_knows : Text → Bool

pub data Exporter : Type 0 where
  otlp_exporter : (endpoint : Text) → Exporter
  console_exporter : Exporter

pub record Structlog : Type 0 where
  pub level : ℕ
  pub processors : List (Dict → Dict)

-- What is configured so far.
pub record Tooling : Type 0 where
  pub structlog : Option Structlog
  pub exporter : Option Exporter
  pub sentry_dsn : Option Text

abbrev pub level_or_info : Option ℕ → ℕ
level_or_info none = 20
level_or_info (some n) = n

module _ (lib : Libraries) where
  -- The processors in their order; the last one, JSONRenderer, renders what they make.
  unfoldable pub processors_of : Settings → List (Dict → Dict)
  processors_of settings =
      lib.add_log_level
      ∷ lib.add_logger_name
      ∷ lib.time_stamper
      ∷ lib.stack_info_renderer
      ∷ lib.exception_renderer
      ∷ add_service_context settings.service_name settings.environment
      ∷ strip_pii_from_logs lib.is_word lib.lower
      ∷ []

  unfoldable pub configure_structlog : Settings → Exec Tooling (Unit {0})
  configure_structlog settings t = (
    ok tt,
    record t {
      structlog = some (record {
        level = level_or_info (lib.logging_level (lib.upper settings.log_level));
        processors = processors_of settings;
      });
    },
  )

  -- `endpoint` is the variable OTEL_EXPORTER_OTLP_ENDPOINT of the environment.
  abbrev pub exporter_of : Option Text → Exporter
  exporter_of none = console_exporter
  exporter_of (some []) = console_exporter
  exporter_of (some (c ∷ s)) = otlp_exporter (c ∷ s)

  unfoldable pub configure_opentelemetry : Option Text → Exec Tooling (Unit {0})
  configure_opentelemetry endpoint t = (ok tt, record t { exporter = some (exporter_of endpoint) })

  abbrev pub sentry_options : List Text
  sentry_options =
      codes "dsn"
      ∷ codes "environment"
      ∷ codes "service_name"
      ∷ codes "integrations"
      ∷ codes "send_default_pii"
      ∷ codes "traces_sample_rate"
      ∷ codes "before_send"
      ∷ []

  unfoldable pub configure_sentry : Option Text → Exec Tooling (Unit {0})
  configure_sentry none t = (ok tt, t)
  configure_sentry (some []) t = (ok tt, t)
  configure_sentry (some (c ∷ dsn)) t =
      if all lib.sentry_knows sentry_options
      then (ok tt, record t { sentry_dsn = some (c ∷ dsn) })
      else (err type_error, t)

  unfoldable pub configure_observability : Option Text → Settings → Exec Tooling (Unit {0})
  configure_observability endpoint settings =
      configure_structlog settings
      >> configure_opentelemetry endpoint
      >> configure_sentry settings.sentry_dsn

  abbrev pub process : List (Dict → Dict) → Dict → Dict
  process [] event = event
  process (p ∷ ps) event = process ps (p event)

  -- What is written for an event of a level, under a logger that filters by the level: nothing, or the
  -- event as it is rendered.
  unfoldable pub written : Structlog → ℕ → Dict → Option Dict
  written s level event = if ltb level s.level then none else some (process s.processors event)
