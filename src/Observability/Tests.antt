-- ===== src/Observability/Tests.antt =====
-- The theorems on app/observability.py at concrete log events.
use daraja_payment_wrapper.Prelude.{
  ℕ, text_eq, not, if◌then◌else◌, codes, ◌≡◌, refl, Bool, ◌||◌, none, some, [], ◌∷◌, leb, ◌&&◌,
}
use daraja_payment_wrapper.Prelude.Int.{pos}
use daraja_payment_wrapper.Json.{Dict, str, int, lookup}
use daraja_payment_wrapper.Schemas.Phone.{is_decimal}
use daraja_payment_wrapper.Errors.{err, type_error}
use daraja_payment_wrapper.Config.{Settings}
use daraja_payment_wrapper.Config.Sample.{given}
use daraja_payment_wrapper.Observability.Configured.{Libraries, Tooling, configure_observability}
use daraja_payment_wrapper.Observability.Logged.{configured, configure_raises}
use daraja_payment_wrapper.Observability.Metrics.{
  Metric, stk_failed, emitted, IsMetric, AreOrdinary, metrics_written,
}
use daraja_payment_wrapper.Observability.{is_phone_at, sub_phone, strip_pii_from_logs}
use daraja_payment_wrapper.Observability.Redacts.{strip_pii_keeps_phones}

-- The word characters of ASCII without the capitals.
abbrev is_word : ℕ → Bool
is_word c = (leb b'0' c && leb c b'9') || (leb b'a' c && leb c b'z')

abbrev event : Dict
event =
    (codes "event", str (codes "stk_push_initiated"))
    ∷ (codes "phone", str (codes "254712345678"))
    ∷ (codes "secret", int (pos 7))
    ∷ []

-- Only a number before a closing brace is masked, and the mask shows the brace.
braced : sub_phone is_word 0 none (codes "{254712345678}") ≡ codes "{2547****678}"
unfolding sub_phone is_phone_at is_decimal
braced = refl

phone_there : lookup (codes "phone") event ≡ some (str (codes "254712345678"))
unfolding lookup
phone_there = refl

strip_pii_keeps_phones_example :
    lookup (codes "phone") (strip_pii_from_logs is_word (λ t. t) event)
    ≡ some (str (codes "254712345678"))
strip_pii_keeps_phones_example =
    strip_pii_keeps_phones is_word (λ t. t) (codes "phone") (codes "254712345678") event refl refl
      phone_there

abbrev add_nothing : Dict → Dict
add_nothing d = d

-- Sentry's options are those of its documentation.
abbrev lib : Libraries
lib = record {
  add_log_level = add_nothing;
  add_logger_name = add_nothing;
  time_stamper = add_nothing;
  stack_info_renderer = add_nothing;
  exception_renderer = add_nothing;
  json_renderer = λ d. [];
  upper = λ t. t;
  lower = λ t. t;
  is_word = is_word;
  logging_level = λ t. if text_eq t (codes "WARNING") then some 30 else none;
  sentry_knows = λ t. not (text_eq t (codes "service_name"));
}

abbrev blank : Tooling
blank = record { structlog = none; exporter = none; sentry_dsn = none }

abbrev with_dsn : Settings
with_dsn = record given { sentry_dsn = some (codes "https://key@sentry.io/1") }

sentry_refused :
    ((configure_observability lib none with_dsn blank).0 ≡ err type_error)
    × ((configure_observability lib none with_dsn blank).1.sentry_dsn ≡ none)
sentry_refused =
    configure_raises lib none with_dsn b'h' (codes "ttps://key@sentry.io/1") blank refl refl

ordinary : AreOrdinary lib
ordinary = record {
  add_log_level = λ k v d h. h;
  add_logger_name = λ k v d h. h;
  time_stamper = λ k v d h. h;
  stack_info_renderer = λ k v d h. h;
  exception_renderer = λ k v d h. h;
  lower_event = refl;
  lower_metric = refl;
}

abbrev failed_metric : Metric
failed_metric = stk_failed (codes "id-7") (pos 1032)

failed_metric_marked :
    IsMetric
      (configured lib none given)
      failed_metric
      (emitted (λ d. d) lib (configured lib none given) failed_metric)
failed_metric_marked = metrics_written lib ordinary none given (λ d. d) failed_metric
