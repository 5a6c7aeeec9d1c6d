-- ===== src/Observability/Metrics.antt =====
-- app/observability.py, `PaymentMetrics`: the events of the metrics, and what is written of them.
use daraja_payment_wrapper.Prelude.{
  ltb, take, Text, codes, ◌≡◌, refl, ap, ◌∙◌, true, false, Option, none, some, [], ◌∷◌, inl, inr,
  Bool-cases,
}
use daraja_payment_wrapper.Prelude.Int.{ℤ}
use daraja_payment_wrapper.Payment.{Decimal}
use daraja_payment_wrapper.Json.{Value, int, float, str, other, Dict, lookup}
use daraja_payment_wrapper.Config.{Settings}
use daraja_payment_wrapper.Observability.{clean, add_service_context, strip_pii_from_logs}
use daraja_payment_wrapper.Observability.Redacts.{
  braceless, lookup-strip_pii, sub_phone-braceless, add_service_context_lem,
}
use daraja_payment_wrapper.Observability.Configured.{Libraries, Structlog, processors_of, written}
use daraja_payment_wrapper.Observability.Logged.{configured}

pub data Metric : Type 0 where
  stk_initiated : (payment_id : Text) → (latency_ms : Decimal) → Metric
  stk_confirmed : (payment_id : Text) → (amount : Decimal) → Metric
  stk_failed : (payment_id : Text) → (result_code : ℤ) → Metric
  c2b_received : (amount : Decimal) → (bill_ref : Text) → Metric
  daraja_latency : (operation : Text) → (latency_ms : Decimal) → (status_code : ℤ) → Metric

abbrev pub event_name : Metric → Text
event_name (stk_initiated _ _) = codes "stk_push_initiated"
event_name (stk_confirmed _ _) = codes "stk_push_confirmed"
event_name (stk_failed _ _) = codes "stk_push_failed"
event_name (c2b_received _ _) = codes "c2b_payment_received"
event_name (daraja_latency _ _ _) = codes "daraja_api_latency"

-- `round2` is `round(_, 2)`.
module _ (round2 : Decimal → Decimal) where
  abbrev pub details : Metric → Dict
  details (stk_initiated payment_id latency_ms) =
      (codes "payment_id", str payment_id) ∷ (codes "latency_ms", float (round2 latency_ms)) ∷ []
  details (stk_confirmed payment_id amount) =
      (codes "payment_id", str payment_id) ∷ (codes "amount", float amount) ∷ []
  details (stk_failed payment_id result_code) =
      (codes "payment_id", str payment_id) ∷ (codes "result_code", int result_code) ∷ []
  details (c2b_received amount bill_ref) =
      (codes "amount", float amount) ∷ (codes "bill_ref_prefix", str (take 3 bill_ref)) ∷ []
  details (daraja_latency operation latency_ms status_code) =
      (codes "operation", str operation)
      ∷ (codes "latency_ms", float (round2 latency_ms))
      ∷ (codes "status_code", int status_code)
      ∷ []

  unfoldable pub event_of : Metric → Dict
  event_of m = (codes "event", str (event_name m)) ∷ (codes "metric", other true) ∷ details m

  -- Each of the methods logs at the level INFO.
  unfoldable pub emitted : Libraries → Structlog → Metric → Option Dict
  emitted lib s m = written lib s 20 (event_of m)

-- Nothing is written above the level, and below it the event, with its name and its mark.
abbrev pub IsMetric : Structlog → Metric → Option Dict → Type 0
IsMetric s m none = ltb 20 s.level ≡ true
IsMetric s m (some d) =
    (ltb 20 s.level ≡ false)
    × (lookup (codes "event") d ≡ some (str (event_name m)))
    × (lookup (codes "metric") d ≡ some (other true))

-- structlog's processors leave the entries that an event has, and the two keys are written in lower
-- case.
pub record AreOrdinary (lib : Libraries) : Type 0 where
  pub add_log_level :
      (k : Text) (v : Value) (d : Dict)
      → lookup k d ≡ some v
      → lookup k (lib.add_log_level d) ≡ some v
  pub add_logger_name :
      (k : Text) (v : Value) (d : Dict)
      → lookup k d ≡ some v
      → lookup k (lib.add_logger_name d) ≡ some v
  pub time_stamper :
      (k : Text) (v : Value) (d : Dict)
      → lookup k d ≡ some v
      → lookup k (lib.time_stamper d) ≡ some v
  pub stack_info_renderer :
      (k : Text) (v : Value) (d : Dict)
      → lookup k d ≡ some v
      → lookup k (lib.stack_info_renderer d) ≡ some v
  pub exception_renderer :
      (k : Text) (v : Value) (d : Dict)
      → lookup k d ≡ some v
      → lookup k (lib.exception_renderer d) ≡ some v
  pub lower_event : lib.lower (codes "event") ≡ codes "event"
  pub lower_metric : lib.lower (codes "metric") ≡ codes "metric"

module _ (lib : Libraries) (ordinary : AreOrdinary lib) (endpoint : Option Text)
    (settings : Settings) where
  abbrev before_strip : Dict → Dict
  before_strip event = add_service_context settings.service_name settings.environment (
      lib.exception_renderer (
        lib.stack_info_renderer (lib.time_stamper (lib.add_logger_name (lib.add_log_level event)))))

  before_strip_keeps :
      (k : Text) (v : Value) (event : Dict)
      → lookup k event ≡ some v
      → lookup k (before_strip event) ≡ some v
  before_strip_keeps k v event there =
      let o = ordinary in
      let kept = o.exception_renderer k v _ (
        o.stack_info_renderer k v _
          (o.time_stamper k v _ (o.add_logger_name k v _ (o.add_log_level k v event there)))) in
      add_service_context_lem settings.service_name settings.environment k _ ∙ rw (kept) refl

  processed_keeps :
      (k : Text) (v : Value) (event : Dict)
      → clean lib.is_word lib.lower k v ≡ v
      → lookup k event ≡ some v
      → lookup k (strip_pii_from_logs lib.is_word lib.lower (before_strip event)) ≡ some v
  processed_keeps k v event plain there =
      lookup-strip_pii lib.is_word lib.lower k (before_strip event)
      ∙ rw (before_strip_keeps k v event there) (ap some plain)

  plain_name :
      (m : Metric)
      → clean lib.is_word lib.lower (codes "event") (str (event_name m)) ≡ str (event_name m)
  unfolding clean braceless
  plain_name m =
      rw (ordinary.lower_event)
        (ap str (sub_phone-braceless lib.is_word lib.lower none (event_name m) (braceless_name m)))
    where
      braceless_name : (m : Metric) → braceless lib.is_word lib.lower (event_name m) ≡ true
      braceless_name (stk_initiated _ _) = refl
      braceless_name (stk_confirmed _ _) = refl
      braceless_name (stk_failed _ _) = refl
      braceless_name (c2b_received _ _) = refl
      braceless_name (daraja_latency _ _ _) = refl

  plain_mark : clean lib.is_word lib.lower (codes "metric") (other true) ≡ other true
  unfolding clean
  plain_mark = rw (ordinary.lower_metric) refl

  -- A metric is written exactly if the level of the log is INFO or below; what is written has the name of
  -- its event, and is marked as a metric.
  pub metrics_written :
      (round2 : Decimal → Decimal) (m : Metric)
      → let s = configured lib endpoint settings in IsMetric s m (emitted round2 lib s m)
  unfolding emitted written configured processors_of event_of lookup
  metrics_written round2 m = elim (Bool-cases (ltb 20 (configured lib endpoint settings).level)) [
    | inl over ↦ rw (over) over
    | inr under ↦ rw (under) (
      under,
      processed_keeps (codes "event") (str (event_name m)) (event_of round2 m) (plain_name m) refl,
      processed_keeps (codes "metric") (other true) (event_of round2 m) plain_mark refl,
    )
  ]
