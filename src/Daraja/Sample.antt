-- ===== src/Daraja/Sample.antt =====
-- A concrete platform for app/daraja, and retries that fit the interface of tenacity.
use daraja_payment_wrapper.Prelude.{
  ℕ, zero, suc, ◌+◌, Text, codes, ◌≡◌, Bool, true, false, Option, none, some, [], ◌∷◌, arith,
  if◌then◌else◌,
}
use daraja_payment_wrapper.Prelude.Int.{ℤ, pos}
use daraja_payment_wrapper.Errors.{Error, Result, ok, err, retry_exhausted, timeout_exception}
use daraja_payment_wrapper.Exec.{Exec}
use daraja_payment_wrapper.Json.{Value, int, str, Dict, object}
use daraja_payment_wrapper.Redis.Memory as Memory
use daraja_payment_wrapper.Daraja.{Platform, Host, Response, Tenacity}
use daraja_payment_wrapper.Daraja.Circuit.{new_circuit}

module _ {S : Type 0} where
  abbrev after : {A : Type 0} → (Error → Bool) → Exec S A → S → (S → Result A × S) → Result A × S
  after p body s next =
      let (r, s') = body s in
      elim r [ ok a ↦ (ok a, s') | err e ↦ if p e then next s' else (err e, s') ]

  abbrev exhausted : {A : Type 0} → S → Result A × S
  exhausted s = (err retry_exhausted, s)

  abbrev run : {A : Type 0} → (Error → Bool) → ℕ → Exec S A → Exec S A
  run p zero body s = after p body s exhausted
  run p (suc zero) body s = after p body s exhausted
  run p (suc (suc n)) body s = after p body s (λ s'. run p (suc n) body s')

  pub run_value :
      {A : Type 0} (p : Error → Bool) (n : ℕ) (body : Exec S A) (s s' : S) (a : A)
      → body s ≡ (ok a, s')
      → run p n body s ≡ (ok a, s')
  run_value p zero body s s' a h = ground (arith, h)
  run_value p (suc zero) body s s' a h = ground (arith, h)
  run_value p (suc (suc n)) body s s' a h = ground (arith, h)

  pub run_fatal :
      {A : Type 0} (p : Error → Bool) (n : ℕ) (body : Exec S A) (s s' : S) (e : Error)
      → body s ≡ (err e, s')
      → p e ≡ false
      → run p n body s ≡ (err e, s')
  run_fatal p zero body s s' e h k = ground (arith, h)
  run_fatal p (suc zero) body s s' e h k = ground (arith, h)
  run_fatal p (suc (suc n)) body s s' e h k = ground (arith, h)

  pub run_last :
      {A : Type 0} (p : Error → Bool) (body : Exec S A) (s s' : S) (e : Error)
      → body s ≡ (err e, s')
      → p e ≡ true
      → run p 1 body s ≡ (err retry_exhausted, s')
  run_last p body s s' e h k = ground (arith, h)

  pub run_again :
      {A : Type 0} (p : Error → Bool) (n : ℕ) (body : Exec S A) (s s' : S) (e : Error)
      → body s ≡ (err e, s')
      → p e ≡ true
      → run p (suc (suc n)) body s ≡ run p (suc n) body s'
  run_again p n body s s' e h k = ground (arith, h)

  abbrev pub tenacity : Tenacity S
  tenacity = record {
    retrying = run;
    pause = λ s. s;
    retrying_value = run_value;
    retrying_fatal = run_fatal;
    retrying_last = run_last;
    retrying_again = run_again;
  }

-- The line to Daraja: what it has been sent, and the status that it answers, if it answers.
pub record Line : Type 0 where
  pub sent : ℕ
  pub status : Option ℕ

abbrev pub answer : Dict
answer =
    (codes "MerchantRequestID", str (codes "29115-1"))
    ∷ (codes "CheckoutRequestID", str (codes "ws_CO_1"))
    ∷ (codes "ResponseCode", str (codes "0"))
    ∷ (codes "ResponseDescription", str (codes "Success"))
    ∷ (codes "CustomerMessage", str (codes "Success"))
    ∷ []

abbrev pub token : Dict
token = (codes "access_token", str (codes "abc")) ∷ (codes "expires_in", int (pos 3599)) ∷ []

abbrev pub reply : Dict → ℕ → Response
reply d status = record { status_code = status; text = []; json = object d }

abbrev int_of : Value → Option ℤ
int_of (int n) = some n
int_of _ = none

abbrev text_of : Value → Option Text
text_of (str s) = some s
text_of _ = none

abbrev pub platform : Platform
platform = record {
  redis = Memory.memory;
  Net = Line;
  monotonic = λ n. 0;
  http_post = λ u d t n. (
    elim n.status [ none ↦ err timeout_exception | some status ↦ ok (reply answer status) ],
    record n { sent = n.sent + 1 },
  );
  http_get = λ u c n. (ok (reply token 200), n);
  sleep = λ n. n;
  timestamp = λ n. codes "20260410133540";
  b64encode = λ t. t;
  to_int = int_of;
  encode = text_of;
  daraja_base_url = codes "https://sandbox.safaricom.co.ke";
  daraja_consumer_key = codes "key";
  daraja_consumer_secret = codes "secret";
  daraja_shortcode = codes "174379";
  daraja_passkey = codes "passkey";
  daraja_callback_base_url = codes "https://pay.example.com";
  daraja_b2c_initiator_name = codes "testapi";
  daraja_b2c_security_credential = codes "credential";
  daraja_retry_attempts = 3;
  circuit_breaker_failure_threshold = 5;
  circuit_breaker_recovery_timeout = 60;
  token_lock_ttl_ms = 10000;
  token_refresh_margin_seconds = 300;
}

-- A host whose Redis is up or not, and holds `f`.
abbrev pub host : Bool → (Text → Option Text) → Option ℕ → Host platform
host up f status = record {
  redis = record { up = up; entries = f };
  net = record { sent = 0; status = status };
  circuit = new_circuit;
}
