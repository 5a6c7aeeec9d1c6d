-- ===== src/Service/Wired/Tests.antt =====
-- The theorems on the service with its Daraja client, at a client that gets no answer.
use daraja_payment_wrapper.Prelude.{
  show, ℕ, ◌+◌, ◌≤◌, Text, codes, ◌≡◌, refl, sym, subst, true, false, Option, none, List, [], ◌∷◌,
  arith,
}
use daraja_payment_wrapper.Errors.{Error, ok, err, is_transient, retry_exhausted, timeout_exception}
use daraja_payment_wrapper.Json.{Dict, lookup}
use daraja_payment_wrapper.Daraja.{Host}
use daraja_payment_wrapper.Daraja.Circuit.{CircuitBreaker, new_circuit, on_failure, closed}
use daraja_payment_wrapper.Daraja.Auth.{
  check_oauth_status, request_token, cache_token, store_token, read_token, fetch_new_token,
  get_token,
}
use daraja_payment_wrapper.Daraja.Client.{fail_circuit, execute_request, attempt}
use daraja_payment_wrapper.Daraja.Sample.{platform, tenacity}
use daraja_payment_wrapper.Repository.{create}
use daraja_payment_wrapper.Service.{World, transact}
use daraja_payment_wrapper.Service.Initiate.{insert_new, new_payment, start}
use daraja_payment_wrapper.Service.Initiate.Safety.{IsAnchored}
use daraja_payment_wrapper.Service.Once.History.{Event, requested, session_ended, charges}
use daraja_payment_wrapper.Service.Wired.{wired, host_of, initiator}
use daraja_payment_wrapper.Service.Wired.Requests.{key_posts}
use daraja_payment_wrapper.Service.Wired.Exhausted.{start_exhausted}
use daraja_payment_wrapper.Service.Sample as Sample
use daraja_payment_wrapper.Service.Sample.{request}

abbrev silent : World (wired platform Sample.env)
silent = record {
  redis = record { up = false; entries = λ k. none };
  db = record { up = true; clock = 11; rows = []; saved = [] };
  daraja = record { net = record { sent = 0; status = none }; circuit = new_circuit };
  draws = 0;
}

abbrev twice : List (Event (wired platform Sample.env))
twice = requested request ∷ session_ended ∷ requested request ∷ []

key_posts_example :
    charges
      (wired platform Sample.env)
      (λ d. d.net.sent)
      (initiator platform Sample.env tenacity)
      request.idempotency_key
      twice
      silent
    ≤ 3
key_posts_example =
    key_posts platform Sample.env tenacity (λ n. n.sent) (λ u d t n. omega arith)
      (λ u c n. omega arith) (λ n. omega arith) (λ h. omega arith) request.idempotency_key twice
      silent (omega arith)

-- Redis and Daraja do not answer, but the OAuth endpoint does.
abbrev down_at : (Text → Option Text) → ℕ → CircuitBreaker → Host platform
down_at f n c = record {
  redis = record { up = false; entries = f };
  net = record { sent = n; status = none };
  circuit = c;
}

abbrev IsDown : Host platform → Type 0
IsDown h = (f : Text → Option Text) × (n : ℕ) × (c : CircuitBreaker) × (h ≡ down_at f n c)

abbrev Fails : Text → Dict → Host platform → Type 0
Fails url payload h =
    (e : Error) × ((attempt platform url payload h).0 ≡ err e)
    × (is_transient e ≡ true)
    × IsDown (attempt platform url payload h).1

down-Fails : (url : Text) (payload : Dict) (h : Host platform) → IsDown h → Fails url payload h
unfolding attempt execute_request get_token fetch_new_token request_token check_oauth_status
    read_token store_token cache_token fail_circuit lookup
down-Fails url payload h (f, n, c, e) =
    subst (Fails url payload) (sym e)
      (timeout_exception, refl, refl, (f, n + 1, on_failure 5 0 c, refl))

abbrev inserted : World (wired platform Sample.env)
inserted =
    (transact (wired platform Sample.env)
      (insert_new (wired platform Sample.env) request (codes "id-0"))
      (record silent { draws = 1 })).1

insert_ok :
    transact
      (wired platform Sample.env)
      (insert_new (wired platform Sample.env) request (Sample.env.uuid4 0))
      (record silent { draws = 0 + 1 })
    ≡ (ok tt, inserted)
unfolding transact insert_new create new_payment show
insert_ok = refl

inserted_host : host_of platform Sample.env inserted ≡ down_at (λ k. none) 0 new_circuit
unfolding transact insert_new create new_payment
inserted_host = refl

inserted_shut : inserted.daraja.circuit.state ≡ closed
unfolding transact insert_new create new_payment
inserted_shut = refl

start_exhausted_example :
    ((start (wired platform Sample.env) (initiator platform Sample.env tenacity) request silent).0
      ≡ err retry_exhausted)
    × IsAnchored
        (wired platform Sample.env)
        request
        (start
          (wired platform Sample.env)
          (initiator platform Sample.env tenacity)
          request
          silent).1
start_exhausted_example =
    start_exhausted platform Sample.env tenacity IsDown down-Fails request silent inserted insert_ok
      (λ k. none, 0, new_circuit, inserted_host) inserted_shut (omega arith)
