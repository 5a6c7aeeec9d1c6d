-- ===== src/Service/Wired/Requests.antt =====
-- How many requests to Daraja a key costs, with the retries of the client.
use daraja_payment_wrapper.Prelude.{ℕ, ◌+◌, ◌≤◌, Text, List, codes, refl, inl, inr}
use daraja_payment_wrapper.Exec.{◌>>=◌, Result-cases}
use daraja_payment_wrapper.Json.{Value, Dict}
use daraja_payment_wrapper.Daraja.{Platform, Host, Tenacity}
use daraja_payment_wrapper.Daraja.Client.{post}
use daraja_payment_wrapper.Daraja.Client.Requests.{post_requests}
use daraja_payment_wrapper.Daraja.Stk.{StkArgs, stk_payload, generate_stk_password, initiate}
use daraja_payment_wrapper.Service.{Environment, World}
use daraja_payment_wrapper.Service.Wired.{wired, host_of, initiator}
use daraja_payment_wrapper.Service.Once.History.{Event, charges}
use daraja_payment_wrapper.Service.Once.History.Refines.{charges_within}

module _ (pf : Platform) (base : Environment) (tenacity : Tenacity (Host pf)) (posts : pf.Net → ℕ)
    (sends : (u : Text) (d : Dict) (t : Value) (n : pf.Net)
      → posts (pf.http_post u d t n).1 ≤ posts n + 1)
    (asks : (u c : Text) (n : pf.Net) → posts (pf.http_get u c n).1 ≤ posts n)
    (sleeps : (n : pf.Net) → posts (pf.sleep n) ≤ posts n)
    (idle : (h : Host pf) → posts (tenacity.pause h).net ≤ posts h.net) where
  initiate_posts :
      (a : StkArgs) (h : Host pf)
      → 1 ≤ pf.daraja_retry_attempts
      → posts (initiate pf tenacity a h).1.net ≤ posts h.net + pf.daraja_retry_attempts
  unfolding initiate
  initiate_posts a h some_attempt =
      let path = codes "/mpesa/stkpush/v1/processrequest" in
      let payload = stk_payload pf a (
        generate_stk_password pf.b64encode pf.daraja_shortcode pf.daraja_passkey
          (pf.timestamp h.net)) in
      let bound =
        post_requests pf posts sends asks sleeps tenacity idle path payload h some_attempt in
      elim (Result-cases (post pf tenacity path payload h).0) [
        | inl (raw, e) ↦ rw (e, ◌>>=◌) bound
        | inr (x, e) ↦ rw (e, ◌>>=◌) bound
      ]

  -- Over every history of the service with its own Daraja client, at most `daraja_retry_attempts`
  -- requests are posted to Daraja on behalf of one key, if that is at least one and a request counts
  -- once, while tokens, sleeps and pauses do not count.
  pub key_posts :
      (k : Text) (events : List (Event (wired pf base))) (w : World (wired pf base))
      → 1 ≤ pf.daraja_retry_attempts
      → charges (wired pf base) (λ d. posts d.net) (initiator pf base tenacity) k events w
        ≤ pf.daraja_retry_attempts
  unfolding initiator
  key_posts k events w some_attempt =
      charges_within (wired pf base) (λ d. posts d.net) pf.daraja_retry_attempts
        (initiator pf base tenacity) (λ a w'. refl)
        (λ a w'. initiate_posts a (host_of pf base w') some_attempt) k events w
