-- ===== src/Daraja/Client/Requests.antt =====
-- The requests that `post` makes, and the failures that it counts.
use daraja_payment_wrapper.Prelude.{ℕ, ◌+◌, ◌≤◌, Text, ◌++◌, ◌≡◌, inl, inr, arith}
use daraja_payment_wrapper.Errors.{ok, err, is_transient, transport_error}
use daraja_payment_wrapper.Exec.{Result-cases}
use daraja_payment_wrapper.Json.{Value, Dict}
use daraja_payment_wrapper.Daraja.{Platform, Host, Response, Tenacity}
use daraja_payment_wrapper.Daraja.Circuit.{on_failure}
use daraja_payment_wrapper.Daraja.Auth.{get_token}
use daraja_payment_wrapper.Daraja.Auth.Net.{get_token-KeepsNet}
use daraja_payment_wrapper.Daraja.Client.{
  fail_circuit, check, read_response, execute_request, attempt, post,
}
use daraja_payment_wrapper.Daraja.Client.Retry.{one_more, retrying_count, post_unhandled}

module _ (env : Platform) where
  read_response-net : (r : Response) (w : Host env) → (read_response env r w).1.net ≡ w.net
  unfolding read_response fail_circuit
  read_response-net r w = ground arith

  -- A server error is counted as two failures: once where the status is read, and once where the
  -- error is caught.
  pub server_error_counts_twice :
      (url : Text) (payload : Dict) (w w' : Host env) (token : Value) (response : Response)
      (n : env.Net)
      → get_token env w ≡ (ok token, w')
      → env.http_post url payload token w'.net ≡ (ok response, n)
      → 500 ≤ response.status_code
      → ((attempt env url payload w).0 ≡ err transport_error)
        × ((attempt env url payload w).1.circuit.failure_count ≡ w'.circuit.failure_count + 2)
  unfolding attempt execute_request read_response fail_circuit on_failure
  server_error_counts_twice url payload w w' token response n got sent bad = ground arith

  module _ (posts : env.Net → ℕ)
      (sends : (u : Text) (d : Dict) (t : Value) (n : env.Net)
        → posts (env.http_post u d t n).1 ≤ posts n + 1)
      (asks : (u c : Text) (n : env.Net) → posts (env.http_get u c n).1 ≤ posts n)
      (sleeps : (n : env.Net) → posts (env.sleep n) ≤ posts n) where
    get_token_posts : (w : Host env) → posts (get_token env w).1.net ≤ posts w.net
    get_token_posts w =
        (get_token-KeepsNet env (λ n b. posts n ≤ posts w.net)
            (λ u c n b h. omega (arith, asks u c n, h)) (λ n b h. omega (arith, sleeps n, h))).at
          w (omega arith)

    attempt_posts :
        (url : Text) (payload : Dict) (w : Host env)
        → posts (attempt env url payload w).1.net ≤ posts w.net + 1
    unfolding attempt execute_request fail_circuit
    attempt_posts url payload w =
        let w' : Host env = (get_token env w).1 in
        elim (Result-cases (get_token env w).0) [
          | inr (e, failed) ↦ ground (arith, get_token_posts w)
          | inl (token, got) ↦
              let n = (env.http_post url payload token w'.net).1 in
              elim (Result-cases (env.http_post url payload token w'.net).0) [
                | inr (e, failed) ↦
                    ground (arith, get_token_posts w, sends url payload token w'.net)
                | inl (r, sent) ↦ ground (
                  arith,
                  get_token_posts w,
                  sends url payload token w'.net,
                  read_response-net r (record w' { net = n }),
                )
              ]
        ]

    -- However often it retries, `post` sends at most `daraja_retry_attempts` requests to Daraja, if
    -- that is at least one: a count to which a request adds at most one, and a request for a token, a
    -- sleep and a pause nothing, grows by at most that number.
    pub post_requests :
        (tenacity : Tenacity (Host env))
        → ((w : Host env) → posts (tenacity.pause w).net ≤ posts w.net)
        → (path : Text) (payload : Dict) (w : Host env) → 1 ≤ env.daraja_retry_attempts
        → posts (post env tenacity path payload w).1.net ≤ posts w.net + env.daraja_retry_attempts
    unfolding check
    post_requests tenacity idle path payload w some_attempt =
        let (m, n_eq) = one_more env.daraja_retry_attempts some_attempt in
        let run = attempt env (env.daraja_base_url ++ path) payload in
        let bound =
          retrying_count tenacity is_transient run (λ (w : Host env). posts w.net)
            (attempt_posts (env.daraja_base_url ++ path) payload) idle m (check env w).1 in
        ground (arith, post_unhandled env tenacity path payload w some_attempt)
