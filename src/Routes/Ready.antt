-- ===== src/Routes/Ready.antt =====
-- When the service calls itself ready.
use daraja_payment_wrapper.Prelude.{◌≡◌, ◌≢◌, ◌↔◌, Bool, true, false, arith, inl, inr}
use daraja_payment_wrapper.Errors.{ok}
use daraja_payment_wrapper.Exec.{Exec, Result-cases}
use daraja_payment_wrapper.Routes.{readiness}

module _ {Session Store : Type 0} (select_1 : Exec Session (Unit {0}))
    (ping : Exec Store Bool) where
  -- The readiness probe answers 200 exactly when the database answers and Redis answers a ping with
  -- a pong, and 503 otherwise; it raises nothing.
  pub readiness_iff :
      (s : Session) (r : Store)
      → (((readiness select_1 ping s r).status_code ≡ 200)
          ↔ (((select_1 s).0 ≡ ok tt) × ((ping r).0 ≡ ok true)))
        × (((readiness select_1 ping s r).status_code ≢ 200)
            → (readiness select_1 ping s r).status_code ≡ 503)
  unfolding readiness
  readiness_iff s r = elim (Result-cases (select_1 s).0) [
    | inr (e, down) ↦ (ground arith, λ other. ground (arith, other))
    | inl (u, up) ↦ elim (Result-cases (ping r).0) [
      | inr (e, down) ↦ (ground arith, λ other. ground (arith, other))
      | inl (true, pong) ↦ (ground arith, λ other. ground (arith, other))
      | inl (false, silent) ↦ (ground arith, λ other. ground (arith, other))
    ]
  ]
