-- ===== src/Service/Wired.antt =====
-- app/dependencies.py, `get_stk_service`: the service with its Daraja client, both on one Redis.
pub mod Requests
pub mod Exhausted
mod Tests
use daraja_payment_wrapper.Exec.{Exec}
use daraja_payment_wrapper.Daraja.{Platform, Host, Tenacity}
use daraja_payment_wrapper.Daraja.Circuit.{CircuitBreaker}
use daraja_payment_wrapper.Daraja.Stk.{StkArgs, StkInitiationResult, initiate}
use daraja_payment_wrapper.Service.{Environment, World, Initiator}

-- What the client has beside Redis: the line to Daraja, and the circuit of the process.
pub record Line (pf : Platform) : Type 0 where
  pub net : pf.Net
  pub circuit : CircuitBreaker

module _ (pf : Platform) (base : Environment) where
  -- The service's environment, with the Redis and the client of the platform.
  abbrev pub wired : Environment
  wired = record base { redis = pf.redis; Daraja = Line pf }

  abbrev pub host_of : World wired → Host pf
  host_of w = record { redis = w.redis; net = w.daraja.net; circuit = w.daraja.circuit }

  -- `STKPushInitiator(settings, client).initiate` as the service calls it.
  unfoldable pub initiator : Tenacity (Host pf) → Initiator wired
  initiator tenacity a w =
      let (r, h) = initiate pf tenacity a (host_of w) in
      (r, record w { redis = h.redis; daraja = record { net = h.net; circuit = h.circuit } })
