-- ===== src/Service/Steps.antt =====
-- What a step of the service guarantees when it returns, from the laws of the servers.
use daraja_payment_wrapper.Prelude.{◌≡◌, arith}
use daraja_payment_wrapper.Errors.{ok}
use daraja_payment_wrapper.Exec.{Exec}
use daraja_payment_wrapper.Service.{Environment, World, transact}

module _ (env : Environment) where
  -- A transaction that returns has run its statement and committed it.
  pub record Committed (m : Exec env.database.Session (Unit {0})) (w w' : World env) : Type 0 where
    pub after : env.database.Session
    pub ran : m w.db ≡ (ok tt, after)
    pub committed : env.database.commit after ≡ (ok tt, w'.db)
    pub only_db : w' ≡ record w { db = w'.db }

  pub transact-Committed :
      (m : Exec env.database.Session (Unit {0})) (w w' : World env)
      → transact env m w ≡ (ok tt, w')
      → Committed m w w'
  unfolding transact
  transact-Committed m w w' h = record {
    after = (m w.db).1;
    ran = ground arith;
    committed = ground arith;
    only_db = ground arith;
  }

  -- Whatever happens, a transaction leaves Redis alone.
  pub transact-redis :
      (m : Exec env.database.Session (Unit {0})) (w : World env)
      → (transact env m w).1.redis ≡ w.redis
  unfolding transact
  transact-redis m w = ground arith
