-- ===== src/Tasks.antt =====
-- app/tasks/reconciliation_tasks.py: one row of `expire_stale_pending_payments`.
pub mod Overwrite
pub mod Worker
pub mod Sample
pub mod Stk
pub mod Infra
pub mod Reconcile
pub mod Celery
mod Tests
use daraja_payment_wrapper.Prelude.{ℕ, Text, codes, take, Option, none, some, [], ◌∷◌, ◌++◌}
use daraja_payment_wrapper.Prelude.Int.{ℤ, negsuc}
use daraja_payment_wrapper.Errors.{Error, Result, ok, err}
use daraja_payment_wrapper.Exec.{Exec, pure, raise, catch, ◌>>=◌, ◌>>◌}
use daraja_payment_wrapper.Payment.{Payment, PaymentStatus, failed}
use daraja_payment_wrapper.Database.{Database}
use daraja_payment_wrapper.Daraja.{Platform, Host, Tenacity}
use daraja_payment_wrapper.Daraja.Query.{query_transaction_status}

-- The columns that the task reads.
pub record StaleRow : Type 0 where
  pub id : Text
  pub mpesa_receipt : Option Text

-- The Daraja client and the database of the task.
pub record Job (env : Platform) (pg : Database) : Type 0 where
  pub host : Host env
  pub db : pg.Session

-- The values of the update, and `updated_at` by the `onupdate` of the column, whose clock is taken to
-- be that of the session.
unfoldable pub expired_values : ℕ → Payment → Payment
expired_values now p = record p {
  status = failed;
  failure_reason = some (codes "No callback received within 10 mins");
  result_code = some (negsuc 98);
  updated_at = now;
}

module _ (env : Platform) (pg : Database) (tenacity : Tenacity (Host env)) where
  -- `async with session.begin()`: commit, or roll back and raise
  unfoldable pub expire : Text → Exec pg.Session (Unit {0})
  expire payment_id =
      catch ((λ s. pg.update payment_id (expired_values (pg.utcnow s)) s) >> pg.commit)
        (λ e. pg.rollback >> raise e)

  abbrev on_host : {A : Type 0} → Exec (Host env) A → Exec (Job env pg) A
  on_host m w = let (r, h) = m w.host in (r, record w { host = h })

  abbrev on_db : {A : Type 0} → Exec pg.Session A → Exec (Job env pg) A
  on_db m w = let (r, s) = m w.db in (r, record w { db = s })

  -- `query_transaction_status` with the remarks of the task
  unfoldable pub ask_status : Text → Text → Exec (Job env pg) (Unit {0})
  ask_status payment_id receipt =
      on_host (
        query_transaction_status env tenacity receipt (codes "1")
          (codes "Stale PENDING reconciliation: " ++ take 8 payment_id) [])
      >> pure tt

  -- `if row.mpesa_receipt`: an empty text is no receipt.
  unfoldable pub reconcile : StaleRow → Option Text → Exec (Job env pg) (Unit {0})
  reconcile row none = on_db (expire row.id)
  reconcile row (some []) = on_db (expire row.id)
  reconcile row (some (c ∷ cs)) = ask_status row.id (c ∷ cs)

  -- The body of the loop: what it raises is logged.
  unfoldable pub reconcile_row : StaleRow → Exec (Job env pg) (Unit {0})
  reconcile_row row = catch (reconcile row row.mpesa_receipt) (λ e. pure tt)
