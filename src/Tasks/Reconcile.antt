-- ===== src/Tasks/Reconcile.antt =====
-- app/tasks/reconciliation_tasks.py: the whole of `expire_stale_pending_payments`. Timestamps are in
-- microseconds.
pub mod Silent
mod Tests
use daraja_payment_wrapper.Prelude.{
  ℕ, ◌-◌, ◌*◌, ◌≤◌, ◌<◌, Text, length, ◌≡◌, Option, some, none, List, [], ◌∷◌,
}
use daraja_payment_wrapper.Errors.{ok}
use daraja_payment_wrapper.Exec.{Exec, pure, ◌>>=◌, ◌>>◌}
use daraja_payment_wrapper.Payment.{Payment, pending}
use daraja_payment_wrapper.Database.{Database}
use daraja_payment_wrapper.Daraja.{Platform, Host, Tenacity}
use daraja_payment_wrapper.Tasks.{StaleRow, Job, reconcile_row}
use daraja_payment_wrapper.Tasks.Worker.{Celery, Delivery, deliver}

abbrev pub All : (StaleRow → Type 0) → List StaleRow → Type 0
All P [] = Unit {0}
All P (row ∷ rows) = P row × All P rows

-- The row is that of a payment which the session sees as pending since before the cutoff.
abbrev pub IsStale : (pg : Database) → pg.Session → ℕ → StaleRow → Type 0
IsStale pg s cutoff row =
    (p : Payment) × (pg.row s row.id ≡ some p)
    × (p.status ≡ pending)
    × (p.created_at < cutoff)
    × (row.mpesa_receipt ≡ p.mpesa_receipt)

-- The SELECT of the task, with its LIMIT, on the server that is not part of the repository.
pub record StaleQuery (pg : Database) : Type 0 where
  pub select_stale : ℕ → Exec pg.Session (List StaleRow)
  pub select_stale_ok :
      (cutoff : ℕ) (s s' : pg.Session) (rows : List StaleRow)
      → select_stale cutoff s ≡ (ok rows, s')
      → All (IsStale pg s cutoff) rows × (length rows ≤ 50)

abbrev pub ten_minutes : ℕ
ten_minutes = 600 * 1000000

module _ (env : Platform) (pg : Database) (tenacity : Tenacity (Host env))
    (query : StaleQuery pg) where
  -- The loop: `reconcile_row` raises nothing.
  unfoldable pub reconcile_rows : List StaleRow → Exec (Job env pg) (Unit {0})
  reconcile_rows [] = pure tt
  reconcile_rows (row ∷ rows) = reconcile_row env pg tenacity row >> reconcile_rows rows

  -- Only the SELECT can raise. Its session is closed before the loop.
  unfoldable pub run : Exec (Job env pg) (Unit {0})
  run w =
      ((λ (v : Job env pg).
            let (r, s) = query.select_stale (pg.utcnow v.db - ten_minutes) v.db in
            (r, record v { db = s }))
          >>= reconcile_rows)
        w

  unfoldable pub expire_stale_pending_payments :
      Celery → ℕ → Job env pg → Delivery (Job env pg) (Unit {0})
  expire_stale_pending_payments celery fuel w = deliver celery 1 (λ retries. 300) run fuel 0 w
