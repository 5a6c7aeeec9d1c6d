-- ===== src/Tasks/Reconcile/Silent.antt =====
-- The task is meant to resolve stale payments by a Transaction Status query; it never sends one.
use daraja_payment_wrapper.Prelude.{
  ℕ, ◌-◌, Text, ◌≡◌, refl, ◌∙◌, Bool, true, false, if◌then◌else◌, Option, none, some, List, [], ◌∷◌,
  inl, inr, arith,
}
use daraja_payment_wrapper.Prelude.Int.{ℤ, pos, int_eq}
use daraja_payment_wrapper.Exec.{◌>>=◌, Result-cases}
use daraja_payment_wrapper.Payment.{Payment, Decimal, pending, failed, cancelled}
use daraja_payment_wrapper.Schemas.{StkPushInitiateRequest}
use daraja_payment_wrapper.Repository.{
  completed_values, failed_values, failed_status, daraja_values,
}
use daraja_payment_wrapper.Database.{Database}
use daraja_payment_wrapper.Daraja.{Platform, Host, Tenacity}
use daraja_payment_wrapper.Service.Initiate.{new_payment}
use daraja_payment_wrapper.Tasks.{StaleRow, Job, expired_values, reconcile, reconcile_row}
use daraja_payment_wrapper.Tasks.Reconcile.{
  All, IsStale, StaleQuery, reconcile_rows, run, ten_minutes,
}

-- A payment that waits for its callback has no receipt.
abbrev pub WaitsWithout : Payment → Type 0
WaitsWithout p = p.status ≡ pending → p.mpesa_receipt ≡ none

not_pending : (b : Bool) → (if b then cancelled else failed) ≡ pending → ⊥
not_pending true h = cc
not_pending false h = cc

-- A new payment waits without a receipt, and every update that the code makes keeps it so: the receipt
-- comes with the status COMPLETED.
pub updates_wait_without :
    (r : StkPushInitiateRequest) (id a b : Text) (now : ℕ) (p : Payment) (receipt : Option Text)
    (paid : Option Decimal) (date : Option ℕ) (code : ℤ)
    → WaitsWithout (new_payment r id now)
      × (WaitsWithout p
          → WaitsWithout (daraja_values a b now p)
            × WaitsWithout (failed_values a code now p)
            × WaitsWithout (completed_values receipt paid date now p)
            × WaitsWithout (expired_values now p))
unfolding new_payment daraja_values failed_values completed_values expired_values failed_status
updates_wait_without r id a b now p receipt paid date code = (
  λ h. refl,
  λ keep. (keep, λ h. absurd (not_pending (int_eq code (pos 1032)) h), λ h. cc, λ h. cc),
)

module _ (env : Platform) (pg : Database) (tenacity : Tenacity (Host env))
    (query : StaleQuery pg) where
  reconcile_row-host :
      (row : StaleRow) (w : Job env pg)
      → row.mpesa_receipt ≡ none
      → (reconcile_row env pg tenacity row w).1.host ≡ w.host
  unfolding reconcile_row reconcile
  reconcile_row-host row w h = ground (arith, h)

  reconcile_rows-host :
      (rows : List StaleRow) (w : Job env pg)
      → All (λ row. row.mpesa_receipt ≡ none) rows
      → (reconcile_rows env pg tenacity query rows w).1.host ≡ w.host
  unfolding reconcile_rows
  reconcile_rows-host [] w h = refl
  reconcile_rows-host (row ∷ rows) w (h, hs) =
      elim (Result-cases (reconcile_row env pg tenacity row w).0) [
        | inl (u, e) ↦
            rw (e, ◌>>=◌)
              (reconcile_rows-host rows (reconcile_row env pg tenacity row w).1 hs
                ∙ reconcile_row-host row w h)
        | inr (x, e) ↦ rw (e, ◌>>=◌) (reconcile_row-host row w h)
      ]

  stale_without :
      (s : pg.Session) (cutoff : ℕ) (rows : List StaleRow)
      → ((i : Text) (p : Payment) → pg.row s i ≡ some p → WaitsWithout p)
      → All (IsStale pg s cutoff) rows
      → All (λ row. row.mpesa_receipt ≡ none) rows
  stale_without s cutoff [] waits h = tt
  stale_without s cutoff (row ∷ rows) waits ((p, there, is_pending, old, same), hs) =
      (same ∙ waits row.id p there is_pending, stale_without s cutoff rows waits hs)

  -- While no pending payment that the session sees has a receipt, a run of the task leaves the Daraja
  -- client and Redis as they were: no Transaction Status query is sent, whatever the rows and
  -- whatever the database answers.
  pub run-host :
      (w : Job env pg)
      → ((i : Text) (p : Payment) → pg.row w.db i ≡ some p → WaitsWithout p)
      → (run env pg tenacity query w).1.host ≡ w.host
  unfolding run
  run-host w waits =
      let cutoff = pg.utcnow w.db - ten_minutes in
      let s = (query.select_stale cutoff w.db).1 in
      elim (Result-cases (query.select_stale cutoff w.db).0) [
        | inr (e, broken) ↦ ground (arith, broken)
        | inl (rows, found) ↦
            let (stale, few) = query.select_stale_ok cutoff w.db s rows (ground (arith, found)) in
            let quiet =
              reconcile_rows-host rows (record w { db = s })
                (stale_without w.db cutoff rows waits stale) in
            ground (arith, found, quiet)
      ]
