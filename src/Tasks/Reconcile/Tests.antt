-- ===== src/Tasks/Reconcile/Tests.antt =====
-- The theorems on app/tasks/reconciliation_tasks.py at a concrete table.
use daraja_payment_wrapper.Prelude.{
  arith, inl, inr, ap, ◌∙◌, subst, text_eq_refl, Bool-cases, ℕ, Text, length, ◌&&◌, ◌≤◌, ltb, ◌≡◌,
  refl, Bool, true, false, none, some, List, [], ◌∷◌, if◌then◌else◌,
}
use daraja_payment_wrapper.Errors.{ok, err, db_failure}
use daraja_payment_wrapper.Exec.{Exec}
use daraja_payment_wrapper.Payment.{
  Payment, PaymentStatus, pending, completed, failed, cancelled, reversed,
}
use daraja_payment_wrapper.Database.Memory.{memory, Tables}
use daraja_payment_wrapper.Database.Rows.{by_id}
use daraja_payment_wrapper.Daraja.Sample.{platform, tenacity, host}
use daraja_payment_wrapper.Service.Sample.{payment}
use daraja_payment_wrapper.Tasks.{StaleRow, Job}
use daraja_payment_wrapper.Tasks.Reconcile.{All, IsStale, StaleQuery, run}
use daraja_payment_wrapper.Tasks.Reconcile.Silent.{WaitsWithout, run-host}

-- A query that finds the first payment when it is stale.
abbrev is_waiting : PaymentStatus → Bool
is_waiting pending = true
is_waiting _ = false

is_waiting_pending : (t : PaymentStatus) → is_waiting t ≡ true → t ≡ pending
is_waiting_pending pending h = refl
is_waiting_pending completed h = cc
is_waiting_pending failed h = cc
is_waiting_pending cancelled h = cc
is_waiting_pending reversed h = cc

abbrev rows_of : ℕ → List Payment → List StaleRow
rows_of cutoff [] = []
rows_of cutoff (p ∷ l) =
    if is_waiting p.status && ltb p.created_at cutoff
    then record { id = p.id; mpesa_receipt = p.mpesa_receipt } ∷ []
    else []

abbrev select_stale : ℕ → Exec Tables (List StaleRow)
select_stale cutoff s = if s.up then (ok (rows_of cutoff s.rows), s) else (err db_failure, s)

rows_of-IsStale :
    (cutoff : ℕ) (s : Tables) (l : List Payment)
    → s.rows ≡ l
    → All (IsStale memory s cutoff) (rows_of cutoff l) × (length (rows_of cutoff l) ≤ 50)
rows_of-IsStale cutoff s [] e = (tt, omega arith)
rows_of-IsStale cutoff s (p ∷ l) e =
    elim (Bool-cases (is_waiting p.status && ltb p.created_at cutoff)) [
      | inl stale ↦ rw stale (
        (
          (
            p,
            ap (λ (t : List Payment). by_id t p.id) e ∙ rw (text_eq_refl p.id) refl,
            is_waiting_pending p.status (ground arith),
            ground arith,
            refl,
          ),
          tt,
        ),
        omega arith,
      )
      | inr fresh ↦ rw fresh (tt, omega arith)
    ]

select_stale_ok :
    (cutoff : ℕ) (s s' : Tables) (rows : List StaleRow)
    → select_stale cutoff s ≡ (ok rows, s')
    → All (IsStale memory s cutoff) rows × (length rows ≤ 50)
select_stale_ok cutoff s s' rows h =
    subst (λ r. All (IsStale memory s cutoff) r × (length r ≤ 50)) (ground arith)
      (rows_of-IsStale cutoff s s.rows refl)

abbrev query : StaleQuery memory
query = record { select_stale = select_stale; select_stale_ok = select_stale_ok }

abbrev job : Job platform memory
job = record {
  host = host true (λ k. none) (some 200);
  db = record { up = true; clock = 700000000; rows = payment ∷ []; saved = payment ∷ [] };
}

waits : (i : Text) (p : Payment) → memory.row job.db i ≡ some p → WaitsWithout p
waits i p h is_pending = ground arith

run-host_example : (run platform memory tenacity query job).1.host ≡ job.host
run-host_example = run-host platform memory tenacity query job waits
