-- ===== src/Service/Status.antt =====
-- app/services/stk.py, `get_payment_status`; app/routes/stk.py, the status route.
use daraja_payment_wrapper.Prelude.{Text, ◌≡◌, arith, Option, none, some}
use daraja_payment_wrapper.Errors.{ok, err, app, payment_not_found}
use daraja_payment_wrapper.Exec.{Exec, pure, raise, ◌>>=◌}
use daraja_payment_wrapper.Schemas.{PaymentStatusResponse}
use daraja_payment_wrapper.Repository.{PaymentStatusRow, status_row, get_by_id}
use daraja_payment_wrapper.Payment.{Payment}
use daraja_payment_wrapper.Service.{Environment, World, on_db}

unfoldable pub status_response : PaymentStatusRow → PaymentStatusResponse
status_response row = record {
  payment_id = row.id;
  status = row.status;
  amount = row.amount;
  phone = row.phone;
  account_reference = row.account_reference;
  mpesa_receipt = row.mpesa_receipt;
  failure_reason = row.failure_reason;
  result_code = row.result_code;
  created_at = row.created_at;
  updated_at = row.updated_at;
}

module _ (env : Environment) where
  unfoldable pub get_payment_status : Text → Exec (World env) (Option PaymentStatusResponse)
  get_payment_status payment_id = do
    row ← on_db env (get_by_id env.database payment_id)
    pure (elim row [ none ↦ none | some r ↦ some (status_response r) ])

  -- The route: no payment is a 404.
  unfoldable pub payment_status_route : Text → Exec (World env) PaymentStatusResponse
  payment_status_route payment_id = do
    result ← get_payment_status payment_id
    elim result [ none ↦ raise (app payment_not_found) | some r ↦ pure r ]

-- When the session answers the query, the route returns the columns of the row with the identifier,
-- and raises `PaymentNotFoundError` exactly when there is none; nothing durable changes.
pub payment_status_route_answers :
    (env : Environment) (payment_id : Text) (w : World env) (s : env.database.Session)
    (o : Option Payment)
    → env.database.select_by_id payment_id w.db ≡ (ok o, s)
    → (payment_status_route env payment_id w ≡ (
      elim (env.database.row w.db payment_id) [
        | none ↦ err (app payment_not_found)
        | some p ↦ ok (status_response (status_row p))
      ],
      record w { db = s },
    ))
      × ((i : Text) → env.database.durable s i ≡ env.database.durable w.db i)
unfolding payment_status_route get_payment_status get_by_id
payment_status_route_answers env payment_id w s o h =
    let (same, rows, kept) = env.database.select_by_id_ok payment_id w.db s o h in
    (ground (arith, h, same), kept)
