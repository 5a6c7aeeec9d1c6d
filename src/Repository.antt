-- ===== src/Repository.antt =====
-- app/repository/payment_repo.py: the queries and updates of `PaymentRepository`.
pub mod Marks
pub mod Held
use daraja_payment_wrapper.Prelude.{
  ℕ, zero, Text, ◌≡◌, Bool, true, false, Option, none, some, List, [], ◌∷◌, ◌==◌, if◌then◌else◌,
}
use daraja_payment_wrapper.Prelude.Int.{ℤ, pos, int_eq}
use daraja_payment_wrapper.Errors.{Result, ok, err, value_error, db_failure}
use daraja_payment_wrapper.Exec.{Exec, pure, raise, ◌>>=◌, ◌>>◌}
use daraja_payment_wrapper.Payment.{
  Decimal, Payment, PaymentStatus, pending, completed, failed, cancelled,
}
use daraja_payment_wrapper.Json.{Value, null, int, float, str, other}
use daraja_payment_wrapper.Database.{Database}

-- The projection that `get_by_id` returns.
pub record PaymentStatusRow : Type 0 where
  pub id : Text
  pub status : PaymentStatus
  pub amount : Decimal
  pub phone : Text
  pub account_reference : Text
  pub mpesa_receipt : Option Text
  pub failure_reason : Option Text
  pub result_code : Option ℤ
  pub created_at : ℕ
  pub updated_at : ℕ

unfoldable pub status_row : Payment → PaymentStatusRow
status_row p = record {
  id = p.id;
  status = p.status;
  amount = p.amount;
  phone = p.phone;
  account_reference = p.account_reference;
  mpesa_receipt = p.mpesa_receipt;
  failure_reason = p.failure_reason;
  result_code = p.result_code;
  created_at = p.created_at;
  updated_at = p.updated_at;
}

-- `Decimal(str(amount_paid)) if amount_paid else None`; `decimal` is Python's `Decimal` on a text.
unfoldable pub paid_value : (Text → Option Decimal) → Value → Result (Option Decimal)
paid_value decimal null = ok none
paid_value decimal (int n) =
    if int_eq n (pos 0) then ok none else ok (some (record { coefficient = n; places = 0 }))
paid_value decimal (float d) = if int_eq d.coefficient (pos 0) then ok none else ok (some d)
paid_value decimal (str []) = ok none
paid_value decimal (str s) = elim (decimal s) [ none ↦ err value_error | some d ↦ ok (some d) ]
paid_value decimal (other true) = err value_error
paid_value decimal (other false) = ok none

-- The driver binds a text or null to a text column, and refuses any other value.
unfoldable pub bind_text : Value → Result (Option Text)
bind_text null = ok none
bind_text (str s) = ok (some s)
bind_text _ = err db_failure

-- The column values of `mark_completed` and `mark_failed`.
unfoldable pub completed_values : Option Text → Option Decimal → Option ℕ → ℕ → Payment → Payment
completed_values receipt paid date now p = record p {
  status = completed;
  mpesa_receipt = receipt;
  amount_paid = paid;
  mpesa_transaction_date = date;
  updated_at = now;
}

-- 1032: the customer cancelled.
unfoldable pub failed_status : ℤ → PaymentStatus
failed_status result_code = if int_eq result_code (pos 1032) then cancelled else failed

unfoldable pub failed_values : Text → ℤ → ℕ → Payment → Payment
unfolding failed_status
failed_values reason result_code now p = record p {
  status = failed_status result_code;
  failure_reason = some reason;
  result_code = some result_code;
  updated_at = now;
}

unfoldable pub daraja_values : Text → Text → ℕ → Payment → Payment
daraja_values checkout merchant now p = record p {
  checkout_request_id = some checkout;
  merchant_request_id = some merchant;
  updated_at = now;
}

module _ (pg : Database) where
  -- `session.add` and `flush`; the columns with defaults are set by the server
  unfoldable pub create : Payment → Exec pg.Session (Unit {0})
  create payment = pg.insert payment

  unfoldable pub get_by_id : Text → Exec pg.Session (Option PaymentStatusRow)
  get_by_id payment_id = do
    row ← pg.select_by_id payment_id
    pure (elim row [ none ↦ none | some p ↦ some (status_row p) ])

  unfoldable pub get_by_idempotency_key : Text → Exec pg.Session (Option Payment)
  get_by_idempotency_key key = pg.select_by_idempotency_key key

  unfoldable pub get_by_checkout_request_id : Text → Exec pg.Session (Option Payment)
  get_by_checkout_request_id checkout = pg.select_by_checkout_request_id checkout

  unfoldable pub update_daraja_ids : Text → Text → Text → Exec pg.Session (Unit {0})
  update_daraja_ids payment_id checkout merchant s =
      pg.update payment_id (daraja_values checkout merchant (pg.utcnow s)) s

  unfoldable pub mark_completed :
      (Text → Option Decimal) → Text → Value → Value → Option ℕ → Exec pg.Session (Unit {0})
  mark_completed decimal payment_id receipt amount_paid date s =
      elim (paid_value decimal amount_paid) [
        | err e ↦ (err e, s)
        | ok paid ↦ elim (bind_text receipt) [
          | err e ↦ (err e, s)
          | ok text ↦ pg.update payment_id (completed_values text paid date (pg.utcnow s)) s
        ]
      ]

  unfoldable pub mark_failed : Text → Text → ℤ → Exec pg.Session (Unit {0})
  mark_failed payment_id reason result_code s =
      pg.update payment_id (failed_values reason result_code (pg.utcnow s)) s
