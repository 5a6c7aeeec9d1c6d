-- ===== src/Payment.antt =====
-- app/models/payment.py: the `payments` table. Timestamps are numbers; `Decimal` is exact.
use daraja_payment_wrapper.Prelude.{ℕ, Text, codes, Bool, true, false, Option}
use daraja_payment_wrapper.Prelude.Int.{ℤ}

-- `coefficient / 10 ^ places`, the value of a finite `decimal.Decimal`.
pub record Decimal : Type 0 where
  pub coefficient : ℤ
  pub places : ℕ

pub data PaymentStatus : Type 0 where
  pending completed failed cancelled reversed : PaymentStatus

pub data PaymentType : Type 0 where
  stk_push c2b b2c : PaymentType

-- The string that the `status` column holds.
unfoldable pub status_value : PaymentStatus → Text
status_value pending = codes "pending"
status_value completed = codes "completed"
status_value failed = codes "failed"
status_value cancelled = codes "cancelled"
status_value reversed = codes "reversed"

pub record Payment : Type 0 where
  pub id : Text
  pub payment_type : PaymentType
  pub status : PaymentStatus
  pub phone : Text
  pub amount : Decimal
  pub account_reference : Text
  pub transaction_desc : Text
  pub idempotency_key : Text
  pub checkout_request_id : Option Text
  pub merchant_request_id : Option Text
  pub mpesa_receipt : Option Text
  pub amount_paid : Option Decimal
  pub mpesa_transaction_date : Option ℕ
  pub failure_reason : Option Text
  pub result_code : Option ℤ
  pub created_at : ℕ
  pub updated_at : ℕ

-- The statuses that the service treats as final.
abbrev pub is_settled : PaymentStatus → Bool
is_settled completed = true
is_settled failed = true
is_settled cancelled = true
is_settled _ = false
