-- ===== src/Schemas.antt =====
-- app/schemas/stk.py: the request and response models and the callback envelope.
pub mod Phone
pub mod Request
pub mod Callback
pub mod DarajaResponse
use daraja_payment_wrapper.Prelude.{ℕ, Text, Option}
use daraja_payment_wrapper.Prelude.Int.{ℤ}
use daraja_payment_wrapper.Payment.{Decimal, PaymentStatus}

-- A request as it arrives, and, after validation, as the service sees it.
pub record StkPushInitiateRequest : Type 0 where
  pub phone_number : Text
  pub amount : Decimal
  pub account_reference : Text
  pub transaction_desc : Text
  pub idempotency_key : Text
  pub transaction_type : Text

pub record StkPushInitiateResponse : Type 0 where
  pub payment_id : Text
  pub checkout_request_id : Text
  pub merchant_request_id : Text
  pub response_code : Text
  pub customer_message : Text
  pub status : PaymentStatus

pub record PaymentStatusResponse : Type 0 where
  pub payment_id : Text
  pub status : PaymentStatus
  pub amount : Decimal
  pub phone : Text
  pub account_reference : Text
  pub mpesa_receipt : Option Text
  pub failure_reason : Option Text
  pub result_code : Option ℤ
  pub created_at : ℕ
  pub updated_at : ℕ
