-- ===== src/Sql/Migration.antt =====
-- migrations/versions/d3de5502634c_initial_tables.py: the operations of `upgrade` and of `downgrade`.
pub mod Undo
pub mod Declared
use daraja_payment_wrapper.Prelude.{
  ℕ, Text, codes, ◌≡◌, Bool, true, false, Option, none, some, List, [], ◌∷◌, ◌++◌,
}
use daraja_payment_wrapper.Errors.{ok}
use daraja_payment_wrapper.Exec.{Exec, pure, ◌>>◌}
use daraja_payment_wrapper.Sql.{
  ColumnType, sql_uuid, sql_text, sql_integer, sql_datetime, sql_string, sql_numeric, Column,
  is_positive, is_null_or_positive, CheckConstraint, Table,
}
use daraja_payment_wrapper.Sql.Ddl.{Ddl}

pub data Operation : Type 0 where
  create_table : (name : Text) → Table → Operation
  create_index : (name on : Text) → (columns : List Text) → Operation
  drop_index : (name on : Text) → Operation
  drop_table : (name : Text) → Operation

abbrev column : Text → ColumnType → Bool → Option Text → Column
column name type nullable default = record {
  name = name;
  type = type;
  nullable = nullable;
  server_default = default;
}

abbrev required : Text → ColumnType → Column
required name type = column name type false none

abbrev optional : Text → ColumnType → Column
optional name type = column name type true none

abbrev created_payment_audit_log : Table
created_payment_audit_log = record {
  columns =
      column (codes "id") sql_uuid false (some (codes "gen_random_uuid()"))
      ∷ required (codes "payment_id") sql_uuid
      ∷ required (codes "event_type") (sql_string 50)
      ∷ required (codes "actor") (sql_string 100)
      ∷ optional (codes "payload_json") sql_text
      ∷ optional (codes "ip_address") (sql_string 45)
      ∷ optional (codes "request_id") (sql_string 64)
      ∷ required (codes "checksum") (sql_string 64)
      ∷ optional (codes "previous_checksum") (sql_string 64)
      ∷ column (codes "created_at") sql_datetime false (some (codes "now()"))
      ∷ [];
  primary_key = codes "id" ∷ [];
  uniques = [];
  checks = [];
}

abbrev created_payments : Table
created_payments = record {
  columns =
      column (codes "id") sql_uuid false (some (codes "gen_random_uuid()"))
      ∷ required (codes "payment_type") (sql_string 20)
      ∷ required (codes "status") (sql_string 20)
      ∷ required (codes "phone") (sql_string 15)
      ∷ required (codes "amount") (sql_numeric 19 4)
      ∷ required (codes "account_reference") (sql_string 12)
      ∷ required (codes "transaction_desc") (sql_string 13)
      ∷ required (codes "idempotency_key") (sql_string 64)
      ∷ optional (codes "checkout_request_id") (sql_string 100)
      ∷ optional (codes "merchant_request_id") (sql_string 100)
      ∷ optional (codes "mpesa_receipt") (sql_string 20)
      ∷ optional (codes "amount_paid") (sql_numeric 19 4)
      ∷ optional (codes "mpesa_transaction_date") sql_datetime
      ∷ optional (codes "failure_reason") sql_text
      ∷ optional (codes "result_code") sql_integer
      ∷ column (codes "created_at") sql_datetime false (some (codes "now()"))
      ∷ column (codes "updated_at") sql_datetime false (some (codes "now()"))
      ∷ [];
  primary_key = codes "id" ∷ [];
  uniques = codes "checkout_request_id" ∷ codes "idempotency_key" ∷ [];
  checks =
      record {
        name = codes "ck_payments_amount_positive";
        condition = is_positive (codes "amount");
      }
      ∷ record {
        name = codes "ck_payments_amount_paid_positive";
        condition = is_null_or_positive (codes "amount_paid");
      }
      ∷ [];
}

abbrev payments_index : Text → List Text → Operation
payments_index name columns = create_index name (codes "payments") columns

abbrev audit_index : Text → List Text → Operation
audit_index name columns = create_index name (codes "payment_audit_log") columns

unfoldable pub upgrade : List Operation
upgrade =
    create_table (codes "payment_audit_log") created_payment_audit_log
    ∷ audit_index (codes "ix_audit_created_at") (codes "created_at" ∷ [])
    ∷ audit_index (codes "ix_audit_event_type") (codes "event_type" ∷ [])
    ∷ audit_index (codes "ix_audit_payment_id") (codes "payment_id" ∷ [])
    ∷ create_table (codes "payments") created_payments
    ∷ payments_index (codes "ix_payments_checkout_request_id") (codes "checkout_request_id" ∷ [])
    ∷ payments_index (codes "ix_payments_created_at") (codes "created_at" ∷ [])
    ∷ payments_index (codes "ix_payments_mpesa_receipt") (codes "mpesa_receipt" ∷ [])
    ∷ payments_index (codes "ix_payments_phone") (codes "phone" ∷ [])
    ∷ payments_index (codes "ix_payments_status") (codes "status" ∷ [])
    ∷ payments_index (codes "ix_payments_status_created_at")
        (codes "status" ∷ codes "created_at" ∷ [])
    ∷ []

unfoldable pub downgrade : List Operation
downgrade =
    drop_index (codes "ix_payments_status_created_at") (codes "payments")
    ∷ drop_index (codes "ix_payments_status") (codes "payments")
    ∷ drop_index (codes "ix_payments_phone") (codes "payments")
    ∷ drop_index (codes "ix_payments_mpesa_receipt") (codes "payments")
    ∷ drop_index (codes "ix_payments_created_at") (codes "payments")
    ∷ drop_index (codes "ix_payments_checkout_request_id") (codes "payments")
    ∷ drop_table (codes "payments")
    ∷ drop_index (codes "ix_audit_payment_id") (codes "payment_audit_log")
    ∷ drop_index (codes "ix_audit_event_type") (codes "payment_audit_log")
    ∷ drop_index (codes "ix_audit_created_at") (codes "payment_audit_log")
    ∷ drop_table (codes "payment_audit_log")
    ∷ []

-- `op` runs an operation after the other, and stops where one raises.
module _ (op : Ddl) where
  unfoldable pub perform : Operation → Exec op.Catalog (Unit {0})
  perform (create_table name t) = op.create_table name t
  perform (create_index name on columns) = op.create_index name on columns
  perform (drop_index name on) = op.drop_index name on
  perform (drop_table name) = op.drop_table name

  unfoldable pub perform_all : List Operation → Exec op.Catalog (Unit {0})
  perform_all [] = pure tt
  perform_all (o ∷ os) = perform o >> perform_all os
