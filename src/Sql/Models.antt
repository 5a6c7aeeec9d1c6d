-- ===== src/Sql/Models.antt =====
-- app/models/payment.py and app/models/audit.py: the tables and indexes that the two classes declare.
use daraja_payment_wrapper.Prelude.{
  Text, codes, Bool, true, false, Option, none, some, List, [], ◌∷◌, if◌then◌else◌,
}
use daraja_payment_wrapper.Sql.{
  ColumnType, sql_uuid, sql_text, sql_integer, sql_datetime, sql_string, sql_numeric, Column,
  is_positive, is_null_or_positive, CheckConstraint, Table, Relation, table, index,
}

-- `mapped_column`
pub record MappedColumn : Type 0 where
  pub name : Text
  pub type : ColumnType
  pub nullable : Bool
  pub server_default : Option Text
  pub primary_key : Bool
  pub unique : Bool

abbrev column : Text → ColumnType → MappedColumn
column name type = record {
  name = name;
  type = type;
  nullable = false;
  server_default = none;
  primary_key = false;
  unique = false;
}

abbrev nullable : MappedColumn → MappedColumn
nullable c = record c { nullable = true }

abbrev unique : MappedColumn → MappedColumn
unique c = record c { unique = true }

-- `func.now()` and `text(...)`
abbrev with_default : Text → MappedColumn → MappedColumn
with_default expression c = record c { server_default = some expression }

abbrev primary_key : MappedColumn → MappedColumn
primary_key c = record c { primary_key = true }

abbrev names_where : (MappedColumn → Bool) → List MappedColumn → List Text
names_where test [] = []
names_where test (c ∷ cs) = if test c then c.name ∷ names_where test cs else names_where test cs

abbrev columns_of : List MappedColumn → List Column
columns_of [] = []
columns_of (c ∷ cs) =
    record {
      name = c.name;
      type = c.type;
      nullable = c.nullable;
      server_default = c.server_default;
    }
    ∷ columns_of cs

-- SQLAlchemy's table of the class: its columns, and its constraints from the columns and the
-- arguments of the table.
abbrev table_of : List MappedColumn → List CheckConstraint → Table
table_of cs checks = record {
  columns = columns_of cs;
  primary_key = names_where (λ (c : MappedColumn). c.primary_key) cs;
  uniques = names_where (λ (c : MappedColumn). c.unique) cs;
  checks = checks;
}

abbrev id_column : MappedColumn
id_column = primary_key (with_default (codes "gen_random_uuid()") (column (codes "id") sql_uuid))

-- `Payment`
abbrev pub payments : Table
payments =
    table_of
      (id_column
        ∷ column (codes "payment_type") (sql_string 20)
        ∷ column (codes "status") (sql_string 20)
        ∷ column (codes "phone") (sql_string 15)
        ∷ column (codes "amount") (sql_numeric 19 4)
        ∷ column (codes "account_reference") (sql_string 12)
        ∷ column (codes "transaction_desc") (sql_string 13)
        ∷ unique (column (codes "idempotency_key") (sql_string 64))
        ∷ unique (nullable (column (codes "checkout_request_id") (sql_string 100)))
        ∷ nullable (column (codes "merchant_request_id") (sql_string 100))
        ∷ nullable (column (codes "mpesa_receipt") (sql_string 20))
        ∷ nullable (column (codes "amount_paid") (sql_numeric 19 4))
        ∷ nullable (column (codes "mpesa_transaction_date") sql_datetime)
        ∷ nullable (column (codes "failure_reason") sql_text)
        ∷ nullable (column (codes "result_code") sql_integer)
        ∷ with_default (codes "now()") (column (codes "created_at") sql_datetime)
        ∷ with_default (codes "now()") (column (codes "updated_at") sql_datetime)
        ∷ [])
      (record {
        name = codes "ck_payments_amount_positive";
        condition = is_positive (codes "amount");
      }
        ∷ record {
          name = codes "ck_payments_amount_paid_positive";
          condition = is_null_or_positive (codes "amount_paid");
        }
        ∷ [])

-- `PaymentAuditLog`
abbrev pub payment_audit_log : Table
payment_audit_log =
    table_of
      (id_column
        ∷ column (codes "payment_id") sql_uuid
        ∷ column (codes "event_type") (sql_string 50)
        ∷ column (codes "actor") (sql_string 100)
        ∷ nullable (column (codes "payload_json") sql_text)
        ∷ nullable (column (codes "ip_address") (sql_string 45))
        ∷ nullable (column (codes "request_id") (sql_string 64))
        ∷ column (codes "checksum") (sql_string 64)
        ∷ nullable (column (codes "previous_checksum") (sql_string 64))
        ∷ with_default (codes "now()") (column (codes "created_at") sql_datetime)
        ∷ [])
      []

abbrev on_payments : List Text → Relation
on_payments columns = index (codes "payments") columns

abbrev on_audit : List Text → Relation
on_audit columns = index (codes "payment_audit_log") columns

-- What `Base.metadata` holds once both modules are imported, in the order of the source.
abbrev pub payment_relations : List (Text × Relation)
payment_relations =
    (codes "payments", table payments)
    ∷ (codes "ix_payments_checkout_request_id", on_payments (codes "checkout_request_id" ∷ []))
    ∷ (codes "ix_payments_status", on_payments (codes "status" ∷ []))
    ∷ (codes "ix_payments_phone", on_payments (codes "phone" ∷ []))
    ∷ (codes "ix_payments_mpesa_receipt", on_payments (codes "mpesa_receipt" ∷ []))
    ∷ (codes "ix_payments_created_at", on_payments (codes "created_at" ∷ []))
    ∷ (
      codes "ix_payments_status_created_at",
      on_payments (codes "status" ∷ codes "created_at" ∷ []),
    )
    ∷ []

abbrev pub audit_relations : List (Text × Relation)
audit_relations =
    (codes "payment_audit_log", table payment_audit_log)
    ∷ (codes "ix_audit_payment_id", on_audit (codes "payment_id" ∷ []))
    ∷ (codes "ix_audit_event_type", on_audit (codes "event_type" ∷ []))
    ∷ (codes "ix_audit_created_at", on_audit (codes "created_at" ∷ []))
    ∷ []
