-- ===== src/Sql/Tests.antt =====
-- The theorems on the tables at an empty database and at a concrete request.
use daraja_payment_wrapper.Prelude.{
  Text, codes, ◌≡◌, refl, none, some, List, ◌++◌, ◌&&◌, true, false, Option,
}
use daraja_payment_wrapper.Prelude.Int.{pos}
use daraja_payment_wrapper.Errors.{ok}
use daraja_payment_wrapper.Payment.{Payment}
use daraja_payment_wrapper.Repository.{failed_values}
use daraja_payment_wrapper.Schemas.Phone.{
  is_decimal, is_separator, remove, unsigned, normalise_raw, check_msisdn, is_msisdn,
  normalise_phone,
}
use daraja_payment_wrapper.Schemas.Request.{
  validate, stripped, str_strip_whitespace, has_valid_fields, is_valid_amount, is_safe, with_phone,
}
use daraja_payment_wrapper.Service.Initiate.{new_payment}
use daraja_payment_wrapper.Service.Sample.{request}
use daraja_payment_wrapper.Sql.{Relation, index}
use daraja_payment_wrapper.Sql.Ddl.{is_table}
use daraja_payment_wrapper.Sql.Models.{payments, payment_relations, audit_relations}
use daraja_payment_wrapper.Sql.Ddl.Memory.{Catalog, memory}
use daraja_payment_wrapper.Sql.Migration.{perform_all, upgrade, downgrade}
use daraja_payment_wrapper.Sql.Migration.Undo.{downgrade-upgrade}
use daraja_payment_wrapper.Sql.Migration.Declared.{HoldsAll, is_declared, upgrade_declares}
use daraja_payment_wrapper.Sql.Rows.{coerced, rounded, takes, row_of, has_no_nul, is_uuid}
use daraja_payment_wrapper.Sql.Rows.Requested.{requested_taken}
use daraja_payment_wrapper.Sql.Rows.Updated.{amount_fits, updates_taken}

none_closed :
    (on : Text) (columns : List Text)
    → ◌≡◌ {A = Option Relation} none (some (index on columns))
    → is_table none ≡ true
none_closed on columns h = cc

abbrev empty_database : Catalog
empty_database = record {
  relations = λ i. none;
  index_table = λ i on columns h. none_closed on columns h;
}

downgrade-upgrade_example :
    (c' : Catalog) × (perform_all memory upgrade empty_database ≡ (ok tt, c'))
    × (c'' : Catalog) × (perform_all memory downgrade c' ≡ (ok tt, c''))
    × (c''.relations ≡ empty_database.relations)
downgrade-upgrade_example =
    downgrade-upgrade memory empty_database
      (refl, refl, refl, refl, refl, refl, refl, refl, refl, refl, refl, refl, refl, refl, refl)

upgrade_declares_example :
    (c' : Catalog) × (perform_all memory upgrade empty_database ≡ (ok tt, c'))
    × HoldsAll c'.relations (audit_relations ++ payment_relations)
    × ((i : Text)
        → is_declared i (audit_relations ++ payment_relations) ≡ false
        → c'.relations i ≡ none)
upgrade_declares_example =
    upgrade_declares memory empty_database
      (refl, refl, refl, refl, refl, refl, refl, refl, refl, refl, refl, refl, refl, refl, refl)

abbrev payment_id : Text
payment_id = codes "3f2b8c1a-9d4e-4f60-8a7b-0c1d2e3f4a5b"

request_valid : validate request ≡ ok request
unfolding validate stripped str_strip_whitespace has_valid_fields is_valid_amount is_safe with_phone
    normalise_phone is_separator remove unsigned normalise_raw check_msisdn is_msisdn is_decimal
request_valid = refl

payment_id-is_uuid : is_uuid payment_id ≡ true
unfolding is_uuid
payment_id-is_uuid = refl

requested_taken_example :
    takes payments (row_of (new_payment request payment_id 11))
    ≡ (has_no_nul request.transaction_desc && has_no_nul request.idempotency_key)
requested_taken_example =
    requested_taken request request payment_id 11 request_valid payment_id-is_uuid

abbrev payment : Payment
payment = new_payment request payment_id 11

payment_taken : takes payments (row_of payment) ≡ true
unfolding has_no_nul
payment_taken = requested_taken request request payment_id 11 request_valid payment_id-is_uuid

-- A result code that needs more than 32 bits is refused by the table.
wide_code_refused :
    takes payments (row_of (failed_values (codes "Failed") (pos 2147483648) 12 payment)) ≡ false
unfolding has_no_nul
wide_code_refused = (updates_taken payment payment_taken).2 (codes "Failed") (pos 2147483648) 12

-- An amount that is zero after rounding to four places is refused.
tiny_amount_refused : amount_fits (some (record { coefficient = pos 1; places = 5 })) ≡ false
unfolding coerced rounded
tiny_amount_refused = refl
