-- ===== src/Service/Sample.antt =====
-- A concrete environment for app/services/stk.py: servers in memory, a Daraja client that accepts,
-- and one that refuses.
pub mod Json
use daraja_payment_wrapper.Prelude.{
  ℕ, suc, ◌+◌, Text, codes, show, Option, none, some, [], ◌∷◌, ◌++◌, Bool, true, text_eq, ◌≡◌, refl,
}
use daraja_payment_wrapper.Prelude.Int.{pos}
use daraja_payment_wrapper.Errors.{ok, err, app, daraja_error}
use daraja_payment_wrapper.Payment.{Decimal, Payment, PaymentStatus, stk_push, pending}
use daraja_payment_wrapper.Redis.Memory as Memory
use daraja_payment_wrapper.Redis.Memory.{Server, empty_server}
use daraja_payment_wrapper.Database.Memory as Rows
use daraja_payment_wrapper.Database.Memory.{Tables}
use daraja_payment_wrapper.Schemas.{StkPushInitiateRequest}
use daraja_payment_wrapper.Schemas.Callback.{CallbackMetadataItem, StkCallbackBody}
use daraja_payment_wrapper.Json.{str, int, null}
use daraja_payment_wrapper.Daraja.Stk.{StkInitiationResult}
use daraja_payment_wrapper.Service.{Environment, World, Initiator}
use daraja_payment_wrapper.Service.Sample.Json.{dump, load, dump-ne-nil, load-dump}

abbrev pub env : Environment
env = record {
  redis = Memory.memory;
  database = Rows.memory;
  Daraja = ℕ;
  uuid4 = λ n. codes "id-" ++ show n;
  strptime = λ t. none;
  decimal = λ t. none;
  idempotency_ttl_seconds = 86400;
  stk_lock_ttl_seconds = 30;
  dump_json = dump;
  validate_json = load;
  dump_json-ne-nil = dump-ne-nil;
  validate_json-dump_json = load-dump;
}

abbrev pub result : StkInitiationResult
result = record {
  checkout_request_id = codes "ws_CO_1";
  merchant_request_id = codes "29115-1";
  response_code = codes "0";
  response_description = codes "Success";
  customer_message = codes "Success. Request accepted for processing";
}

-- The client counts its requests.
abbrev pub accepting : Initiator env
accepting a w = (ok result, record w { daraja = w.daraja + 1 })

abbrev pub rejecting : Initiator env
rejecting a w = (
  err (
      app (
        daraja_error (record {
          daraja_code = str (codes "1");
          daraja_description = null;
          http_status = none;
        }))),
  record w { daraja = w.daraja + 1 },
)

abbrev pub shillings_100 : Decimal
shillings_100 = record { coefficient = pos 100; places = 0 }

abbrev pub request : StkPushInitiateRequest
request = record {
  phone_number = codes "254712345678";
  amount = shillings_100;
  account_reference = codes "INV-1";
  transaction_desc = codes "Rent";
  idempotency_key = codes "order-00001";
  transaction_type = codes "CustomerPayBillOnline";
}

abbrev pub payment : Payment
payment = record {
  id = codes "id-7";
  payment_type = stk_push;
  status = pending;
  phone = request.phone_number;
  amount = request.amount;
  account_reference = request.account_reference;
  transaction_desc = request.transaction_desc;
  idempotency_key = request.idempotency_key;
  checkout_request_id = some result.checkout_request_id;
  merchant_request_id = some result.merchant_request_id;
  mpesa_receipt = none;
  amount_paid = none;
  mpesa_transaction_date = none;
  failure_reason = none;
  result_code = none;
  created_at = 10;
  updated_at = 10;
}

abbrev pub server : (Text → Option Text) → Server
server f = record { up = true; entries = f }

-- Nothing has happened yet.
abbrev pub fresh : World env
fresh = record {
  redis = server (λ k. none);
  db = record { up = true; clock = 11; rows = []; saved = [] };
  daraja = 0;
  draws = 0;
}

-- The payment waits for its callback.
abbrev pub waiting : World env
waiting = record fresh {
  db = record { up = true; clock = 12; rows = payment ∷ []; saved = payment ∷ [] };
}

abbrev pub callback : StkCallbackBody
callback = record {
  merchant_request_id = result.merchant_request_id;
  checkout_request_id = result.checkout_request_id;
  result_code = pos 0;
  result_desc = codes "The service request is processed successfully.";
  callback_metadata = some (
      record { name = codes "MpesaReceiptNumber"; value = str (codes "NLJ7RT61SV") }
      ∷ record { name = codes "Amount"; value = int (pos 100) }
      ∷ []);
}
