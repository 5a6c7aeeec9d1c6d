-- ===== src/Daraja/Query.antt =====
-- app/daraja/query.py: `DarajaQueryClient`.
use daraja_payment_wrapper.Prelude.{
  Text, codes, text_eq, take, ◌≡◌, Bool, true, false, none, some, [], ◌∷◌, ◌++◌, arith,
  if◌then◌else◌,
}
use daraja_payment_wrapper.Prelude.Int.{ℤ}
use daraja_payment_wrapper.Errors.{Error, Result, ok, err, app, daraja_error, attribute_error}
use daraja_payment_wrapper.Exec.{Exec, ◌>>=◌}
use daraja_payment_wrapper.Json.{Value, null, int, str, Dict, get, get_or, lookup, get-lookup}
use daraja_payment_wrapper.Daraja.{Platform, Host, Tenacity}
use daraja_payment_wrapper.Daraja.Client.{Json, fields, other_value, post}

pub record QueryAcknowledgement : Type 0 where
  pub conversation_id : Value
  pub originator_conversation_id : Value
  pub response_code : Value
  pub response_description : Value

-- `response.get("ResponseCode") in ("o", None, "")`
unfoldable pub is_accepted : Value → Bool
is_accepted null = true
is_accepted (str s) = if text_eq s (codes "o") then true else text_eq s []
is_accepted _ = false

abbrev acknowledgement : Dict → QueryAcknowledgement
acknowledgement d = record {
  conversation_id = get_or (codes "ConversationID") (str []) d;
  originator_conversation_id = get_or (codes "OriginatorConversationID") (str []) d;
  response_code = get_or (codes "ResponseCode") (str (codes "0")) d;
  response_description = get_or (codes "ResponseDescription") (str []) d;
}

abbrev pub rejected : Value → Dict → Error
rejected code d = app (
    daraja_error (record {
      daraja_code = code;
      daraja_description = get_or (codes "ResponseDescription") (str (codes "unknown")) d;
      http_status = none;
    }))

unfoldable pub acknowledge : Json → Result QueryAcknowledgement
acknowledge (fields d) =
    if is_accepted (get (codes "ResponseCode") d)
    then ok (acknowledgement d)
    else err (rejected (get (codes "ResponseCode") d) d)
acknowledge other_value = err attribute_error

module _ (env : Platform) (tenacity : Tenacity (Host env)) where
  unfoldable pub send : Dict → Text → Exec (Host env) QueryAcknowledgement
  send payload path = post env tenacity path payload >>= λ response w. (acknowledge response, w)

  abbrev url : Text → Value
  url path = str (env.daraja_callback_base_url ++ codes "/api/v1/callbacks/query/" ++ path)

  pub query_transaction_status : Text → Text → Text → Text → Exec (Host env) QueryAcknowledgement
  query_transaction_status transaction_id identifier_type remarks occasion =
      send
        ((codes "Initiator", str env.daraja_b2c_initiator_name)
          ∷ (codes "SecurityCredential", str env.daraja_b2c_security_credential)
          ∷ (codes "TransactionID", str transaction_id)
          ∷ (codes "PartyA", str env.daraja_shortcode)
          ∷ (codes "IdentifierType", str identifier_type)
          ∷ (codes "ResultURL", url (codes "transaction-status/result"))
          ∷ (codes "QueueTimeOutURL", url (codes "transaction-status/timeout"))
          ∷ (codes "Remarks", str (take 100 remarks))
          ∷ (codes "Occasion", str (take 100 occasion))
          ∷ [])
        (codes "/mpesa/transactionstatus/v1/query")

  query_account_balance : Text → Text → Exec (Host env) QueryAcknowledgement
  query_account_balance identifier_type remarks =
      send
        ((codes "Initiator", str env.daraja_b2c_initiator_name)
          ∷ (codes "SecurityCredential", str env.daraja_b2c_security_credential)
          ∷ (codes "CommandID", str (codes "AccountBalance"))
          ∷ (codes "PartyA", str env.daraja_shortcode)
          ∷ (codes "IdentifierType", str identifier_type)
          ∷ (codes "ResultURL", url (codes "account-balance/result"))
          ∷ (codes "QueueTimeOutURL", url (codes "account-balance/timeout"))
          ∷ (codes "Remarks", str (take 100 remarks))
          ∷ [])
        (codes "/mpesa/accountbalance/v1/query")

  reverse_transaction : Text → ℤ → Text → Text → Text → Exec (Host env) QueryAcknowledgement
  reverse_transaction transaction_id amount receiver_shortcode remarks occasion =
      send
        ((codes "Initiator", str env.daraja_b2c_initiator_name)
          ∷ (codes "SecurityCredential", str env.daraja_b2c_security_credential)
          ∷ (codes "CommandID", str (codes "TransactionReversal"))
          ∷ (codes "TransactionID", str transaction_id)
          ∷ (codes "Amount", int amount)
          ∷ (codes "ReceiverParty", str receiver_shortcode)
          ∷ (codes "RecieverIdentifierType", str (codes "4"))
          ∷ (codes "ResultURL", url (codes "reversal/result"))
          ∷ (codes "QueueTimeOutURL", url (codes "reversal/timeout"))
          ∷ (codes "Remarks", str (take 100 remarks))
          ∷ (codes "Occasion", str (take 100 occasion))
          ∷ [])
        (codes "/mpesa/reversal/v1/request")

  -- A query whose response has the code "0", Daraja's code for success, raises a `DarajaError` with
  -- that code; a response without a code is acknowledged, with the code "0".
  pub send_rejects_success :
      (payload d : Dict) (path : Text) (w w' : Host env)
      → post env tenacity path payload w ≡ (ok (fields d), w')
      → (lookup (codes "ResponseCode") d ≡ some (str (codes "0"))
          → send payload path w ≡ (err (rejected (str (codes "0")) d), w'))
        × (lookup (codes "ResponseCode") d ≡ none
            → (a : QueryAcknowledgement) × (send payload path w ≡ (ok a, w'))
              × (a.response_code ≡ str (codes "0")))
  unfolding send acknowledge is_accepted
  send_rejects_success payload d path w w' answered = (
    λ code. ground (arith, answered, get-lookup (codes "ResponseCode") d),
    λ code. (
      acknowledgement d,
      ground (arith, answered, get-lookup (codes "ResponseCode") d),
      ground arith,
    ),
  )
