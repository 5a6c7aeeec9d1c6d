-- ===== src/Audit.antt =====
-- app/models/audit.py: the checksum chain of the audit log. The entries of one payment are a list in
-- the order of `created_at`, whose values are taken to differ.
pub mod Chain
pub mod Sanitise
mod Tests
use daraja_payment_wrapper.Prelude.{
  ℕ, Text, codes, text_eq, starts_with, length, take, drop, any, ◌-◌, ◌==◌, ◌&&◌, Bool, true, false,
  Option, none, some, List, [], ◌∷◌, ◌++◌, if◌then◌else◌,
}
use daraja_payment_wrapper.Json.{Value, null, int, float, str, other, Dict}

pub record PaymentAuditLog : Type 0 where
  pub payment_id : Text
  pub event_type : Text
  pub actor : Text
  pub payload_json : Text
  pub ip_address : Option Text
  pub request_id : Option Text
  pub checksum : Text
  pub previous_checksum : Option Text

abbrev sensitive_keys : List Text
sensitive_keys =
    codes "SecurityCredential"
    ∷ codes "Password"
    ∷ codes "password"
    ∷ codes "access_token"
    ∷ codes "token"
    ∷ codes "secret"
    ∷ []

unfoldable pub is_sensitive : Text → Bool
is_sensitive k = any (text_eq k) sensitive_keys

-- `v[:4] + "****" + v[-4:]` of a text of twelve characters that begins with 254
abbrev mask : Text → Text
mask v =
    if length v == 12 && starts_with v (codes "254")
    then take 4 v ++ codes "****" ++ drop (length v - 4) v
    else v

abbrev mask_value : Value → Value
mask_value (str v) = str (mask v)
mask_value v = v

unfoldable pub sanitise : Dict → Dict
sanitise [] = []
sanitise ((k, v) ∷ payload) =
    (k, if is_sensitive k then str (codes "***REDACTED***") else mask_value v) ∷ sanitise payload

abbrev pub text_or_empty : Option Text → Text
text_or_empty none = []
text_or_empty (some s) = s

-- The checksum of the latest entry.
unfoldable pub last_checksum : Option Text → List PaymentAuditLog → Option Text
last_checksum previous [] = previous
last_checksum previous (entry ∷ entries) = last_checksum (some entry.checksum) entries

module _ (sha256 : Text → Text) where
  unfoldable pub compute_checksum : Text → Text → Text → Option Text → Text
  compute_checksum payment_id event_type payload_json previous_checksum = sha256 (
      payment_id
      ++ (codes "|"
          ++ (event_type
              ++ (codes "|" ++ (payload_json ++ (codes "|" ++ text_or_empty previous_checksum))))))

  -- `dumps` is `json.dumps` with sorted keys.
  unfoldable pub new_entry :
      (Dict → Text)
      → List PaymentAuditLog
      → Text
      → Text
      → Text
      → Dict
      → Option Text
      → Option Text
      → PaymentAuditLog
  new_entry dumps history payment_id event_type actor payload ip_address request_id =
      let previous = last_checksum none history in
      let payload_json = dumps (sanitise payload) in
      record {
        payment_id = payment_id;
        event_type = event_type;
        actor = actor;
        payload_json = payload_json;
        ip_address = ip_address;
        request_id = request_id;
        checksum = compute_checksum payment_id event_type payload_json previous;
        previous_checksum = previous;
      }

  unfoldable pub append :
      (Dict → Text)
      → List PaymentAuditLog
      → Text
      → Text
      → Text
      → Dict
      → Option Text
      → Option Text
      → List PaymentAuditLog
  append dumps history payment_id event_type actor payload ip_address request_id =
      history
      ++ new_entry dumps history payment_id event_type actor payload ip_address request_id ∷ []

  abbrev pub is_intact : Option Text → PaymentAuditLog → Bool
  is_intact previous entry =
      text_eq entry.checksum
        (compute_checksum entry.payment_id entry.event_type entry.payload_json previous)

  unfoldable pub verify_from : Option Text → List PaymentAuditLog → Bool
  verify_from previous [] = true
  verify_from previous (entry ∷ entries) =
      if is_intact previous entry then verify_from (some entry.checksum) entries else false

  unfoldable pub verify_chain_intergrity : List PaymentAuditLog → Bool
  verify_chain_intergrity entries = verify_from none entries
