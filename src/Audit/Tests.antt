-- ===== src/Audit/Tests.antt =====
-- The theorems on app/models/audit.py at a concrete history, with the identity for SHA-256.
use daraja_payment_wrapper.Prelude.{Text, codes, ◌≡◌, refl, true, false, none, List, [], ◌∷◌, ◌++◌}
use daraja_payment_wrapper.Json.{str, Dict}
use daraja_payment_wrapper.Audit.{
  PaymentAuditLog, is_sensitive, sanitise, compute_checksum, last_checksum, new_entry, append,
  verify_from,
}
use daraja_payment_wrapper.Audit.Chain.{tampering_found}

abbrev plain : Text → Text
plain t = t

abbrev keys : Dict → Text
keys [] = []
keys ((k, v) ∷ d) = k ++ keys d

abbrev payload : Dict
payload = (codes "token", str (codes "abc")) ∷ (codes "phone", str (codes "254712345678")) ∷ []

abbrev history : List PaymentAuditLog
history = append plain keys [] (codes "id-1") (codes "INITIATED") (codes "api") payload none none

abbrev entry : PaymentAuditLog
entry = new_entry plain keys [] (codes "id-1") (codes "INITIATED") (codes "api") payload none none

entry_intact : verify_from plain none ([] ++ entry ∷ []) ≡ true
unfolding verify_from new_entry compute_checksum last_checksum sanitise is_sensitive
entry_intact = refl

tampering_found_example :
    verify_from plain none ([] ++ record entry { payload_json = codes "x" } ∷ []) ≡ false
unfolding new_entry sanitise is_sensitive
tampering_found_example =
    tampering_found plain (λ a b e. e) none [] [] entry (codes "x") entry_intact (λ h. cc)

token_sensitive : is_sensitive (codes "token") ≡ true
unfolding is_sensitive
token_sensitive = refl
