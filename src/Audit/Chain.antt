-- ===== src/Audit/Chain.antt =====
-- What the checksum chain promises.
use mathlib.Core.List.{append_cancel_left, append_cancel_right}
use daraja_payment_wrapper.Prelude.{
  Text, codes, text_eq_iff, ◌≡◌, ◌≢◌, sym, ◌∙◌, true, false, Option, some, List, [], ◌∷◌, ◌++◌,
  arith, inl, inr, Bool-cases,
}
use daraja_payment_wrapper.Audit.{
  PaymentAuditLog, text_or_empty, compute_checksum, is_intact, verify_from,
}

module _ (sha256 : Text → Text) where
  input_cancel :
      (a b p q r : Text)
      → a ++ (codes "|" ++ (b ++ (codes "|" ++ (p ++ (codes "|" ++ r)))))
        ≡ a ++ (codes "|" ++ (b ++ (codes "|" ++ (q ++ (codes "|" ++ r)))))
      → p ≡ q
  input_cancel a b p q r h =
      let h1 = append_cancel_left a _ _ h in
      let h2 = append_cancel_left (codes "|") _ _ h1 in
      let h3 = append_cancel_left b _ _ h2 in
      let h4 = append_cancel_left (codes "|") _ _ h3 in append_cancel_right p q (codes "|" ++ r) h4

  -- If SHA-256 has no collisions, a chain that was intact is found broken when the payload of one of
  -- its entries has been changed.
  pub tampering_found :
      ((a b : Text) → sha256 a ≡ sha256 b → a ≡ b)
      → (previous : Option Text) (before after : List PaymentAuditLog) (entry : PaymentAuditLog)
        (payload_json : Text)
      → verify_from sha256 previous (before ++ entry ∷ after) ≡ true
      → payload_json ≢ entry.payload_json
      → verify_from sha256 previous (before ++ record entry { payload_json = payload_json } ∷ after)
        ≡ false
  unfolding verify_from compute_checksum
  tampering_found no_collision previous [] after entry payload_json h changed =
      let forged : PaymentAuditLog = record entry { payload_json = payload_json } in
      elim (Bool-cases (is_intact sha256 previous forged)) [
        | inr broken ↦ ground arith
        | inl passes ↦
            let genuine : is_intact sha256 previous entry ≡ true = ground arith in
            let same = sym ((text_eq_iff _ _).0 passes) ∙ (text_eq_iff _ _).0 genuine in
            absurd (
              changed (
                input_cancel entry.payment_id entry.event_type payload_json entry.payload_json
                  (text_or_empty previous) (no_collision _ _ same)))
      ]
  tampering_found no_collision previous (x ∷ before) after entry payload_json h changed =
      let rest =
        tampering_found no_collision (some x.checksum) before after entry payload_json
          (ground arith) changed in
      ground arith
