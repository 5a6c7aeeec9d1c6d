-- ===== src/Errors/ResultCodes.antt =====
-- app/exceptions.py, `DARAJA_RESULT_CODE_MAP` and `daraja_result_code_to_exception`.
use daraja_payment_wrapper.Prelude.{
  ℕ, Text, ◌≡◌, ◌↔◌, Bool, true, false, Option, none, some, List, [], ◌∷◌, arith, if◌then◌else◌,
}
use daraja_payment_wrapper.Prelude.Int.{ℤ, pos, int_eq, int_eq_iff, show_int}
use daraja_payment_wrapper.Json.{str}
use daraja_payment_wrapper.Errors.{AppError, daraja_error}

-- Each code with its `is_retryable` flag; the class is `DarajaError` in every row.
abbrev pub daraja_result_code_map : List (ℕ × Bool)
daraja_result_code_map =
    (0, false)
    ∷ (1, false)
    ∷ (17, false)
    ∷ (1001, true)
    ∷ (1019, false)
    ∷ (1025, true)
    ∷ (1032, false)
    ∷ (1037, true)
    ∷ (2001, false)
    ∷ (9999, true)
    ∷ []

-- `None` for success, and otherwise an error that carries the code and the description.
unfoldable pub daraja_result_code_to_exception : ℤ → Text → Option AppError
daraja_result_code_to_exception result_code result_desc =
    if int_eq result_code (pos 0)
    then none
    else some (
        daraja_error (record {
          daraja_code = str (show_int result_code);
          daraja_description = str result_desc;
          http_status = none;
        }))

-- A result code maps to no exception exactly when it is 0.
pub daraja_result_code_to_exception-eq-none :
    (code : ℤ) (desc : Text) → (daraja_result_code_to_exception code desc ≡ none) ↔ (code ≡ pos 0)
unfolding daraja_result_code_to_exception
daraja_result_code_to_exception-eq-none code desc = ground (arith, int_eq_iff code (pos 0))
