-- ===== src/Config/Tests.antt =====
-- The theorems on app/config.py at concrete settings.
use daraja_payment_wrapper.Prelude.{
  codes, ◌≡◌, refl, true, none, some, [], ◌∷◌, show, text_eq, if◌then◌else◌,
}
use daraja_payment_wrapper.Prelude.Int.{show_int}
use daraja_payment_wrapper.Errors.{ok, err, value_error}
use daraja_payment_wrapper.Schemas.Phone.{is_decimal, is_space}
use daraja_payment_wrapper.Schemas.Request.{strip}
use daraja_payment_wrapper.Config.Fields.{contains, strip_trailing_slash, split_comma}
use daraja_payment_wrapper.Config.{
  Settings, has_valid_bounds, fix_asyncpg_scheme, must_use_asyncpg, must_be_https_in_prod,
  shortcode_must_be_numeric, lacks_database_url, built_url, build_database_url, prod_safety_checks,
  validate_fields, validate, stripped, parsed_api_keys,
}
use daraja_payment_wrapper.Config.Getter.{
  Getter, get_settings, patched, Process, import_into, settings_of, create_app,
  create_app_overlooked,
}
use daraja_payment_wrapper.Config.Sample.{given}
use daraja_payment_wrapper.Config.Safe.{IsSafe, validate-IsSafe}
use daraja_payment_wrapper.Config.Keys.{holds, join_comma, parsed_api_keys-join_comma}

abbrev accepted : Settings
accepted = record given {
  daraja_base_url = codes "https://sandbox.safaricom.co.ke";
  daraja_callback_base_url = codes "https://pay.example.com";
  database_url = some (codes "postgresql+asyncpg://pay:pw@db:5432/payments");
}

given-accepted : validate given ≡ ok accepted
unfolding validate validate_fields has_valid_bounds must_be_https_in_prod shortcode_must_be_numeric
    must_use_asyncpg fix_asyncpg_scheme build_database_url lacks_database_url built_url
    prod_safety_checks contains strip_trailing_slash show_int show is_decimal
given-accepted = refl

-- Off the sandbox the allowlist may not be off.
production_refused :
    validate (record given { daraja_base_url = codes "https://api.safaricom.co.ke" })
    ≡ err value_error
unfolding validate validate_fields has_valid_bounds must_be_https_in_prod shortcode_must_be_numeric
    must_use_asyncpg fix_asyncpg_scheme build_database_url lacks_database_url built_url
    prod_safety_checks contains strip_trailing_slash show_int show is_decimal
production_refused = refl

validate-IsSafe_example : IsSafe accepted
validate-IsSafe_example = validate-IsSafe given accepted given-accepted

parsed : parsed_api_keys given.internal_api_keys ≡ codes "key-abc123" ∷ codes "key-xyz789" ∷ []
unfolding parsed_api_keys stripped strip split_comma is_space
parsed = refl

abc_trimmed : strip (codes "key-abc123") ≡ codes "key-abc123"
unfolding strip is_space
abc_trimmed = refl

xyz_trimmed : strip (codes "key-xyz789") ≡ codes "key-xyz789"
unfolding strip is_space
xyz_trimmed = refl

parsed_api_keys-join_comma_example :
    holds
      (codes "key-xyz789")
      (parsed_api_keys (join_comma (codes "key-abc123" ∷ codes "key-xyz789" ∷ [])))
    ≡ true
parsed_api_keys-join_comma_example =
    parsed_api_keys-join_comma (codes "key-abc123" ∷ codes "key-xyz789" ∷ [])
      (
        record { nonempty = λ h. cc; one_key = refl; trimmed = abc_trimmed },
        (record { nonempty = λ h. cc; one_key = refl; trimmed = xyz_trimmed }, tt),
      )
      (codes "key-xyz789")

-- app.dependencies has imported `get_settings`.
abbrev process : Process
process = record {
  cache = none;
  attribute = get_settings;
  imported = λ m. if text_eq m (codes "app.dependencies") then some get_settings else none;
}

abbrev after_patch : Process
after_patch = import_into (codes "app.routes.stk") (record process { attribute = patched accepted })

create_app_overlooked_example :
    ((create_app (ok given) (some accepted) process).0 ≡ ok accepted)
    × ((g : Getter)
        → after_patch.imported (codes "app.routes.stk") ≡ some g
        → settings_of (ok given) g after_patch ≡ ok accepted)
    × ((g : Getter)
        → after_patch.imported (codes "app.dependencies") ≡ some g
        → settings_of (ok given) g after_patch ≡ ok given)
unfolding create_app
create_app_overlooked_example =
    create_app_overlooked (ok given) accepted (codes "app.dependencies") (codes "app.routes.stk")
      process refl refl
