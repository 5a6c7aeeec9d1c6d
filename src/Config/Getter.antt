-- ===== src/Config/Getter.antt =====
-- app/config.py, `get_settings`, and what app/main.py, `create_app`, makes of it. A module that has
-- `from app.config import get_settings` keeps the function that the name had when it was imported.
use daraja_payment_wrapper.Prelude.{
  Text, text_eq, text_eq_refl, ◌≡◌, refl, false, Option, none, some, inl, inr, if◌then◌else◌, arith,
}
use daraja_payment_wrapper.Errors.{Result, ok, err}
use daraja_payment_wrapper.Exec.{Exec, pure, Result-cases}
use daraja_payment_wrapper.Config.{Settings}

-- The cached function of app/config.py, or the cached lambda that returns what `create_app` was given.
pub data Getter : Type 0 where
  get_settings : Getter
  patched : Settings → Getter

pub record Process : Type 0 where
  -- what the cache of `get_settings` holds
  pub cache : Option Settings
  -- the attribute of app.config
  pub attribute : Getter
  -- the name in each module that has imported it
  pub imported : Text → Option Getter

abbrev pub import_into : Text → Process → Process
import_into name p = record p {
  imported = λ m. if text_eq name m then some p.attribute else p.imported m;
}

-- `read` is `Settings()`: what pydantic reads from the environment, or the error that it raises.
module _ (read : Result Settings) where
  abbrev pub read_into : Result Settings → Exec Process Settings
  read_into (ok s) p = (ok s, record p { cache = some s })
  read_into (err e) p = (err e, p)

  abbrev pub cached_or_read : Option Settings → Exec Process Settings
  cached_or_read (some s) = pure s
  cached_or_read none = read_into read

  unfoldable pub call : Getter → Exec Process Settings
  call get_settings p = cached_or_read p.cache p
  call (patched s) p = (ok s, p)

  -- `effective`: the settings that the application is made with. app.main has imported the cached
  -- function.
  unfoldable pub create_app : Option Settings → Exec Process Settings
  create_app none p = call get_settings p
  create_app (some s) p = (ok s, record p { cache = none; attribute = patched s })

  -- The settings that a module gets, which had imported the function before.
  abbrev pub settings_of : Getter → Process → Result Settings
  settings_of g p = (call g p).0

  fresh_read : (p : Process) → p.cache ≡ none → (call get_settings p).0 ≡ read
  unfolding call
  fresh_read p empty = elim (Result-cases read) [
    | inl (s, e) ↦ rw (empty) (ground (arith, e))
    | inr (x, e) ↦ rw (empty) (ground (arith, e))
  ]

  -- After `create_app` with settings of its own, the application is made with these, and so is every module
  -- that is imported later; but a module that had imported `get_settings` before gets what the environment
  -- says.
  pub create_app_overlooked :
      (s : Settings) (early late : Text) (p : Process)
      → p.imported early ≡ some get_settings
      → text_eq late early ≡ false
      → let (effective, p') = create_app (some s) p in
        let p'' = import_into late p' in
        (effective ≡ ok s)
        × ((g : Getter) → p''.imported late ≡ some g → settings_of g p'' ≡ ok s)
        × ((g : Getter) → p''.imported early ≡ some g → settings_of g p'' ≡ read)
  unfolding create_app call
  create_app_overlooked s early late p before differ = (
    refl,
    λ g is. ground (arith, text_eq_refl late),
    λ g is. ground (arith, fresh_read (import_into late (create_app (some s) p).1) refl, is),
  )
