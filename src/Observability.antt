-- ===== src/Observability.antt =====
-- app/observability.py: the processors of a log event, and what is removed before Sentry. An event is a
-- dictionary; `lower` is Python's `str.lower`, and `is_word` the class `\w` of its patterns.
pub mod Redacts
pub mod Configured
pub mod Logged
pub mod Metrics
mod Tests
use daraja_payment_wrapper.Prelude.{
  ℕ, zero, suc, ◌-◌, Text, codes, text_eq, starts_with, length, take, drop, all, any, Bool, true,
  false, not, ◌&&◌, ◌||◌, Option, none, some, List, [], ◌∷◌, ◌++◌, leb, ◌==◌, if◌then◌else◌,
}
use daraja_payment_wrapper.Json.{Value, str, Dict, put, lookup}
use daraja_payment_wrapper.Schemas.Phone.{is_decimal}

-- `event_dict.setdefault(key, value)`
unfoldable pub setdefault : Text → Text → Dict → Dict
setdefault key value d = elim (lookup key d) [ none ↦ put key (str value) d | some _ ↦ d ]

unfoldable pub add_service_context : Text → Text → Dict → Dict
add_service_context service_name environment event_dict =
    setdefault (codes "environment") environment
      (setdefault (codes "service") service_name event_dict)

-- `phone[:4] + "****" + phone[-4:]`, for a match, which has four characters at least
abbrev pub mask_phone_number : Text → Text
mask_phone_number phone = take 4 phone ++ codes "****" ++ drop (length phone - 4) phone

abbrev pub sensitive_keys : List Text
sensitive_keys =
    codes "password" ∷ codes "secret" ∷ codes "access_token" ∷ codes "security_credential" ∷ []

abbrev pub is_sensitive : Text → Bool
is_sensitive key = any (text_eq key) sensitive_keys

abbrev pub redacted : Value
redacted = str (codes "***REDACTED***")

module _ (is_word : ℕ → Bool) where
  abbrev pub follows_word : Option ℕ → Bool
  follows_word none = false
  follows_word (some c) = is_word c

  -- `\b2547\d{8}\b}` at this place, after the character before it. A decimal digit is a word
  -- character and `}` is none, so the second `\b` always holds.
  unfoldable pub is_phone_at : Option ℕ → Text → Bool
  is_phone_at before s =
      not (follows_word before)
      && starts_with s (codes "2547")
      && all is_decimal (take 8 (drop 4 s))
      && starts_with (drop 12 s) (codes "}")

  -- `PHONE_PATTERN.sub(_mask_phone_number, s)`: the number counts what is left of the last match.
  unfoldable pub sub_phone : ℕ → Option ℕ → Text → Text
  sub_phone skip before [] = []
  sub_phone (suc skip) before (c ∷ s) = sub_phone skip (some c) s
  sub_phone zero before (c ∷ s) =
      let rest = sub_phone zero (some c) s in
      let after = sub_phone 12 (some c) s in
      if is_phone_at before (c ∷ s) then mask_phone_number (take 13 (c ∷ s)) ++ after else c ∷ rest

  module _ (lower : Text → Text) where
    unfoldable pub clean : Text → Value → Value
    clean key (str s) = if is_sensitive (lower key) then redacted else str (sub_phone zero none s)
    clean key v = if is_sensitive (lower key) then redacted else v

    -- The keys stay, each with its new value.
    unfoldable pub strip_pii_from_logs : Dict → Dict
    strip_pii_from_logs [] = []
    strip_pii_from_logs ((k, v) ∷ d) = (k, clean k v) ∷ strip_pii_from_logs d

-- `headers.pop(key, None)`
unfoldable pub pop : Text → Dict → Dict
pop key [] = []
pop key ((k, v) ∷ d) = if text_eq k key then pop key d else (k, v) ∷ pop key d

-- The names and their `str.title()`.
abbrev pub sensitive_headers : List Text
sensitive_headers =
    codes "authorization"
    ∷ codes "Authorization"
    ∷ codes "x-api-key"
    ∷ codes "X-Api-Key"
    ∷ codes "cookie"
    ∷ codes "Cookie"
    ∷ []

unfoldable pub pop_all : List Text → Dict → Dict
pop_all [] d = d
pop_all (k ∷ ks) d = pop_all ks (pop k d)

-- `_sentry_before_send` on the headers of the event's request.
unfoldable pub sentry_before_send : Dict → Dict
sentry_before_send headers = pop_all sensitive_headers headers
