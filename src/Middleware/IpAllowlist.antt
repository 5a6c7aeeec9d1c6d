-- ===== src/Middleware/IpAllowlist.antt =====
-- app/middleware/ip_allowlist.py: `SafaricomIPAllowlistMiddleware`. `ip_address` is Python's: it
-- raises `ValueError` for a text that is no address.
use daraja_payment_wrapper.Prelude.{
  Text, codes, starts_with, any, ◌≡◌, Bool, true, false, not, Option, none, some, List, [], ◌∷◌,
  ◌++◌, inl, inr, arith, if◌then◌else◌, Option-cases,
}
use daraja_payment_wrapper.Errors.{Error, Result, ok, err, value_error, address_value_error}
use daraja_payment_wrapper.Schemas.Request.{strip}
use daraja_payment_wrapper.Middleware.{Request, Verdict, passes, answers, first_part}

-- `except AddressValueError`, a subclass of `ValueError`
abbrev is_address_value_error : Error → Bool
is_address_value_error address_value_error = true
is_address_value_error _ = false

abbrev host_or_empty : Option Text → Text
host_or_empty none = []
host_or_empty (some host) = host

abbrev nonempty_or : Text → Text → Text
nonempty_or [] default = default
nonempty_or (c ∷ s) default = c ∷ s

unfoldable pub extract_client_ip : Request → Text
extract_client_ip request = elim request.x_forwarded_for [
  | none ↦ host_or_empty request.client_host
  | some xff ↦ nonempty_or (strip (first_part xff)) (host_or_empty request.client_host)
]

module _ {Ip : Type 0} (ip_address : Text → Option Ip) (same : Ip → Ip → Bool) where
  abbrev parse_ip : Text → Result Ip
  parse_ip s = elim (ip_address s) [ none ↦ err value_error | some ip ↦ ok ip ]

  -- `_parse_ips`: an `AddressValueError` is skipped
  unfoldable pub parse_ips : List Text → Result (List Ip)
  parse_ips [] = ok []
  parse_ips (s ∷ raw) = elim (parse_ip s) [
    | ok ip ↦ elim (parse_ips raw) [ ok parsed ↦ ok (ip ∷ parsed) | err e ↦ err e ]
    | err e ↦ if is_address_value_error e then parse_ips raw else err e
  ]

  unfoldable pub is_allowed : List Ip → Text → Result Bool
  is_allowed allowed s = elim (parse_ip s) [
    | ok ip ↦ ok (any (same ip) allowed)
    | err e ↦ if is_address_value_error e then ok false else err e
  ]

  abbrev verdict_of : Result Bool → Result Verdict
  verdict_of (ok true) = ok passes
  verdict_of (ok false) = ok (answers 403)
  verdict_of (err e) = err e

  unfoldable pub dispatch : (trust : Bool) → List Ip → Request → Result Verdict
  dispatch trust allowed request =
      if not (starts_with request.path (codes "/api/v1/callback/"))
      then ok passes
      else if trust
      then ok passes
      else verdict_of (is_allowed allowed (extract_client_ip request))

  -- A callback goes on, outside the sandbox, exactly when the client's text is an address on the
  -- list; an address off the list is answered with 403, and a text that is no address raises
  -- `ValueError` instead of being refused.
  pub dispatch_guards_callbacks :
      (allowed : List Ip) (request : Request)
      → starts_with request.path (codes "/api/v1/callback/") ≡ true
      → dispatch false allowed request ≡ elim (ip_address (extract_client_ip request)) [
        | none ↦ err value_error
        | some ip ↦ ok (if any (same ip) allowed then passes else answers 403)
      ]
  unfolding dispatch is_allowed
  dispatch_guards_callbacks allowed request callback = ground arith

  -- The list of the settings is read at the start: one text that is no address stops it with a
  -- `ValueError`.
  pub parse_ips_raises :
      (before after : List Text) (bad : Text)
      → ip_address bad ≡ none
      → parse_ips (before ++ bad ∷ after) ≡ err value_error
  unfolding parse_ips
  parse_ips_raises [] after bad h = ground (arith, h)
  parse_ips_raises (s ∷ before) after bad h =
      let raised = parse_ips_raises before after bad h in
      elim (Option-cases (ip_address s)) [
        | inl e ↦ ground (arith, e)
        | inr (ip, e) ↦ ground (arith, e, raised)
      ]
