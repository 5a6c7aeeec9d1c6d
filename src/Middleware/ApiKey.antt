-- ===== src/Middleware/ApiKey.antt =====
-- app/middleware/api_key.py: `APIKeyMiddleware`.
use daraja_payment_wrapper.Prelude.{
  Text, codes, text_eq, starts_with, any, all, ◌≡◌, refl, Bool, true, false, ◌&&◌, Option, none,
  some, List, [], ◌∷◌, ◌++◌, ltb, arith, if◌then◌else◌,
}
use daraja_payment_wrapper.Errors.{Result, ok, err, value_error, type_error}
use daraja_payment_wrapper.Middleware.{Request, Verdict, passes, answers}

abbrev pub exempt_prefixes : List Text
exempt_prefixes =
    codes "/api/v1/callback/"
    ∷ codes "/docs"
    ∷ codes "/openapi.json"
    ∷ codes "/redoc"
    ∷ codes "/health"
    ∷ codes "/"
    ∷ codes "/favicon.ico"
    ∷ codes "/ready"
    ∷ []

-- `__init__`: no valid key is refused.
unfoldable pub new_middleware : List Text → Result (List Text)
new_middleware [] = err value_error
new_middleware (k ∷ keys) = ok (k ∷ keys)

-- `secrets.compare_digest`, which takes only ASCII texts
abbrev pub is_ascii : Text → Bool
is_ascii = all (λ c. ltb c 128)

abbrev compare_digest : Text → Text → Result Bool
compare_digest a b = if is_ascii a && is_ascii b then ok (text_eq a b) else err type_error

-- `any(compare_digest(provided_key, valid) for valid in valid_keys)`
unfoldable pub is_valid : Text → List Text → Result Bool
is_valid provided [] = ok false
is_valid provided (k ∷ keys) = elim (compare_digest provided k) [
  | err e ↦ err e
  | ok true ↦ ok true
  | ok false ↦ is_valid provided keys
]

abbrev pub text_or_empty : Option Text → Text
text_or_empty none = []
text_or_empty (some s) = s

abbrev verdict_of : Result Bool → Result Verdict
verdict_of (err e) = err e
verdict_of (ok true) = ok passes
verdict_of (ok false) = ok (answers 401)

unfoldable pub dispatch : List Text → Request → Result Verdict
dispatch valid_keys request =
    if any (λ p. starts_with request.path p) exempt_prefixes
    then ok passes
    else verdict_of (is_valid (text_or_empty request.x_api_key) valid_keys)

any-append :
    {A : Type 0} (p : A → Bool) (xs : List A) (x : A) (ys : List A)
    → p x ≡ true
    → any p (xs ++ x ∷ ys) ≡ true
any-append p [] x ys h = ground arith
any-append p (y ∷ xs) x ys h = ground (arith, any-append p xs x ys h)

-- Every path that begins with a slash, as the path of an HTTP request does, passes without a key,
-- since `/` is among the exempt prefixes.
pub dispatch_exempts_all :
    (valid_keys : List Text) (request : Request)
    → starts_with request.path (codes "/") ≡ true
    → dispatch valid_keys request ≡ ok passes
unfolding dispatch
dispatch_exempts_all valid_keys request h =
    let exempt : any (λ p. starts_with request.path p) exempt_prefixes ≡ true =
      any-append (λ p. starts_with request.path p)
        (codes "/api/v1/callback/"
          ∷ codes "/docs"
          ∷ codes "/openapi.json"
          ∷ codes "/redoc"
          ∷ codes "/health"
          ∷ [])
        (codes "/") (codes "/favicon.ico" ∷ codes "/ready" ∷ []) h in
    rw exempt refl

-- The provided key is among the valid ones.
abbrev pub has_key : Text → List Text → Bool
has_key provided = any (λ k. text_eq provided k)

is_valid_ascii :
    (provided : Text) (keys : List Text)
    → is_ascii provided ≡ true
    → all is_ascii keys ≡ true
    → is_valid provided keys ≡ ok (has_key provided keys)
unfolding is_valid
is_valid_ascii provided [] h k = refl
is_valid_ascii provided (x ∷ keys) h k = ground (arith, is_valid_ascii provided keys h)

-- On a path that is not exempt, and with ASCII keys, a request passes exactly when its key is one of
-- the valid keys, and is answered with 401 otherwise.
pub dispatch_checks_key :
    (valid_keys : List Text) (request : Request) (key : Text)
    → any (λ p. starts_with request.path p) exempt_prefixes ≡ false
    → request.x_api_key ≡ some key
    → is_ascii key ≡ true
    → all is_ascii valid_keys ≡ true
    → dispatch valid_keys request ≡ ok (if has_key key valid_keys then passes else answers 401)
unfolding dispatch
dispatch_checks_key valid_keys request key not_exempt given ascii keys_ascii =
    ground (arith, is_valid_ascii key valid_keys ascii keys_ascii)
