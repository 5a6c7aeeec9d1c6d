-- ===== src/Middleware/SecurityHeaders.antt =====
-- app/middleware/security_headers.py: `SecurityHeadersMiddleware`. The header map of Starlette is not
-- part of the repository: an interface, with the effect of an assignment and of a deletion.
use daraja_payment_wrapper.Prelude.{
  ℕ, ◌+◌, Text, codes, text_eq, starts_with, any, map, ◌≡◌, refl, sym, ◌∙◌, ap, Bool, true, false,
  ◌&&◌, Option, none, some, List, [], ◌∷◌, leb, if◌then◌else◌, inl, inr, Bool-cases,
}
use daraja_payment_wrapper.Exec.{Exec, pure, ◌>>=◌}

-- Names of headers are compared without regard to ASCII case.
abbrev pub lower : ℕ → ℕ
lower c = if leb b'A' c && leb c b'Z' then c + 32 else c

unfoldable pub name_eq : Text → Text → Bool
name_eq a b = text_eq (map lower a) (map lower b)

pub record HeaderMap : Type 1 where
  pub Headers : Type 0
  pub value : Headers → Text → Option Text
  pub assign : Text → Text → Headers → Headers
  pub remove : Text → Headers → Headers
  pub value_same : (h : Headers) (k j : Text) → name_eq k j ≡ true → value h k ≡ value h j
  pub value-assign :
      (k v : Text) (h : Headers) (j : Text)
      → value (assign k v h) j ≡ (if name_eq k j then some v else value h j)
  pub value-remove :
      (k : Text) (h : Headers) (j : Text)
      → value (remove k h) j ≡ (if name_eq k j then none else value h j)

abbrev docs_paths : List Text
docs_paths = codes "/docs" ∷ codes "/redoc" ∷ codes "/openapi.json" ∷ []

abbrev pub is_docs : Text → Bool
is_docs path = any (λ p. starts_with path p) docs_paths

abbrev pub security_headers : List (Text × Text)
security_headers =
    (codes "Strict-Transport-Security", codes "max-age=31536000; includeSubDomains; preload")
    ∷ (codes "X-Content-Type-Options", codes "nosniff")
    ∷ (codes "X-Frame-Options", codes "DENY")
    ∷ (codes "Referrer-Policy", codes "strict-origin-when-cross-origin")
    ∷ (codes "Permissions-Policy", codes "geolocation=(), camera=(), microphone=()")
    ∷ (codes "Content-Security-Policy", codes "default-src 'none'; frame-ancestors 'none'")
    ∷ (codes "Cache-Control", codes "no-store, no-cache, must-revalidate, private")
    ∷ (codes "Pragma", codes "no-cache")
    ∷ []

abbrev pub headers_to_remove : List Text
headers_to_remove = codes "Server" ∷ codes "X-Powered-By" ∷ []

-- `request.headers.get("X-Request-ID") or str(uuid.uuid4())`
abbrev pub request_id_of : Option Text → Text → Text
request_id_of none fresh = fresh
request_id_of (some []) fresh = fresh
request_id_of (some (c ∷ s)) fresh = c ∷ s

module _ (hm : HeaderMap) where
  open hm use {Headers, value, assign, remove, value-assign, value-remove, value_same}

  -- A response: its status and its headers.
  pub record Reply : Type 0 where
    pub status : ℕ
    pub headers : Headers

  unfoldable pub apply_all : List (Text × Text) → Headers → Headers
  apply_all [] h = h
  apply_all ((k, v) ∷ l) h = apply_all l (assign k v h)

  abbrev drop_if : Option Text → Text → Headers → Headers
  drop_if none k h = h
  drop_if (some v) k h = remove k h

  -- `if header in response.headers: del response.headers[header]`
  unfoldable pub remove_all : List Text → Headers → Headers
  remove_all [] h = h
  remove_all (k ∷ l) h = remove_all l (drop_if (value h k) k h)

  unfoldable pub harden : Text → Text → Reply → Reply
  harden path request_id response =
      if is_docs path
      then record response { headers = assign (codes "X-Request-id") request_id response.headers }
      else record response {
        headers =
            assign (codes "X-Request-ID") request_id
              (remove_all headers_to_remove (apply_all security_headers response.headers));
      }

  -- What `call_next` raises goes on.
  unfoldable pub dispatch : {S : Type 0} → Option Text → Text → Text → Exec S Reply → Exec S Reply
  dispatch x_request_id fresh path call_next = do
    response ← call_next
    pure (harden path (request_id_of x_request_id fresh) response)

  -- The last value that a list of headers gives to a name, or else the one it has.
  abbrev pub given : List (Text × Text) → Text → Option Text → Option Text
  given [] j o = o
  given ((k, v) ∷ l) j o = given l j (if name_eq k j then some v else o)

  value-apply_all :
      (l : List (Text × Text)) (h : Headers) (j : Text)
      → value (apply_all l h) j ≡ given l j (value h j)
  unfolding apply_all
  value-apply_all [] h j = refl
  value-apply_all ((k, v) ∷ l) h j =
      value-apply_all l (assign k v h) j ∙ ap (given l j) (value-assign k v h j)

  value-drop_if :
      (k : Text) (h : Headers) (j : Text) (o : Option Text)
      → value h k ≡ o
      → value (drop_if o k h) j ≡ (if name_eq k j then none else value h j)
  value-drop_if k h j (some v) e = value-remove k h j
  value-drop_if k h j none e = elim (Bool-cases (name_eq k j)) [
    | inl same ↦ rw same (sym (value_same h k j same) ∙ e)
    | inr other ↦ rw other refl
  ]

  abbrev without : List Text → Text → Option Text → Option Text
  without [] j o = o
  without (k ∷ l) j o = without l j (if name_eq k j then none else o)

  value-remove_all :
      (l : List Text) (h : Headers) (j : Text) → value (remove_all l h) j ≡ without l j (value h j)
  unfolding remove_all
  value-remove_all [] h j = refl
  value-remove_all (k ∷ l) h j =
      value-remove_all l (drop_if (value h k) k h) j
      ∙ ap (without l j) (value-drop_if k h j (value h k) refl)

  -- A header of a response off the documentation: the request id under `X-Request-ID`; nothing under
  -- `Server` and `X-Powered-By`; the value of the security header of that name, if there is one; and
  -- otherwise what the handler has set.
  pub value-harden :
      (path request_id : Text) (response : Reply) (j : Text)
      → is_docs path ≡ false
      → ((harden path request_id response).status ≡ response.status)
        × (value (harden path request_id response).headers j ≡ (
            if name_eq (codes "X-Request-ID") j
            then some request_id
            else if name_eq (codes "X-Powered-By") j
            then none
            else if name_eq (codes "Server") j
            then none
            else given security_headers j (value response.headers j)))
  unfolding harden
  value-harden path request_id response j off =
      let hardened = apply_all security_headers response.headers in
      rw off (
        refl,
        value-assign (codes "X-Request-ID") request_id (remove_all headers_to_remove hardened) j
            ∙ ap (λ o. if name_eq (codes "X-Request-ID") j then some request_id else o)
                (value-remove_all headers_to_remove hardened j
                  ∙ ap (without headers_to_remove j)
                      (value-apply_all security_headers response.headers j)),
      )
