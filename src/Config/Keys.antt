-- ===== src/Config/Keys.antt =====
-- app/config.py, `parsed_api_keys`, against the list of keys that the variable is written from, and
-- with app/middleware/api_key.py, which takes the keys.
use daraja_payment_wrapper.Prelude.{
  Text, text_eq, text_eq_iff, text_eq_refl, subst, Bool, Bool-cases, ◌||◌, inl, inr, all, any, ◌≡◌,
  ◌≢◌, refl, ap, ◌∙◌, true, false, not, List, [], ◌∷◌, ◌++◌, ◌==◌, starts_with, arith,
}
use daraja_payment_wrapper.Errors.{ok}
use daraja_payment_wrapper.Schemas.Request.{strip}
use daraja_payment_wrapper.Config.Fields.{split_comma}
use daraja_payment_wrapper.Config.{add, unless_empty, stripped, parsed_api_keys}
use daraja_payment_wrapper.Middleware.{Request, answers}
use daraja_payment_wrapper.Middleware.ApiKey.{
  is_valid, is_ascii, exempt_prefixes, text_or_empty, dispatch,
}

-- A key as an operator writes it: not empty, without a comma, and without blanks around it.
pub record IsKey (k : Text) : Type 0 where
  pub nonempty : k ≢ []
  pub one_key : all (λ c. not (c == b',')) k ≡ true
  pub trimmed : strip k ≡ k

-- `",".join(keys)`
abbrev pub join_comma : List Text → Text
join_comma [] = []
join_comma (k ∷ []) = k
join_comma (k ∷ l ∷ ks) = k ++ b',' ∷ join_comma (l ∷ ks)

abbrev pub AllKeys : List Text → Type 0
AllKeys [] = Unit {0}
AllKeys (k ∷ ks) = IsKey k × AllKeys ks

split_one : (k : Text) → all (λ c. not (c == b',')) k ≡ true → split_comma k ≡ k ∷ []
unfolding split_comma
split_one [] h = refl
split_one (c ∷ k) h = ground (arith, split_one k)

split_first :
    (k rest : Text)
    → all (λ c. not (c == b',')) k ≡ true
    → split_comma (k ++ b',' ∷ rest) ≡ k ∷ split_comma rest
unfolding split_comma
split_first [] rest h = refl
split_first (c ∷ k) rest h = ground (arith, split_first k rest)

-- `k in keys`
abbrev pub holds : Text → List Text → Bool
holds k ks = any (text_eq k) ks

stripped-key :
    (k : Text) (ks : List Text) → k ≢ [] → strip k ≡ k → stripped (k ∷ ks) ≡ add k (stripped ks)
unfolding stripped
stripped-key [] ks nonempty h = absurd (nonempty refl)
stripped-key (c ∷ k) ks nonempty h = ap (λ t. unless_empty t (stripped ks)) h

holds-add_self : (j : Text) (ks : List Text) → holds j (add j ks) ≡ (text_eq j j || holds j ks)
holds-add_self j ks = ground (arith, text_eq_refl j)

holds-add : (j k : Text) (ks : List Text) → holds j (add k ks) ≡ (text_eq j k || holds j ks)
holds-add j k ks = elim (Bool-cases (text_eq j k)) [
  | inl same ↦
      subst (λ k. holds j (add k ks) ≡ (text_eq j k || holds j ks)) ((text_eq_iff j k).0 same)
        (holds-add_self j ks)
  | inr differ ↦ ground (arith, differ)
]

-- The set of keys that is read from a list of keys joined by commas holds the keys of the list and
-- nothing else.
pub parsed_api_keys-join_comma :
    (ks : List Text)
    → AllKeys ks
    → (j : Text) → holds j (parsed_api_keys (join_comma ks)) ≡ holds j ks
unfolding parsed_api_keys stripped strip split_comma
parsed_api_keys-join_comma [] h j = refl
parsed_api_keys-join_comma (k ∷ []) (h, rest) j =
    ap (λ t. holds j (stripped t)) (split_one k h.one_key)
    ∙ ap (holds j) (stripped-key k [] h.nonempty h.trimmed)
parsed_api_keys-join_comma (k ∷ l ∷ ks) (h, rest) j =
    ap (λ t. holds j (stripped t)) (split_first k (join_comma (l ∷ ks)) h.one_key)
    ∙ ap (holds j) (stripped-key k (split_comma (join_comma (l ∷ ks))) h.nonempty h.trimmed)
    ∙ holds-add j k (parsed_api_keys (join_comma (l ∷ ks)))
    ∙ ap (λ t. text_eq j k || t) (parsed_api_keys-join_comma (l ∷ ks) rest j)

is_valid-unless_empty :
    (k : Text) (rest : List Text)
    → (all is_ascii rest ≡ true → is_valid [] rest ≡ ok false)
    → all is_ascii (unless_empty k rest) ≡ true
    → is_valid [] (unless_empty k rest) ≡ ok false
unfolding is_valid
is_valid-unless_empty [] rest ih h = ih h
is_valid-unless_empty (c ∷ s) rest ih h = ground (arith, ih)

is_valid-stripped :
    (ks : List Text) → all is_ascii (stripped ks) ≡ true → is_valid [] (stripped ks) ≡ ok false
unfolding stripped is_valid
is_valid-stripped [] h = refl
is_valid-stripped (k ∷ ks) h =
    is_valid-unless_empty (strip k) (stripped ks) (is_valid-stripped ks) h

-- Whatever the variable holds, as long as its keys are ASCII, a request without a key, or with an
-- empty one, is answered with 401 on every path that is not exempt.
pub dispatch_refuses_empty :
    (keys : Text) (request : Request)
    → all is_ascii (parsed_api_keys keys) ≡ true
    → any (λ p. starts_with request.path p) exempt_prefixes ≡ false
    → text_or_empty request.x_api_key ≡ []
    → dispatch (parsed_api_keys keys) request ≡ ok (answers 401)
unfolding dispatch parsed_api_keys
dispatch_refuses_empty keys request ascii not_exempt absent =
    rw (not_exempt, absent, is_valid-stripped (split_comma keys) ascii) refl
