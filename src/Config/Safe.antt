-- ===== src/Config/Safe.antt =====
-- What holds of settings that app/config.py accepts.
use daraja_payment_wrapper.Prelude.{
  ℕ, ◌≤◌, Text, codes, text_eq, text_eq_iff, starts_with, length, all, ◌≡◌, ◌⊎◌, refl, sym, ap, ◌∙◌,
  subst, inl, inr, Bool, true, false, Option, none, some, List, [], ◌∷◌, if◌then◌else◌, Bool-cases,
  arith,
}
use daraja_payment_wrapper.Prelude.Int.{ℤ, pos, negsuc}
use daraja_payment_wrapper.Errors.{Result, ok, err, value_error}
use daraja_payment_wrapper.Exec.{Result-cases}
use daraja_payment_wrapper.Schemas.Phone.{is_decimal}
use daraja_payment_wrapper.Config.Fields.{contains, strip_trailing_slash, before_slashes}
use daraja_payment_wrapper.Payment.{Decimal}
use daraja_payment_wrapper.Config.{
  Settings, is_positive, is_at_least, is_at_most, has_valid_bounds, fix_asyncpg_scheme,
  must_use_asyncpg, must_be_https_in_prod, shortcode_must_be_numeric, built_url, lacks_database_url,
  build_database_url, prod_safety_checks, validate_fields, validate, with_fields,
}

before_slashes-strip :
    (c : ℕ) (t : Text)
    → strip_trailing_slash t ≡ t
    → strip_trailing_slash (before_slashes c t) ≡ before_slashes c t
unfolding strip_trailing_slash
before_slashes-strip c [] h = ground arith
before_slashes-strip c (d ∷ t) h = rw h refl

pub strip_trailing_slash_idem :
    (t : Text) → strip_trailing_slash (strip_trailing_slash t) ≡ strip_trailing_slash t
unfolding strip_trailing_slash
strip_trailing_slash_idem [] = refl
strip_trailing_slash_idem (c ∷ s) =
    before_slashes-strip c (strip_trailing_slash s) (strip_trailing_slash_idem s)

-- The timeouts and waits that must be positive.
abbrev pub times_of : Settings → List Decimal
times_of s =
    s.daraja_connect_timeout ∷ s.daraja_read_timeout ∷ s.daraja_write_timeout
    ∷ s.daraja_pool_timeout ∷ s.daraja_retry_initial_wait ∷ s.daraja_retry_max_wait
    ∷ s.database_pool_timeout ∷ s.redis_socket_timeout ∷ s.redis_socket_connect_timeout ∷ []

-- Settings under which the service may run.
pub record IsSafe (s : Settings) : Type 0 where
  pub attempts : (n : ℕ) × (s.daraja_retry_attempts ≡ pos n) × (1 ≤ n) × (n ≤ 5)
  pub threshold : (n : ℕ) × (s.circuit_breaker_failure_threshold ≡ pos n) × (1 ≤ n)
  pub margin : (n : ℕ) × (s.token_refresh_margin_seconds ≡ pos n) × (60 ≤ n)
  pub pool : (n : ℕ) × (s.database_pool_size ≡ pos n) × (1 ≤ n) × (n ≤ 50)
  pub overflow : (n : ℕ) × (s.database_max_overflow ≡ pos n)
  pub redis_pool : (n : ℕ) × (s.redis_max_connections ≡ pos n) × (1 ≤ n)
  pub connections : (n : ℕ) × (s.daraja_max_connections ≡ pos n) × (1 ≤ n)
  pub keepalive : (n : ℕ) × (s.daraja_max_keepalive_connections ≡ pos n) × (1 ≤ n)
  pub recovery : (n : ℕ) × (s.circuit_breaker_recovery_timeout ≡ pos n) × (1 ≤ n)
  pub times : all is_positive (times_of s) ≡ true
  pub shortcode :
      (all is_decimal s.daraja_shortcode ≡ true)
      × (5 ≤ length s.daraja_shortcode)
      × (length s.daraja_shortcode ≤ 7)
  pub callback :
      starts_with s.daraja_callback_base_url (codes "http://") ≡ true
      → (contains (codes "localhost") s.daraja_callback_base_url ≡ true)
        ⊎ (contains (codes "127.0.0.1") s.daraja_callback_base_url ≡ true)
  pub callback_slash : strip_trailing_slash s.daraja_callback_base_url ≡ s.daraja_callback_base_url
  pub database :
      (url : Text)
      → s.database_url ≡ some url
      → starts_with url (codes "postgresql+asyncpg://") ≡ true
  pub allowlist :
      contains (codes "sandbox") s.daraja_base_url ≡ false → s.trust_callback_ips_in_sandbox ≡ false
  pub quiet : s.environment ≡ codes "production" → s.database_echo ≡ false

at_least : (low : ℕ) (z : ℤ) → is_at_least low z ≡ true → (n : ℕ) × (z ≡ pos n) × (low ≤ n)
at_least low (pos n) h = (n, refl, ground arith)
at_least low (negsuc n) h = cc

not_negative : (z : ℤ) → is_at_least 0 z ≡ true → (n : ℕ) × (z ≡ pos n)
not_negative (pos n) h = (n, refl)
not_negative (negsuc n) h = cc

between :
    (low high : ℕ) (z : ℤ)
    → is_at_least low z ≡ true
    → is_at_most high z ≡ true
    → (n : ℕ) × (z ≡ pos n) × (low ≤ n) × (n ≤ high)
between low high (pos n) h k = (n, refl, ground arith, ground arith)
between low high (negsuc n) h k = cc

must_be_https_ok :
    (v u : Text)
    → must_be_https_in_prod v ≡ ok u
    → (u ≡ v)
      × (starts_with v (codes "http://") ≡ true
          → (contains (codes "localhost") v ≡ true) ⊎ (contains (codes "127.0.0.1") v ≡ true))
unfolding must_be_https_in_prod
must_be_https_ok v u h = (
  ground arith,
  λ http. elim (Bool-cases (contains (codes "localhost") v)) [
    | inl local ↦ inl local
    | inr far ↦ inr (ground arith)
  ],
)

shortcode_ok :
    (v u : Text)
    → shortcode_must_be_numeric v ≡ ok u
    → (u ≡ v) × (all is_decimal v ≡ true) × (5 ≤ length v) × (length v ≤ 7)
unfolding shortcode_must_be_numeric
shortcode_ok v u h = (ground arith, ground arith, ground arith, ground arith)

option_same : {A : Type 0} (a b : A) → some a ≡ some b → a ≡ b
option_same a b h = cc

ok_same : {A : Type 0} (a b : A) → ok a ≡ ok b → a ≡ b
ok_same a b h = cc

passing :
    {A : Type 0} (b : Bool) (r : Result A) (a : A)
    → (if b then r else err value_error) ≡ ok a
    → (b ≡ true) × (r ≡ ok a)
passing true r a h = (refl, h)
passing false r a h = cc

must_use_asyncpg_ok :
    (o p : Option Text)
    → must_use_asyncpg o ≡ ok p
    → (url : Text) → p ≡ some url
    → starts_with url (codes "postgresql+asyncpg://") ≡ true
unfolding must_use_asyncpg
must_use_asyncpg_ok none p h url e = cc
must_use_asyncpg_ok (some v) p h url e =
    let (test, same) = passing (starts_with v (codes "postgresql+asyncpg://")) (ok (some v)) p h in
    subst (λ t. starts_with t (codes "postgresql+asyncpg://") ≡ true)
      (option_same v url (ok_same (some v) p same ∙ e)) test

-- What the fields of accepted settings have passed.
record Passed (s v : Settings) : Type 0 where
  bounds : has_valid_bounds s ≡ true
  callback :
      must_be_https_in_prod (strip_trailing_slash s.daraja_callback_base_url)
      ≡ ok v.daraja_callback_base_url
  shortcode : shortcode_must_be_numeric s.daraja_shortcode ≡ ok v.daraja_shortcode
  database : must_use_asyncpg (fix_asyncpg_scheme s.database_url) ≡ ok v.database_url
  others : v ≡ record s {
    daraja_base_url = strip_trailing_slash s.daraja_base_url;
    daraja_callback_base_url = v.daraja_callback_base_url;
    daraja_shortcode = v.daraja_shortcode;
    database_url = v.database_url;
  }

with_fields_ok :
    (s v : Settings) (a b : Result Text) (c : Result (Option Text))
    → with_fields s a b c ≡ ok v
    → (a ≡ ok v.daraja_callback_base_url)
      × (b ≡ ok v.daraja_shortcode)
      × (c ≡ ok v.database_url)
      × (v ≡ record s {
        daraja_base_url = strip_trailing_slash s.daraja_base_url;
        daraja_callback_base_url = v.daraja_callback_base_url;
        daraja_shortcode = v.daraja_shortcode;
        database_url = v.database_url;
      })
with_fields_ok s v (ok a) (ok b) (ok c) h = (cc, cc, cc, cc)
with_fields_ok s v (err x) b c h = cc
with_fields_ok s v (ok a) (err x) c h = cc
with_fields_ok s v (ok a) (ok b) (err x) h = cc

validate_fields-Passed : (s v : Settings) → validate_fields s ≡ ok v → Passed s v
unfolding validate_fields
validate_fields-Passed s v h =
    let (good, passed) = passing (has_valid_bounds s) _ v h in
    let (a, b, c, d) = with_fields_ok s v _ _ _ passed in
    record { bounds = good; callback = a; shortcode = b; database = c; others = d }

abbrev HasScheme : Settings → Type 0
HasScheme s =
    (url : Text)
    → s.database_url ≡ some url
    → starts_with url (codes "postgresql+asyncpg://") ≡ true

either_way :
    (b : Bool) (P : Settings → Type 0) (x y : Settings) → P x → P y → P (if b then x else y)
either_way true P x y h k = h
either_way false P x y h k = k

-- A database URL that is built has the scheme of asyncpg.
build_database_url_scheme :
    (v : Settings)
    → ((url : Text)
        → v.database_url ≡ some url
        → starts_with url (codes "postgresql+asyncpg://") ≡ true)
    → (url : Text) → (build_database_url v).database_url ≡ some url
    → starts_with url (codes "postgresql+asyncpg://") ≡ true
unfolding build_database_url built_url
build_database_url_scheme v given =
    either_way (lacks_database_url v) HasScheme (record v { database_url = some (built_url v) }) v
      (λ url e.
        subst (λ t. starts_with t (codes "postgresql+asyncpg://") ≡ true)
          (option_same (built_url v) url e) refl)
      given

-- Only the database URL is built.
build_database_url_rest :
    (v : Settings)
    → build_database_url v ≡ record v { database_url = (build_database_url v).database_url }
unfolding build_database_url
build_database_url_rest v = ground arith

prod_safety_checks_ok :
    (s t : Settings)
    → prod_safety_checks s ≡ ok t
    → (t ≡ s)
      × (contains (codes "sandbox") s.daraja_base_url ≡ false
          → s.trust_callback_ips_in_sandbox ≡ false)
      × (text_eq s.environment (codes "production") ≡ true → s.database_echo ≡ false)
unfolding prod_safety_checks
prod_safety_checks_ok s t h = (ground arith, λ k. ground arith, λ k. ground arith)

-- The settings that `given` becomes.
abbrev became : Settings → Text → Text → Option Text → Settings
became given callback shortcode database = record given {
  daraja_base_url = strip_trailing_slash given.daraja_base_url;
  daraja_callback_base_url = callback;
  daraja_shortcode = shortcode;
  database_url = database;
}

became-IsSafe :
    (given : Settings) (callback shortcode : Text) (database : Option Text)
    → has_valid_bounds given ≡ true
    → must_be_https_in_prod (strip_trailing_slash given.daraja_callback_base_url) ≡ ok callback
    → shortcode_must_be_numeric given.daraja_shortcode ≡ ok shortcode
    → HasScheme (became given callback shortcode database)
    → prod_safety_checks (became given callback shortcode database)
      ≡ ok (became given callback shortcode database)
    → IsSafe (became given callback shortcode database)
unfolding has_valid_bounds
became-IsSafe given callback shortcode database bounds https digits scheme checks =
    let url = strip_trailing_slash given.daraja_callback_base_url in
    let (same, local) = must_be_https_ok url callback https in
    let (same', decimal, low, high) = shortcode_ok given.daraja_shortcode shortcode digits in
    let t = became given callback shortcode database in
    let (kept, allow, quiet) = prod_safety_checks_ok t t checks in
    record {
      attempts = between 1 5 given.daraja_retry_attempts (ground arith) (ground arith);
      threshold = at_least 1 given.circuit_breaker_failure_threshold (ground arith);
      margin = at_least 60 given.token_refresh_margin_seconds (ground arith);
      overflow = not_negative given.database_max_overflow (ground arith);
      redis_pool = at_least 1 given.redis_max_connections (ground arith);
      connections = at_least 1 given.daraja_max_connections (ground arith);
      keepalive = at_least 1 given.daraja_max_keepalive_connections (ground arith);
      recovery = at_least 1 given.circuit_breaker_recovery_timeout (ground arith);
      times = ground arith;
      pool = between 1 50 given.database_pool_size (ground arith) (ground arith);
      shortcode =
          subst (λ t. (all is_decimal t ≡ true) × (5 ≤ length t) × (length t ≤ 7)) (sym same')
            (decimal, low, high);
      callback =
          subst
            (λ t.
              starts_with t (codes "http://") ≡ true
              → (contains (codes "localhost") t ≡ true) ⊎ (contains (codes "127.0.0.1") t ≡ true))
            (sym same) local;
      callback_slash =
          subst (λ t. strip_trailing_slash t ≡ t) (sym same)
            (strip_trailing_slash_idem given.daraja_callback_base_url);
      database = scheme;
      allowlist = allow;
      quiet = λ e. quiet ((text_eq_iff given.environment (codes "production")).1 e);
    }

-- Settings that are accepted are safe: the retry attempts, the pool sizes and limits, the threshold,
-- the recovery time and the refresh margin are within their bounds, the timeouts and waits are
-- positive, the short code has 5 to 7 decimal digits, the callback URL is plain HTTP only if it
-- contains "localhost" or "127.0.0.1", and does not end in a slash, a database URL is one of asyncpg,
-- off the sandbox the allowlist is in force, and in production no SQL is logged.
pub validate-IsSafe : (given s : Settings) → validate given ≡ ok s → IsSafe s
unfolding validate
validate-IsSafe given s h = elim (Result-cases (validate_fields given)) [
  | inr (e, failed) ↦ absurd (ground (arith, h))
  | inl (v, fine) ↦
      let passed = validate_fields-Passed given v fine in
      let built = build_database_url v in
      let checks : prod_safety_checks built ≡ ok s = ground (arith, h) in
      let (same, allow, quiet) = prod_safety_checks_ok built s checks in
      let t = became given v.daraja_callback_base_url v.daraja_shortcode built.database_url in
      let is_t : built ≡ t =
        build_database_url_rest v
        ∙ ap (λ (x : Settings). record x { database_url = built.database_url }) passed.others in
      let scheme = build_database_url_scheme v (
        must_use_asyncpg_ok (fix_asyncpg_scheme given.database_url) v.database_url
          passed.database) in
      subst IsSafe (sym (same ∙ is_t)) (
        became-IsSafe given v.daraja_callback_base_url v.daraja_shortcode built.database_url
          passed.bounds passed.callback passed.shortcode scheme
          (subst (λ x. prod_safety_checks x ≡ ok x) is_t
            (subst (λ x. prod_safety_checks built ≡ ok x) same checks)))
]
