-- ===== src/Redis/Memory.antt =====
-- A server that fits the interface: a map from keys to values, which may be unreachable.
use daraja_payment_wrapper.Prelude.{
  ℕ, Text, text_eq, ◌≡◌, ◌≢◌, inl, inr, Bool, true, false, Option, none, some, arith, if◌then◌else◌,
  Option-cases,
}
use daraja_payment_wrapper.Errors.{ok, err, redis_failure}
use daraja_payment_wrapper.Exec.{Exec}
use daraja_payment_wrapper.Redis.{Redis}

pub record Server : Type 0 where
  pub up : Bool
  pub entries : Text → Option Text

abbrev pub write : Text → Option Text → Server → Server
write k v s = record s { entries = λ j. if text_eq k j then v else s.entries j }

abbrev pub get : Text → Exec Server (Option Text)
get k s = if s.up then (ok (s.entries k), s) else (err redis_failure, s)

abbrev pub set_nx : Text → Text → ℕ → Exec Server Bool
set_nx k v ttl s =
    if s.up
    then elim (s.entries k) [ none ↦ (ok true, write k (some v) s) | some _ ↦ (ok false, s) ]
    else (err redis_failure, s)

abbrev pub setex : Text → ℕ → Text → Exec Server (Unit {0})
setex k ttl v s = if s.up then (ok tt, write k (some v) s) else (err redis_failure, s)

abbrev pub delete : Text → Exec Server (Unit {0})
delete k s = if s.up then (ok tt, write k none s) else (err redis_failure, s)

pub get_ok :
    (k : Text) (s s' : Server) (v : Option Text)
    → get k s ≡ (ok v, s')
    → (s.entries k ≡ v) × ((j : Text) → s'.entries j ≡ s.entries j)
get_ok k s s' v h = (ground arith, λ j. ground arith)

pub set_nx_true :
    (k v : Text) (ttl : ℕ) (s s' : Server)
    → set_nx k v ttl s ≡ (ok true, s')
    → (s.entries k ≡ none)
      × ((j : Text) → s'.entries j ≡ (if text_eq k j then some v else s.entries j))
set_nx_true k v ttl s s' h = (ground arith, λ j. ground arith)

pub set_nx_false :
    (k v : Text) (ttl : ℕ) (s s' : Server)
    → set_nx k v ttl s ≡ (ok false, s')
    → (s.entries k ≢ none) × ((j : Text) → s'.entries j ≡ s.entries j)
set_nx_false k v ttl s s' h = (ground arith, λ j. ground arith)

pub setex_ok :
    (k : Text) (ttl : ℕ) (v : Text) (s s' : Server)
    → setex k ttl v s ≡ (ok tt, s')
    → (j : Text) → s'.entries j ≡ (if text_eq k j then some v else s.entries j)
setex_ok k ttl v s s' h j = ground arith

pub delete_ok :
    (k : Text) (s s' : Server)
    → delete k s ≡ (ok tt, s')
    → (j : Text) → s'.entries j ≡ (if text_eq k j then none else s.entries j)
delete_ok k s s' h j = ground arith

pub get_up :
    (k : Text) (s : Server)
    → s.up ≡ true
    → (v : Option Text) × (s' : Server) × (get k s ≡ (ok v, s')) × (s'.up ≡ true)
get_up k s h = (s.entries k, s, ground arith, h)

pub set_nx_up :
    (k v : Text) (ttl : ℕ) (s : Server)
    → s.up ≡ true
    → (b : Bool) × (s' : Server) × (set_nx k v ttl s ≡ (ok b, s')) × (s'.up ≡ true)
set_nx_up k v ttl s h = elim (Option-cases (s.entries k)) [
  | inl free ↦ (true, write k (some v) s, ground arith, h)
  | inr (u, taken) ↦ (false, s, ground arith, h)
]

pub setex_up :
    (k : Text) (ttl : ℕ) (v : Text) (s : Server)
    → s.up ≡ true
    → (s' : Server) × (setex k ttl v s ≡ (ok tt, s')) × (s'.up ≡ true)
setex_up k ttl v s h = (write k (some v) s, ground arith, h)

pub delete_up :
    (k : Text) (s : Server)
    → s.up ≡ true
    → (s' : Server) × (delete k s ≡ (ok tt, s')) × (s'.up ≡ true)
delete_up k s h = (write k none s, ground arith, h)

abbrev pub memory : Redis
memory = record {
  Store = Server;
  held = λ s k. s.entries k;
  get = get;
  set_nx = set_nx;
  setex = setex;
  delete = delete;
  get_ok = get_ok;
  set_nx_true = set_nx_true;
  set_nx_false = set_nx_false;
  setex_ok = setex_ok;
  delete_ok = delete_ok;
  IsUp = λ s. s.up ≡ true;
  get_up = get_up;
  set_nx_up = set_nx_up;
  setex_up = setex_up;
  delete_up = delete_up;
}

abbrev pub empty_server : Server
empty_server = record { up = true; entries = λ _. none }
