-- ===== src/Redis.antt =====
-- The Redis server, as the code uses it: an interface that is not part of the repository.
-- Each command may raise. The laws state the documented effect of a command that answers; what the
-- server holds after a command that raised is left open. Keys may also expire between commands.
pub mod Memory
use daraja_payment_wrapper.Prelude.{
  ℕ, Text, text_eq, ◌≡◌, ◌≢◌, Bool, true, false, Option, none, some, if◌then◌else◌,
}
use daraja_payment_wrapper.Errors.{Result, ok}
use daraja_payment_wrapper.Exec.{Exec}

pub record Redis : Type 1 where
  pub Store : Type 0
  -- what the server holds under a key
  pub held : Store → Text → Option Text
  pub get : Text → Exec Store (Option Text)
  -- SET key value NX EX seconds
  pub set_nx : Text → Text → ℕ → Exec Store Bool
  -- SETEX key seconds value
  pub setex : Text → ℕ → Text → Exec Store (Unit {0})
  pub delete : Text → Exec Store (Unit {0})
  pub get_ok :
      (k : Text) (s s' : Store) (v : Option Text)
      → get k s ≡ (ok v, s')
      → (held s k ≡ v) × ((j : Text) → held s' j ≡ held s j)
  pub set_nx_true :
      (k v : Text) (ttl : ℕ) (s s' : Store)
      → set_nx k v ttl s ≡ (ok true, s')
      → (held s k ≡ none) × ((j : Text) → held s' j ≡ (if text_eq k j then some v else held s j))
  pub set_nx_false :
      (k v : Text) (ttl : ℕ) (s s' : Store)
      → set_nx k v ttl s ≡ (ok false, s')
      → (held s k ≢ none) × ((j : Text) → held s' j ≡ held s j)
  pub setex_ok :
      (k : Text) (ttl : ℕ) (v : Text) (s s' : Store)
      → setex k ttl v s ≡ (ok tt, s')
      → (j : Text) → held s' j ≡ (if text_eq k j then some v else held s j)
  pub delete_ok :
      (k : Text) (s s' : Store)
      → delete k s ≡ (ok tt, s')
      → (j : Text) → held s' j ≡ (if text_eq k j then none else held s j)
  -- From such a state on the server answers every command.
  pub IsUp : Store → Type 0
  pub get_up :
      (k : Text) (s : Store)
      → IsUp s
      → (v : Option Text) × (s' : Store) × (get k s ≡ (ok v, s')) × IsUp s'
  pub set_nx_up :
      (k v : Text) (ttl : ℕ) (s : Store)
      → IsUp s
      → (b : Bool) × (s' : Store) × (set_nx k v ttl s ≡ (ok b, s')) × IsUp s'
  pub setex_up :
      (k : Text) (ttl : ℕ) (v : Text) (s : Store)
      → IsUp s
      → (s' : Store) × (setex k ttl v s ≡ (ok tt, s')) × IsUp s'
  pub delete_up :
      (k : Text) (s : Store) → IsUp s → (s' : Store) × (delete k s ≡ (ok tt, s')) × IsUp s'
