-- ===== src/Daraja/Circuit.antt =====
-- app/daraja/client.py: the circuit breaker of `DarajaClient`. Times are in microseconds.
use daraja_payment_wrapper.Prelude.{
  ℕ, ◌+◌, ◌-◌, ◌*◌, ◌/◌, ◌<◌, ◌≡◌, ◌↔◌, refl, Bool, true, false, ◌||◌, leb, if◌then◌else◌, arith,
}
use daraja_payment_wrapper.Errors.{ok, err, app, daraja_circuit_open}
use daraja_payment_wrapper.Exec.{Exec}

pub data CircuitState : Type 0 where
  closed open_ half_open : CircuitState

pub record CircuitBreaker : Type 0 where
  pub state : CircuitState
  pub failure_count : ℕ
  pub last_failure_time : ℕ

-- `__init__`
abbrev pub new_circuit : CircuitBreaker
new_circuit = record { state = closed; failure_count = 0; last_failure_time = 0 }

abbrev second : ℕ
second = 1000000

-- `_check_circuit` at the time `now`; the timeout is in seconds.
unfoldable pub check_circuit : ℕ → ℕ → Exec CircuitBreaker (Unit {0})
check_circuit timeout now c =
    let elapsed = now - c.last_failure_time in
    elim c.state [
      | closed ↦ (ok tt, c)
      | half_open ↦ (ok tt, c)
      | open_ ↦
          if leb (timeout * second) elapsed
          then (ok tt, record c { state = half_open })
          else (err (app (daraja_circuit_open ((timeout * second - elapsed) / second))), c)
    ]

unfoldable pub on_success : CircuitBreaker → CircuitBreaker
on_success c = record c { failure_count = 0; state = closed }

abbrev is_half_open : CircuitState → Bool
is_half_open half_open = true
is_half_open _ = false

-- The statement under the test, `self._state == CircuitState.OPEN`.
abbrev compare_state : CircuitBreaker → CircuitBreaker
compare_state c = c

-- `_on_failure` at the time `now`
unfoldable pub on_failure : ℕ → ℕ → CircuitBreaker → CircuitBreaker
on_failure threshold now c =
    let c' : CircuitBreaker = record c {
      failure_count = c.failure_count + 1;
      last_failure_time = now;
    } in
    if leb threshold c'.failure_count || is_half_open c'.state then compare_state c' else c'

-- The steps of a circuit, and the circuits that a process may reach.
pub data Step (timeout threshold : ℕ) : CircuitBreaker → CircuitBreaker → Type 0 where
  checks : (now : ℕ) (c : CircuitBreaker) → Step timeout threshold c (check_circuit timeout now c).1
  succeeds : (c : CircuitBreaker) → Step timeout threshold c (on_success c)
  fails : (now : ℕ) (c : CircuitBreaker) → Step timeout threshold c (on_failure threshold now c)

pub data Reachable (timeout threshold : ℕ) : CircuitBreaker → Type 0 where
  initial : Reachable timeout threshold new_circuit
  step :
      {c c' : CircuitBreaker}
      → Reachable timeout threshold c
      → Step timeout threshold c c'
      → Reachable timeout threshold c'

Step-closed :
    (timeout threshold : ℕ) (c c' : CircuitBreaker)
    → Step timeout threshold c c'
    → c.state ≡ closed
    → c'.state ≡ closed
unfolding check_circuit on_success on_failure
Step-closed timeout threshold _ _ (checks now c) h = ground arith
Step-closed timeout threshold _ _ (succeeds c) h = refl
Step-closed timeout threshold _ _ (fails now c) h = ground arith

Reachable-closed :
    (timeout threshold : ℕ) (c : CircuitBreaker) → Reachable timeout threshold c → c.state ≡ closed
Reachable-closed timeout threshold c initial = refl
Reachable-closed timeout threshold c (step {c = c0} r s) =
    Step-closed timeout threshold c0 c s (Reachable-closed timeout threshold c0 r)

-- In every circuit that a process reaches, however many calls have failed, the state is CLOSED and
-- the next call is let through: the breaker never opens.
pub circuit_never_opens :
    (timeout threshold now : ℕ) (c : CircuitBreaker)
    → Reachable timeout threshold c
    → (c.state ≡ closed) × (check_circuit timeout now c ≡ (ok tt, c))
unfolding check_circuit
circuit_never_opens timeout threshold now c r =
    let h = Reachable-closed timeout threshold c r in (h, ground arith)

-- A check refuses exactly when the circuit is OPEN and less than the timeout has passed, and then
-- the circuit stays as it is; the promised wait is the whole seconds of the time that remains.
pub check_circuit_refuses :
    (timeout now n : ℕ) (c : CircuitBreaker)
    → (check_circuit timeout now c ≡ (err (app (daraja_circuit_open n)), c)) ↔ (
        (c.state ≡ open_)
        × (now - c.last_failure_time < timeout * 1000000)
        × (n ≡ (timeout * 1000000 - (now - c.last_failure_time)) / 1000000))
unfolding check_circuit
check_circuit_refuses timeout now n c = ground arith
