-- ===== src/Service/Once/Ledger.antt =====
-- What the service promises about one idempotency key: a ledger entry that is spent once at most.
use daraja_payment_wrapper.Prelude.{ℕ, ◌+◌, ◌≤◌, arith}

pub data Entry : Type 0 where
  unspent spent : Entry

module _ (limit : ℕ) where
  -- One event moves the entry, and asks Daraja for the key that many times.
  pub data Move : Entry → ℕ → Entry → Type 0 where
    idle : {l : Entry} → Move l 0 l
    spend : {n : ℕ} → n ≤ limit → Move unspent n spent

  pub data Moves : Entry → ℕ → Entry → Type 0 where
    done : {l : Entry} → Moves l 0 l
    next : {l l' l'' : Entry} {m n : ℕ} → Move l m l' → Moves l' n l'' → Moves l (m + n) l''

  -- How often Daraja may still be asked.
  abbrev pub allowance : Entry → ℕ
  allowance unspent = limit
  allowance spent = 0

  Move-within : {l l' : Entry} {n : ℕ} → Move l n l' → n + allowance l' ≤ allowance l
  Move-within idle = omega arith
  Move-within (spend within) = omega arith

  pub Moves-within : {l l' : Entry} {n : ℕ} → Moves l n l' → n + allowance l' ≤ allowance l
  Moves-within done = omega arith
  Moves-within (next m ms) = omega (arith, Move-within m, Moves-within ms)
