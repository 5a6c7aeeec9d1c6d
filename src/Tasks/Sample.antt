-- ===== src/Tasks/Sample.antt =====
-- A Celery that sends a message again as long as retries are left.
use daraja_payment_wrapper.Prelude.{ℕ, ◌≤◌, ◌<◌, ltb, ◌≡◌, if◌then◌else◌, arith}
use daraja_payment_wrapper.Errors.{Error}
use daraja_payment_wrapper.Tasks.Worker.{Signal, again, raises, Celery}

abbrev pub retry : ℕ → ℕ → ℕ → Error → Signal
retry m n c e = if ltb n m then again c else raises e

pub retry_again : (m n c : ℕ) (e : Error) → n < m → retry m n c e ≡ again c
retry_again m n c e h = ground arith

pub retry_over : (m n c : ℕ) (e : Error) → m ≤ n → retry m n c e ≡ raises e
retry_over m n c e h = ground arith

abbrev pub celery : Celery
celery = record { retry = retry; retry_again = retry_again; retry_over = retry_over }
