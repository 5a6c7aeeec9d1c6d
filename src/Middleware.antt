-- ===== src/Middleware.antt =====
-- app/middleware: what a middleware makes of a request.
pub mod ApiKey
pub mod RateLimit
pub mod IpAllowlist
pub mod SecurityHeaders
mod Tests
use daraja_payment_wrapper.Prelude.{ℕ, Text, Option, [], ◌∷◌, ◌==◌, if◌then◌else◌}

-- `request.url.path`, the headers that the code reads, and `request.client.host`.
pub record Request : Type 0 where
  pub path : Text
  pub x_api_key : Option Text
  pub x_forwarded_for : Option Text
  pub client_host : Option Text

-- The request goes on to the next handler, or is answered with a status.
pub data Verdict : Type 0 where
  passes : Verdict
  answers : (status : ℕ) → Verdict

-- `s.split(",")[0]`
abbrev pub first_part : Text → Text
first_part [] = []
first_part (c ∷ s) = if c == b',' then [] else c ∷ first_part s
