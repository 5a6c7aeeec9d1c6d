-- ===== src/Service/Once.antt =====
-- app/services/stk.py over a whole history: every request, callback and status query that one
-- database sees, and the sessions that crash in between.
mod Frame
pub mod Outcome
pub mod Ledger
pub mod History
mod Tests
