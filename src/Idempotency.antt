-- ===== src/Idempotency.antt =====
-- Idempotency keys: api/internal/idempotency.
pub mod Model
pub mod Queries
pub mod Repository
pub mod Service
pub mod Calls
mod Held
pub mod Exclusive
pub mod Verdict
pub mod Once
pub mod Kept
