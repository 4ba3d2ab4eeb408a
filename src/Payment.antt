-- ===== src/Payment.antt =====
-- The payment domain: api/internal/payment.
pub mod Model
pub mod Queries
pub mod Provider
pub mod Repository
pub mod Service
pub mod Frame
pub mod LockOrder
pub mod Deadlock
