-- ===== src/Order.antt =====
-- The order domain: api/internal/order.
pub mod Model
pub mod Queries
pub mod Store
pub mod Service
pub mod Frame
pub mod Answered
pub mod Stable
pub mod Totals
pub mod LockOrder
