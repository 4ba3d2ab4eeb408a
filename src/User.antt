-- ===== src/User.antt =====
-- Users: api/internal/user.
pub mod Model
pub mod Queries
pub mod Repository
pub mod Service
pub mod Accounts
pub mod Elsewhere
pub mod Registering
