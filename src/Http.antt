-- ===== src/Http.antt =====
-- The HTTP side of the routes: what a handler and its middleware answer. Decoding, validation,
-- hashing and encoding belong to libraries, and are parameters.
pub mod Message
pub mod Idempotency
pub mod Orders
pub mod Payments
pub mod Products
pub mod Users
pub mod Lockout
pub mod SignIn
pub mod Refusals
pub mod Replay
pub mod Retry
pub mod Errors
pub mod Api
pub mod Reads
pub mod Answers
pub mod Handlers
pub mod Catalogue
pub mod Kept
pub mod Lifecycle
pub mod Healthy
pub mod Guarded
pub mod Ownership
