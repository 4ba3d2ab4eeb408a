-- ===== src/Tests.antt =====
-- Runs of the model on concrete data, and the theorems applied to such data.
mod Shop
mod Orders
mod Idempotency
mod Retry
mod Catalog
mod Redis
mod Users
mod Logins
mod Api
mod Locks
mod Available
mod Platform
