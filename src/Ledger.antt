-- ===== src/Ledger.antt =====
-- What the order, payment and catalog code owes to the shop as a whole: a sound database and a
-- stock ledger. Units of a product are on hand (products.stock) or reserved by the items of an
-- order that has not been cancelled.
pub mod Spec
mod Rows
pub mod Statements
pub mod Opening
pub mod Placing
pub mod Prices
pub mod Pricing
pub mod Demand
pub mod Available
pub mod OrderRows
pub mod Refunds
pub mod Cancelling
mod Settling
pub mod Paying
pub mod Retrying
pub mod Charged
pub mod History
pub mod Evolution
pub mod Lifecycle
