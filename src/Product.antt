-- ===== src/Product.antt =====
-- The catalog: api/internal/product.
pub mod Model
pub mod Queries
pub mod Repository
pub mod Service
pub mod Pages
pub mod Catalog
pub mod Edits
pub mod Elsewhere
pub mod Shop
pub mod Varchar
pub mod Creating
pub mod Updating
pub mod Deleting
