-- ===== src/Product/Model.antt =====
-- product_model.go
use distributed_order_proces.Base.{ℕ, String, Option}
use distributed_order_proces.Database.Rows.{Uuid, Time}

pub record Product : Type 0 where
  pub id : Uuid
  pub name : String
  pub description : String
  pub price : ℕ
  pub stock : ℕ
  pub created_at : Time
  pub updated_at : Time

pub record CreateProductRequest : Type 0 where
  pub name : String
  pub description : String
  pub price : ℕ
  pub stock : ℕ

-- A field that is `none` is a nil pointer: it is left as it is.
pub record UpdateProductRequest : Type 0 where
  pub name : Option String
  pub description : Option String
  pub price : Option ℕ
  pub stock : Option ℕ
