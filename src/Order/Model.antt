-- ===== src/Order/Model.antt =====
-- order_model.go: the values that the service passes on, and the parameters of the statements.
use distributed_order_proces.Base.{ℕ, String, Option, List}
use distributed_order_proces.Database.Rows.{Uuid, Time, OrderStatus, PaymentStatus}

pub record Order : Type 0 where
  pub id : Uuid
  pub user_id : Uuid
  pub status : OrderStatus
  pub total_amount : ℕ
  pub created_at : Time
  pub updated_at : Time

pub record OrderItem : Type 0 where
  pub id : Uuid
  pub order_id : Uuid
  pub product_id : Uuid
  pub quantity : ℕ
  pub price : ℕ
  pub sub_total : ℕ
  pub created_at : Time
  pub updated_at : Time

pub record Product : Type 0 where
  pub id : Uuid
  pub name : String
  pub description : String
  pub price : ℕ
  pub stock : ℕ
  pub created_at : Time
  pub updated_at : Time

pub record Payment : Type 0 where
  pub id : Uuid
  pub order_id : Uuid
  pub amount : ℕ
  pub status : PaymentStatus
  pub transaction_id : Option String
  pub provider : String
  pub created_at : Time
  pub updated_at : Time

pub record CreateOrderItemRequest : Type 0 where
  pub product_id : Uuid
  pub quantity : ℕ  -- an `int`, which may be negative

pub record CreateOrderRequest : Type 0 where
  pub items : List CreateOrderItemRequest

pub record CreateOrderResponse : Type 0 where
  pub order : Order
  pub items : List OrderItem
  pub payment : Payment

-- order_store.go
pub record CreateOrderItemParams : Type 0 where
  pub order_id : Uuid
  pub product_id : Uuid
  pub quantity : ℕ
  pub price : ℕ
