-- ===== src/Payment/Model.antt =====
-- payment_model.go
use distributed_order_proces.Base.{ℕ, String, Option}
use distributed_order_proces.Database.Rows.{Uuid, Time, OrderStatus, PaymentStatus}

pub record Payment : Type 0 where
  pub id : Uuid
  pub order_id : Uuid
  pub amount : ℕ
  pub status : PaymentStatus
  pub transaction_id : Option String
  pub provider : String
  pub created_at : Time
  pub updated_at : Time

pub record Order : Type 0 where
  pub id : Uuid
  pub user_id : Uuid
  pub status : OrderStatus
  pub total_amount : ℕ
  pub created_at : Time
  pub updated_at : Time

pub record PayResponse : Type 0 where
  pub payment : Payment
  pub order : Order
