-- ===== src/Database/Rows.antt =====
-- The tables: api/migrations/*.up.sql, with the row structs that sqlc generates for them
-- (api/internal/*/sqlc/models.go). A UUID is its 128-bit number, so that the order of the numbers
-- is that of the bytes; a timestamp is a number of nanoseconds; an integer is a bit pattern.
use distributed_order_proces.Base.{ℕ, String, Bool, true, false, Option, List}

abbrev pub Uuid : Type 0
Uuid = ℕ

abbrev pub Time : Type 0
Time = ℕ

-- The CHECK constraint on orders.status allows these three strings.
pub data OrderStatus : Type 0 where
  pending paid cancelled : OrderStatus

-- The CHECK constraint on payments.status allows these three.
pub data PaymentStatus : Type 0 where
  pending success failed : PaymentStatus

pub record UserRow : Type 0 where
  pub id : Uuid
  pub email : String
  pub password_hash : String
  pub created_at : Time
  pub updated_at : Time

pub record ProductRow : Type 0 where
  pub id : Uuid
  pub name : String
  pub description : String
  pub price : ℕ  -- BIGINT
  pub stock : ℕ  -- INT
  pub created_at : Time
  pub updated_at : Time

pub record OrderRow : Type 0 where
  pub id : Uuid
  pub user_id : Uuid
  pub status : OrderStatus
  pub total_amount : ℕ  -- BIGINT
  pub created_at : Time
  pub updated_at : Time

pub record OrderItemRow : Type 0 where
  pub id : Uuid
  pub order_id : Uuid
  pub product_id : Uuid
  pub quantity : ℕ  -- INT
  pub price : ℕ  -- BIGINT
  pub subtotal : ℕ  -- BIGINT
  pub created_at : Time
  pub updated_at : Time

pub record PaymentRow : Type 0 where
  pub id : Uuid
  pub order_id : Uuid
  pub amount : ℕ  -- BIGINT
  pub status : PaymentStatus
  pub provider : String
  pub transaction_id : Option String
  pub created_at : Time
  pub updated_at : Time

pub record IdempotencyKeyRow : Type 0 where
  pub key : String
  pub user_id : Uuid
  pub request_hash : String
  pub response : Option String  -- JSONB
  pub created_at : Time
  pub updated_at : Time

pub record Db : Type 0 where
  pub users : List UserRow
  pub products : List ProductRow
  pub orders : List OrderRow
  pub order_items : List OrderItemRow
  pub payments : List PaymentRow
  pub idempotency_keys : List IdempotencyKeyRow

-- `status == "pending"` and the like.
abbrev pub is_pending : OrderStatus → Bool
is_pending OrderStatus.pending = true
is_pending _ = false

abbrev pub is_cancelled : OrderStatus → Bool
is_cancelled OrderStatus.cancelled = true
is_cancelled _ = false

abbrev pub is_success : PaymentStatus → Bool
is_success PaymentStatus.success = true
is_success _ = false
