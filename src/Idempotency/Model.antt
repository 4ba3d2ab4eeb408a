-- ===== src/Idempotency/Model.antt =====
-- idempotency_model.go
use distributed_order_proces.Base.{String, Option}
use distributed_order_proces.Database.Rows.{Uuid, Time}

pub record IdempotencyKey : Type 0 where
  pub key : String
  pub user_id : Uuid
  pub request_hash : String
  pub response : Option String
  pub created_at : Time
  pub updated_at : Time

pub data IdempotencyKeyStatus : Type 0 where
  new replayed mismatch in_progress : IdempotencyKeyStatus

pub record IdempotencyResult : Type 0 where
  pub status : IdempotencyKeyStatus
  pub response : Option String
