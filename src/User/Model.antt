-- ===== src/User/Model.antt =====
-- user_model.go, and what the service takes from bcrypt and from PostgreSQL's LOWER.
use distributed_order_proces.Base.{ℕ, String, Bool, Option}
use distributed_order_proces.Database.Rows.{Uuid, Time}

pub record User : Type 0 where
  pub id : Uuid
  pub email : String
  pub password_hash : String
  pub created_at : Time
  pub updated_at : Time

pub record RegisterRequest : Type 0 where
  pub email : String
  pub password : String

pub record LoginRequest : Type 0 where
  pub email : String
  pub password : String

-- `hash` is read at the number of the call, since bcrypt draws a salt. `none` is its error.
pub record Crypto : Type 0 where
  pub hash : ℕ → String → Option String
  pub matches : String → String → Bool
  pub lower : String → String
