-- ===== src/Http/Message.antt =====
-- Responses: api/internal/platform/httpx/response.go. The envelope's `data` is one of the values that
-- the handlers write.
use distributed_order_proces.Base.{ℕ, String, Bool, Option, List}
use distributed_order_proces.Database.Rows.{Uuid}
use distributed_order_proces.Database.Tx.{World}
use distributed_order_proces.Order.Model.{CreateOrderRequest, CreateOrderResponse, Order}
use distributed_order_proces.Payment.Model as PaymentModel
use distributed_order_proces.Product.Model as ProductModel
use distributed_order_proces.User.Model as UserModel

-- `saved` is a stored response, written as it is; `aborted` stands for a handler that panicked.
pub data Payload : Type 0 where
  message : String → Payload
  order_created : CreateOrderResponse → Payload
  order_value : Order → Payload
  order_list : List Order → Payload
  pay_response : PaymentModel.PayResponse → Payload
  payment_value : PaymentModel.Payment → Payload
  product_value : ProductModel.Product → Payload
  product_list : List ProductModel.Product → Payload
  saved : Option String → Payload
  no_content : Payload
  user_value : UserModel.User → Payload
  token : String → Payload
  user_id_text : Uuid → Payload
  plain_text : String → Payload
  checks : String → String → Payload  -- the states of the database and of Redis
  aborted : Payload

pub record Response : Type 0 where
  pub status : ℕ
  pub body : Payload

abbrev pub write_error_json : ℕ → String → Response
write_error_json status text = record { status = status; body = message text }

abbrev pub write_json : ℕ → Payload → Response
write_json status body = record { status = status; body = body }

-- A handler, once the request is fixed.
abbrev pub Handler : Type 0
Handler = World → Response × World

-- What the handlers take from libraries: encoding/json, go-playground/validator, crypto/sha256,
-- google/uuid.
pub record Codec : Type 0 where
  pub decode : String → Option CreateOrderRequest
  pub validate : CreateOrderRequest → Bool
  pub marshal : CreateOrderResponse → Option String
  pub sha256_hex : String → String
  pub parse_uuid : String → Option Uuid

-- A request: the user that the auth middleware found, the header, and the body if it can be read.
pub record Request : Type 0 where
  pub user_id : Option Uuid
  pub idempotency_key : String  -- "" if there is no header
  pub body : Option String
  pub id : String  -- the path parameter
