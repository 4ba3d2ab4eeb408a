-- ===== src/Http/Orders.antt =====
-- order_handler.go: what each route answers for each outcome of the service.
use distributed_order_proces.Base.{String, Option, none, some, List, not, if◌then◌else◌}
use distributed_order_proces.Database.Rows.{Uuid}
use distributed_order_proces.Database.Tx.{
  Error, product_not_found, insufficient_stock, order_not_found, order_not_pending,
  order_items_unavailable, Result, ok, err, World, Env,
}
use distributed_order_proces.Order.Model.{
  Order, OrderItem, Payment, CreateOrderRequest, CreateOrderResponse,
}
use distributed_order_proces.Order.Service.{create_order, cancel_order, get_orders, get_order_by_id}
use distributed_order_proces.Idempotency.Service.{save_response}
use distributed_order_proces.Http.Message.{
  order_created, order_value, order_list, Response, write_error_json, write_json, Handler, Codec,
  Request,
}
use distributed_order_proces.Http.Idempotency.{idempotency_middleware}

-- The errors of `CreateOrder`; the text of a business error is its own.
unfoldable pub create_order_error : Error → Response
create_order_error product_not_found = write_error_json 404 "product not found"
create_order_error insufficient_stock = write_error_json 409 "insufficient stock"
create_order_error order_not_found = write_error_json 404 "order not found"
create_order_error _ = write_error_json 500 "something went wrong"

-- The response is stored before it is sent; a failure to encode or store it is only logged.
abbrev pub save_encoded : Env → String → Uuid → Option String → World → World
save_encoded env key user_id none w = w
save_encoded env key user_id (some json) w = (save_response env key user_id json w).1

abbrev pub response_of : Order × List OrderItem × Payment → CreateOrderResponse
response_of (o, items, p) = record { order = o; items = items; payment = p }

unfoldable pub answer_created :
    Env
    → Codec
    → String
    → Uuid
    → Result (Order × List OrderItem × Payment) × World
    → Response × World
answer_created env codec key user_id (err e, w) = (create_order_error e, w)
answer_created env codec key user_id (ok created, w) =
    let resp = response_of created in
    (write_json 201 (order_created resp), save_encoded env key user_id (codec.marshal resp) w)

-- The user and the key of the context.
abbrev pub create_for : Env → Codec → CreateOrderRequest → Option Uuid → Option String → Handler
create_for env codec req none key w = (write_error_json 401 "unauthorized", w)
create_for env codec req (some user_id) none w = (write_error_json 500 "something went wrong", w)
create_for env codec req (some user_id) (some key) w =
    answer_created env codec key user_id (create_order env user_id req w)

abbrev pub create_decoded :
    Env → Codec → Option Uuid → Option String → Option CreateOrderRequest → Handler
create_decoded env codec user_id key none w = (write_error_json 400 "invalid json payload", w)
create_decoded env codec user_id key (some req) w =
    if not (codec.validate req)
    then (write_error_json 400 "invalid request", w)
    else create_for env codec req user_id key w

-- `OrderHandler.CreateOrder`, for the user and the key of the context and the body.
unfoldable pub handle_create_order : Env → Codec → Option Uuid → Option String → String → Handler
handle_create_order env codec user_id key body w =
    create_decoded env codec user_id key (codec.decode body) w

-- POST /api/orders/ behind the idempotency middleware.
unfoldable pub post_order : Env → Codec → Request → Handler
post_order env codec r =
    idempotency_middleware env codec
      (λ key body. handle_create_order env codec r.user_id (some key) body) r

abbrev pub answer_orders : Result (List Order) × World → Response × World
answer_orders (ok orders, w) = (write_json 200 (order_list orders), w)
answer_orders (err e, w) = (write_error_json 500 "something went wrong", w)

unfoldable pub handle_get_orders : Env → Option Uuid → Handler
handle_get_orders env none w = (write_error_json 401 "unauthorized", w)
handle_get_orders env (some user_id) w = answer_orders (get_orders env user_id w)

unfoldable pub get_order_error : Error → Response
get_order_error order_not_found = write_error_json 404 "order not found"
get_order_error _ = write_error_json 500 "something went wrong"

unfoldable pub cancel_order_error : Error → Response
cancel_order_error order_not_found = write_error_json 404 "order not found"
cancel_order_error order_not_pending = write_error_json 409 "status order is not pending"
cancel_order_error order_items_unavailable = write_error_json 404 "no order items is available"
cancel_order_error product_not_found = write_error_json 404 "product not found"
cancel_order_error _ = write_error_json 500 "something went wrong"

abbrev pub answer_order : (Error → Response) → Result Order × World → Response × World
answer_order on_error (ok o, w) = (write_json 200 (order_value o), w)
answer_order on_error (err e, w) = (on_error e, w)

-- The two parses that the routes on one order begin with.
abbrev pub with_order_id : (Uuid → Uuid → Handler) → Option Uuid → Option Uuid → Handler
with_order_id act none user_id w = (write_error_json 400 "invalid id format", w)
with_order_id act (some order_id) none w = (write_error_json 401 "unauthorized", w)
with_order_id act (some order_id) (some user_id) w = act user_id order_id w

unfoldable pub handle_get_order_by_id : Env → Codec → Request → Handler
handle_get_order_by_id env codec r =
    with_order_id
      (λ user_id order_id w. answer_order get_order_error (get_order_by_id env user_id order_id w))
      (codec.parse_uuid r.id) r.user_id

unfoldable pub handle_cancel_order : Env → Codec → Request → Handler
handle_cancel_order env codec r =
    with_order_id
      (λ user_id order_id w. answer_order cancel_order_error (cancel_order env user_id order_id w))
      (codec.parse_uuid r.id) r.user_id
