-- ===== src/Http/Api.antt =====
-- server/router.go with the RegisterRoutes of the handlers: the routes of the API and the middleware
-- that each stands behind. chi matches a request to its route and reads the path parameters.
use distributed_order_proces.Base.{String, Bool, Option, none, some, List, ◌∷◌, []}
use distributed_order_proces.Database.Tx.{World, Env}
use distributed_order_proces.User.Model.{Crypto}
use distributed_order_proces.Auth.Jwt.{Jwt, JwtManager}
use distributed_order_proces.RateLimit.Redis.{Redis}
use distributed_order_proces.RateLimit.Limiter.{RateLimiter}
use distributed_order_proces.Platform.Health.{live_z, ready_z}
use distributed_order_proces.Http.Message.{Response, Handler, Codec, Request}
use distributed_order_proces.Http.Orders.{
  handle_get_orders, handle_get_order_by_id, handle_cancel_order, post_order,
}
use distributed_order_proces.Http.Payments.{handle_pay, handle_get_payment_by_order_id}
use distributed_order_proces.Http.Products.{
  ProductCodec, handle_list_products, handle_get_product_by_id, handle_create_product,
  handle_update_product, handle_delete_product,
}
use distributed_order_proces.Http.Users.{
  UserCodec, handle_register, handle_me, auth_middleware, post_login,
}
use distributed_order_proces.Database.Rows.{Uuid}

-- The routes that each handler registers. The path parameter is the text of the id.
pub data HealthRoute : Type 0 where
  get_livez get_readyz : HealthRoute

pub data UserRoute : Type 0 where
  post_register post_users_login get_me : UserRoute

pub data ProductRoute : Type 0 where
  get_products post_products : ProductRoute
  get_product patch_product delete_product : String → ProductRoute

pub data OrderRoute : Type 0 where
  get_orders post_orders : OrderRoute
  get_order post_cancel : String → OrderRoute

pub data PaymentRoute : Type 0 where
  post_pay get_payment : String → PaymentRoute

pub data Route : Type 0 where
  health_route : HealthRoute → Route
  user_route : UserRoute → Route
  product_route : ProductRoute → Route
  order_route : OrderRoute → Route
  payment_route : PaymentRoute → Route

-- What the handlers read of a request. A body that cannot be read decodes as the empty one does, with
-- an error. `db_up` and `redis_up` are what the pings of the readiness probe find.
pub record HttpRequest : Type 0 where
  pub route : Route
  pub remote_addr : String
  pub authorization : String
  pub idempotency_key : String
  pub body : Option String
  pub page : String
  pub limit : String
  pub db_up : Bool
  pub redis_up : Bool

-- What NewRouter is given, with the libraries behind it.
pub record Parts : Type 1 where
  pub env : Env
  pub codec : Codec
  pub products : ProductCodec
  pub users : UserCodec
  pub crypto : Crypto
  pub jwt : Jwt
  pub manager : JwtManager
  pub redis : Redis
  pub limiter : RateLimiter

abbrev pub text_of : Option String → String
text_of none = ""
text_of (some body) = body

abbrev pub request_of : HttpRequest → String → Uuid → Request
request_of rq id user_id = record {
  user_id = some user_id;
  idempotency_key = rq.idempotency_key;
  body = rq.body;
  id = id;
}

module _ (p : Parts) where
  abbrev pub State : Type 0
  State = World × p.redis.Store

  -- A handler that does not use Redis.
  abbrev pub beside : Handler → State → Response × State
  beside h (w, s) = let (response, w') = h w in (response, (w', s))

  abbrev pub behind_auth : HttpRequest → (Uuid → Handler) → Handler
  behind_auth rq next = auth_middleware p.env p.jwt p.manager rq.authorization next

  abbrev pub regroup : Response × World × p.redis.Store → Response × State
  regroup (response, w, s) = (response, (w, s))

  unfoldable pub health_routes : HealthRoute → HttpRequest → State → Response × State
  health_routes get_livez rq = beside (λ w. (live_z, w))
  health_routes get_readyz rq = beside (λ w. (ready_z rq.db_up rq.redis_up, w))

  unfoldable pub user_routes : UserRoute → HttpRequest → State → Response × State
  user_routes post_register rq = beside (handle_register p.env p.crypto p.users (text_of rq.body))
  user_routes post_users_login rq = λ x. regroup (
      post_login p.redis p.limiter p.env p.crypto p.jwt p.manager p.users rq.remote_addr
        (text_of rq.body) x)
  user_routes get_me rq = beside (behind_auth rq (λ u. handle_me (some u)))

  unfoldable pub product_routes : ProductRoute → HttpRequest → State → Response × State
  product_routes get_products rq = beside (handle_list_products p.env p.products rq.page rq.limit)
  product_routes post_products rq =
      beside (handle_create_product p.env p.products (text_of rq.body))
  product_routes (get_product id) rq = beside (handle_get_product_by_id p.env p.products id)
  product_routes (patch_product id) rq =
      beside (handle_update_product p.env p.products id (text_of rq.body))
  product_routes (delete_product id) rq = beside (handle_delete_product p.env p.products id)

  unfoldable pub order_routes : OrderRoute → HttpRequest → State → Response × State
  order_routes get_orders rq = beside (behind_auth rq (λ u. handle_get_orders p.env (some u)))
  order_routes post_orders rq =
      beside (behind_auth rq (λ u. post_order p.env p.codec (request_of rq "" u)))
  order_routes (get_order id) rq =
      beside (behind_auth rq (λ u. handle_get_order_by_id p.env p.codec (request_of rq id u)))
  order_routes (post_cancel id) rq =
      beside (behind_auth rq (λ u. handle_cancel_order p.env p.codec (request_of rq id u)))

  unfoldable pub payment_routes : PaymentRoute → HttpRequest → State → Response × State
  payment_routes (post_pay id) rq =
      beside (behind_auth rq (λ u. handle_pay p.env p.codec (request_of rq id u)))
  payment_routes (get_payment id) rq =
      beside
        (behind_auth rq (λ u. handle_get_payment_by_order_id p.env p.codec (request_of rq id u)))

  unfoldable pub dispatch : Route → HttpRequest → State → Response × State
  dispatch (health_route r) = health_routes r
  dispatch (user_route r) = user_routes r
  dispatch (product_route r) = product_routes r
  dispatch (order_route r) = order_routes r
  dispatch (payment_route r) = payment_routes r

  -- One request, answered.
  unfoldable pub serve : HttpRequest → State → Response × State
  unfolding dispatch
  serve rq x = dispatch rq.route rq x

  -- What is left after a sequence of requests.
  unfoldable pub serve_all : List HttpRequest → State → State
  serve_all [] x = x
  serve_all (rq ∷ requests) x = serve_all requests (serve rq x).1
