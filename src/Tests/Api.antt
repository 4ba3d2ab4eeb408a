-- ===== src/Tests/Api.antt =====
-- Requests to the whole API.
use distributed_order_proces.Base.{refl, ◌≡◌, [], ◌∷◌, none, some, true, List}
use distributed_order_proces.Auth.Jwt.{Jwt, validate_token}
use distributed_order_proces.Tests.Shop.{calm, open_shop, shop}
use distributed_order_proces.Tests.Idempotency.{codec}
use distributed_order_proces.Tests.Orders.{basket}
use distributed_order_proces.Tests.Catalog.{products, shop-IsShop}
use distributed_order_proces.Tests.Users.{plain_hashes, stroke_tokens, manager, shop-Accounts}
use distributed_order_proces.Tests.Logins.{users}
use distributed_order_proces.Tests.Redis.{redis, two}
use distributed_order_proces.Http.Guarded.{unauthorized, serve-unauthorized}
use distributed_order_proces.Http.Ownership.{Denied, foreign-Denied}
use distributed_order_proces.Http.Healthy.{Healthy, serve_all-Healthy}
use distributed_order_proces.Http.Lifecycle.{serve_all-Evolves}
use distributed_order_proces.Ledger.Evolution.{Evolves}
use distributed_order_proces.Http.Api.{
  serve, serve_all, Parts, Route, State, HttpRequest, order_route, post_cancel, post_orders,
  payment_route, post_pay, user_route, post_users_login, product_route, delete_product,
}
use distributed_order_proces.Http.Message.{Request}
use distributed_order_proces.Http.Orders.{handle_get_order_by_id, handle_cancel_order}
use distributed_order_proces.Http.Payments.{handle_pay, handle_get_payment_by_order_id}

abbrev parts_with : Jwt → Parts
parts_with jwt = record {
  env = calm;
  codec = record codec { decode = λ s. some basket; parse_uuid = λ s. some 20 };
  products = products;
  users = users;
  crypto = plain_hashes;
  jwt = jwt;
  manager = manager;
  redis = redis;
  limiter = two;
}

abbrev parts : Parts
parts = parts_with stroke_tokens

-- Tokens are all refused.
abbrev strict : Parts
strict = parts_with (record stroke_tokens { parse_with_claims = λ secret now t. none })

abbrev asking : Route → HttpRequest
asking route = record {
  route = route;
  remote_addr = "10.0.0.1";
  authorization = "Bearer |";
  idempotency_key = "k9";
  body = some "h";
  page = "";
  limit = "";
  db_up = true;
  redis_up = true;
}

abbrev start : State parts
start = (open_shop, λ k. none)

serve-unauthorized_example :
    serve strict (asking (order_route (post_cancel "20"))) (open_shop, λ k. none)
    ≡ unauthorized strict (open_shop, λ k. none)
unfolding validate_token
serve-unauthorized_example =
    serve-unauthorized strict (asking (order_route (post_cancel "20"))) (open_shop, λ k. none) refl
      refl

-- An order is placed, an older one paid and then cancelled in vain, a user logs in and a product is
-- deleted.
abbrev day : List HttpRequest
day =
    asking (order_route post_orders)
    ∷ asking (payment_route (post_pay "20"))
    ∷ asking (order_route (post_cancel "20"))
    ∷ asking (user_route post_users_login)
    ∷ asking (product_route (delete_product "3"))
    ∷ []

serve_all-Evolves_example : Evolves shop (serve_all parts day start).0.db
serve_all-Evolves_example = serve_all-Evolves parts day start

serve_all-Healthy_example : Healthy (λ s. s) (serve_all parts day start).0.db
serve_all-Healthy_example =
    serve_all-Healthy parts day start (record { shop = shop-IsShop; accounts = shop-Accounts })

-- Another user asks for the customer's order.
abbrev stranger : Request
stranger = record { user_id = some 2; idempotency_key = "k9"; body = none; id = "20" }

foreign-Denied_example :
    Denied calm open_shop (handle_get_order_by_id calm parts.codec stranger open_shop)
    × Denied calm open_shop (handle_cancel_order calm parts.codec stranger open_shop)
    × Denied calm open_shop (handle_pay calm parts.codec stranger open_shop)
    × Denied calm open_shop (handle_get_payment_by_order_id calm parts.codec stranger open_shop)
foreign-Denied_example = foreign-Denied calm parts.codec stranger 2 20 open_shop refl refl refl
