-- ===== src/Http/Guarded.antt =====
-- Requests without a token that is accepted.
use distributed_order_proces.Base.{◌≡◌, refl, Bool, true, false}
use distributed_order_proces.Database.Tx.{World}
use distributed_order_proces.Auth.Jwt.{invalid, validate_token}
use distributed_order_proces.Auth.Header.{bearer_token}
use distributed_order_proces.Http.Message.{Response, write_error_json}
use distributed_order_proces.Http.Users.{auth_middleware}
use distributed_order_proces.Http.Api.{
  Route, HttpRequest, Parts, State, dispatch, order_routes, payment_routes, user_routes, serve,
  post_register, post_users_login, get_me, get_orders, post_orders, get_order, post_cancel,
  post_pay, get_payment, health_route, OrderRoute, PaymentRoute, user_route, product_route,
  order_route, payment_route,
}

-- The endpoints that README.md marks as expecting a token.
abbrev pub expects_token : Route → Bool
expects_token (health_route r) = false
expects_token (user_route get_me) = true
expects_token (user_route post_register) = false
expects_token (user_route post_users_login) = false
expects_token (product_route r) = false
expects_token (order_route r) = true
expects_token (payment_route r) = true

module _ (p : Parts) where
  -- The token of a request is missing, malformed or expired.
  abbrev pub IsRefused : HttpRequest → World → Type 0
  IsRefused rq w =
      validate_token p.env p.jwt (bearer_token rq.authorization) p.manager.secret w ≡ invalid

  abbrev pub unauthorized : State p → Response × State p
  unauthorized x = (write_error_json 401 "invalid or expired token", x)

  order_routes-unauthorized :
      (r : OrderRoute) (rq : HttpRequest) (x : State p)
      → IsRefused rq x.0
      → order_routes p r rq x ≡ unauthorized x
  unfolding order_routes auth_middleware
  order_routes-unauthorized get_orders rq x h = rw h refl
  order_routes-unauthorized post_orders rq x h = rw h refl
  order_routes-unauthorized (get_order id) rq x h = rw h refl
  order_routes-unauthorized (post_cancel id) rq x h = rw h refl

  payment_routes-unauthorized :
      (r : PaymentRoute) (rq : HttpRequest) (x : State p)
      → IsRefused rq x.0
      → payment_routes p r rq x ≡ unauthorized x
  unfolding payment_routes auth_middleware
  payment_routes-unauthorized (post_pay id) rq x h = rw h refl
  payment_routes-unauthorized (get_payment id) rq x h = rw h refl

  dispatch-unauthorized :
      (route : Route) (rq : HttpRequest) (x : State p)
      → expects_token route ≡ true
      → IsRefused rq x.0
      → dispatch p route rq x ≡ unauthorized x
  unfolding dispatch user_routes auth_middleware
  dispatch-unauthorized (health_route r) rq x e h = cc
  dispatch-unauthorized (user_route get_me) rq x e h = rw h refl
  dispatch-unauthorized (user_route post_register) rq x e h = cc
  dispatch-unauthorized (user_route post_users_login) rq x e h = cc
  dispatch-unauthorized (product_route r) rq x e h = cc
  dispatch-unauthorized (order_route r) rq x e h = order_routes-unauthorized r rq x h
  dispatch-unauthorized (payment_route r) rq x e h = payment_routes-unauthorized r rq x h

  -- On every endpoint that README.md marks as expecting a token, a request whose token is refused is
  -- answered 401 and changes neither the tables nor Redis.
  pub serve-unauthorized :
      (rq : HttpRequest) (x : State p)
      → expects_token rq.route ≡ true
      → IsRefused rq x.0
      → serve p rq x ≡ unauthorized x
  unfolding serve
  serve-unauthorized rq x e h = dispatch-unauthorized rq.route rq x e h
