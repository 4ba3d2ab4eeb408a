-- ===== src/Http/Kept.antt =====
-- What every request keeps: a property of the tables that the operations on orders, payments, products
-- and users keep is kept by the whole API.
use distributed_order_proces.Base.{
  String, Bool, true, false, Option, none, some, List, Bool-cases, ◌∷◌, inl, [], inr,
}
use distributed_order_proces.Database.Rows.{Uuid, Db}
use distributed_order_proces.Database.Tx.{World, Result, ok, err}
use distributed_order_proces.Database.Keeps.{Keeps-after}
use distributed_order_proces.User.Model.{LoginRequest}
use distributed_order_proces.Http.Message.{Response, Handler}
use distributed_order_proces.Http.Products.{handle_list_products, handle_create_product}
use distributed_order_proces.Http.Users.{
  answer_login, LoginHandler, post_login, login_valid, if_allowed, login_rate_limiter,
  handle_register, is_login_generic, handle_login, handle_me, client_ip,
}
use distributed_order_proces.Http.Answers.{After, Preserves}
use distributed_order_proces.RateLimit.Limiter.{allow, login_key}
use distributed_order_proces.Http.Handlers.{
  Kept, get_orders-Kept, post_order-Kept, get_order-Kept, cancel-Kept, pay-Kept, get_payment-Kept,
}
use distributed_order_proces.Http.Catalogue.{
  list_page-Kept, behind_auth-Kept, register_valid-Kept, create_valid-Kept, get_product-Kept,
  update_product-Kept, delete_product-Kept,
}
use distributed_order_proces.Http.Api.{
  delete_product, Parts, State, HttpRequest, dispatch, order_routes, payment_routes, user_routes,
  product_routes, health_routes, serve, serve_all, beside, behind_auth, Route, text_of, get_product,
  patch_product, request_of, get_order, post_cancel, post_pay, get_payment, get_livez, get_readyz,
  post_register, post_users_login, get_me, get_products, post_products, get_orders, post_orders,
  HealthRoute, UserRoute, ProductRoute, OrderRoute, PaymentRoute, health_route, user_route,
  product_route, order_route, payment_route,
}
use distributed_order_proces.Http.Reads.{login-Keeps}

module _ (p : Parts) (I : Db → Type 0) (k : Kept p.env p.crypto I) where
  -- The tables meet `I` after an answer.
  abbrev Answered : Response × State p → Type 0
  Answered r = I r.1.0.db

  beside-Kept : (h : Handler) → Preserves I h → (x : State p) → I x.0.db → Answered (beside p h x)
  beside-Kept h k x i = k x.0 i

  answer_login-Kept :
      (key : String) (r : Result String × World) (s : p.redis.Store)
      → After I r
      → I (answer_login p.redis p.limiter key r s).1.db
  answer_login-Kept key (ok t, w) s h = h
  answer_login-Kept key (err e, w) s h = elim (Bool-cases (is_login_generic e)) [
    | inl generic ↦ rw generic h
    | inr other ↦ rw other h
  ]

  login_valid-Kept :
      (ip : String) (o : Option LoginRequest) (x : State p)
      → I x.0.db
      → I (login_valid p.redis p.limiter p.env p.crypto p.jwt p.manager p.users ip o x).1.db
  login_valid-Kept ip none x h = h
  login_valid-Kept ip (some req) (w, s) h = elim (Bool-cases (p.users.validate_login req)) [
    | inl valid ↦ rw valid (
        answer_login-Kept _ _ s
          (Keeps-after I (login-Keeps p.env I p.crypto p.jwt p.manager req w h)))
    | inr bad ↦ rw bad h
  ]

  if_allowed-Kept :
      (next : LoginHandler p.redis p.limiter) (o : Option Bool) (x : State p)
      → I x.0.db
      → ((x : State p) → I x.0.db → I (next x).1.db)
      → I (if_allowed p.redis p.limiter next o x).1.db
  if_allowed-Kept next none x h n = n x h
  if_allowed-Kept next (some false) x h n = h
  if_allowed-Kept next (some true) x h n = n x h

  post_login-Kept :
      (remote_addr body : String) (x : State p)
      → I x.0.db
      → I
          (post_login p.redis p.limiter p.env p.crypto p.jwt p.manager p.users remote_addr body
            x).1.db
  unfolding post_login login_rate_limiter handle_login
  post_login-Kept remote_addr body x h =
      if_allowed-Kept
        (handle_login p.redis p.limiter p.env p.crypto p.jwt p.manager p.users remote_addr body)
        (allow p.redis p.limiter (login_key (client_ip p.users remote_addr)) x.1) x h
        (λ x' h'.
          login_valid-Kept (client_ip p.users remote_addr) (p.users.decode_login body) x' h')

  guarded-Kept :
      (rq : HttpRequest) (next : Uuid → Handler)
      → ((u : Uuid) → Preserves I (next u))
      → Preserves I (behind_auth p rq next)
  guarded-Kept rq next n =
      behind_auth-Kept p.env p.crypto I k p.jwt p.manager rq.authorization next n

  health_routes-Kept :
      (r : HealthRoute) (rq : HttpRequest) (x : State p)
      → I x.0.db
      → Answered (health_routes p r rq x)
  unfolding health_routes
  health_routes-Kept get_livez rq x h = h
  health_routes-Kept get_readyz rq x h = h

  user_routes-Kept :
      (r : UserRoute) (rq : HttpRequest) (x : State p) → I x.0.db → Answered (user_routes p r rq x)
  unfolding user_routes handle_register handle_me
  user_routes-Kept post_register rq x h =
      register_valid-Kept p.env p.crypto I k p.users (p.users.decode_register (text_of rq.body)) x.0
        h
  user_routes-Kept post_users_login rq x h = post_login-Kept rq.remote_addr (text_of rq.body) x h
  user_routes-Kept get_me rq x h = guarded-Kept rq _ (λ u w' h'. h') x.0 h

  product_routes-Kept :
      (r : ProductRoute) (rq : HttpRequest) (x : State p)
      → I x.0.db
      → Answered (product_routes p r rq x)
  unfolding product_routes handle_list_products handle_create_product
  product_routes-Kept get_products rq x h = list_page-Kept p.env p.crypto I k _ _ x.0 h
  product_routes-Kept post_products rq x h =
      create_valid-Kept p.env p.crypto I k p.products (p.products.decode_create (text_of rq.body))
        x.0 h
  product_routes-Kept (get_product id) rq x h =
      get_product-Kept p.env p.crypto I k p.products id x.0 h
  product_routes-Kept (patch_product id) rq x h =
      update_product-Kept p.env p.crypto I k p.products id (text_of rq.body) x.0 h
  product_routes-Kept (delete_product id) rq x h =
      delete_product-Kept p.env p.crypto I k p.products id x.0 h

  order_routes-Kept :
      (r : OrderRoute) (rq : HttpRequest) (x : State p)
      → I x.0.db
      → Answered (order_routes p r rq x)
  unfolding order_routes
  order_routes-Kept get_orders rq x h =
      guarded-Kept rq _ (λ u. get_orders-Kept p.env p.crypto I k u) x.0 h
  order_routes-Kept post_orders rq x h =
      guarded-Kept rq _ (λ u. post_order-Kept p.env p.crypto I k p.codec (request_of rq "" u)) x.0 h
  order_routes-Kept (get_order id) rq x h =
      guarded-Kept rq _ (λ u. get_order-Kept p.env p.crypto I k p.codec (request_of rq id u)) x.0 h
  order_routes-Kept (post_cancel id) rq x h =
      guarded-Kept rq _ (λ u. cancel-Kept p.env p.crypto I k p.codec (request_of rq id u)) x.0 h

  payment_routes-Kept :
      (r : PaymentRoute) (rq : HttpRequest) (x : State p)
      → I x.0.db
      → Answered (payment_routes p r rq x)
  unfolding payment_routes
  payment_routes-Kept (post_pay id) rq x h =
      guarded-Kept rq _ (λ u. pay-Kept p.env p.crypto I k p.codec (request_of rq id u)) x.0 h
  payment_routes-Kept (get_payment id) rq x h =
      guarded-Kept rq _ (λ u. get_payment-Kept p.env p.crypto I k p.codec (request_of rq id u)) x.0
        h

  dispatch-Kept :
      (route : Route) (rq : HttpRequest) (x : State p) → I x.0.db → Answered (dispatch p route rq x)
  unfolding dispatch
  dispatch-Kept (health_route r) rq x h = health_routes-Kept r rq x h
  dispatch-Kept (user_route r) rq x h = user_routes-Kept r rq x h
  dispatch-Kept (product_route r) rq x h = product_routes-Kept r rq x h
  dispatch-Kept (order_route r) rq x h = order_routes-Kept r rq x h
  dispatch-Kept (payment_route r) rq x h = payment_routes-Kept r rq x h

  serve-Kept : (rq : HttpRequest) (x : State p) → I x.0.db → Answered (serve p rq x)
  unfolding serve
  serve-Kept rq x h = dispatch-Kept rq.route rq x h

  pub serve_all-Kept :
      (requests : List HttpRequest) (x : State p) → I x.0.db → I (serve_all p requests x).0.db
  unfolding serve_all
  serve_all-Kept [] x h = h
  serve_all-Kept (rq ∷ requests) x h = serve_all-Kept requests (serve p rq x).1 (serve-Kept rq x h)
