-- ===== src/Http/Reads.antt =====
-- The services that only read: orders, payments, products and logins.
use distributed_order_proces.Base.{
  subst, ◌≡◌, List, [], ◌∷◌, ℕ, Bool-cases, inl, inr, Option, none, some, arith, String,
}
use distributed_order_proces.Database.Rows.{Uuid, Db}
use distributed_order_proces.Database.Tx.{
  World, Env, no_payment_found, product_not_found, order_not_found, login_generic,
}
use distributed_order_proces.Database.Post.{returned, failed, bind-Post, rename-Post}
use distributed_order_proces.Database.Keeps.{Keeps, statement-Keeps, read-Keeps}
use distributed_order_proces.Order.Service.{get_orders, get_order_by_id}
use distributed_order_proces.Product.Model.{Product}
use distributed_order_proces.Product.Service.{list_products, get_product_by_id, some_products}
use distributed_order_proces.User.Model.{LoginRequest, Crypto}
use distributed_order_proces.User.Service.{login, signed}
use distributed_order_proces.Auth.Jwt.{Jwt, JwtManager}
use distributed_order_proces.Order.Store.{select_orders, select_order_by_id}
use distributed_order_proces.Payment.Queries.{query_get_payment_by_order_id}
use distributed_order_proces.Product.Queries.{
  query_get_product_by_id, query_list_products, run_list_products,
}
use distributed_order_proces.User.Repository.{get_user_by_email}
use distributed_order_proces.Order.Queries.{query_get_orders, query_get_order_by_id}
use distributed_order_proces.User.Queries.{query_get_user_by_email}
use distributed_order_proces.Payment.Service as PaymentService
use distributed_order_proces.Payment.Repository as PaymentRepository
use distributed_order_proces.Product.Repository as ProductRepository

module _ (env : Env) (I : Db → Type 0) where
  pub get_orders-Keeps : (u : Uuid) (w : World) → I w.db → Keeps I (get_orders env u w)
  unfolding get_orders select_orders query_get_orders
  get_orders-Keeps u w h =
      bind-Post
        (statement-Keeps I env _ w h (λ rows db e. let same : w.db ≡ db = cc in subst I same h))
        (λ _ w' i. returned i)

  pub get_order_by_id-Keeps :
      (u o : Uuid) (w : World) → I w.db → Keeps I (get_order_by_id env u o w)
  unfolding get_order_by_id select_order_by_id query_get_order_by_id
  get_order_by_id-Keeps u o w h =
      bind-Post (rename-Post order_not_found (λ _ _ i. i) (read-Keeps I env _ w h))
        (λ _ w' i. returned i)

  pub get_payment-Keeps :
      (u o : Uuid) (w : World) → I w.db → Keeps I (PaymentService.get_payment_by_order_id env u o w)
  unfolding PaymentService.get_payment_by_order_id PaymentRepository.get_payment_by_order_id
      query_get_payment_by_order_id
  get_payment-Keeps u o w h =
      bind-Post
        (bind-Post (rename-Post no_payment_found (λ _ _ i. i) (read-Keeps I env _ w h))
          (λ _ w' i. returned i))
        (λ _ w' i. returned i)

  pub get_product_by_id-Keeps :
      (id : Uuid) (w : World) → I w.db → Keeps I (get_product_by_id env id w)
  unfolding get_product_by_id ProductRepository.get_product_by_id query_get_product_by_id
  get_product_by_id-Keeps id w h =
      rename-Post product_not_found (λ _ _ i. i)
        (bind-Post (read-Keeps I env _ w h) (λ _ w' i. returned i))

  pub list_products-Keeps :
      (page limit : ℕ) (w : World) → I w.db → Keeps I (list_products env page limit w)
  unfolding list_products ProductRepository.list_products query_list_products run_list_products
  list_products-Keeps page limit w h =
      bind-Post
        (bind-Post
          (statement-Keeps I env _ w h
            (λ rows db e. let same : w.db ≡ db = ground (arith, e) in subst I same h))
          (λ _ w' i. returned i))
        (λ ps w' i. listed ps w' i)
    where
      listed : (ps : List Product) (w : World) → I w.db → Keeps I (some_products ps w)
      listed [] w' i = failed i
      listed (p ∷ ps) w' i = returned i

  module _ (crypto : Crypto) (jwt : Jwt) (m : JwtManager) where
    signed-Keeps : (o : Option String) (w : World) → I w.db → Keeps I (signed o w)
    signed-Keeps none w h = failed h
    signed-Keeps (some t) w h = returned h

    pub login-Keeps :
        (req : LoginRequest) (w : World) → I w.db → Keeps I (login env crypto jwt m req w)
    unfolding login get_user_by_email query_get_user_by_email
    login-Keeps req w h =
        bind-Post
          (rename-Post login_generic (λ _ _ i. i)
            (bind-Post (read-Keeps I env _ w h) (λ _ w' i. returned i)))
          (λ user w' i. elim (Bool-cases (crypto.matches user.password_hash req.password)) [
            | inl same ↦ rw same (signed-Keeps _ w' i)
            | inr differs ↦ rw differs (failed i)
          ])
