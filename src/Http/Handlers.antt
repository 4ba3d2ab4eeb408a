-- ===== src/Http/Handlers.antt =====
-- What the API needs of a property of the tables for every request to keep it, and that each handler
-- keeps it.
use distributed_order_proces.Base.{String, Option, none, some, List, Bool-cases, str_eq, inl, inr}
use distributed_order_proces.Database.Rows.{Uuid, IdempotencyKeyRow, Db}
use distributed_order_proces.Database.Tx.{World, Env, Result, ok, err}
use distributed_order_proces.Database.Keeps.{Keeps, Keeps-after}
use distributed_order_proces.Order.Model.{CreateOrderRequest, Order, OrderItem, Payment}
use distributed_order_proces.Order.Service.{create_order, cancel_order, get_order_by_id}
use distributed_order_proces.Product.Model.{CreateProductRequest, UpdateProductRequest}
use distributed_order_proces.Product.Service.{create_product, update_product, delete_product}
use distributed_order_proces.User.Model.{RegisterRequest, Crypto}
use distributed_order_proces.User.Service.{register}
use distributed_order_proces.Http.Message.{Handler, Codec, Request}
use distributed_order_proces.Http.Orders.{
  answer_order, save_encoded, answer_created, post_order, handle_get_orders, handle_get_order_by_id,
  handle_cancel_order, create_for, create_decoded, handle_create_order, response_of,
  get_order_error, cancel_order_error,
}
use distributed_order_proces.Http.Payments.{
  answer_pay, answer_payment, handle_pay, handle_get_payment_by_order_id,
}
use distributed_order_proces.Http.Idempotency.{claim_body, idempotency_middleware, claim_user}
use distributed_order_proces.Http.Answers.{
  After, Preserves, answer_orders-After, after_claim-Kept, with_order_id-Kept, with_user-Kept,
  answer_order-After, answer_pay-After, answer_payment-After,
}
use distributed_order_proces.Idempotency.Kept.{save_response-Keeps, check_and_claim-Keeps}
use distributed_order_proces.Http.Reads.{get_orders-Keeps, get_payment-Keeps, get_order_by_id-Keeps}
use distributed_order_proces.Payment.Service as PaymentService

-- What the API needs of `I`.
pub record Kept (env : Env) (crypto : Crypto) (I : Db → Type 0) : Type 0 where
  pub places :
      (u : Uuid) (req : CreateOrderRequest) (w : World)
      → I w.db
      → Keeps I (create_order env u req w)
  pub cancels : (u o : Uuid) (w : World) → I w.db → Keeps I (cancel_order env u o w)
  pub pays : (u o : Uuid) (w : World) → I w.db → Keeps I (PaymentService.pay env u o w)
  pub creates :
      (req : CreateProductRequest) (w : World) → I w.db → Keeps I (create_product env req w)
  pub updates :
      (id : Uuid) (req : UpdateProductRequest) (w : World)
      → I w.db
      → Keeps I (update_product env id req w)
  pub deletes : (id : Uuid) (w : World) → I w.db → Keeps I (delete_product env id w)
  pub registers : (req : RegisterRequest) (w : World) → I w.db → Keeps I (register env crypto req w)
  pub any_keys :
      (keys : List IdempotencyKeyRow) (db : Db) → I db → I (record db { idempotency_keys = keys })

module _ (env : Env) (crypto : Crypto) (I : Db → Type 0) (k : Kept env crypto I) where
  pub save_encoded-Kept :
      (key : String) (u : Uuid) (json : Option String) (w : World)
      → I w.db
      → I (save_encoded env key u json w).db
  save_encoded-Kept key u none w h = h
  save_encoded-Kept key u (some json) w h =
      Keeps-after I (save_response-Keeps env I k.any_keys key u json w h)

  pub answer_created-Kept :
      (codec : Codec) (key : String) (u : Uuid)
      (r : Result (Order × List OrderItem × Payment) × World)
      → After I r
      → After I (answer_created env codec key u r)
  unfolding answer_created
  answer_created-Kept codec key u (err e, w) h = h
  answer_created-Kept codec key u (ok created, w) h =
      save_encoded-Kept key u (codec.marshal (response_of created)) w h

  pub create_for-Kept :
      (codec : Codec) (req : CreateOrderRequest) (u : Option Uuid) (key : Option String)
      → Preserves I (create_for env codec req u key)
  create_for-Kept codec req none key w h = h
  create_for-Kept codec req (some u) none w h = h
  create_for-Kept codec req (some u) (some key) w h =
      answer_created-Kept codec key u _ (Keeps-after I (k.places u req w h))

  pub create_decoded-Kept :
      (codec : Codec) (u : Option Uuid) (key : Option String) (o : Option CreateOrderRequest)
      → Preserves I (create_decoded env codec u key o)
  create_decoded-Kept codec u key none w h = h
  create_decoded-Kept codec u key (some req) w h = elim (Bool-cases (codec.validate req)) [
    | inl valid ↦ rw valid (create_for-Kept codec req u key w h)
    | inr bad ↦ rw bad h
  ]

  pub claim_body-Kept :
      (codec : Codec) (u : Uuid) (key : String) (next : String → String → Handler)
      (body : Option String)
      → ((key body : String) → Preserves I (next key body))
      → Preserves I (claim_body env codec u key next body)
  claim_body-Kept codec u key next none n w h = h
  claim_body-Kept codec u key next (some body) n w h =
      after_claim-Kept I (next key body) _ (n key body)
        (check_and_claim-Keeps env I k.any_keys key _ u w h)

  pub claim_user-Kept :
      (codec : Codec) (r : Request) (next : String → String → Handler) (u : Option Uuid)
      → ((key body : String) → Preserves I (next key body))
      → Preserves I (claim_user env codec r next u)
  claim_user-Kept codec r next none n w h = h
  claim_user-Kept codec r next (some u) n w h = elim (Bool-cases (str_eq r.idempotency_key "")) [
    | inl blank ↦ rw blank h
    | inr given ↦ rw given (claim_body-Kept codec u r.idempotency_key next r.body n w h)
  ]

  pub post_order-Kept : (codec : Codec) (r : Request) → Preserves I (post_order env codec r)
  unfolding post_order idempotency_middleware handle_create_order
  post_order-Kept codec r w h =
      claim_user-Kept codec r (λ key body. handle_create_order env codec r.user_id (some key) body)
        r.user_id (λ key body. create_decoded-Kept codec r.user_id (some key) (codec.decode body)) w
        h

  pub get_orders-Kept : (u : Uuid) → Preserves I (handle_get_orders env (some u))
  unfolding handle_get_orders
  get_orders-Kept u w h = answer_orders-After I (get_orders-Keeps env I u w h)

  pub get_order-Kept :
      (codec : Codec) (r : Request) → Preserves I (handle_get_order_by_id env codec r)
  unfolding handle_get_order_by_id
  get_order-Kept codec r =
      with_order_id-Kept I (λ u o w. answer_order get_order_error (get_order_by_id env u o w))
        (codec.parse_uuid r.id) r.user_id
        (λ u o w h. answer_order-After I get_order_error (get_order_by_id-Keeps env I u o w h))

  pub cancel-Kept : (codec : Codec) (r : Request) → Preserves I (handle_cancel_order env codec r)
  unfolding handle_cancel_order
  cancel-Kept codec r =
      with_order_id-Kept I (λ u o w. answer_order cancel_order_error (cancel_order env u o w))
        (codec.parse_uuid r.id) r.user_id
        (λ u o w h. answer_order-After I cancel_order_error (k.cancels u o w h))

  pub pay-Kept : (codec : Codec) (r : Request) → Preserves I (handle_pay env codec r)
  unfolding handle_pay
  pay-Kept codec r =
      with_user-Kept I (λ u o w. answer_pay (PaymentService.pay env u o w)) r.user_id
        (codec.parse_uuid r.id) (λ u o w h. answer_pay-After I (k.pays u o w h))

  pub get_payment-Kept :
      (codec : Codec) (r : Request) → Preserves I (handle_get_payment_by_order_id env codec r)
  unfolding handle_get_payment_by_order_id
  get_payment-Kept codec r =
      with_user-Kept I (λ u o w. answer_payment (PaymentService.get_payment_by_order_id env u o w))
        r.user_id (codec.parse_uuid r.id)
        (λ u o w h. answer_payment-After I (get_payment-Keeps env I u o w h))
