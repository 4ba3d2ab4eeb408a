-- ===== src/Http/Answers.antt =====
-- Writing an answer, and the guards before a handler, leave the tables as they are.
use distributed_order_proces.Base.{String, Option, none, some, List}
use distributed_order_proces.Database.Rows.{Uuid, Db}
use distributed_order_proces.Database.Tx.{World, Error, Result, ok, err, no_product}
use distributed_order_proces.Order.Model.{Order}
use distributed_order_proces.Product.Model.{Product}
use distributed_order_proces.User.Model.{User}
use distributed_order_proces.Idempotency.Model.{
  IdempotencyResult, IdempotencyKeyStatus, new, replayed, mismatch, in_progress,
}
use distributed_order_proces.Http.Message.{Response, Handler}
use distributed_order_proces.Auth.Jwt.{Validated, claims, nil_claims, invalid}
use distributed_order_proces.Http.Orders.{answer_order, answer_orders, with_order_id}
use distributed_order_proces.Http.Payments.{answer_pay, answer_payment, with_user}
use distributed_order_proces.Http.Products.{
  answer_products, answer_product, answer_deleted, with_product_id,
}
use distributed_order_proces.Http.Users.{answer_registered, with_claims}
use distributed_order_proces.Http.Idempotency.{by_status, after_claim}
use distributed_order_proces.Database.Keeps.{Keeps}
use distributed_order_proces.Database.Post.{returned, failed}
use distributed_order_proces.Payment.Model as PaymentModel

module _ (I : Db → Type 0) where
  abbrev pub After : {A : Type 0} → A × World → Type 0
  After r = I r.1.db

  abbrev pub Preserves : {A : Type 0} → (World → A × World) → Type 0
  Preserves m = (w : World) → I w.db → After (m w)

  pub answer_order-After :
      (on_error : Error → Response) {r : Result Order × World}
      → Keeps I r
      → After (answer_order on_error r)
  answer_order-After on_error (returned h) = h
  answer_order-After on_error (failed h) = h

  pub answer_orders-After : {r : Result (List Order) × World} → Keeps I r → After (answer_orders r)
  answer_orders-After (returned h) = h
  answer_orders-After (failed h) = h

  pub answer_pay-After :
      {r : Result (PaymentModel.Payment × PaymentModel.Order) × World}
      → Keeps I r
      → After (answer_pay r)
  answer_pay-After (returned h) = h
  answer_pay-After (failed h) = h

  pub answer_payment-After :
      {r : Result PaymentModel.Payment × World} → Keeps I r → After (answer_payment r)
  answer_payment-After (returned h) = h
  answer_payment-After (failed h) = h

  pub answer_products-After :
      {r : Result (List Product) × World} → Keeps I r → After (answer_products r)
  answer_products-After (returned h) = h
  answer_products-After (failed {e = e} {w = w} h) = at_error e w h
    where
      at_error : (e : Error) (w : World) → I w.db → After (answer_products (err e, w))
      at_error no_product w h = h
      at_error _ w h = h

  pub answer_product-After :
      (on_error : Error → Response) (on_product : Product → Response) {r : Result Product × World}
      → Keeps I r
      → After (answer_product on_error on_product r)
  answer_product-After on_error on_product (returned h) = h
  answer_product-After on_error on_product (failed h) = h

  pub answer_deleted-After : {r : Result (Unit {0}) × World} → Keeps I r → After (answer_deleted r)
  answer_deleted-After (returned h) = h
  answer_deleted-After (failed h) = h

  pub answer_registered-After : {r : Result User × World} → Keeps I r → After (answer_registered r)
  answer_registered-After (returned h) = h
  answer_registered-After (failed h) = h

  pub with_order_id-Kept :
      (act : Uuid → Uuid → Handler) (o u : Option Uuid)
      → ((u o : Uuid) → Preserves (act u o))
      → Preserves (with_order_id act o u)
  with_order_id-Kept act none u k w h = h
  with_order_id-Kept act (some o) none k w h = h
  with_order_id-Kept act (some o) (some u) k w h = k u o w h

  pub with_user-Kept :
      (act : Uuid → Uuid → Handler) (u o : Option Uuid)
      → ((u o : Uuid) → Preserves (act u o))
      → Preserves (with_user act u o)
  with_user-Kept act none o k w h = h
  with_user-Kept act (some u) none k w h = h
  with_user-Kept act (some u) (some o) k w h = k u o w h

  pub with_product_id-Kept :
      (act : Uuid → Handler) (o : Option Uuid)
      → ((id : Uuid) → Preserves (act id))
      → Preserves (with_product_id act o)
  with_product_id-Kept act none k w h = h
  with_product_id-Kept act (some id) k w h = k id w h

  pub with_claims-Kept :
      (next : Uuid → Handler) (v : Validated)
      → ((u : Uuid) → Preserves (next u))
      → Preserves (with_claims next v)
  with_claims-Kept next (claims c) k w h = k c.user_id w h
  with_claims-Kept next nil_claims k w h = h
  with_claims-Kept next invalid k w h = h

  pub by_status-Kept :
      (next : Handler) (response : Option String) (s : IdempotencyKeyStatus)
      → Preserves next
      → Preserves (by_status next response s)
  by_status-Kept next response replayed k w h = h
  by_status-Kept next response mismatch k w h = h
  by_status-Kept next response in_progress k w h = h
  by_status-Kept next response new k w h = k w h

  pub after_claim-Kept :
      (next : Handler) (r : Result IdempotencyResult × World)
      → Preserves next
      → After r
      → After (after_claim next r)
  after_claim-Kept next (ok r, w) k h = by_status-Kept next r.response r.status k w h
  after_claim-Kept next (err e, w) k h = h
