-- ===== src/Http/Lifecycle.antt =====
-- The life of orders, their items and payments, over the whole API.
use distributed_order_proces.Base.{List}
use distributed_order_proces.Database.Rows.{Db, ProductRow}
use distributed_order_proces.Database.Tx.{Env}
use distributed_order_proces.Database.Post.{bind-Post, returned}
use distributed_order_proces.Database.Keeps.{or_same}
use distributed_order_proces.Order.Frame.{create_order-Keeping}
use distributed_order_proces.User.Model.{Crypto}
use distributed_order_proces.Ledger.Evolution.{
  Evolves, Evolves-refl, Evolves-trans, elsewhere-Evolves,
}
use distributed_order_proces.Ledger.Lifecycle.{Evolves-Placeable, cancel_order-Evolves, pay-Evolves}
use distributed_order_proces.Product.Elsewhere.{
  create_product-Keeps, update_product-Keeps, delete_product-Keeps,
}
use distributed_order_proces.User.Elsewhere.{register-Keeps}
use distributed_order_proces.Http.Api.{Parts, State, HttpRequest, serve_all}
use distributed_order_proces.Http.Handlers.{Kept}
use distributed_order_proces.Http.Kept.{serve_all-Kept}
use distributed_order_proces.Payment.Service as PaymentService

Evolves-Kept : (env : Env) (crypto : Crypto) (db0 : Db) → Kept env crypto (λ db. Evolves db0 db)
unfolding PaymentService.pay
Evolves-Kept env crypto db0 = record {
  places = λ u req w h.
      or_same (Evolves db0) h (λ _ _ k. k)
        (create_order-Keeping (Evolves-Placeable db0) env u req w h);
  cancels = λ u o w h.
      or_same (Evolves db0) h (λ _ _ k. Evolves-trans h k) (cancel_order-Evolves env u o w);
  pays = λ u o w h.
      or_same (Evolves db0) h (λ _ _ k. Evolves-trans h k)
        (bind-Post (pay-Evolves env u o w) (λ _ _ k. returned k));
  creates = create_product-Keeps env (Evolves db0) any_products;
  updates = update_product-Keeps env (Evolves db0) any_products;
  deletes = delete_product-Keeps env (Evolves db0) any_products;
  registers =
      register-Keeps env crypto (Evolves db0)
        (λ us db h. Evolves-trans h (elsewhere-Evolves db.products us db.idempotency_keys db));
  any_keys = λ keys db h. Evolves-trans h (elsewhere-Evolves db.products db.users keys db);
}
  where
    any_products :
        (ps : List ProductRow) (db : Db)
        → Evolves db0 db
        → Evolves db0 (record db { products = ps })
    any_products ps db h = Evolves-trans h (elsewhere-Evolves ps db.users db.idempotency_keys db)

-- Whatever requests the API serves, in whatever order and whichever calls fail: no order, no order item
-- and no payment is lost or changes its owner, amount or provider; an order moves only from pending to
-- paid or cancelled and then stays as it is; and a payment that succeeded stays as it is.
pub serve_all-Evolves :
    (p : Parts) (requests : List HttpRequest) (x : State p)
    → Evolves x.0.db (serve_all p requests x).0.db
serve_all-Evolves p requests x =
    serve_all-Kept p (Evolves x.0.db) (Evolves-Kept p.env p.crypto x.0.db) requests x
      (Evolves-refl x.0.db)
