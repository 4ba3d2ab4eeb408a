-- ===== src/Http/Errors.antt =====
-- An error that a client is told of has changed no table.
use distributed_order_proces.Product.Repository
use distributed_order_proces.Base.{
  String, Option, none, some, ◌≤◌, ◌≡◌, arith, Bool-cases, inl, inr, refl,
}
use distributed_order_proces.Database.Rows.{Uuid, Db}
use distributed_order_proces.Database.Tx.{Env, World, Result, product_not_found}
use distributed_order_proces.Database.Post.{Post, returned, failed, bind-Post, rename-Post}
use distributed_order_proces.Database.Single.{single-Post}
use distributed_order_proces.Order.Model.{Order}
use distributed_order_proces.Order.Stable.{Stable}
use distributed_order_proces.Order.Frame.{cancel_order-Keeping}
use distributed_order_proces.Payment.Frame.{pay-Keeping}
use distributed_order_proces.Product.Model.{Product, CreateProductRequest, UpdateProductRequest}
use distributed_order_proces.Product.Service.{create_product, update_product}
use distributed_order_proces.Product.Shop.{unique_violation-Post}
use distributed_order_proces.Http.Message.{
  Response, Handler, Codec, Request, write_json, product_value,
}
use distributed_order_proces.Http.Orders.{
  handle_cancel_order, answer_order, cancel_order_error, with_order_id,
}
use distributed_order_proces.Http.Payments.{handle_pay, answer_pay, with_user}
use distributed_order_proces.Http.Products.{
  ProductCodec, handle_create_product, handle_update_product, answer_product, create_valid,
  update_valid, with_product_id, create_product_error, update_product_error,
}
use distributed_order_proces.Product.Queries.{query_create_product, query_update_product}
use distributed_order_proces.Payment.Model as PaymentModel
use distributed_order_proces.Payment.Service as PaymentService

-- A response with a status from 400 on comes with the tables as they were.
abbrev pub Unchanged : Db → Response × World → Type 0
Unchanged db (response, w) = 400 ≤ response.status → w.db ≡ db

abbrev OrSame : {A : Type 0} → Db → Result A × World → Type 0
OrSame db r = Post (λ _ _. Unit {0}) (λ _ w. w.db ≡ db) r

trivial-Stable : Stable (λ _. Unit {0})
trivial-Stable = record {
  placeable = record {
    stocked = record { set_stock = λ row s t db found h. tt };
    new_order = λ row db fresh h. tt;
    new_item = λ row db known h. tt;
    new_payment = λ row db fresh h. tt;
  };
  set_order = λ id row db h. tt;
  set_payment = λ id row db h. tt;
}

answer_order-Unchanged :
    (db : Db) {r : Result Order × World}
    → OrSame db r
    → Unchanged db (answer_order cancel_order_error r)
answer_order-Unchanged db (returned h) = λ e. absurd (omega (arith, e))
answer_order-Unchanged db (failed h) = λ e. h

answer_pay-Unchanged :
    (db : Db) {r : Result (PaymentModel.Payment × PaymentModel.Order) × World}
    → OrSame db r
    → Unchanged db (answer_pay r)
answer_pay-Unchanged db (returned h) = λ e. absurd (omega (arith, e))
answer_pay-Unchanged db (failed h) = λ e. h

create_product-OrSame :
    (env : Env) (req : CreateProductRequest) (w : World) → OrSame w.db (create_product env req w)
unfolding create_product Repository.create_product query_create_product
create_product-OrSame env req w =
    bind-Post (unique_violation-Post (single-Post {P = λ _ _. Unit {0}} env _ w (λ _ _ _. tt)))
      (λ _ w' h. returned tt)

update_product-OrSame :
    (env : Env) (id : Uuid) (req : UpdateProductRequest) (w : World)
    → OrSame w.db (update_product env id req w)
unfolding update_product Repository.update_product query_update_product
update_product-OrSame env id req w =
    rename-Post product_not_found (λ _ _ e. e)
      (bind-Post (unique_violation-Post (single-Post {P = λ _ _. Unit {0}} env _ w (λ _ _ _. tt)))
        (λ _ w' h. returned tt))

create_valid-Unchanged :
    (env : Env) (codec : ProductCodec) (o : Option CreateProductRequest) (w : World)
    → Unchanged w.db (create_valid env codec o w)
create_valid-Unchanged env codec none w = λ e. refl
create_valid-Unchanged env codec (some req) w = elim (Bool-cases (codec.validate_create req)) [
  | inl valid ↦ rw valid (answer (create_product-OrSame env req w))
  | inr invalid ↦ rw invalid (λ e. refl)
]
  where
    answer :
        {r : Result Product × World}
        → OrSame w.db r
        → Unchanged w.db
            (answer_product create_product_error (λ p. write_json 201 (product_value p)) r)
    answer (returned h) = λ e. absurd (omega (arith, e))
    answer (failed h) = λ e. h

update_valid-Unchanged :
    (env : Env) (codec : ProductCodec) (id : Uuid) (o : Option UpdateProductRequest) (w : World)
    → Unchanged w.db (update_valid env codec id o w)
update_valid-Unchanged env codec id none w = λ e. refl
update_valid-Unchanged env codec id (some req) w = elim (Bool-cases (codec.validate_update req)) [
  | inl valid ↦ rw valid (answer (update_product-OrSame env id req w))
  | inr invalid ↦ rw invalid (λ e. refl)
]
  where
    answer :
        {r : Result Product × World}
        → OrSame w.db r
        → Unchanged w.db
            (answer_product update_product_error (λ p. write_json 200 (product_value p)) r)
    answer (returned h) = λ e. absurd (omega (arith, e))
    answer (failed h) = λ e. h

with_order_id-Unchanged :
    (db : Db) (act : Uuid → Uuid → Handler) (o u : Option Uuid) (w : World)
    → w.db ≡ db
    → ((user_id order_id : Uuid) → Unchanged db (act user_id order_id w))
    → Unchanged db (with_order_id act o u w)
with_order_id-Unchanged db act none u w same k = λ e. same
with_order_id-Unchanged db act (some o) none w same k = λ e. same
with_order_id-Unchanged db act (some o) (some u) w same k = k u o

with_user-Unchanged :
    (db : Db) (act : Uuid → Uuid → Handler) (u o : Option Uuid) (w : World)
    → w.db ≡ db
    → ((user_id order_id : Uuid) → Unchanged db (act user_id order_id w))
    → Unchanged db (with_user act u o w)
with_user-Unchanged db act none o w same k = λ e. same
with_user-Unchanged db act (some u) none w same k = λ e. same
with_user-Unchanged db act (some u) (some o) w same k = k u o

with_product_id-Unchanged :
    (db : Db) (act : Uuid → Handler) (o : Option Uuid) (w : World)
    → w.db ≡ db
    → ((id : Uuid) → Unchanged db (act id w))
    → Unchanged db (with_product_id act o w)
with_product_id-Unchanged db act none w same k = λ e. same
with_product_id-Unchanged db act (some id) w same k = k id

-- The routes that cancel and pay an order and that create and change a product: whatever they are sent
-- and whichever calls fail, an answer with a status from 400 on has changed no table.
pub handlers-Unchanged :
    (env : Env) (codec : Codec) (products : ProductCodec) (r : Request) (id body : String)
    (w : World)
    → Unchanged w.db (handle_cancel_order env codec r w)
      × Unchanged w.db (handle_pay env codec r w)
      × Unchanged w.db (handle_create_product env products body w)
      × Unchanged w.db (handle_update_product env products id body w)
unfolding handle_cancel_order handle_pay handle_create_product handle_update_product
    PaymentService.pay
handlers-Unchanged env codec products r id body w = (
  with_order_id-Unchanged w.db _ (codec.parse_uuid r.id) r.user_id w refl (λ user_id order_id.
      answer_order-Unchanged w.db (cancel_order-Keeping trivial-Stable env user_id order_id w tt)),
  with_user-Unchanged w.db _ r.user_id (codec.parse_uuid r.id) w refl (λ user_id order_id.
      answer_pay-Unchanged w.db
        (bind-Post (pay-Keeping trivial-Stable env user_id order_id w tt) (λ _ _ k. returned tt))),
  create_valid-Unchanged env products (products.decode_create body) w,
  with_product_id-Unchanged w.db _ (products.parse_uuid id) w refl (λ product_id.
      update_valid-Unchanged env products product_id (products.decode_update body) w),
)
