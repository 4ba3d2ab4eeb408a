-- ===== src/Order/Frame.antt =====
-- Placing and cancelling an order keep every invariant that the rows they write keep.
use distributed_order_proces.Base.{◌≡◌, List, [], ◌∷◌, ℕ, ◌++◌, ◌==◌, refl, not, subst, sym}
use distributed_order_proces.Base.Lists.{length}
use distributed_order_proces.Base.Sort.{sort_by}
use distributed_order_proces.Base.Words.{add_int, mul_int, lt_int}
use distributed_order_proces.Database.Rows.{IdempotencyKeyRow, Db, Uuid, is_pending}
use distributed_order_proces.Database.Tx.{
  Env, World, Result, Clock, clock_at, statement, insufficient_stock, product_not_found,
  product_lock, order_lock, order_not_found, order_not_pending, order_items_unavailable,
}
use distributed_order_proces.Database.Post.{
  Post, no_claim, bind-Post, answer-Post, returned, guard-Post, rename-Post, holding-Post,
  within_tx-Post,
}
use distributed_order_proces.Order.Model.{CreateOrderItemRequest, OrderItem, CreateOrderRequest}
use distributed_order_proces.Order.Queries.{
  query_create_order_item, query_lock_product_for_update, query_decrease_product_stock,
  query_increase_product_stock, query_create_order, query_create_payment,
  query_lock_order_for_update, query_get_order_items_by_order_id, query_update_order_status,
}
use distributed_order_proces.Order.Store.{
  create_order_item, decrease_product_stock, increase_product_stock, lock_product_for_update,
  insert_order, create_payment, lock_order_for_update, get_order_items_by_order_id,
  update_order_status,
}
use distributed_order_proces.Order.Service.{
  place_items, UuidMap, read, lock_products, place_order, create_order, lock_and_price,
  restore_items, withdraw_order, cancel_order,
}
use distributed_order_proces.Order.Stable.{
  Stocked, Placeable, Stable, Keeping, Quiet, one_row-Quiet, create_order_item-Quiet,
  create_order-Quiet, create_payment-Quiet, decrease-Quiet, increase-Quiet, update_order-Quiet,
}

module _ (I : Db → Type 0) (env : Env) where
  pub statement-Keeping :
      {A : Type 0} (run : Clock → Db → Result (A × Db)) (w : World)
      → Quiet I (run (clock_at env w) w.db)
      → Keeping I (statement env run w)
  statement-Keeping run w quiet = answer-Post env run w quiet

  lock_product-Keeping :
      (id : Uuid) (w : World) → I w.db → Keeping I (lock_product_for_update env id w)
  unfolding lock_product_for_update query_lock_product_for_update
  lock_product-Keeping id w h =
      bind-Post
        (rename-Post product_not_found (λ e w _. no_claim _ w)
          (holding-Post {Q = λ _ w'. I w'.db} (product_lock id)
            (statement-Keeping _ w (one_row-Quiet I w.db _ h)) (λ a w e. e)))
        (λ _ w' e. returned e)

  lock_products-Keeping :
      (quantities : UuidMap) (ids : List Uuid) (prices : UuidMap) (total : ℕ) (w : World)
      → I w.db
      → Keeping I (lock_products env quantities ids prices total w)
  unfolding lock_products
  lock_products-Keeping quantities [] prices total w h = returned h
  lock_products-Keeping quantities (id ∷ ids) prices total w h =
      bind-Post (lock_product-Keeping id w h) (λ product w' h'.
        let prices' : UuidMap = (id, product.price) ∷ prices in
        let total' = add_int total (mul_int product.price (read quantities id)) in
        guard-Post (λ _. lock_products env quantities ids prices' total')
          (lt_int product.stock (read quantities id)) insufficient_stock w' (no_claim _ w')
          (λ _. lock_products-Keeping quantities ids prices' total' w' h'))

  lock_order-Keeping :
      (user_id order_id : Uuid) (w : World)
      → I w.db
      → Keeping I (lock_order_for_update env user_id order_id w)
  unfolding lock_order_for_update query_lock_order_for_update
  lock_order-Keeping user_id order_id w h =
      bind-Post
        (rename-Post order_not_found (λ e w _. no_claim _ w)
          (holding-Post {Q = λ _ w'. I w'.db} (order_lock order_id)
            (statement-Keeping _ w (one_row-Quiet I w.db _ h)) (λ a w e. e)))
        (λ _ w' e. returned e)

module _ {I : Db → Type 0} (sk : Stocked I) (env : Env) where
  pub restore_items-Keeping :
      (items : List OrderItem) (w : World) → I w.db → Keeping I (restore_items env items w)
  unfolding restore_items increase_product_stock query_increase_product_stock
  restore_items-Keeping [] w h = returned h
  restore_items-Keeping (item ∷ items) w h =
      bind-Post (lock_product-Keeping I env item.product_id w h) (λ _ w1 h1.
        bind-Post (statement-Keeping I env _ w1 (increase-Quiet sk _ _ _ _ w1.db refl h1))
          (λ n w2 h2.
            guard-Post (λ _. restore_items env items) (n == 0) product_not_found w2 (no_claim _ w2)
              (λ _. restore_items-Keeping items w2 h2)))

module _ {I : Db → Type 0} (pl : Placeable I) (env : Env) where
  place_items-Keeping :
      (order_id : Uuid) (prices : UuidMap) (items : List CreateOrderItemRequest)
      (created : List OrderItem) (w : World)
      → I w.db
      → Keeping I (place_items env order_id prices items created w)
  unfolding place_items create_order_item query_create_order_item decrease_product_stock
      query_decrease_product_stock
  place_items-Keeping order_id prices [] created w h = returned h
  place_items-Keeping order_id prices (item ∷ items) created w h =
      bind-Post
        (bind-Post (statement-Keeping I env _ w (create_order_item-Quiet pl _ _ w.db h))
          (λ _ w' e. returned e))
        (λ i w1 h1.
          bind-Post (statement-Keeping I env _ w1 (decrease-Quiet pl.stocked _ _ _ _ w1.db refl h1))
            (λ n w2 h2.
              guard-Post (λ _. place_items env order_id prices items (created ++ i ∷ [])) (n == 0)
                insufficient_stock w2 (no_claim _ w2)
                (λ _. place_items-Keeping order_id prices items (created ++ i ∷ []) w2 h2)))

  place_order-Keeping :
      (user_id : Uuid) (req : CreateOrderRequest) (w : World)
      → I w.db
      → Keeping I (place_order env user_id req w)
  unfolding place_order lock_and_price insert_order query_create_order create_payment
      query_create_payment
  place_order-Keeping user_id req w h =
      bind-Post (lock_products-Keeping I env _ _ [] 0 w h) (λ _ w1 h1.
        bind-Post
          (bind-Post (statement-Keeping I env _ w1 (create_order-Quiet pl _ _ _ w1.db h1))
            (λ _ w' e. returned e))
          (λ _ w2 h2. bind-Post (place_items-Keeping _ _ req.items [] w2 h2) (λ _ w3 h3.
            bind-Post
              (bind-Post (statement-Keeping I env _ w3 (create_payment-Quiet pl _ _ _ w3.db h3))
                (λ _ w' e. returned e))
              (λ _ w4 h4. returned h4))))

  -- Whether it succeeds or fails, an order that is placed keeps the invariant.
  pub create_order-Keeping :
      (user_id : Uuid) (req : CreateOrderRequest) (w : World)
      → I w.db
      → Post (λ _ w'. I w'.db) (λ _ w'. w'.db ≡ w.db) (create_order env user_id req w)
  unfolding create_order
  create_order-Keeping user_id req w h =
      within_tx-Post (λ _ db. I db) env (place_order env user_id req) w
        (λ w0 e _. place_order-Keeping user_id req w0 (subst I (sym e) h))

module _ {I : Db → Type 0} (st : Stable I) (env : Env) where
  withdraw_order-Keeping :
      (user_id order_id : Uuid) (w : World)
      → I w.db
      → Keeping I (withdraw_order env user_id order_id w)
  unfolding withdraw_order get_order_items_by_order_id query_get_order_items_by_order_id
      update_order_status query_update_order_status
  withdraw_order-Keeping user_id order_id w h =
      bind-Post (lock_order-Keeping I env user_id order_id w h) (λ o w1 h1.
        guard-Post _ (not (is_pending o.status)) order_not_pending w1 (no_claim _ w1) (λ _.
          bind-Post
            (bind-Post
              (statement-Keeping I env _ w1
                (λ a db' e. let same : w1.db ≡ db' = cc in subst I same h1))
              (λ _ w' e. returned e))
            (λ items w2 h2.
              guard-Post _ (length items == 0) order_items_unavailable w2 (no_claim _ w2) (λ _.
                bind-Post
                  (restore_items-Keeping st.placeable.stocked env
                    (sort_by OrderItem.product_id items) w2 h2)
                  (λ _ w3 h3.
                    bind-Post
                      (rename-Post order_not_found (λ e w _. no_claim _ w)
                        (statement-Keeping I env _ w3 (update_order-Quiet st _ _ _ w3.db h3)))
                      (λ _ w' e. returned e))))))

  -- Whether it succeeds or fails, an order that is cancelled keeps the invariant.
  pub cancel_order-Keeping :
      (user_id order_id : Uuid) (w : World)
      → I w.db
      → Post (λ _ w'. I w'.db) (λ _ w'. w'.db ≡ w.db) (cancel_order env user_id order_id w)
  unfolding cancel_order
  cancel_order-Keeping user_id order_id w h =
      within_tx-Post (λ _ db. I db) env (withdraw_order env user_id order_id) w
        (λ w0 e _. withdraw_order-Keeping user_id order_id w0 (subst I (sym e) h))

-- The idempotency keys are not written for an order.
keys-Stable : (keys : List IdempotencyKeyRow) → Stable (λ db. db.idempotency_keys ≡ keys)
keys-Stable keys = record {
  placeable = record {
    stocked = record { set_stock = λ row s t db found h. h };
    new_order = λ row db fresh h. h;
    new_item = λ row db known h. h;
    new_payment = λ row db fresh h. h;
  };
  set_order = λ id row db h. h;
  set_payment = λ id row db h. h;
}

pub create_order-Frames :
    (env : Env) (user_id : Uuid) (req : CreateOrderRequest) (w : World)
    → Post
        (λ _ w'. w'.db.idempotency_keys ≡ w.db.idempotency_keys)
        (λ _ w'. w'.db ≡ w.db)
        (create_order env user_id req w)
create_order-Frames env user_id req w =
    create_order-Keeping (keys-Stable w.db.idempotency_keys).placeable env user_id req w refl
