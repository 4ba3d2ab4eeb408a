-- ===== src/Order/Answered.antt =====
-- Placing an order while every call is answered: none of the calls fails.
use distributed_order_proces.Base.{
  ◌-◌, ◌≡◌, refl, sym, subst, ◌∙◌, ap, ℕ, suc, ◌<◌, ◌≤◌, ◌^◌, true, false, none, some, List, [],
  ◌∷◌, arith,
}
use distributed_order_proces.Database.Rows.{
  Uuid, Db, ProductRow, OrderRow, OrderItemRow, PaymentRow,
}
use distributed_order_proces.Database.Keys.{
  is_some, find_user, find_product, find_order, find_payment,
}
use distributed_order_proces.Database.Tx.{
  World, Env, Error, Tx, Result, ok, Clock, clock_at, statement, within_tx, finish_tx, renamed,
  product_not_found, product_lock,
}
use distributed_order_proces.Database.Post.{
  Post, returned, failed, bind-Post, rename-Post, holding-Post, Post-mono,
}
use distributed_order_proces.Order.Store.{
  lock_product_for_update, insert_order, create_payment, product_from_sqlc,
}
use distributed_order_proces.Order.Service.{UuidMap, lock_products, read}
use distributed_order_proces.Order.Queries.{
  new_order, new_payment, query_create_order_item, query_decrease_product_stock,
  query_lock_product_for_update, query_create_order, query_create_payment, run_create_order_item,
  run_decrease, run_create_order, run_create_payment, CreateOrderItemValues, write_stock,
  new_order_item,
}
use distributed_order_proces.Order.Model.{Product}
use distributed_order_proces.Base.Words.{sub_int4-nonneg, ge_int4, lt_int, int_of_int32}
use distributed_order_proces.Base.Lists.{All}
use distributed_order_proces.Base.Table.{find, replace}

-- An error does not occur.
abbrev pub Never : Error → World → Type 0
Never e w = ⊥

Never-renamed : (target : Error) (e : Error) (w : World) → Never e w → Never (renamed target e) w
Never-renamed target e w h = h

-- What holds of a success, and that there is one.
pub certain :
    {A : Type 0} {P Q : A → World → Type 0} {E : Error → World → Type 0} {r : Result A × World}
    → Post P E r
    → Post Q Never r
    → Post (λ a w. P a w × Q a w) Never r
certain (returned h) (returned k) = returned (h, k)
certain (failed h) (failed k) = failed k

-- The product is there, with at least as much stock as the map asks for.
abbrev pub Stocked : UuidMap → Db → Uuid → Type 0
Stocked quantities db id =
    (row : ProductRow) × (find_product id db ≡ some row)
    × (lt_int (int_of_int32 row.stock) (read quantities id) ≡ false)

module _ (env : Env) (up : (n : ℕ) → env.fails n ≡ false) where
  -- The statement returns `a` and leaves `db`.
  pub statement-Answered :
      {A : Type 0} (run : Clock → Db → Result (A × Db)) (w : World) (a : A) (db : Db)
      → run (clock_at env w) w.db ≡ ok (a, db)
      → Post (λ b w'. (b ≡ a) × (w'.db ≡ db) × (w'.tick ≡ suc w.tick)) Never (statement env run w)
  unfolding statement
  statement-Answered run w a db e = rw (up w.tick, e) (returned (refl, refl, refl))

  pub lock_product-Answered :
      (id : Uuid) (row : ProductRow) (w : World)
      → find_product id w.db ≡ some row
      → Post
          (λ p w'. (p ≡ product_from_sqlc row) × (w'.db ≡ w.db) × (w'.tick ≡ suc w.tick))
          Never
          (lock_product_for_update env id w)
  unfolding lock_product_for_update query_lock_product_for_update
  lock_product-Answered id row w found =
      bind-Post
        (rename-Post product_not_found (Never-renamed product_not_found) (
          holding-Post {Q = λ b w'. (b ≡ row) × (w'.db ≡ w.db) × (w'.tick ≡ suc w.tick)}
            (product_lock id) (statement-Answered _ w row w.db (rw found refl)) (λ a w' e. e)))
        (λ b w' e. returned (ap product_from_sqlc e.0, e.1, e.2))

  pub lock_products-Answered :
      (quantities : UuidMap) (ids : List Uuid) (prices : UuidMap) (total : ℕ) (w : World)
      → All (Stocked quantities w.db) ids
      → Post
          (λ _ w'. (w'.db ≡ w.db) × (w.tick ≤ w'.tick))
          Never
          (lock_products env quantities ids prices total w)
  unfolding lock_products
  lock_products-Answered quantities [] prices total w h = returned (refl, omega arith)
  lock_products-Answered quantities (id ∷ ids) prices total w ((row, found, enough), h) =
      bind-Post (lock_product-Answered id row w found) (λ p w1 (e, same, t).
        let enough' : lt_int p.stock (read quantities id) ≡ false =
          subst (λ x. lt_int (Product.stock x) (read quantities id) ≡ false) (sym e) enough in
        rw enough' (
          Post-mono
            (lock_products-Answered quantities ids _ _ w1
              (subst (λ d. All (Stocked quantities d) ids) (sym same) h))
            (λ _ w' k. (k.0 ∙ same, omega (arith, t, k.1)))))

  pub insert_order-Answered :
      (user_id total : ℕ) (w : World)
      → is_some (find_user user_id w.db) ≡ true
      → find_order (env.gen_random_uuid w.tick) w.db ≡ none
      → total < 2 ^ 63
      → Post
          (λ o w'.
            (o.id ≡ env.gen_random_uuid w.tick)
            × (o.total_amount ≡ total)
            × (w'.db
                ≡ record w.db { orders = new_order user_id total (clock_at env w) ∷ w.db.orders })
            × (w'.tick ≡ suc w.tick))
          Never
          (insert_order env user_id total w)
  unfolding insert_order query_create_order run_create_order
  insert_order-Answered user_id total w known fresh low =
      bind-Post
        (statement-Answered _ w (new_order user_id total (clock_at env w))
          (record w.db { orders = new_order user_id total (clock_at env w) ∷ w.db.orders })
          (rw (fresh, known) (ground arith)))
        (λ row w' e. returned (ap OrderRow.id e.0, ap OrderRow.total_amount e.0, e.1, e.2))

  pub create_payment-Answered :
      (order_id amount : ℕ) (w : World)
      → is_some (find_order order_id w.db) ≡ true
      → find PaymentRow.id (env.gen_random_uuid w.tick) w.db.payments ≡ none
      → find_payment order_id w.db ≡ none
      → amount < 2 ^ 63
      → Post (λ _ _. Unit {0}) Never (create_payment env order_id amount w)
  unfolding create_payment query_create_payment run_create_payment
  create_payment-Answered order_id amount w known fresh free low =
      bind-Post
        (statement-Answered _ w (new_payment order_id amount "fake" none (clock_at env w))
          (record w.db {
            payments = new_payment order_id amount "fake" none (clock_at env w) ∷ w.db.payments;
          })
          (rw (fresh, free, known) (ground arith)))
        (λ row w' e. returned tt)

  pub create_order_item-Answered :
      (v : CreateOrderItemValues) (w : World)
      → find OrderItemRow.id (env.gen_random_uuid w.tick) w.db.order_items ≡ none
      → is_some (find_order v.order_id w.db) ≡ true
      → is_some (find_product v.product_id w.db) ≡ true
      → 0 < v.quantity
      → v.quantity < 2 ^ 31
      → v.price < 2 ^ 63
      → v.subtotal < 2 ^ 63
      → Post
          (λ _ w'.
            (w'.db
              ≡ record w.db { order_items = new_order_item v (clock_at env w) ∷ w.db.order_items })
            × (w'.tick ≡ suc w.tick))
          Never
          (query_create_order_item env v w)
  unfolding query_create_order_item run_create_order_item
  create_order_item-Answered v w fresh order product positive q p s =
      Post-mono
        (statement-Answered _ w (new_order_item v (clock_at env w))
          (record w.db { order_items = new_order_item v (clock_at env w) ∷ w.db.order_items })
          (rw (fresh, order, product) (ground arith)))
        (λ row w' e. (e.1, e.2))

  pub decrease-Answered :
      (q : ℕ) (id : Uuid) (row : ProductRow) (w : World)
      → find_product id w.db ≡ some row
      → row.stock < 2 ^ 31
      → q ≤ row.stock
      → Post
          (λ n w'. (n ≡ 1) × (w'.tick ≡ suc w.tick))
          Never
          (query_decrease_product_stock env q id w)
  unfolding query_decrease_product_stock run_decrease write_stock ge_int4
  decrease-Answered q id row w found low enough =
      let q_low : q < 2 ^ 31 = omega (arith, low, enough) in
      let ge : ge_int4 row.stock q ≡ true = ground (arith, low, enough, q_low) in
      let rest : row.stock - q < 2 ^ 31 = omega (arith, low) in
      Post-mono
        (statement-Answered _ w 1
          (record w.db {
            products =
                replace ProductRow.id row.id
                  (record row { stock = row.stock - q; updated_at = (clock_at env w).time })
                  w.db.products;
          })
          (rw (found, ge, sub_int4-nonneg row.stock q low q_low ge) (ground (arith, rest))))
        (λ n w' e. (e.0, e.2))

  -- A transaction whose body succeeds is committed.
  pub within_tx-Answered :
      {A : Type 0} (P : A → World → Type 0) (body : Tx A) (w : World)
      → ((w0 : World) → w0.db ≡ w.db → w0.tick ≡ suc w.tick → Post P Never (body w0))
      → Post (λ _ _. Unit {0}) Never (within_tx env body w)
  unfolding within_tx finish_tx
  within_tx-Answered {A} P body w h = rw (up w.tick) (finished (h _ refl refl))
    where
      finished :
          {r : Result A × World}
          → Post P Never r
          → Post (λ _ _. Unit {0}) Never (finish_tx env w.db r)
      finished (returned {w = w'} k) = rw (up w'.tick) (returned tt)
      finished (failed k) = absurd k
