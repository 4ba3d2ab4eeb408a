-- ===== src/Ledger/Placing.antt =====
-- Placing an order keeps the ledger: every unit that leaves the stock is reserved by the order.
use distributed_order_proces.Ledger.Statements.{amount_at, SameOrders, Taken, decrease-Post}
use distributed_order_proces.Base.{
  ◌≡◌, ◌<◌, ◌^◌, refl, ◌∷◌, arith, true, ◌+◌, ap, ◌∙◌, sym, subst, List, ◌==◌, [], ℕ,
}
use distributed_order_proces.Database.Rows.{OrderItemRow, Db, Uuid, OrderRow, PaymentRow}
use distributed_order_proces.Database.Tx.{
  ok, Clock, Env, World, clock_at, insufficient_stock, product_not_found, product_lock,
}
use distributed_order_proces.Order.Queries.{
  CreateOrderItemValues, run_create_order_item, query_create_order_item,
  query_lock_product_for_update,
}
use distributed_order_proces.Ledger.Spec.{
  Sound, Keeps, is_open_order, reserved, IsSoundItem, reserved_by, stock_of, StatusesAgree, is_open,
}
use distributed_order_proces.Base.Lists.{All, sum_by}
use mathlib.Core.Path.{ap₂, subst₂}
use distributed_order_proces.Base.Table.{find}
use distributed_order_proces.Order.Model.{
  CreateOrderItemParams, CreateOrderItemRequest, OrderItem, CreateOrderRequest,
}
use distributed_order_proces.Order.Store.{
  create_order_item, decrease_product_stock, lock_product_for_update,
}
use distributed_order_proces.Order.Service.{
  place_items, UuidMap, read, lock_products, place_order, create_order, lock_and_price,
}
use distributed_order_proces.Base.Words.{int32, mul_int, lt_int}
use distributed_order_proces.Database.Post.{
  Post, NoClaim, bind-Post, answer-Post, returned, guard-Post, no_claim, Post-mono, rename-Post,
  within_tx-Post, holding-Post,
}
use distributed_order_proces.Ledger.Opening.{insert_order-Post, create_payment-Post}
use distributed_order_proces.Ledger.Rows.{one_row-eq-ok}
use distributed_order_proces.Database.Keys.{find_product}

pub Keeps-refl : {db : Db} → Sound db → Keeps db db
Keeps-refl s = record { sound = s; conserved = λ p. refl }

pub Keeps-trans : {a b c : Db} → Keeps a b → Keeps b c → Keeps a c
Keeps-trans f g = record {
  sound = g.sound;
  conserved = λ p. omega (arith, f.conserved p, g.conserved p);
}

-- A row of the item table was written, within the constraints.
pub record Recorded (v : CreateOrderItemValues) (row : OrderItemRow) (db db' : Db) : Type 0 where
  pub product : row.product_id ≡ v.product_id
  pub order : row.order_id ≡ v.order_id
  pub quantity : row.quantity ≡ v.quantity
  pub positive : (0 < v.quantity) × (v.quantity < 2 ^ 31)
  pub written : record db { order_items = row ∷ db.order_items } ≡ db'

recorded :
    (v : CreateOrderItemValues) (c : Clock) (db : Db) (row : OrderItemRow) (db' : Db)
    → run_create_order_item v c db ≡ ok (row, db')
    → Recorded v row db db'
unfolding run_create_order_item
recorded v c db row db' h = ground arith

-- Recording an item of an open order and taking its units is one round of the ledger.
module _ (v : CreateOrderItemValues) (row : OrderItemRow) (a b c : Db) where
  round_items :
      Sound a
      → is_open_order v.order_id a ≡ true
      → Recorded v row a b
      → SameOrders b c
      → All (IsSoundItem c.orders) c.order_items
  round_items s o r same =
      subst₂ (λ os is. All (IsSoundItem os) is) (ap Db.orders r.written ∙ sym same.orders)
        (ap Db.order_items r.written ∙ sym same.order_items) (ground arith, s.items)

  round_reserved :
      is_open_order v.order_id a ≡ true
      → Recorded v row a b
      → SameOrders b c
      → (p : Uuid) → reserved p c ≡ amount_at v.product_id v.quantity p + reserved p a
  round_reserved o r same p =
      ap₂ (λ os is. sum_by (reserved_by p os) is) (same.orders ∙ sym (ap Db.orders r.written))
        (same.order_items ∙ sym (ap Db.order_items r.written))
      ∙ ground arith

  -- What a round keeps.
  round-Keeps :
      Sound a
      → is_open_order v.order_id a ≡ true
      → Recorded v row a b
      → Taken v.product_id v.quantity b c
      → Keeps a c × (is_open_order v.order_id c ≡ true)
  round-Keeps s o r t = (
    record {
      sound = record {
        bounded = λ p. omega (arith, s.bounded p, t.taken p, same_stock p);
        items = round_items s o r t.rest;
        agree = λ k.
            subst₂ (λ os ps. StatusesAgree (find OrderRow.id k os) (find PaymentRow.order_id k ps))
              (ap Db.orders r.written ∙ sym t.rest.orders)
              (ap Db.payments r.written ∙ sym t.rest.payments) (s.agree k);
      };
      conserved = λ p. omega (arith, t.taken p, same_stock p, round_reserved o r t.rest p);
    },
    subst (λ os. is_open (find OrderRow.id v.order_id os) ≡ true)
        (ap Db.orders r.written ∙ sym t.rest.orders) o,
  )
    where
      same_stock : (p : Uuid) → stock_of p b ≡ stock_of p a
      same_stock p = ap (λ d. stock_of p d) (sym r.written)

abbrev item_values : CreateOrderItemParams → CreateOrderItemValues
item_values params = record {
  order_id = params.order_id;
  product_id = params.product_id;
  quantity = int32 params.quantity;
  price = params.price;
  subtotal = mul_int params.price params.quantity;
}

create_order_item-Post :
    (env : Env) (params : CreateOrderItemParams) (w : World)
    → Post
        (λ _ w'. (row : OrderItemRow) × Recorded (item_values params) row w.db w'.db)
        NoClaim
        (create_order_item env params w)
unfolding create_order_item query_create_order_item
create_order_item-Post env params w =
    bind-Post
      (answer-Post {P = λ row w'. Recorded (item_values params) row w.db w'.db} env _ w
        (λ row db h. recorded (item_values params) (clock_at env w) w.db row db h))
      (λ row w' r. returned (row, r))

-- The loop of `CreateOrder` keeps the ledger, and its order stays open.
place_items-Post :
    (env : Env) (o : Uuid) (prices : UuidMap) (items : List CreateOrderItemRequest)
    (created : List OrderItem) (w : World)
    → Sound w.db
    → is_open_order o w.db ≡ true
    → Post
        (λ _ w'. Keeps w.db w'.db × (is_open_order o w'.db ≡ true))
        NoClaim
        (place_items env o prices items created w)
unfolding place_items decrease_product_stock
place_items-Post env o prices [] created w s open_o = returned (Keeps-refl s, open_o)
place_items-Post env o prices (item ∷ items) created w s open_o =
    let params : CreateOrderItemParams = record {
      order_id = o;
      product_id = item.product_id;
      quantity = item.quantity;
      price = read prices item.product_id;
    } in
    bind-Post (create_order_item-Post env params w) λ created_item w1 (row, r).
      bind-Post
        (decrease-Post env (int32 item.quantity) item.product_id w1 (r.positive.1)
          (λ p. subst (λ d. stock_of p d < 2 ^ 31) r.written (s.bounded p)))
        λ n w2 take. guard-Post _ (n == 0) insufficient_stock w2 (no_claim _ _) λ some_rows.
          let (keeps, open') =
            round-Keeps (item_values params) row w.db w1.db w2.db s open_o r
              (take (ground arith)) in
          Post-mono (place_items-Post env o prices items _ w2 keeps.sound open')
            (λ _ w3 h. (Keeps-trans keeps h.0, h.1))

pub lock_product-Post :
    (env : Env) (id : Uuid) (w : World)
    → Post (λ _ w'. w'.db ≡ w.db) NoClaim (lock_product_for_update env id w)
unfolding lock_product_for_update query_lock_product_for_update
lock_product-Post env id w =
    bind-Post
      (rename-Post product_not_found (λ _ _ _. no_claim _ _)
        (holding-Post (product_lock id)
          (answer-Post {P = λ _ w'. w'.db ≡ w.db} env _ w
            (λ row db h. (one_row-eq-ok w.db (find_product id w.db) row db h).1))
          (λ _ _ e. e)))
      (λ row w' e. returned e)

-- Locking and pricing the products writes nothing.
lock_products-Post :
    (env : Env) (quantities : UuidMap) (ids : List Uuid) (prices : UuidMap) (total : ℕ) (w : World)
    → Post (λ _ w'. w'.db ≡ w.db) NoClaim (lock_products env quantities ids prices total w)
unfolding lock_products
lock_products-Post env quantities [] prices total w = returned refl
lock_products-Post env quantities (id ∷ ids) prices total w =
    bind-Post (lock_product-Post env id w) λ product w1 same.
      guard-Post _ (lt_int product.stock (read quantities id)) insufficient_stock w1 (no_claim _ _)
        λ _. Post-mono (lock_products-Post env quantities ids _ _ w1) (λ _ _ e. e ∙ same)

place_order-Post :
    (env : Env) (user_id : Uuid) (req : CreateOrderRequest) (w : World)
    → Sound w.db
    → Post (λ _ w'. Keeps w.db w'.db) NoClaim (place_order env user_id req w)
unfolding place_order lock_and_price
place_order-Post env user_id req w s =
    bind-Post (lock_products-Post env _ _ _ _ w) λ priced w1 same.
      bind-Post (insert_order-Post env user_id priced.1 w1 (subst Sound (sym same) s))
        λ order w2 (opened, open_o).
          bind-Post (place_items-Post env order.id priced.0 req.items [] w2 opened.sound open_o)
            λ items w3 (placed, still_open).
              bind-Post
                (create_payment-Post env order.id order.total_amount w3 placed.sound still_open)
                λ payment w4 billed.
                  returned (
                    subst (λ d. Keeps d w4.db) same
                      (Keeps-trans opened (Keeps-trans placed billed)))

-- Placing an order in a sound database either fails and leaves the tables as they were, whatever
-- call fails and whenever, or leaves a sound database in which, for every product, the units on hand
-- and the units reserved add up as before: no unit is sold twice, and no stock falls below 0.
pub create_order-Keeps :
    (env : Env) (user_id : Uuid) (req : CreateOrderRequest) (w : World)
    → Sound w.db
    → Post (λ _ w'. Keeps w.db w'.db) (λ _ w'. w'.db ≡ w.db) (create_order env user_id req w)
unfolding create_order
create_order-Keeps env user_id req w s =
    within_tx-Post (λ _ db. Keeps w.db db) env (place_order env user_id req) w
      λ w0 same _.
        subst (λ d. Post (λ _ w'. Keeps d w'.db) NoClaim (place_order env user_id req w0)) same
          (place_order-Post env user_id req w0 (subst Sound (sym same) s))
