-- ===== src/Ledger/Pricing.antt =====
-- What an order that is placed costs.
use distributed_order_proces.Base.{
  refl, ℕ, ◌*◌, ◌%◌, ◌^◌, ◌<◌, ◌≡◌, List, [], ◌∷◌, ◌++◌, ◌==◌, arith, ◌∙◌, ap, subst, sym,
}
use distributed_order_proces.Base.Lists.{All}
use distributed_order_proces.Base.Words.{mul_int, int32, int_of_int32}
use distributed_order_proces.Database.Rows.{OrderItemRow, Uuid, OrderStatus, PaymentStatus, Db}
use distributed_order_proces.Database.Tx.{World, Env, Clock, ok, clock_at, insufficient_stock}
use distributed_order_proces.Database.Post.{
  Post, NoClaim, bind-Post, answer-Post, returned, guard-Post, no_claim, Post-mono, within_tx-Post,
}
use distributed_order_proces.Order.Model.{
  Order, OrderItem, Payment, CreateOrderItemRequest, CreateOrderRequest,
}
use distributed_order_proces.Order.Queries.{
  query_create_order_item, query_decrease_product_stock, run_create_order_item,
  CreateOrderItemValues, query_create_order, query_create_payment,
}
use distributed_order_proces.Order.Store.{
  create_order_item, decrease_product_stock, insert_order, create_payment,
}
use distributed_order_proces.Order.Service.{
  UuidMap, read, place_items, place_order, create_order, lock_and_price, quantity_by_product,
  sorted_product_ids,
}
use distributed_order_proces.Order.Totals.{items_total, sorted_products-All, sorted_products-total}
use distributed_order_proces.Ledger.Opening.{Opened, Billed, opened, billed}
use distributed_order_proces.Ledger.Prices.{price_of, lock_products-Summed}

-- An item of the order carries the request's product and quantity at the price.
pub record IsPriced (price : Uuid → ℕ) (order_id : Uuid) (r : CreateOrderItemRequest)
    (i : OrderItem) : Type 0 where
  pub order : i.order_id ≡ order_id
  pub product : i.product_id ≡ r.product_id
  pub quantity : i.quantity ≡ int_of_int32 (int32 r.quantity)
  pub cost : i.price ≡ price r.product_id
  pub sub_total : i.sub_total ≡ (price r.product_id * r.quantity) % 2 ^ 64

-- The items of the order are those of the request, one for one and in their order.
abbrev pub ArePriced : (Uuid → ℕ) → Uuid → List CreateOrderItemRequest → List OrderItem → Type 0
ArePriced price o [] [] = Unit
ArePriced price o [] (i ∷ is) = ⊥
ArePriced price o (r ∷ rs) [] = ⊥
ArePriced price o (r ∷ rs) (i ∷ is) = IsPriced price o r i × ArePriced price o rs is

-- The order, its items and its payment for a request at the prices of the catalog.
pub record Priced (user_id : Uuid) (requests : List CreateOrderItemRequest) (db : Db)
    (order : Order) (created : List OrderItem) (payment : Payment) : Type 0 where
  pub owner : order.user_id ≡ user_id
  pub pending : order.status ≡ OrderStatus.pending
  pub total : order.total_amount ≡ items_total (price_of db) requests % 2 ^ 64
  pub items : ArePriced (price_of db) order.id requests created
  pub billed : payment.order_id ≡ order.id
  pub unpaid : payment.status ≡ PaymentStatus.pending
  pub amount : payment.amount ≡ order.total_amount

-- An item row holds the values of the statement.
record Holding (v : CreateOrderItemValues) (row : OrderItemRow) : Type 0 where
  order : row.order_id ≡ v.order_id
  product : row.product_id ≡ v.product_id
  quantity : row.quantity ≡ v.quantity
  price : row.price ≡ v.price
  subtotal : row.subtotal ≡ v.subtotal

Holding-row :
    (v : CreateOrderItemValues) (c : Clock) (db : Db) (row : OrderItemRow) (db' : Db)
    → run_create_order_item v c db ≡ ok (row, db')
    → Holding v row
unfolding run_create_order_item
Holding-row v c db row db' h = ground arith

create_order_item-IsPriced :
    (env : Env) (price : Uuid → ℕ) (order_id : Uuid) (r : CreateOrderItemRequest) (p : ℕ)
    (w : World)
    → p ≡ price r.product_id
    → Post
        (λ i _. IsPriced price order_id r i)
        NoClaim
        (create_order_item env
          (record {
            order_id = order_id;
            product_id = r.product_id;
            quantity = r.quantity;
            price = p;
          })
          w)
unfolding create_order_item query_create_order_item mul_int
create_order_item-IsPriced env price order_id r p w e =
    let v : CreateOrderItemValues = record {
      order_id = order_id;
      product_id = r.product_id;
      quantity = int32 r.quantity;
      price = p;
      subtotal = (p * r.quantity) % 2 ^ 64;
    } in
    bind-Post
      (answer-Post {P = λ row _. Holding v row} env _ w
        (λ row db h. Holding-row v (clock_at env w) w.db row db h))
      (λ row w' h. returned (record {
        order = h.order;
        product = h.product;
        quantity = ap int_of_int32 h.quantity;
        cost = h.price ∙ e;
        sub_total = h.subtotal ∙ ap (λ x. (x * r.quantity) % 2 ^ 64) e;
      }))

append_assoc :
    (xs : List OrderItem) (y : OrderItem) (ys : List OrderItem)
    → (xs ++ y ∷ []) ++ ys ≡ xs ++ y ∷ ys
append_assoc [] y ys = refl
append_assoc (x ∷ xs) y ys = ap (λ zs. x ∷ zs) (append_assoc xs y ys)

place_items-ArePriced :
    (env : Env) (price : Uuid → ℕ) (o : Uuid) (prices : UuidMap)
    (requests : List CreateOrderItemRequest) (created : List OrderItem) (w : World)
    → All (λ r. read prices r.product_id ≡ price r.product_id) requests
    → Post
        (λ items _.
          (new : List OrderItem) × (items ≡ created ++ new) × ArePriced price o requests new)
        NoClaim
        (place_items env o prices requests created w)
unfolding place_items decrease_product_stock query_decrease_product_stock
place_items-ArePriced env price o prices [] created w h = returned ([], append_nil created, tt)
  where
    append_nil : (xs : List OrderItem) → xs ≡ xs ++ []
    append_nil [] = refl
    append_nil (x ∷ xs) = ap (λ zs. x ∷ zs) (append_nil xs)
place_items-ArePriced env price o prices (r ∷ requests) created w h =
    bind-Post (create_order_item-IsPriced env price o r (read prices r.product_id) w h.0)
      λ i w1 is_priced.
        bind-Post (answer-Post {P = λ _ _. Unit {0}} env _ w1 (λ _ _ _. tt)) λ n w2 _.
          guard-Post _ (n == 0) insufficient_stock w2 (no_claim _ _) λ _.
            Post-mono (place_items-ArePriced env price o prices requests (created ++ i ∷ []) w2 h.1)
              λ items w3 (new, e, rest).
                (i ∷ new, e ∙ append_assoc created i new, (is_priced, rest))

insert_order-Opened :
    (env : Env) (user_id total : ℕ) (w : World)
    → Post
        (λ o _. (o.user_id ≡ user_id) × (o.status ≡ OrderStatus.pending) × (o.total_amount ≡ total))
        NoClaim
        (insert_order env user_id total w)
unfolding insert_order query_create_order
insert_order-Opened env user_id total w =
    bind-Post
      (answer-Post {P = λ row w'. Opened user_id total row w.db w'.db} env _ w
        (λ row db h. opened user_id total (clock_at env w) w.db row db h))
      (λ row w' h. returned (h.owner, h.pending, h.amount))

create_payment-Billed :
    (env : Env) (order_id amount : ℕ) (w : World)
    → Post
        (λ p _. (p.order_id ≡ order_id) × (p.status ≡ PaymentStatus.pending) × (p.amount ≡ amount))
        NoClaim
        (create_payment env order_id amount w)
unfolding create_payment query_create_payment
create_payment-Billed env order_id amount w =
    bind-Post
      (answer-Post {P = λ row w'. Billed order_id amount row w.db w'.db} env _ w
        (λ row db h. billed order_id amount "fake" (clock_at env w) w.db row db h))
      (λ row w' h. returned (h.order, h.pending, h.amount))

place_order-Priced :
    (env : Env) (user_id : Uuid) (req : CreateOrderRequest) (w : World)
    → Post
        (λ (order, items, payment) _. Priced user_id req.items w.db order items payment)
        NoClaim
        (place_order env user_id req w)
unfolding place_order lock_and_price
place_order-Priced env user_id req w =
    let price = price_of w.db in
    let quantities = quantity_by_product req.items in
    let ids = sorted_product_ids quantities in
    bind-Post (lock_products-Summed env price quantities ids [] 0 w (λ id. refl))
      λ priced w1 (same, summed).
        bind-Post (insert_order-Opened env user_id priced.1 w1) λ order w2 (owner, pending, total).
          bind-Post
            (place_items-ArePriced env price order.id priced.0 req.items [] w2
              (sorted_products-All (λ id. read priced.0 id ≡ price id) req.items summed.reads))
            λ items w3 (new, e, are_priced).
              bind-Post (create_payment-Billed env order.id order.total_amount w3)
                λ payment w4 (billed_order, unpaid, amount). returned (record {
                  owner = owner;
                  pending = pending;
                  total =
                      total
                      ∙ exact priced.1 (items_total price req.items) (summed.bounded (omega arith))
                          (summed.sum ∙ omega arith ∙ sorted_products-total price req.items);
                  items = subst (ArePriced price order.id req.items) (sym e) are_priced;
                  billed = billed_order;
                  unpaid = unpaid;
                  amount = amount;
                })
  where
    exact : (n m : ℕ) → n < 2 ^ 64 → n % 2 ^ 64 ≡ m % 2 ^ 64 → n ≡ m % 2 ^ 64
    exact n m h e = omega (arith, h, e)

-- An order that is placed belongs to its user and is pending; it has the items of the request, one
-- for one, each at the product's price in the catalog and with price times quantity as its
-- sub-total, and its total is the sum of price times quantity over the request, on the 64 bits of an
-- `int`; its payment is pending over that total. If placing fails, the tables are as they were.
pub create_order-Priced :
    (env : Env) (user_id : Uuid) (req : CreateOrderRequest) (w : World)
    → Post
        (λ (order, items, payment) _. Priced user_id req.items w.db order items payment)
        (λ _ w'. w'.db ≡ w.db)
        (create_order env user_id req w)
unfolding create_order
create_order-Priced env user_id req w =
    within_tx-Post (λ (order, items, payment) _. Priced user_id req.items w.db order items payment)
      env (place_order env user_id req) w
      λ w0 same _.
        subst
          (λ d.
            Post (λ (order, items, payment) _. Priced user_id req.items d order items payment)
              NoClaim (place_order env user_id req w0))
          same (place_order-Priced env user_id req w0)
