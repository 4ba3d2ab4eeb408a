-- ===== src/Ledger/Available.antt =====
-- An order for which there is stock is placed.
use distributed_order_proces.Base.{
  ◌≡◌, ◌≢◌, refl, sym, subst, ◌∙◌, ap, ℕ, suc, ◌<◌, ◌≤◌, ◌^◌, true, false, none, List, [], ◌∷◌,
  arith, ◌==◌,
}
use distributed_order_proces.Base.Lists.{All}
use distributed_order_proces.Base.Words.{int32, mul_int}
use distributed_order_proces.Database.Rows.{Uuid, Db, OrderItemRow, PaymentRow, OrderRow}
use distributed_order_proces.Database.Keys.{
  is_some, find_user, find_product, find_order, find_payment,
}
use distributed_order_proces.Database.Tx.{World, Env, clock_at}
use distributed_order_proces.Database.Post.{Post, returned, bind-Post, Post-mono}
use distributed_order_proces.Order.Model.{CreateOrderItemRequest, CreateOrderRequest, OrderItem}
use distributed_order_proces.Order.Service.{
  UuidMap, read, quantity_by_product, sorted_product_ids, place_items, place_order, create_order,
  lock_and_price,
}
use distributed_order_proces.Order.Answered.{
  Never, certain, lock_products-Answered, insert_order-Answered, create_payment-Answered,
  create_order_item-Answered, decrease-Answered, within_tx-Answered,
}
use distributed_order_proces.Ledger.Pricing.{Priced, create_order-Priced}
use distributed_order_proces.Ledger.Placing.{create_order-Keeps}
use distributed_order_proces.Ledger.Spec.{Keeps, stock_of, Sound, StatusesAgree}
use distributed_order_proces.Ledger.Statements.{Taken, decrease-Post}
use distributed_order_proces.Ledger.Prices.{price_of, lock_products-Summed}
use distributed_order_proces.Order.Totals.{items_total, sorted_products-All, sorted_products-total}
use distributed_order_proces.Base.Table.{find}
use distributed_order_proces.Order.Store.{create_order_item, decrease_product_stock}
use distributed_order_proces.Order.Queries.{CreateOrderItemValues, new_order_item}
use distributed_order_proces.Ledger.Demand.{
  Ready, Fresh, int32-low, IsOrderable, product_of-stock, demand, amount_at_self, ids_stocked,
  Fresh-later, factor_low, costs_low, mul_int-low, no_bill,
}

module _ (env : Env) (up : (n : ℕ) → env.fails n ≡ false)
    (distinct : (m n : ℕ) → m ≢ n → env.gen_random_uuid m ≢ env.gen_random_uuid n) where
  -- What one item leaves to the next.
  Taken-Ready :
      (o : Uuid) (prices : UuidMap) (i : CreateOrderItemRequest)
      (items : List CreateOrderItemRequest) (w w1 w2 : World) (row : OrderItemRow)
      → Ready env o prices (i ∷ items) w
      → row.id ≡ env.gen_random_uuid w.tick
      → w1.db ≡ record w.db { order_items = row ∷ w.db.order_items }
      → w1.tick ≡ suc w.tick
      → w2.tick ≡ suc w1.tick
      → Taken i.product_id i.quantity w1.db w2.db
      → Ready env o prices items w2
  Taken-Ready o prices i items w w1 w2 row r id same t1 t2 taken = record {
    order =
        subst (λ os. is_some (find OrderRow.id o os) ≡ true)
          (sym (taken.rest.orders ∙ ap Db.orders same)) r.order;
    bounded = λ p. omega (arith, r.bounded p, taken.taken p, stock_before p);
    enough = λ p. omega (arith, r.enough p, taken.taken p, stock_before p);
    fresh = λ n later.
        subst (λ is. find OrderItemRow.id (env.gen_random_uuid n) is ≡ none)
          (sym (taken.rest.order_items ∙ ap Db.order_items same))
          (let ne : row.id ≢ env.gen_random_uuid n =
              subst (λ k. k ≢ env.gen_random_uuid n) (sym id)
                (distinct w.tick n (λ e. omega (arith, e, later, t1, t2))) in
            let old = r.fresh n (omega (arith, later, t1, t2)) in ground (arith, ne, old));
    orderable = r.orderable.1;
  }
    where
      stock_before : (p : Uuid) → stock_of p w1.db ≡ stock_of p w.db
      stock_before p = ap (stock_of p) same

  place_items-Answered :
      (o : Uuid) (prices : UuidMap) (items : List CreateOrderItemRequest) (created : List OrderItem)
      (w : World)
      → Ready env o prices items w
      → Post
          (λ _ w'.
            (w'.db.orders ≡ w.db.orders) × (w'.db.payments ≡ w.db.payments) × (w.tick ≤ w'.tick))
          Never
          (place_items env o prices items created w)
  unfolding place_items create_order_item decrease_product_stock
  place_items-Answered o prices [] created w r = returned (refl, refl, omega arith)
  place_items-Answered o prices (i ∷ items) created w r =
      let v : CreateOrderItemValues = record {
        order_id = o;
        product_id = i.product_id;
        quantity = int32 i.quantity;
        price = read prices i.product_id;
        subtotal = mul_int (read prices i.product_id) i.quantity;
      } in
      let (positive, low, cost) = r.orderable.0 in
      let same_q = int32-low i.quantity low in
      let (row, found, enough) =
        product_of-stock (find_product i.product_id w.db) i.quantity positive
          (omega (arith, r.enough i.product_id, amount_at_self i.product_id i.quantity)) in
      let row_low : row.stock < 2 ^ 31 = ground (arith, found, r.bounded i.product_id) in
      bind-Post
        (bind-Post
          {Q = λ _ w1.
            (w1.db
              ≡ record w.db { order_items = new_order_item v (clock_at env w) ∷ w.db.order_items })
            × (w1.tick ≡ suc w.tick)}
          (create_order_item-Answered env up v w (r.fresh w.tick (omega arith)) r.order
            (ap is_some found) (omega (arith, same_q, positive)) (omega (arith, same_q, low))
            (factor_low (read prices i.product_id) i.quantity (2 ^ 63) positive cost)
            (mul_int-low (read prices i.product_id) i.quantity cost))
          (λ _ w1 e. returned e))
        λ item w1 (same, t1).
          bind-Post
            (certain
              (decrease-Post env (int32 i.quantity) i.product_id w1 (omega (arith, same_q, low))
                (λ p. subst (λ d. stock_of p d < 2 ^ 31) (sym same) (r.bounded p)))
              (decrease-Answered env up (int32 i.quantity) i.product_id row w1
                (ap (find_product i.product_id) same ∙ found) row_low
                (omega (arith, same_q, enough))))
            λ n w2 (took, (one, t2)).
              let some_row : (n == 0) ≡ false = ground (arith, one) in
              let taken : Taken i.product_id i.quantity w1.db w2.db =
                subst (λ q. Taken i.product_id q w1.db w2.db) same_q
                  (took (λ e. omega (arith, one, e))) in
              rw some_row (
                Post-mono
                  (place_items-Answered o prices items _ w2 (
                    Taken-Ready o prices i items w w1 w2 (new_order_item v (clock_at env w)) r refl
                      same t1 t2 taken))
                  (λ _ w3 (os, ps, later). (
                    os ∙ taken.rest.orders ∙ ap Db.orders same,
                    ps ∙ taken.rest.payments ∙ ap Db.payments same,
                    omega (arith, later, t1, t2),
                  )))

  place_order-Answered :
      (user_id : Uuid) (req : CreateOrderRequest) (w : World)
      → Sound w.db
      → Fresh env w
      → is_some (find_user user_id w.db) ≡ true
      → All (IsOrderable w.db) req.items
      → ((p : Uuid) → demand p req.items ≤ stock_of p w.db)
      → items_total (price_of w.db) req.items < 2 ^ 63
      → Post (λ _ _. Unit {0}) Never (place_order env user_id req w)
  unfolding place_order lock_and_price
  place_order-Answered user_id req w s fresh user orderable enough low =
      let price = price_of w.db in
      let quantities = quantity_by_product req.items in
      let ids = sorted_product_ids quantities in
      bind-Post
        (certain (lock_products-Summed env price quantities ids [] 0 w (λ id. refl)) (
          lock_products-Answered env up quantities ids [] 0 w
            (ids_stocked w.db req.items s.bounded enough orderable)))
        λ priced w1 ((same, summed), (_, later)).
          let total_low : priced.1 < 2 ^ 63 = omega (
            arith,
            low,
            summed.sum,
            summed.bounded (omega arith),
            sorted_products-total price req.items,
          ) in
          bind-Post
            (insert_order-Answered env up user_id priced.1 w1
              (subst (λ d. is_some (find_user user_id d) ≡ true) (sym same) user)
              (subst (λ d. find_order (env.gen_random_uuid w1.tick) d ≡ none) (sym same)
                (fresh.orders w1.tick later))
              total_low)
            λ order w2 (id, amount, wrote, t2).
              let here : is_some (find_order order.id w2.db) ≡ true =
                subst (λ d. is_some (find_order order.id d) ≡ true) (sym wrote)
                  (ground (arith, id)) in
              let stocks : (p : Uuid) → stock_of p w2.db ≡ stock_of p w.db =
                λ p. ap (stock_of p) wrote ∙ ap (stock_of p) same in
              bind-Post
                (place_items-Answered order.id priced.0 req.items [] w2 (record {
                  order = here;
                  bounded = λ p. omega (arith, stocks p, s.bounded p);
                  enough = λ p. omega (arith, stocks p, enough p);
                  fresh = λ n k.
                      subst (λ is. find OrderItemRow.id (env.gen_random_uuid n) is ≡ none)
                        (sym (ap Db.order_items wrote ∙ ap Db.order_items same))
                        (fresh.items n (omega (arith, k, t2, later)));
                  orderable =
                      costs_low w.db price priced.0 (2 ^ 63) req.items orderable
                        (sorted_products-All (λ j. read priced.0 j ≡ price j) req.items
                          summed.reads)
                        low;
                }))
                λ items w3 (os, ps, later3).
                  let paid_same : w3.db.payments ≡ w.db.payments =
                    ps ∙ ap Db.payments wrote ∙ ap Db.payments same in
                  bind-Post
                    (create_payment-Answered env up order.id order.total_amount w3
                      (subst (λ x. is_some (find OrderRow.id order.id x) ≡ true) (sym os) here)
                      (subst (λ x. find PaymentRow.id (env.gen_random_uuid w3.tick) x ≡ none)
                        (sym paid_same) (fresh.payments w3.tick (omega (arith, later3, t2, later))))
                      (subst (λ x. find PaymentRow.order_id order.id x ≡ none) (sym paid_same)
                        (let gone : find_order order.id w.db ≡ none =
                            subst (λ k. find_order k w.db ≡ none) (sym id)
                              (fresh.orders w1.tick later) in
                          no_bill (find_payment order.id w.db) (
                            subst (λ x. StatusesAgree x (find_payment order.id w.db)) gone
                              (s.agree order.id))))
                      (omega (arith, amount, total_low)))
                    λ p w4 _. returned tt

  create_order-Answered :
      (user_id : Uuid) (req : CreateOrderRequest) (w : World)
      → Sound w.db
      → Fresh env w
      → is_some (find_user user_id w.db) ≡ true
      → All (IsOrderable w.db) req.items
      → ((p : Uuid) → demand p req.items ≤ stock_of p w.db)
      → items_total (price_of w.db) req.items < 2 ^ 63
      → Post (λ _ _. Unit {0}) Never (create_order env user_id req w)
  unfolding create_order
  create_order-Answered user_id req w s fresh user orderable enough low =
      within_tx-Answered env up (λ _ _. Unit {0}) (place_order env user_id req) w
        (λ w0 same t.
          place_order-Answered user_id req w0 (subst Sound (sym same) s)
            (Fresh-later env w w0 same (omega (arith, t)) fresh)
            (subst (λ d. is_some (find_user user_id d) ≡ true) (sym same) user)
            (subst (λ d. All (IsOrderable d) req.items) (sym same) orderable)
            (λ p. subst (λ d. demand p req.items ≤ stock_of p d) (sym same) (enough p))
            (subst (λ d. items_total (price_of d) req.items < 2 ^ 63) (sym same) low))

  -- While no call fails and the server draws distinct and fresh ids, an order of a known user on a
  -- sound database is placed, and not refused, if every product is known and has the units that the request asks for in all,
  -- every quantity is an INT above 0, and the total is in range. The order, its items and its payment
  -- are those of the request at the prices of the catalog, and every unit is accounted for.
  pub create_order-Placed :
      (user_id : Uuid) (req : CreateOrderRequest) (w : World)
      → Sound w.db
      → Fresh env w
      → is_some (find_user user_id w.db) ≡ true
      → All (IsOrderable w.db) req.items
      → ((p : Uuid) → demand p req.items ≤ stock_of p w.db)
      → items_total (price_of w.db) req.items < 2 ^ 63
      → Post
          (λ (order, items, payment) w'.
            Priced user_id req.items w.db order items payment × Keeps w.db w'.db)
          Never
          (create_order env user_id req w)
  create_order-Placed user_id req w s fresh user orderable enough low =
      Post-mono
        (certain (create_order-Priced env user_id req w) (
          certain (create_order-Keeps env user_id req w s)
            (create_order-Answered user_id req w s fresh user orderable enough low)))
        (λ created w' h. (h.0, h.1.0))
