-- ===== src/Order/Stable.antt =====
-- Invariants of the tables that every row written for an order keeps: placing and cancelling an order
-- keep them.
use distributed_order_proces.Base.{
  ◌≡◌, ◌∷◌, ℕ, Option, none, some, arith, true, false, sym, subst, Bool-cases, inl, inr,
}
use distributed_order_proces.Base.Table.{replace, find-key}
use distributed_order_proces.Database.Keys.{is_some, find_product, find_order, find_payment}
use distributed_order_proces.Database.Rows.{
  ProductRow, OrderRow, OrderItemRow, PaymentRow, Db, Uuid, Time, OrderStatus,
}
use distributed_order_proces.Database.Tx.{World, Result, ok, Clock}
use distributed_order_proces.Database.Post.{Post, NoClaim}
use distributed_order_proces.Base.Words.{add_int4, ge_int4, sub_int4}
use distributed_order_proces.Order.Queries.{
  CreateOrderItemValues, run_create_order_item, run_decrease, write_stock, run_create_order,
  run_create_payment, one_row, run_increase, run_update_order_status,
}

-- A stock that is written keeps `I`.
pub record Stocked (I : Db → Type 0) : Type 0 where
  pub set_stock :
      (row : ProductRow) (s : ℕ) (t : Time) (db : Db)
      → find_product row.id db ≡ some row
      → I db
      → I (record db {
        products =
            replace ProductRow.id row.id (record row { stock = s; updated_at = t }) db.products;
      })

-- The rows that an order which is placed writes keep `I`.
pub record Placeable (I : Db → Type 0) : Type 0 where
  pub stocked : Stocked I
  pub new_order :
      (row : OrderRow) (db : Db)
      → is_some (find_order row.id db) ≡ false
      → I db
      → I (record db { orders = row ∷ db.orders })
  pub new_item :
      (row : OrderItemRow) (db : Db)
      → is_some (find_product row.product_id db) ≡ true
      → I db
      → I (record db { order_items = row ∷ db.order_items })
  pub new_payment :
      (row : PaymentRow) (db : Db)
      → is_some (find_payment row.order_id db) ≡ false
      → I db
      → I (record db { payments = row ∷ db.payments })

-- One field for each way in which the code of orders and payments writes a row.
pub record Stable (I : Db → Type 0) : Type 0 where
  pub placeable : Placeable I
  pub set_order :
      (id : Uuid) (row : OrderRow) (db : Db)
      → I db
      → I (record db { orders = replace OrderRow.id id row db.orders })
  pub set_payment :
      (id : Uuid) (row : PaymentRow) (db : Db)
      → I db
      → I (record db { payments = replace PaymentRow.order_id id row db.payments })

module _ (I : Db → Type 0) where
  abbrev pub Keeping : {A : Type 0} → Result A × World → Type 0
  Keeping r = Post (λ _ w'. I w'.db) NoClaim r

  -- A statement that ran kept the invariant.
  abbrev pub Quiet : {A : Type 0} → Result (A × Db) → Type 0
  Quiet {A} r = (a : A) (db' : Db) → r ≡ ok (a, db') → I db'

  pub one_row-Quiet : {A : Type 0} (db : Db) (o : Option A) → I db → Quiet (one_row db o)
  one_row-Quiet db none h a db' e = cc
  one_row-Quiet db (some x) h a db' e = let same : db ≡ db' = cc in subst I same h

module _ {I : Db → Type 0} (sk : Stocked I) where
  write_stock-Quiet :
      (row : ProductRow) (o : Option ℕ) (c : Clock) (db : Db)
      → find_product row.id db ≡ some row
      → I db
      → Quiet I (write_stock row o c db)
  unfolding write_stock
  write_stock-Quiet row none c db found h a db' e = cc
  write_stock-Quiet row (some s) c db found h a db' e =
      let written : record db {
        products =
            replace ProductRow.id row.id (record row { stock = s; updated_at = c.time })
              db.products;
      }
          ≡ db' =
        ground (arith, e) in
      subst I written (sk.set_stock row s c.time db found h)

  -- The row that was found stands under its own id.
  own_id :
      (id : Uuid) (db : Db) (row : ProductRow)
      → find_product id db ≡ some row
      → find_product row.id db ≡ some row
  own_id id db row e =
      subst (λ k. find_product k db ≡ some row) (sym (find-key ProductRow.id id db.products e)) e

  pub decrease-Quiet :
      (q : ℕ) (id : Uuid) (o : Option ProductRow) (c : Clock) (db : Db)
      → find_product id db ≡ o
      → I db
      → Quiet I (run_decrease q o c db)
  unfolding run_decrease
  decrease-Quiet q id none c db found h a db' e = let same : db ≡ db' = cc in subst I same h
  decrease-Quiet q id (some row) c db found h a db' e = elim (Bool-cases (ge_int4 row.stock q)) [
    | inl enough ↦
        write_stock-Quiet row (sub_int4 row.stock q) c db (own_id id db row found) h a db'
          (rw enough at e)
    | inr short ↦ let same : db ≡ db' = ground (arith, e) in subst I same h
  ]

  pub increase-Quiet :
      (q : ℕ) (id : Uuid) (o : Option ProductRow) (c : Clock) (db : Db)
      → find_product id db ≡ o
      → I db
      → Quiet I (run_increase q o c db)
  unfolding run_increase
  increase-Quiet q id none c db found h a db' e = let same : db ≡ db' = cc in subst I same h
  increase-Quiet q id (some row) c db found h a db' e =
      write_stock-Quiet row (add_int4 row.stock q) c db (own_id id db row found) h a db' e

module _ {I : Db → Type 0} (pl : Placeable I) where
  pub create_order_item-Quiet :
      (v : CreateOrderItemValues) (c : Clock) (db : Db)
      → I db
      → Quiet I (run_create_order_item v c db)
  unfolding run_create_order_item
  create_order_item-Quiet v c db h a db' e =
      let written : record db { order_items = a ∷ db.order_items } ≡ db' = ground (arith, e) in
      let known : is_some (find_product a.product_id db) ≡ true = ground (arith, e) in
      subst I written (pl.new_item a db known h)

  pub create_order-Quiet :
      (u : Uuid) (n : ℕ) (c : Clock) (db : Db) → I db → Quiet I (run_create_order u n c db)
  unfolding run_create_order
  create_order-Quiet u n c db h a db' e =
      let written : record db { orders = a ∷ db.orders } ≡ db' = ground (arith, e) in
      let fresh : is_some (find_order a.id db) ≡ false = ground (arith, e) in
      subst I written (pl.new_order a db fresh h)

  pub create_payment-Quiet :
      (o : Uuid) (n : ℕ) (c : Clock) (db : Db) → I db → Quiet I (run_create_payment o n "fake" c db)
  unfolding run_create_payment
  create_payment-Quiet o n c db h a db' e =
      let written : record db { payments = a ∷ db.payments } ≡ db' = ground (arith, e) in
      let fresh : is_some (find_payment a.order_id db) ≡ false = ground (arith, e) in
      subst I written (pl.new_payment a db fresh h)

module _ {I : Db → Type 0} (st : Stable I) where
  pub update_order-Quiet :
      (s : OrderStatus) (o : Option OrderRow) (c : Clock) (db : Db)
      → I db
      → Quiet I (run_update_order_status s o c db)
  unfolding run_update_order_status
  update_order-Quiet s none c db h a db' e = cc
  update_order-Quiet s (some row) c db h a db' e =
      let written : record db { orders = replace OrderRow.id row.id a db.orders } ≡ db' = cc in
      subst I written (st.set_order row.id a db h)
