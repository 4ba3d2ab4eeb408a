-- ===== src/Order/Queries.antt =====
-- The statements of sqlc/orders.sql.go, with the constraints of api/migrations that they meet. A
-- broken constraint is an error of the statement, which then changes nothing. A WHERE clause that
-- names a primary key meets one row at most.
use distributed_order_proces.Base.{
  ℕ, String, Option, none, some, List, ◌∷◌, ◌&&◌, ◌==◌, if◌then◌else◌,
}
use distributed_order_proces.Base.Lists.{filter}
use distributed_order_proces.Base.Words.{
  ge_int4, sub_int4, add_int4, is_nonneg4, is_nonneg8, is_pos4,
}
use distributed_order_proces.Base.Table.{find, replace}
use distributed_order_proces.Database.Rows.{
  Uuid, OrderStatus, PaymentStatus, ProductRow, OrderRow, OrderItemRow, PaymentRow, Db,
}
use distributed_order_proces.Database.Keys.{
  is_some, find_user, find_product, find_order, find_payment,
}
use distributed_order_proces.Database.Tx.{
  driver, unique_violation, no_rows, Result, ok, err, order_lock, product_lock, Env, Tx, Clock,
  statement, holding,
}

-- `row.Scan` of a query for one row: with none it reports pgx.ErrNoRows.
abbrev pub one_row : {A : Type 0} → Db → Option A → Result (A × Db)
one_row db none = err no_rows
one_row db (some row) = ok (row, db)

abbrev pub owned_by : Uuid → Option OrderRow → Option OrderRow
owned_by user_id none = none
owned_by user_id (some row) = if row.user_id == user_id then some row else none

-- INSERT INTO orders
abbrev pub new_order : Uuid → ℕ → Clock → OrderRow
new_order user_id total_amount c = record {
  id = c.uuid;
  user_id = user_id;
  status = OrderStatus.pending;
  total_amount = total_amount;
  created_at = c.time;
  updated_at = c.time;
}

unfoldable pub run_create_order : Uuid → ℕ → Clock → Db → Result (OrderRow × Db)
run_create_order user_id total_amount c db =
    let row = new_order user_id total_amount c in
    if is_some (find_order c.uuid db)
    then err unique_violation
    else if is_nonneg8 total_amount && is_some (find_user user_id db)
    then ok (row, record db { orders = row ∷ db.orders })
    else err driver

unfoldable pub query_create_order : Env → Uuid → ℕ → Tx OrderRow
query_create_order env user_id total_amount = statement env (run_create_order user_id total_amount)

-- INSERT INTO order_items
pub record CreateOrderItemValues : Type 0 where
  pub order_id : Uuid
  pub product_id : Uuid
  pub quantity : ℕ  -- int32
  pub price : ℕ
  pub subtotal : ℕ

abbrev pub new_order_item : CreateOrderItemValues → Clock → OrderItemRow
new_order_item v c = record {
  id = c.uuid;
  order_id = v.order_id;
  product_id = v.product_id;
  quantity = v.quantity;
  price = v.price;
  subtotal = v.subtotal;
  created_at = c.time;
  updated_at = c.time;
}

unfoldable pub run_create_order_item :
    CreateOrderItemValues → Clock → Db → Result (OrderItemRow × Db)
run_create_order_item v c db =
    let row = new_order_item v c in
    if is_some (find OrderItemRow.id c.uuid db.order_items)
    then err unique_violation
    else if is_pos4 v.quantity
        && is_nonneg8 v.price
        && is_nonneg8 v.subtotal
        && is_some (find_order v.order_id db)
        && is_some (find_product v.product_id db)
    then ok (row, record db { order_items = row ∷ db.order_items })
    else err driver

unfoldable pub query_create_order_item : Env → CreateOrderItemValues → Tx OrderItemRow
query_create_order_item env v = statement env (run_create_order_item v)

-- INSERT INTO payments
abbrev pub new_payment : Uuid → ℕ → String → Option String → Clock → PaymentRow
new_payment order_id amount provider transaction_id c = record {
  id = c.uuid;
  order_id = order_id;
  amount = amount;
  status = PaymentStatus.pending;
  provider = provider;
  transaction_id = transaction_id;
  created_at = c.time;
  updated_at = c.time;
}

-- The index on (provider, transaction_id) leaves rows without a transaction id out, and the only
-- caller inserts such a row.
unfoldable pub run_create_payment : Uuid → ℕ → String → Clock → Db → Result (PaymentRow × Db)
run_create_payment order_id amount provider c db =
    let row = new_payment order_id amount provider none c in
    if is_some (find PaymentRow.id c.uuid db.payments)
    then err unique_violation
    else if is_some (find_payment order_id db)
    then err unique_violation
    else if is_nonneg8 amount && is_some (find_order order_id db)
    then ok (row, record db { payments = row ∷ db.payments })
    else err driver

unfoldable pub query_create_payment : Env → Uuid → ℕ → String → Tx PaymentRow
query_create_payment env order_id amount provider =
    statement env (run_create_payment order_id amount provider)

-- UPDATE products SET stock = ..., under CHECK (stock >= 0); the result is the rows affected.
unfoldable pub write_stock : ProductRow → Option ℕ → Clock → Db → Result (ℕ × Db)
write_stock row none c db = err driver
write_stock row (some s) c db =
    let row' = record row { stock = s; updated_at = c.time } in
    if is_nonneg4 s
    then ok (1, record db { products = replace ProductRow.id row.id row' db.products })
    else err driver

unfoldable pub run_decrease : ℕ → Option ProductRow → Clock → Db → Result (ℕ × Db)
unfolding write_stock
run_decrease quantity none c db = ok (0, db)
run_decrease quantity (some row) c db =
    if ge_int4 row.stock quantity
    then write_stock row (sub_int4 row.stock quantity) c db
    else ok (0, db)

unfoldable pub query_decrease_product_stock : Env → ℕ → Uuid → Tx ℕ
query_decrease_product_stock env quantity id =
    statement env (λ c db. run_decrease quantity (find_product id db) c db)

unfoldable pub run_increase : ℕ → Option ProductRow → Clock → Db → Result (ℕ × Db)
unfolding write_stock
run_increase quantity none c db = ok (0, db)
run_increase quantity (some row) c db = write_stock row (add_int4 row.stock quantity) c db

unfoldable pub query_increase_product_stock : Env → ℕ → Uuid → Tx ℕ
query_increase_product_stock env quantity id =
    statement env (λ c db. run_increase quantity (find_product id db) c db)

-- SELECT ... FROM products WHERE id = $1 FOR UPDATE
unfoldable pub query_lock_product_for_update : Env → Uuid → Tx ProductRow
query_lock_product_for_update env id w =
    holding (product_lock id) (statement env (λ c db. one_row db (find_product id db)) w)

-- SELECT ... FROM orders WHERE user_id = $1 AND id = $2 FOR UPDATE
unfoldable pub query_lock_order_for_update : Env → Uuid → Uuid → Tx OrderRow
query_lock_order_for_update env user_id id w =
    holding (order_lock id)
      (statement env (λ c db. one_row db (owned_by user_id (find_order id db))) w)

unfoldable pub query_get_order_by_id : Env → Uuid → Uuid → Tx OrderRow
query_get_order_by_id env id user_id =
    statement env (λ c db. one_row db (owned_by user_id (find_order id db)))

-- The queries for many rows; no order is asked for.
unfoldable pub query_get_order_items_by_order_id : Env → Uuid → Tx (List OrderItemRow)
query_get_order_items_by_order_id env order_id =
    statement env (λ c db. ok (filter (λ i. i.order_id == order_id) db.order_items, db))

unfoldable pub query_get_orders : Env → Uuid → Tx (List OrderRow)
query_get_orders env user_id =
    statement env (λ c db. ok (filter (λ o. o.user_id == user_id) db.orders, db))

-- UPDATE orders SET status = $1 ... WHERE id = $2 AND user_id = $3 RETURNING
unfoldable pub run_update_order_status :
    OrderStatus → Option OrderRow → Clock → Db → Result (OrderRow × Db)
run_update_order_status status none c db = err no_rows
run_update_order_status status (some row) c db =
    let row' = record row { status = status; updated_at = c.time } in
    ok (row', record db { orders = replace OrderRow.id row.id row' db.orders })

unfoldable pub query_update_order_status : Env → OrderStatus → Uuid → Uuid → Tx OrderRow
query_update_order_status env status id user_id =
    statement env
      (λ c db. run_update_order_status status (owned_by user_id (find_order id db)) c db)
