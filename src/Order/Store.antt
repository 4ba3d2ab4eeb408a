-- ===== src/Order/Store.antt =====
-- order_store.go: the repository over the statements. Values cross the boundary between `int` and
-- the columns' `int32` and `int64` here.
use distributed_order_proces.Base.{ℕ, String, Option, none, some, List, map}
use distributed_order_proces.Base.Words.{mul_int, int32, int_of_int32}
use distributed_order_proces.Database.Rows.{
  Uuid, OrderStatus, ProductRow, OrderRow, OrderItemRow, PaymentRow,
}
use distributed_order_proces.Database.Tx.{
  product_not_found, order_not_found, Env, Tx, pure, ◌>>=◌, on_no_rows,
}
use distributed_order_proces.Order.Model.{Order, OrderItem, Product, Payment, CreateOrderItemParams}
use distributed_order_proces.Order.Queries.{
  query_create_order, query_create_order_item, query_create_payment, query_decrease_product_stock,
  query_increase_product_stock, query_lock_product_for_update, query_lock_order_for_update,
  query_get_order_by_id, query_get_order_items_by_order_id, query_get_orders,
  query_update_order_status,
}

abbrev pub order_from_sqlc : OrderRow → Order
order_from_sqlc r = record {
  id = r.id;
  user_id = r.user_id;
  status = r.status;
  total_amount = r.total_amount;
  created_at = r.created_at;
  updated_at = r.updated_at;
}

abbrev pub product_from_sqlc : ProductRow → Product
product_from_sqlc r = record {
  id = r.id;
  name = r.name;
  description = r.description;
  price = r.price;
  stock = int_of_int32 r.stock;
  created_at = r.created_at;
  updated_at = r.updated_at;
}

abbrev pub order_item_from_sqlc : OrderItemRow → OrderItem
order_item_from_sqlc r = record {
  id = r.id;
  order_id = r.order_id;
  product_id = r.product_id;
  quantity = int_of_int32 r.quantity;
  price = r.price;
  sub_total = r.subtotal;
  created_at = r.created_at;
  updated_at = r.updated_at;
}

-- `.String` of a pgtype.Text, which is "" where the column is NULL.
abbrev pub text_string : Option String → String
text_string none = ""
text_string (some s) = s

abbrev pub payment_from_sqlc : PaymentRow → Payment
payment_from_sqlc r = record {
  id = r.id;
  order_id = r.order_id;
  amount = r.amount;
  status = r.status;
  transaction_id = some (text_string r.transaction_id);
  provider = r.provider;
  created_at = r.created_at;
  updated_at = r.updated_at;
}

unfoldable pub lock_product_for_update : Env → Uuid → Tx Product
lock_product_for_update env product_id = do
  row ← on_no_rows product_not_found (query_lock_product_for_update env product_id)
  pure (product_from_sqlc row)

unfoldable pub decrease_product_stock : Env → Uuid → ℕ → Tx ℕ
decrease_product_stock env product_id quantity =
    query_decrease_product_stock env (int32 quantity) product_id

unfoldable pub increase_product_stock : Env → Uuid → ℕ → Tx ℕ
increase_product_stock env product_id quantity =
    query_increase_product_stock env (int32 quantity) product_id

unfoldable pub insert_order : Env → Uuid → ℕ → Tx Order
insert_order env user_id total_amount = do
  row ← query_create_order env user_id total_amount
  pure (order_from_sqlc row)

unfoldable pub create_order_item : Env → CreateOrderItemParams → Tx OrderItem
create_order_item env params = do
  row ← query_create_order_item env (record {
    order_id = params.order_id;
    product_id = params.product_id;
    quantity = int32 params.quantity;
    price = params.price;
    subtotal = mul_int params.price params.quantity;
  })
  pure (order_item_from_sqlc row)

unfoldable pub create_payment : Env → Uuid → ℕ → Tx Payment
create_payment env order_id amount = do
  row ← query_create_payment env order_id amount "fake"
  pure (payment_from_sqlc row)

unfoldable pub lock_order_for_update : Env → Uuid → Uuid → Tx Order
lock_order_for_update env user_id order_id = do
  row ← on_no_rows order_not_found (query_lock_order_for_update env user_id order_id)
  pure (order_from_sqlc row)

unfoldable pub get_order_items_by_order_id : Env → Uuid → Tx (List OrderItem)
get_order_items_by_order_id env order_id = do
  rows ← query_get_order_items_by_order_id env order_id
  pure (map order_item_from_sqlc rows)

unfoldable pub update_order_status : Env → Uuid → Uuid → OrderStatus → Tx Order
update_order_status env user_id order_id status = do
  row ← on_no_rows order_not_found (query_update_order_status env status order_id user_id)
  pure (order_from_sqlc row)

unfoldable pub select_orders : Env → Uuid → Tx (List Order)
select_orders env user_id = do
  rows ← query_get_orders env user_id
  pure (map (λ r. order_from_sqlc (record r { user_id = user_id })) rows)

unfoldable pub select_order_by_id : Env → Uuid → Uuid → Tx Order
select_order_by_id env user_id order_id = do
  row ← on_no_rows order_not_found (query_get_order_by_id env order_id user_id)
  pure (order_from_sqlc row)
