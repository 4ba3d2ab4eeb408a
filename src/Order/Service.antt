-- ===== src/Order/Service.antt =====
-- order_service.go: placing and cancelling an order, each in one transaction. The tracing spans
-- are left out.
use distributed_order_proces.Base.{ℕ, List, [], ◌∷◌, ◌++◌, map, not, ◌==◌, if◌then◌else◌}
use distributed_order_proces.Base.Lists.{length}
use distributed_order_proces.Base.Words.{add_int, mul_int, lt_int}
use distributed_order_proces.Base.Sort.{sort_by}
use distributed_order_proces.Database.Rows.{Uuid, OrderStatus, is_pending}
use distributed_order_proces.Database.Tx.{
  insufficient_stock, product_not_found, order_not_pending, order_items_unavailable, Env, Tx, pure,
  ◌>>=◌, ◌>>◌, throw_if, within_tx,
}
use distributed_order_proces.Order.Model.{
  Order, OrderItem, Payment, CreateOrderItemRequest, CreateOrderRequest,
}
use distributed_order_proces.Order.Store.{
  lock_product_for_update, decrease_product_stock, increase_product_stock, insert_order,
  create_order_item, create_payment, lock_order_for_update, get_order_items_by_order_id,
  update_order_status, select_orders, select_order_by_id,
}

-- A `map[uuid.UUID]int`. A key that is missing reads as 0.
abbrev pub UuidMap : Type 0
UuidMap = List (Uuid × ℕ)

unfoldable pub read : UuidMap → Uuid → ℕ
read [] id = 0
read ((k, v) ∷ m) id = if k == id then v else read m id

-- `m[id] += quantity`
unfoldable pub add_quantity : Uuid → ℕ → UuidMap → UuidMap
add_quantity id quantity [] = (id, add_int 0 quantity) ∷ []
add_quantity id quantity ((k, v) ∷ m) =
    if k == id then (k, add_int v quantity) ∷ m else (k, v) ∷ add_quantity id quantity m

unfoldable pub add_quantities : UuidMap → List CreateOrderItemRequest → UuidMap
add_quantities m [] = m
add_quantities m (item ∷ items) =
    add_quantities (add_quantity item.product_id item.quantity m) items

unfoldable pub quantity_by_product : List CreateOrderItemRequest → UuidMap
quantity_by_product items = add_quantities [] items

unfoldable pub sorted_product_ids : UuidMap → List Uuid
sorted_product_ids quantities = sort_by (λ id. id) (map (λ e. e.0) quantities)

-- The loop of `lockAndPrice`.
unfoldable pub lock_products : Env → UuidMap → List Uuid → UuidMap → ℕ → Tx (UuidMap × ℕ)
lock_products env quantities [] prices total_price = pure (prices, total_price)
lock_products env quantities (product_id ∷ ids) prices total_price = do
  locked_product ← lock_product_for_update env product_id
  throw_if (lt_int locked_product.stock (read quantities product_id)) insufficient_stock
  lock_products env quantities ids ((product_id, locked_product.price) ∷ prices)
      (add_int total_price (mul_int locked_product.price (read quantities product_id)))

unfoldable pub lock_and_price : Env → UuidMap → Tx (UuidMap × ℕ)
lock_and_price env quantities = lock_products env quantities (sorted_product_ids quantities) [] 0

-- The loop over the items of the request.
unfoldable pub place_items :
    Env → Uuid → UuidMap → List CreateOrderItemRequest → List OrderItem → Tx (List OrderItem)
place_items env order_id prices [] created_items = pure created_items
place_items env order_id prices (item ∷ items) created_items = do
  created_item ← create_order_item env (record {
    order_id = order_id;
    product_id = item.product_id;
    quantity = item.quantity;
    price = read prices item.product_id;
  })
  rows_affected ← decrease_product_stock env item.product_id item.quantity
  throw_if (rows_affected == 0) insufficient_stock
  place_items env order_id prices items (created_items ++ created_item ∷ [])

-- The body of the transaction of `CreateOrder`.
unfoldable pub place_order : Env → Uuid → CreateOrderRequest → Tx (Order × List OrderItem × Payment)
place_order env user_id req = do
  (prices, total_price) ← lock_and_price env (quantity_by_product req.items)
  created_order ← insert_order env user_id total_price
  created_items ← place_items env created_order.id prices req.items []
  created_payment ← create_payment env created_order.id created_order.total_amount
  pure (created_order, created_items, created_payment)

unfoldable pub create_order :
    Env → Uuid → CreateOrderRequest → Tx (Order × List OrderItem × Payment)
create_order env user_id req = within_tx env (place_order env user_id req)

unfoldable pub get_orders : Env → Uuid → Tx (List Order)
get_orders env user_id = select_orders env user_id

unfoldable pub get_order_by_id : Env → Uuid → Uuid → Tx Order
get_order_by_id env user_id order_id = select_order_by_id env user_id order_id

-- The loop of `CancelOrder`.
unfoldable pub restore_items : Env → List OrderItem → Tx (Unit {0})
restore_items env [] = pure tt
restore_items env (item ∷ items) = do
  lock_product_for_update env item.product_id
  rows_affected ← increase_product_stock env item.product_id item.quantity
  throw_if (rows_affected == 0) product_not_found
  restore_items env items

-- The body of the transaction of `CancelOrder`.
unfoldable pub withdraw_order : Env → Uuid → Uuid → Tx Order
withdraw_order env user_id order_id = do
  locked_order ← lock_order_for_update env user_id order_id
  throw_if (not (is_pending locked_order.status)) order_not_pending
  order_items ← get_order_items_by_order_id env order_id
  throw_if (length order_items == 0) order_items_unavailable
  restore_items env (sort_by OrderItem.product_id order_items)
  update_order_status env user_id order_id OrderStatus.cancelled

unfoldable pub cancel_order : Env → Uuid → Uuid → Tx Order
cancel_order env user_id order_id = within_tx env (withdraw_order env user_id order_id)
