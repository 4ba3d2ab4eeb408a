-- ===== src/Payment/Queries.antt =====
-- The statements of sqlc/payment.sql.go, with the constraints of api/migrations that they meet.
use distributed_order_proces.Base.{
  String, Bool, false, Option, none, some, List, [], ◌∷◌, ◌&&◌, ◌||◌, not, ◌==◌, str_eq,
  if◌then◌else◌,
}
use distributed_order_proces.Base.Table.{replace}
use distributed_order_proces.Database.Rows.{
  Uuid, OrderStatus, PaymentStatus, OrderRow, PaymentRow, Db,
}
use distributed_order_proces.Database.Keys.{find_order, find_payment}
use distributed_order_proces.Database.Tx.{
  no_rows, unique_violation, Result, ok, err, order_lock, payment_lock, Env, Tx, Clock, statement,
  holding,
}
use distributed_order_proces.Order.Queries.{one_row, owned_by}

-- SELECT * FROM orders WHERE id = $1 AND user_id = $2 FOR UPDATE
unfoldable pub query_lock_order_for_payment : Env → Uuid → Uuid → Tx OrderRow
query_lock_order_for_payment env id user_id w =
    holding (order_lock id)
      (statement env (λ c db. one_row db (owned_by user_id (find_order id db))) w)

-- SELECT * FROM payments WHERE order_id = $1 FOR UPDATE
unfoldable pub query_lock_payment_for_update : Env → Uuid → Tx PaymentRow
query_lock_payment_for_update env order_id w =
    holding (payment_lock order_id)
      (statement env (λ c db. one_row db (find_payment order_id db)) w)

-- The unique index on (provider, transaction_id).
abbrev same_text : String → Option String → Bool
same_text s none = false
same_text s (some t) = str_eq t s

abbrev pub is_taken : String → PaymentRow → List PaymentRow → Bool
is_taken tx row [] = false
is_taken tx row (p ∷ ps) =
    (not (p.order_id == row.order_id)
      && str_eq p.provider row.provider
      && same_text tx p.transaction_id)
    || is_taken tx row ps

-- UPDATE payments SET status = $1, transaction_id = $2 ... WHERE order_id = $3 RETURNING *
unfoldable pub run_update_payment_status :
    PaymentStatus → String → Option PaymentRow → Clock → Db → Result (PaymentRow × Db)
run_update_payment_status status tx none c db = err no_rows
run_update_payment_status status tx (some row) c db =
    let row' = record row { status = status; transaction_id = some tx; updated_at = c.time } in
    if is_taken tx row db.payments
    then err unique_violation
    else ok
        (row', record db { payments = replace PaymentRow.order_id row.order_id row' db.payments })

unfoldable pub query_update_payment_status : Env → PaymentStatus → String → Uuid → Tx PaymentRow
query_update_payment_status env status tx order_id =
    statement env (λ c db. run_update_payment_status status tx (find_payment order_id db) c db)

-- SELECT p.* FROM payments p JOIN orders o ON o.id = p.order_id WHERE o.id = $1 AND o.user_id = $2
abbrev joined : Option OrderRow → Option PaymentRow → Option PaymentRow
joined none p = none
joined (some o) p = p

unfoldable pub query_get_payment_by_order_id : Env → Uuid → Uuid → Tx PaymentRow
query_get_payment_by_order_id env id user_id =
    statement env
      (λ c db. one_row db (joined (owned_by user_id (find_order id db)) (find_payment id db)))

-- UPDATE orders SET status = 'paid' ... WHERE id = $1 RETURNING *
unfoldable pub run_mark_order_as_paid : Option OrderRow → Clock → Db → Result (OrderRow × Db)
run_mark_order_as_paid none c db = err no_rows
run_mark_order_as_paid (some row) c db =
    let row' = record row { status = OrderStatus.paid; updated_at = c.time } in
    ok (row', record db { orders = replace OrderRow.id row.id row' db.orders })

unfoldable pub query_mark_order_as_paid : Env → Uuid → Tx OrderRow
query_mark_order_as_paid env id =
    statement env (λ c db. run_mark_order_as_paid (find_order id db) c db)
