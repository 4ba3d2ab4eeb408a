-- ===== src/Payment/Repository.antt =====
-- payment_repository.go
use distributed_order_proces.Base.{Bool, true, false, if◌then◌else◌, String}
use distributed_order_proces.Database.Rows.{
  Uuid, OrderStatus, PaymentStatus, OrderRow, PaymentRow, is_success,
}
use distributed_order_proces.Database.Tx.{
  no_payment_found, no_order_found, order_not_payable, Env, Tx, pure, throw, ◌>>=◌, on_no_rows,
  within_tx_or_return,
}
use distributed_order_proces.Payment.Model.{Payment, Order}
use distributed_order_proces.Payment.Provider.{charge}
use distributed_order_proces.Payment.Queries.{
  query_lock_order_for_payment, query_lock_payment_for_update, query_update_payment_status,
  query_get_payment_by_order_id, query_mark_order_as_paid,
}

abbrev pub payment_from_sqlc : PaymentRow → Payment
payment_from_sqlc r = record {
  id = r.id;
  order_id = r.order_id;
  amount = r.amount;
  status = r.status;
  transaction_id = r.transaction_id;
  provider = r.provider;
  created_at = r.created_at;
  updated_at = r.updated_at;
}

abbrev pub order_from_sqlc : OrderRow → Order
order_from_sqlc r = record {
  id = r.id;
  user_id = r.user_id;
  status = r.status;
  total_amount = r.total_amount;
  created_at = r.created_at;
  updated_at = r.updated_at;
}

abbrev pub receipt : PaymentRow → OrderRow → Payment × Order
receipt p o = (payment_from_sqlc p, order_from_sqlc o)

abbrev pub outcome : Bool → PaymentStatus
outcome true = PaymentStatus.success
outcome false = PaymentStatus.failed

-- `if sqlcPayment.Status == "success" { sqlcOrder, err = MarkOrderAsPaid }`
unfoldable pub settle_order : Env → PaymentRow → OrderRow → Tx OrderRow
settle_order env p o =
    if is_success p.status
    then on_no_rows no_order_found (query_mark_order_as_paid env o.id)
    else pure o

-- What follows a charge.
unfoldable pub record_charge : Env → Bool → String → OrderRow → Tx ((Payment × Order) × Bool)
record_charge env success transaction_id o = do
  p' ←
      on_no_rows no_payment_found
        (query_update_payment_status env (outcome success) transaction_id o.id)
  o' ← settle_order env p' o
  pure (receipt p' o', true)

-- From the call of `Charge` on; what it returns is committed.
unfoldable pub charge_order : Env → PaymentRow → OrderRow → Tx ((Payment × Order) × Bool)
charge_order env p o = do
  (success, transaction_id) ← charge env p.amount
  record_charge env success transaction_id o

-- The `switch` on the order's status, and the test of the payment's. The early returns leave the
-- transaction to the deferred rollback.
unfoldable pub pay_locked :
    Env → OrderStatus → PaymentRow → OrderRow → Tx ((Payment × Order) × Bool)
pay_locked env OrderStatus.paid p o = pure (receipt p o, false)
pay_locked env OrderStatus.cancelled p o = throw order_not_payable
pay_locked env OrderStatus.pending p o =
    if is_success p.status then pure (receipt p o, false) else charge_order env p o

unfoldable pub pay_order : Env → Uuid → Uuid → Tx ((Payment × Order) × Bool)
pay_order env user_id order_id = do
  o ← on_no_rows no_order_found (query_lock_order_for_payment env order_id user_id)
  p ← on_no_rows no_payment_found (query_lock_payment_for_update env o.id)
  pay_locked env o.status p o

unfoldable pub pay : Env → Uuid → Uuid → Tx (Payment × Order)
pay env user_id order_id = within_tx_or_return env (pay_order env user_id order_id)

unfoldable pub get_payment_by_order_id : Env → Uuid → Uuid → Tx Payment
get_payment_by_order_id env user_id order_id = do
  p ← on_no_rows no_payment_found (query_get_payment_by_order_id env order_id user_id)
  pure (payment_from_sqlc p)
