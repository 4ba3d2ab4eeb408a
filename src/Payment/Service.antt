-- ===== src/Payment/Service.antt =====
-- payment_service.go: the service passes the calls on.
use distributed_order_proces.Database.Rows.{Uuid}
use distributed_order_proces.Database.Tx.{Env, Tx, pure, ◌>>=◌}
use distributed_order_proces.Payment.Model.{Payment, Order}
use distributed_order_proces.Payment.Repository

unfoldable pub pay : Env → Uuid → Uuid → Tx (Payment × Order)
pay env user_id order_id = do
  (payment, order) ← Repository.pay env user_id order_id
  pure (payment, order)

unfoldable pub get_payment_by_order_id : Env → Uuid → Uuid → Tx Payment
get_payment_by_order_id env user_id order_id = do
  payment ← Repository.get_payment_by_order_id env user_id order_id
  pure payment
