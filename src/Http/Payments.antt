-- ===== src/Http/Payments.antt =====
-- payment_handler.go
use distributed_order_proces.Base.{Option, none, some}
use distributed_order_proces.Database.Rows.{Uuid}
use distributed_order_proces.Database.Tx.{
  Error, no_order_found, no_payment_found, order_not_payable, Result, ok, err, World, Env,
}
use distributed_order_proces.Payment.Model.{Payment, Order}
use distributed_order_proces.Payment.Service
use distributed_order_proces.Http.Message.{
  pay_response, payment_value, Response, write_error_json, write_json, Handler, Codec, Request,
}

unfoldable pub pay_error : Error → Response
pay_error no_order_found = write_error_json 404 "order not found"
pay_error no_payment_found = write_error_json 404 "payment not found"
pay_error order_not_payable = write_error_json 409 "order cannot be paid"
pay_error _ = write_error_json 500 "something went wrong"

unfoldable pub get_payment_error : Error → Response
get_payment_error no_payment_found = write_error_json 404 "payment not found"
get_payment_error _ = write_error_json 500 "something went wrong"

abbrev pub answer_pay : Result (Payment × Order) × World → Response × World
answer_pay (ok (p, o), w) = (write_json 200 (pay_response (record { payment = p; order = o })), w)
answer_pay (err e, w) = (pay_error e, w)

abbrev pub answer_payment : Result Payment × World → Response × World
answer_payment (ok p, w) = (write_json 200 (payment_value p), w)
answer_payment (err e, w) = (get_payment_error e, w)

-- Here the user is looked at before the path parameter.
abbrev pub with_user : (Uuid → Uuid → Handler) → Option Uuid → Option Uuid → Handler
with_user act none order_id w = (write_error_json 401 "unauthorized", w)
with_user act (some user_id) none w = (write_error_json 400 "id format is invalid", w)
with_user act (some user_id) (some order_id) w = act user_id order_id w

unfoldable pub handle_pay : Env → Codec → Request → Handler
handle_pay env codec r =
    with_user (λ user_id order_id w. answer_pay (Service.pay env user_id order_id w)) r.user_id
      (codec.parse_uuid r.id)

unfoldable pub handle_get_payment_by_order_id : Env → Codec → Request → Handler
handle_get_payment_by_order_id env codec r =
    with_user
      (λ user_id order_id w.
        answer_payment (Service.get_payment_by_order_id env user_id order_id w))
      r.user_id (codec.parse_uuid r.id)
