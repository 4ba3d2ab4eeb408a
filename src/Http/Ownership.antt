-- ===== src/Http/Ownership.antt =====
-- Requests for an order of someone else.
use distributed_order_proces.Base.{◌≡◌, refl, suc, Bool-cases, inl, inr, none, some, ◌⊎◌, true}
use distributed_order_proces.Database.Rows.{Uuid, Db}
use distributed_order_proces.Database.Keys.{find_order}
use distributed_order_proces.Database.Tx.{
  Env, World, statement, within_tx_or_return, within_tx, finish_or_return, finish_tx,
}
use distributed_order_proces.Order.Queries.{
  owned_by, query_get_order_by_id, query_lock_order_for_update,
}
use distributed_order_proces.Http.Message.{Response, Codec, Request}
use distributed_order_proces.Http.Orders.{
  handle_get_order_by_id, handle_cancel_order, get_order_error, cancel_order_error,
}
use distributed_order_proces.Http.Payments.{
  handle_pay, handle_get_payment_by_order_id, get_payment_error, pay_error,
}
use distributed_order_proces.Order.Service.{get_order_by_id, cancel_order, withdraw_order}
use distributed_order_proces.Payment.Queries.{
  query_get_payment_by_order_id, query_lock_order_for_payment,
}
use distributed_order_proces.Order.Store.{select_order_by_id, lock_order_for_update}
use distributed_order_proces.Payment.Repository.{pay_order}
use distributed_order_proces.Payment.Service as PaymentService
use distributed_order_proces.Payment.Repository as PaymentRepository

-- The order does not exist, or not for the user.
abbrev pub IsForeign : Uuid → Uuid → Db → Type 0
IsForeign user_id order_id db = owned_by user_id (find_order order_id db) ≡ none

-- One of the first two calls made from here on is lost.
abbrev pub IsLost : Env → World → Type 0
IsLost env w = (env.fails w.tick ≡ true) ⊎ (env.fails (suc w.tick) ≡ true)

-- 404, or 500 with a call lost; the tables and the log of the provider are as they were.
abbrev pub Denied : Env → World → Response × World → Type 0
Denied env w (response, w') =
    ((response.status ≡ 404) ⊎ ((response.status ≡ 500) × IsLost env w))
    × (w'.db ≡ w.db)
    × (w'.charges ≡ w.charges)

module _ (env : Env) (codec : Codec) (r : Request) (user_id order_id : Uuid) (w : World)
    (authenticated : r.user_id ≡ some user_id) (named : codec.parse_uuid r.id ≡ some order_id)
    (foreign : IsForeign user_id order_id w.db) where
  get_order-Denied : Denied env w (handle_get_order_by_id env codec r w)
  unfolding handle_get_order_by_id get_order_by_id select_order_by_id query_get_order_by_id
      statement get_order_error
  get_order-Denied = elim (Bool-cases (env.fails w.tick)) [
    | inl lost ↦ rw (authenticated, named, lost) (inr (refl, inl refl), refl, refl)
    | inr answered ↦ rw (authenticated, named, answered, foreign) (inl refl, refl, refl)
  ]

  get_payment-Denied : Denied env w (handle_get_payment_by_order_id env codec r w)
  unfolding handle_get_payment_by_order_id PaymentService.get_payment_by_order_id
      PaymentRepository.get_payment_by_order_id query_get_payment_by_order_id statement
      get_payment_error
  get_payment-Denied = elim (Bool-cases (env.fails w.tick)) [
    | inl lost ↦ rw (authenticated, named, lost) (inr (refl, inl refl), refl, refl)
    | inr answered ↦ rw (authenticated, named, answered, foreign) (inl refl, refl, refl)
  ]

  cancel-Denied : Denied env w (handle_cancel_order env codec r w)
  unfolding handle_cancel_order cancel_order within_tx finish_tx withdraw_order
      lock_order_for_update query_lock_order_for_update statement cancel_order_error
  cancel-Denied = elim (Bool-cases (env.fails w.tick)) [
    | inl lost ↦ rw (authenticated, named, lost) (inr (refl, inl refl), refl, refl)
    | inr begun ↦ elim (Bool-cases (env.fails (suc w.tick))) [
      | inl lost ↦ rw (authenticated, named, begun, lost) (inr (refl, inr refl), refl, refl)
      | inr answered ↦ rw (authenticated, named, begun, answered, foreign) (inl refl, refl, refl)
    ]
  ]

  pay-Denied : Denied env w (handle_pay env codec r w)
  unfolding handle_pay PaymentService.pay PaymentRepository.pay within_tx_or_return finish_or_return
      pay_order query_lock_order_for_payment statement pay_error
  pay-Denied = elim (Bool-cases (env.fails w.tick)) [
    | inl lost ↦ rw (authenticated, named, lost) (inr (refl, inl refl), refl, refl)
    | inr begun ↦ elim (Bool-cases (env.fails (suc w.tick))) [
      | inl lost ↦ rw (authenticated, named, begun, lost) (inr (refl, inr refl), refl, refl)
      | inr answered ↦ rw (authenticated, named, begun, answered, foreign) (inl refl, refl, refl)
    ]
  ]

  -- A user who asks for an order of another user, or for one that does not exist, who cancels it, pays
  -- it or asks for its payment, is answered 404, or 500 only if one of the first two calls of the request is
  -- lost, and no table and no charge of the provider has changed.
  pub foreign-Denied :
      Denied env w (handle_get_order_by_id env codec r w)
      × Denied env w (handle_cancel_order env codec r w)
      × Denied env w (handle_pay env codec r w)
      × Denied env w (handle_get_payment_by_order_id env codec r w)
  foreign-Denied = (get_order-Denied, cancel-Denied, pay-Denied, get_payment-Denied)
