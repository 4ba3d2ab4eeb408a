-- ===== src/Payment/LockOrder.antt =====
-- The order in which a payment takes its row locks, and that of all transactions together.
use distributed_order_proces.Base.{
  ◌≡◌, ◌∙◌, [], ◌∷◌, Bool, Bool-cases, inl, inr, String, subst, sym, ap, arith,
}
use distributed_order_proces.Database.Rows.{Uuid, OrderStatus, PaymentRow, OrderRow, is_success}
use distributed_order_proces.Database.Tx.{
  Env, World, order_lock, payment_lock, no_order_found, no_payment_found,
}
use distributed_order_proces.Database.Post.{
  Post, bind-Post, returned, failed, rename-Post, holding-Post,
}
use distributed_order_proces.Order.Model.{CreateOrderRequest}
use distributed_order_proces.Order.Service.{place_order, withdraw_order}
use distributed_order_proces.Order.LockOrder.{
  InOrder, Ordered, statement-Holding, statement-Ordered, place_order-Ordered,
  withdraw_order-Ordered,
}
use distributed_order_proces.Payment.Repository.{
  record_charge, settle_order, charge_order, pay_locked, pay_order,
}
use distributed_order_proces.Payment.Queries.{
  query_mark_order_as_paid, query_update_payment_status, query_lock_order_for_payment,
  query_lock_payment_for_update,
}
use distributed_order_proces.Payment.Provider.{charge}

module _ (env : Env) where
  settle_order-Ordered :
      (p : PaymentRow) (o : OrderRow) (w : World)
      → InOrder w.locks
      → Ordered (settle_order env p o w)
  unfolding settle_order query_mark_order_as_paid
  settle_order-Ordered p o w h = elim (Bool-cases (is_success p.status)) [
    | inl success ↦
        rw success (rename-Post no_order_found (λ _ _ k. k) (statement-Ordered env _ w h))
    | inr other ↦ rw other (returned h)
  ]

  record_charge-Ordered :
      (success : Bool) (tx : String) (o : OrderRow) (w : World)
      → InOrder w.locks
      → Ordered (record_charge env success tx o w)
  unfolding record_charge query_update_payment_status
  record_charge-Ordered success tx o w h =
      bind-Post (rename-Post no_payment_found (λ _ _ k. k) (statement-Ordered env _ w h))
        (λ p w1 h1. bind-Post (settle_order-Ordered p o w1 h1) (λ _ w' k. returned k))

  charge_order-Ordered :
      (p : PaymentRow) (o : OrderRow) (w : World)
      → InOrder w.locks
      → Ordered (charge_order env p o w)
  unfolding charge_order charge
  charge_order-Ordered p o w h = record_charge-Ordered _ _ o _ h

  pay_locked-Ordered :
      (status : OrderStatus) (p : PaymentRow) (o : OrderRow) (w : World)
      → InOrder w.locks
      → Ordered (pay_locked env status p o w)
  unfolding pay_locked
  pay_locked-Ordered OrderStatus.paid p o w h = returned h
  pay_locked-Ordered OrderStatus.cancelled p o w h = failed h
  pay_locked-Ordered OrderStatus.pending p o w h = elim (Bool-cases (is_success p.status)) [
    | inl success ↦ rw success (returned h)
    | inr other ↦ rw other (charge_order-Ordered p o w h)
  ]

  pub pay_order-Ordered :
      (user_id order_id : Uuid) (w : World)
      → w.locks ≡ []
      → Ordered (pay_order env user_id order_id w)
  unfolding pay_order query_lock_order_for_payment query_lock_payment_for_update
  pay_order-Ordered user_id order_id w e =
      bind-Post
        (rename-Post no_order_found (λ _ _ k. k)
          (holding-Post {Q = λ _ w'. w'.locks ≡ order_lock order_id ∷ []} (order_lock order_id)
            (statement-Holding env _ w (subst InOrder (sym e) tt))
            (λ a w' k. ap (λ ls. order_lock order_id ∷ ls) (k ∙ e))))
        (λ o w1 e1.
          bind-Post
            (rename-Post no_payment_found (λ _ _ k. k)
              (holding-Post {Q = λ _ w'. InOrder w'.locks} (payment_lock o.id)
                (statement-Holding env _ w1 (subst InOrder (sym e1) (tt, tt)))
                (λ a w' k.
                  subst (λ ls. InOrder (payment_lock o.id ∷ ls)) (sym (k ∙ e1))
                    ((inl (omega arith), tt), (tt, tt)))))
            (λ p w2 h2. pay_locked-Ordered o.status p o w2 h2))

-- Every transaction on orders takes its row locks in one order, whatever it answers and whichever
-- calls fail: the order first, then the payment, then the products by ascending id.
pub transactions-InOrder :
    (env : Env) (user_id order_id : Uuid) (req : CreateOrderRequest) (w : World)
    → w.locks ≡ []
    → Post (λ _ w'. InOrder w'.locks) (λ _ w'. InOrder w'.locks) (place_order env user_id req w)
      × Post
          (λ _ w'. InOrder w'.locks)
          (λ _ w'. InOrder w'.locks)
          (withdraw_order env user_id order_id w)
      × Post
          (λ _ w'. InOrder w'.locks)
          (λ _ w'. InOrder w'.locks)
          (pay_order env user_id order_id w)
transactions-InOrder env user_id order_id req w none_held = (
  place_order-Ordered env user_id req w none_held,
  withdraw_order-Ordered env user_id order_id w none_held,
  pay_order-Ordered env user_id order_id w none_held,
)
