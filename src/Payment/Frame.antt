-- ===== src/Payment/Frame.antt =====
-- A payment keeps every invariant that the rows it writes keep.
use distributed_order_proces.Base.{
  String, ◌≡◌, Bool, Bool-cases, inl, inr, Option, none, some, subst, sym, arith,
}
use distributed_order_proces.Base.Table.{replace}
use distributed_order_proces.Database.Rows.{
  Uuid, Db, OrderRow, PaymentRow, OrderStatus, PaymentStatus, is_success,
}
use distributed_order_proces.Database.Tx.{
  Env, World, Clock, order_lock, payment_lock, no_order_found, no_payment_found,
}
use distributed_order_proces.Database.Post.{
  Post, NoClaim, no_claim, bind-Post, returned, failed, rename-Post, holding-Post,
  within_tx_or_return-Post, Leaves,
}
use distributed_order_proces.Order.Stable.{Stable, Keeping, Quiet, one_row-Quiet}
use distributed_order_proces.Order.Frame.{statement-Keeping}
use distributed_order_proces.Payment.Queries.{
  run_update_payment_status, run_mark_order_as_paid, query_update_payment_status,
  query_mark_order_as_paid, query_lock_order_for_payment, query_lock_payment_for_update,
}
use distributed_order_proces.Payment.Model.{Payment, Order}
use distributed_order_proces.Payment.Repository.{
  record_charge, settle_order, charge_order, pay_locked, pay_order,
}
use distributed_order_proces.Payment.Provider.{charge}
use distributed_order_proces.Payment.Repository

module _ {I : Db → Type 0} (st : Stable I) where
  update_payment-Quiet :
      (s : PaymentStatus) (tx : String) (o : Option PaymentRow) (c : Clock) (db : Db)
      → I db
      → Quiet I (run_update_payment_status s tx o c db)
  unfolding run_update_payment_status
  update_payment-Quiet s tx none c db h a db' e = cc
  update_payment-Quiet s tx (some row) c db h a db' e =
      let written : record db { payments = replace PaymentRow.order_id row.order_id a db.payments }
          ≡ db' =
        ground (arith, e) in
      subst I written (st.set_payment row.order_id a db h)

  mark_paid-Quiet :
      (o : Option OrderRow) (c : Clock) (db : Db) → I db → Quiet I (run_mark_order_as_paid o c db)
  unfolding run_mark_order_as_paid
  mark_paid-Quiet none c db h a db' e = cc
  mark_paid-Quiet (some row) c db h a db' e =
      let written : record db { orders = replace OrderRow.id row.id a db.orders } ≡ db' = cc in
      subst I written (st.set_order row.id a db h)

  module _ (env : Env) where
    settle_order-Keeping :
        (p : PaymentRow) (o : OrderRow) (w : World) → I w.db → Keeping I (settle_order env p o w)
    unfolding settle_order query_mark_order_as_paid
    settle_order-Keeping p o w h = elim (Bool-cases (is_success p.status)) [
      | inl success ↦ rw success (
          rename-Post no_order_found (λ e w _. no_claim _ w)
            (statement-Keeping I env _ w (mark_paid-Quiet _ _ w.db h)))
      | inr other ↦ rw other (returned h)
    ]

    -- What the body leaves in the tables, its own or those it began with, keeps the invariant.
    Leaving : Db → (Payment × Order) × Bool → World → Type 0
    Leaving db = Leaves (λ _ d _. I d) db

    charge_order-Leaving :
        (db : Db) (p : PaymentRow) (o : OrderRow) (w : World)
        → I w.db
        → Post (Leaving db) NoClaim (charge_order env p o w)
    unfolding charge_order charge record_charge query_update_payment_status Leaving
    charge_order-Leaving db p o w h =
        bind-Post
          (rename-Post no_payment_found (λ e w _. no_claim _ w)
            (statement-Keeping I env _ _ (update_payment-Quiet _ _ _ _ w.db h)))
          (λ p' w1 h1. bind-Post (settle_order-Keeping p' o w1 h1) (λ _ w' k. returned k))

    pay_locked-Leaving :
        (db : Db) (s : OrderStatus) (p : PaymentRow) (o : OrderRow) (w : World)
        → I db
        → I w.db
        → Post (Leaving db) NoClaim (pay_locked env s p o w)
    unfolding pay_locked Leaving
    pay_locked-Leaving db OrderStatus.paid p o w h k = returned h
    pay_locked-Leaving db OrderStatus.cancelled p o w h k = failed (no_claim _ w)
    pay_locked-Leaving db OrderStatus.pending p o w h k = elim (Bool-cases (is_success p.status)) [
      | inl success ↦ rw success (returned h)
      | inr other ↦ rw other (charge_order-Leaving db p o w k)
    ]

    pay_order-Leaving :
        (db : Db) (user_id order_id : Uuid) (w : World)
        → I db
        → I w.db
        → Post (Leaving db) NoClaim (pay_order env user_id order_id w)
    unfolding pay_order query_lock_order_for_payment query_lock_payment_for_update
    pay_order-Leaving db user_id order_id w h k =
        bind-Post
          (rename-Post no_order_found (λ e w _. no_claim _ w)
            (holding-Post {Q = λ _ w'. I w'.db} (order_lock order_id)
              (statement-Keeping I env _ w (one_row-Quiet I w.db _ k)) (λ a w' e. e)))
          (λ o w1 k1.
            bind-Post
              (rename-Post no_payment_found (λ e w _. no_claim _ w)
                (holding-Post {Q = λ _ w'. I w'.db} (payment_lock o.id)
                  (statement-Keeping I env _ w1 (one_row-Quiet I w1.db _ k1)) (λ a w' e. e)))
              (λ p w2 k2. pay_locked-Leaving db o.status p o w2 h k2))

    -- Whether it succeeds, returns early or fails, a payment keeps the invariant.
    pub pay-Keeping :
        (user_id order_id : Uuid) (w : World)
        → I w.db
        → Post (λ _ w'. I w'.db) (λ _ w'. w'.db ≡ w.db) (Repository.pay env user_id order_id w)
    unfolding Repository.pay Leaving
    pay-Keeping user_id order_id w h =
        within_tx_or_return-Post (λ _ d _. I d) env (pay_order env user_id order_id) w
          (λ w0 e _. pay_order-Leaving w.db user_id order_id w0 h (subst I (sym e) h))
