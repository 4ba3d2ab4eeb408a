-- ===== src/Ledger/Charged.antt =====
-- A payment of which every call is answered.
use distributed_order_proces.Base.{
  ◌≡◌, refl, sym, subst, ◌∙◌, ap, suc, ltb, true, false, some, arith, ℕ, Bool, String,
}
use distributed_order_proces.Base.Table.{find-key}
use distributed_order_proces.Database.Rows.{Uuid, Db, OrderRow, PaymentRow, OrderStatus}
use distributed_order_proces.Database.Keys.{find_order, find_payment}
use distributed_order_proces.Database.Tx.{
  World, Env, within_tx_or_return, finish_or_return, statement, finish_tx, Result,
}
use distributed_order_proces.Database.Post.{Post, returned, failed}
use distributed_order_proces.Order.Answered.{Never, certain}
use distributed_order_proces.Ledger.Spec.{Sound}
use distributed_order_proces.Ledger.Retrying.{IsPayable, owned_by-own, charged_world}
use distributed_order_proces.Ledger.Paying.{PaysOnce, pay-PaysOnce}
use distributed_order_proces.Payment.Repository.{
  receipt, pay_order, pay_locked, charge_order, record_charge, settle_order, outcome,
}
use distributed_order_proces.Payment.Provider.{charge}
use distributed_order_proces.Payment.Queries.{
  query_update_payment_status, query_lock_order_for_payment, run_update_payment_status,
  query_lock_payment_for_update, query_mark_order_as_paid, run_mark_order_as_paid, is_taken,
}
use distributed_order_proces.Payment.Model.{Payment, Order}
use distributed_order_proces.Payment.Repository

found :
    (user_id o : Uuid) (db : Db) (p : IsPayable user_id o db)
    → find_order p.order.id db ≡ some (record p.order { status = OrderStatus.pending })
found user_id o db p =
    subst (λ k. find_order k db ≡ some (record p.order { status = OrderStatus.pending }))
      (sym (find-key OrderRow.id o db.orders p.existing))
      (p.existing ∙ ap (λ s. some (record p.order { status = s })) p.pending)

module _ (env : Env) (up : (n : ℕ) → env.fails n ≡ false) where
  -- The result of the charge is written down.
  record_charge-Recorded :
      (s : Bool) (tx : String) (o : OrderRow) (p : PaymentRow) (w : World)
      → find_order o.id w.db ≡ some o
      → find_payment o.id w.db ≡ some p
      → is_taken tx p w.db.payments ≡ false
      → Post (λ r _. (r.1 ≡ true) × (r.0.0.status ≡ outcome s)) Never (record_charge env s tx o w)
  unfolding record_charge settle_order query_update_payment_status run_update_payment_status
      query_mark_order_as_paid run_mark_order_as_paid statement
  record_charge-Recorded true tx o p w existing billed free =
      rw (up w.tick, billed, free, up (suc w.tick), existing) (returned (refl, refl))
  record_charge-Recorded false tx o p w existing billed free =
      rw (up w.tick, billed, free) (returned (refl, refl))

  pay_order-Recorded :
      (user_id o : Uuid) (w : World) (p : IsPayable user_id o w.db)
      → is_taken (env.new_string (suc (suc w.tick))) p.payment w.db.payments ≡ false
      → Post
          (λ r _. (r.1 ≡ true) × (r.0.0.status ≡ outcome (ltb (env.draw (suc (suc w.tick))) 80)))
          Never
          (pay_order env user_id o w)
  unfolding pay_order pay_locked charge_order charge query_lock_order_for_payment
      query_lock_payment_for_update statement
  pay_order-Recorded user_id o w p free =
      rw
        (
          up w.tick,
          p.existing,
          owned_by-own user_id p.order p.owner,
          up (suc w.tick),
          p.billed,
          p.pending,
          p.unpaid,
        )
        (record_charge-Recorded (ltb (env.draw (suc (suc w.tick))) 80) _
          (record p.order { status = OrderStatus.pending }) p.payment
          (charged_world env o p.order.id p.payment (ltb (env.draw (suc (suc w.tick))) 80) w)
          (found user_id o w.db p) p.billed free)

  pay-Recorded :
      (user_id o : Uuid) (w : World) (p : IsPayable user_id o w.db)
      → is_taken (env.new_string (suc (suc (suc w.tick)))) p.payment w.db.payments ≡ false
      → Post
          (λ r _. r.0.status ≡ outcome (ltb (env.draw (suc (suc (suc w.tick)))) 80))
          Never
          (Repository.pay env user_id o w)
  unfolding Repository.pay within_tx_or_return finish_or_return finish_tx
  pay-Recorded user_id o w p free =
      rw (up w.tick) (finished (pay_order-Recorded user_id o _ p free))
    where
      finished :
          {r : Result ((Payment × Order) × Bool) × World}
          → Post
              (λ r _.
                (r.1 ≡ true)
                × (r.0.0.status ≡ outcome (ltb (env.draw (suc (suc (suc w.tick)))) 80)))
              Never
              r
          → Post
              (λ r _. r.0.status ≡ outcome (ltb (env.draw (suc (suc (suc w.tick)))) 80))
              Never
              (finish_or_return env w.db r)
      finished (returned {a = (receipt, true)} {w = w'} h) = rw (up w'.tick) (returned h.1)
      finished (returned {a = (receipt, false)} {w = w'} h) = absurd (ground (arith, h.0))
      finished (failed h) = absurd h

  -- While no call fails, `Pay` on a sound database for an order that can be paid returns the payment with the status that
  -- the provider's answer gives it, if no other payment has the transaction id; orders and payments
  -- agree, every unit is accounted for, and the money is taken once if the order became paid and
  -- otherwise not.
  pub pay-Charged :
      (user_id o : Uuid) (w : World) (p : IsPayable user_id o w.db)
      → Sound w.db
      → is_taken (env.new_string (suc (suc (suc w.tick)))) p.payment w.db.payments ≡ false
      → Post
          (λ r w'.
            PaysOnce o w.db w.charges w'.db w'.charges
            × (r.0.status ≡ outcome (ltb (env.draw (suc (suc (suc w.tick)))) 80)))
          Never
          (Repository.pay env user_id o w)
  pay-Charged user_id o w p s free =
      certain (pay-PaysOnce env user_id o w s) (pay-Recorded user_id o w p free)
