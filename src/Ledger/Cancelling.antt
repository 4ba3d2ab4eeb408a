-- ===== src/Ledger/Cancelling.antt =====
-- Cancelling an order keeps the ledger: what the order reserved is what goes back to the stock.
use distributed_order_proces.Base.{
  arith, ◌≡◌, some, true, not, ◌==◌, ◌∙◌, ap, subst, sym, ◌<◌, ◌^◌, ◌+◌, Bool-cases, inl, inr,
}
use distributed_order_proces.Database.Rows.{Uuid, OrderRow, Db, is_pending, OrderStatus, PaymentRow}
use distributed_order_proces.Order.Service.{withdraw_order, cancel_order}
use distributed_order_proces.Database.Tx.{Env, World, order_not_pending, order_items_unavailable}
use distributed_order_proces.Ledger.Spec.{
  Sound, Keeps, stock_of, IsSoundItem, reserved_by, reserved, StatusesAgree,
}
use distributed_order_proces.Database.Keys.{find_order, find_payment}
use distributed_order_proces.Database.Post.{
  Post, NoClaim, bind-Post, guard-Post, no_claim, Post-mono, within_tx-Post,
}
use distributed_order_proces.Ledger.OrderRows.{
  lock_order-Post, get_items-Post, Marked, mark_order-Post,
}
use distributed_order_proces.Ledger.Refunds.{
  Refunded, items_of, restore_items-Post, held_by, cancelled_items, cancelled_agrees,
  items_of-refund, refund, items_of-fit,
}
use distributed_order_proces.Base.Sort.{sort_by, sum_by-sort_by, All-sort_by}
use distributed_order_proces.Base.Lists.{length, All, sum_by}
use distributed_order_proces.Order.Model.{OrderItem, Order}
use distributed_order_proces.Base.Table.{replace, find, find-replace_self, find-replace_ne}
use mathlib.Core.Path.{ap₂, subst₂}
use distributed_order_proces.Base.Words.{int32}

-- The order is marked once its items have been given back.
cancelled-Keeps :
    (o : Uuid) (row row' : OrderRow) (a b c : Db)
    → Sound a
    → find_order o a ≡ some row
    → is_pending row.status ≡ true
    → Refunded (sort_by OrderItem.product_id (items_of o a.order_items)) a b
    → Marked OrderStatus.cancelled o row' b c
    → Keeps a c
cancelled-Keeps o row row' a b c s existing pending f m = record {
  sound = record {
    bounded = λ p. omega (arith, f.bounded p, same_stock p);
    items = subst₂ (λ os is. All (IsSoundItem os) is) orders_now items_now (moved 0).0;
    agree = λ k.
        subst₂ (λ os ps. StatusesAgree (find OrderRow.id k os) (find PaymentRow.order_id k ps))
          orders_now payments_now (agree k);
  };
  conserved = λ p. omega (
    arith,
    f.refunded p,
    same_stock p,
    (moved p).1,
    items_of-refund o p a.orders a.order_items s.items,
    sum_by-sort_by OrderItem.product_id (refund p) (items_of o a.order_items),
    reserved_now p,
  );
}
  where
    orders_now : replace OrderRow.id o m.now a.orders ≡ c.orders
    orders_now = ap (replace OrderRow.id o m.now) (sym f.rest.orders) ∙ ap Db.orders m.written

    items_now : a.order_items ≡ c.order_items
    items_now = sym f.rest.order_items ∙ ap Db.order_items m.written

    payments_now : a.payments ≡ c.payments
    payments_now = sym f.rest.payments ∙ ap Db.payments m.written

    same_stock : (p : Uuid) → stock_of p c ≡ stock_of p b
    same_stock p = ap (λ d. stock_of p d) (sym m.written)

    moved :
        (p : Uuid)
        → All (IsSoundItem (replace OrderRow.id o m.now a.orders)) a.order_items
          × (sum_by (reserved_by p (replace OrderRow.id o m.now a.orders)) a.order_items
                + sum_by (held_by o p) a.order_items
              ≡ reserved p a)
    moved p =
        cancelled_items o p row m.now a.orders existing pending m.id m.status_written a.order_items
          s.items

    reserved_now :
        (p : Uuid)
        → reserved p c ≡ sum_by (reserved_by p (replace OrderRow.id o m.now a.orders)) a.order_items
    reserved_now p = sym (ap₂ (λ os is. sum_by (reserved_by p os) is) orders_now items_now)

    agree :
        (k : Uuid)
        → StatusesAgree
            (find OrderRow.id k (replace OrderRow.id o m.now a.orders))
            (find_payment k a)
    agree k = elim (Bool-cases (k == o)) [
      | inl same ↦
          let e : o ≡ k = ground arith in
          subst
            (λ j.
              StatusesAgree (find OrderRow.id j (replace OrderRow.id o m.now a.orders))
                (find_payment j a))
            e
            (rw (find-replace_self OrderRow.id o m.now a.orders {row = row} m.id existing) (
              cancelled_agrees row m.now (find_payment o a) pending m.status_written
                (rw existing at (s.agree o))))
      | inr other ↦
          rw (find-replace_ne OrderRow.id k o m.now a.orders m.id (ground arith)) (s.agree k)
    ]

withdraw_order-Post :
    (env : Env) (user_id o : Uuid) (w : World)
    → Sound w.db
    → Post (λ _ w'. Keeps w.db w'.db) NoClaim (withdraw_order env user_id o w)
unfolding withdraw_order
withdraw_order-Post env user_id o w s =
    bind-Post (lock_order-Post env user_id o w) λ order w1 (row, converted, r).
      guard-Post _ (not (is_pending order.status)) order_not_pending w1 (no_claim _ _) λ pending.
        bind-Post (get_items-Post env o w1) λ items w2 (read, same).
          guard-Post _ (length items == 0) order_items_unavailable w2 (no_claim _ _) λ _.
            let here : w2.db ≡ w.db = same ∙ r.same in
            let read' : items ≡ items_of o w.db.order_items =
              read ∙ ap (λ d. items_of o (Db.order_items d)) r.same in
            bind-Post
              (restore_items-Post env (sort_by OrderItem.product_id items) w2
                (λ p. subst (λ d. stock_of p d < 2 ^ 31) (sym here) (s.bounded p))
                (subst
                  (λ is. All (λ i. int32 i.quantity < 2 ^ 31) (sort_by OrderItem.product_id is))
                  (sym read')
                  (All-sort_by OrderItem.product_id (λ i. int32 i.quantity < 2 ^ 31)
                    (items_of o w.db.order_items)
                    (items_of-fit o w.db.orders w.db.order_items s.items))))
              λ _ w3 f.
                Post-mono (mark_order-Post env user_id o OrderStatus.cancelled w3) λ _ w4 (row', m).
                  cancelled-Keeps o row row' w.db w3.db w4.db s r.existing
                    (ground (arith, ap Order.status converted))
                    (subst₂ (λ is d. Refunded (sort_by OrderItem.product_id is) d w3.db) read' here
                      f)
                    m

-- Cancelling an order in a sound database either fails and leaves the tables as they were, whatever
-- call fails and whenever, or leaves a sound database in which, for every product, the units on hand
-- and the units reserved add up as before: exactly what the order reserved goes back to the stock.
pub cancel_order-Keeps :
    (env : Env) (user_id o : Uuid) (w : World)
    → Sound w.db
    → Post (λ _ w'. Keeps w.db w'.db) (λ _ w'. w'.db ≡ w.db) (cancel_order env user_id o w)
unfolding cancel_order
cancel_order-Keeps env user_id o w s =
    within_tx-Post (λ _ db. Keeps w.db db) env (withdraw_order env user_id o) w
      λ w0 same _.
        subst (λ d. Post (λ _ w'. Keeps d w'.db) NoClaim (withdraw_order env user_id o w0)) same
          (withdraw_order-Post env user_id o w0 (subst Sound (sym same) s))
