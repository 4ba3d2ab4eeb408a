-- ===== src/Tests/Locks.antt =====
-- Transactions that wait, and payments that go through or are lost after their charge.
use distributed_order_proces.Base.{refl, ap, arith, ◌≡◌, [], ◌∷◌, ◌+◌}
use distributed_order_proces.Database.Tx.{
  World, driver, product_lock, order_lock, statement, within_tx_or_return, finish_or_return,
  finish_tx,
}
use distributed_order_proces.Base.Words.{add_int4}
use distributed_order_proces.Base.Sort.{sort_by}
use distributed_order_proces.Order.LockOrder.{rank}
use distributed_order_proces.Payment.Deadlock.{
  placing, withdrawing, Waiting, Deadlock, not-Deadlock,
}
use distributed_order_proces.Ledger.Spec.{successes}
use distributed_order_proces.Ledger.Charged.{pay-Charged}
use distributed_order_proces.Ledger.Paying.{PaysOnce}
use distributed_order_proces.Order.Answered.{Never}
use distributed_order_proces.Database.Post.{Post}
use distributed_order_proces.Database.Rows.{PaymentStatus}
use distributed_order_proces.Ledger.Retrying.{IsPayable, pay-ChargesTwice}
use distributed_order_proces.Tests.Shop.{calm, open_shop, shop, shop-Sound, old_order, old_payment}
use distributed_order_proces.Tests.Orders.{basket, lossy}
use distributed_order_proces.Payment.Repository.{
  pay_order, pay_locked, charge_order, record_charge, settle_order,
}
use distributed_order_proces.Order.Service.{withdraw_order, restore_items}
use distributed_order_proces.Order.Store.{
  lock_order_for_update, get_order_items_by_order_id, increase_product_stock, update_order_status,
}
use distributed_order_proces.Order.Queries.{
  query_lock_order_for_update, query_get_order_items_by_order_id, query_increase_product_stock,
  run_increase, query_update_order_status, run_update_order_status,
}
use distributed_order_proces.Payment.Provider.{charge}
use distributed_order_proces.Payment.Queries.{
  query_lock_order_for_payment, query_lock_payment_for_update, query_update_payment_status,
  run_update_payment_status, query_mark_order_as_paid, run_mark_order_as_paid,
}
use distributed_order_proces.Payment.Repository
use distributed_order_proces.Tests.Orders as Orders

-- It has locked the ink and waits for the pen.
buying : Waiting calm
unfolding Orders.placing
buying = record {
  transaction = placing 1 basket;
  reads = open_shop;
  begun = refl;
  later = [];
  wants = product_lock 7;
  held = product_lock 3 ∷ [];
  run = refl;
  blocked = ((λ e. omega (arith, ap rank e)), tt);
}

-- It has locked its order and waits for the pen too.
cancelling : Waiting calm
unfolding Orders.placing withdraw_order lock_order_for_update query_lock_order_for_update
    get_order_items_by_order_id query_get_order_items_by_order_id restore_items sort_by
    increase_product_stock query_increase_product_stock run_increase add_int4 update_order_status
    query_update_order_status run_update_order_status
cancelling = record {
  transaction = withdrawing 1 20;
  reads = open_shop;
  begun = refl;
  later = [];
  wants = product_lock 7;
  held = order_lock 20 ∷ [];
  run = refl;
  blocked = ((λ e. omega (arith, ap rank e)), tt);
}

not-Deadlock_example : ¬ (Deadlock buying (cancelling ∷ []))
not-Deadlock_example = not-Deadlock calm buying (cancelling ∷ [])

abbrev payable : IsPayable 1 20 shop
payable = record {
  order = old_order;
  payment = old_payment;
  existing = refl;
  owner = refl;
  pending = refl;
  billed = refl;
  unpaid = refl;
}

abbrev first : World
first = (Repository.pay lossy 1 20 open_shop).1

abbrev second : World
second = (Repository.pay lossy 1 20 first).1

pay-ChargesTwice_example :
    (first.db ≡ shop) × (successes second.charges ≡ 2 + successes open_shop.charges)
unfolding Repository.pay pay_order pay_locked charge_order record_charge settle_order charge
    query_lock_order_for_payment query_lock_payment_for_update query_update_payment_status
    run_update_payment_status query_mark_order_as_paid run_mark_order_as_paid within_tx_or_return
    finish_or_return finish_tx statement
pay-ChargesTwice_example =
    pay-ChargesTwice lossy 1 20 open_shop first second driver _ shop-Sound payable
      (record { begins = refl; locks_order = refl; locks_payment = refl; takes = refl }) refl refl
      refl

-- Every call is answered and the charge is taken.
pay-Charged_example :
    Post
      (λ r w'. PaysOnce 20 shop [] w'.db w'.charges × (r.0.status ≡ PaymentStatus.success))
      Never
      (Repository.pay calm 1 20 open_shop)
pay-Charged_example = pay-Charged calm (λ n. refl) 1 20 open_shop payable shop-Sound refl
