-- ===== src/Tests/Orders.antt =====
-- Orders placed, cancelled and paid in the shop.
use distributed_order_proces.Payment.Repository
use distributed_order_proces.Ledger.Pricing.{Priced, create_order-Priced}
use distributed_order_proces.Payment.Queries.{
  query_lock_order_for_payment, query_lock_payment_for_update, query_update_payment_status,
  run_update_payment_status, query_mark_order_as_paid, run_mark_order_as_paid,
}
use distributed_order_proces.Payment.Provider.{charge}
use distributed_order_proces.Base.{◌==◌, ℕ, ◌^◌, Option, some, none, refl, [], ◌∷◌, ◌≡◌, List}
use distributed_order_proces.Order.Model.{CreateOrderRequest, Order, OrderItem, Payment}
use distributed_order_proces.Order.Service.{
  create_order, place_order, lock_and_price, cancel_order, lock_products, place_items,
  sorted_product_ids, quantity_by_product, add_quantities, add_quantity, read, withdraw_order,
}
use distributed_order_proces.Database.Post.{Post}
use distributed_order_proces.Tests.Shop.{pen, ink, calm, open_shop, shop, shop-Sound}
use distributed_order_proces.Ledger.Spec.{paid_count, successes, Keeps, stock_of, reserved}
use distributed_order_proces.Ledger.Paying.{PaysOnce, pay-PaysOnce}
use distributed_order_proces.Database.Tx.{
  Env, within_tx_or_return, finish_or_return, World, Result, ok, err, within_tx, finish_tx,
  statement,
}
use distributed_order_proces.Ledger.Placing.{create_order-Keeps}
use distributed_order_proces.Ledger.Cancelling.{cancel_order-Keeps}
use distributed_order_proces.Base.Sort.{sort_by}
use distributed_order_proces.Order.Store.{
  lock_product_for_update, decrease_product_stock, insert_order, create_order_item, create_payment,
}
use distributed_order_proces.Order.Queries.{
  query_lock_product_for_update, query_decrease_product_stock, run_decrease, query_create_order,
  run_create_order, query_create_order_item, run_create_order_item, query_create_payment,
  run_create_payment,
}
use distributed_order_proces.Base.Words.{
  add_int, mul_int, lt_int, int32, int_of_int32, ge_int4, sub_int4,
}
use distributed_order_proces.Ledger.History.{serve_all, Command, serve_all-Keeps}
use distributed_order_proces.Order.LockOrder.{InOrder}
use distributed_order_proces.Payment.Repository.{
  pay_order, pay_locked, charge_order, record_charge, settle_order,
}
use distributed_order_proces.Payment.LockOrder.{transactions-InOrder}

-- Two pens and one bottle of ink, with the pens on two lines.
abbrev pub basket : CreateOrderRequest
basket = record {
  items =
      record { product_id = 7; quantity = 1 }
      ∷ record { product_id = 3; quantity = 1 }
      ∷ record { product_id = 7; quantity = 1 }
      ∷ [];
}

-- The names that a run computes with.
unfoldable pub placing : Unit {0}
unfolding create_order place_order within_tx finish_tx lock_and_price lock_products place_items
    sorted_product_ids sort_by quantity_by_product add_quantities add_quantity read
    lock_product_for_update query_lock_product_for_update decrease_product_stock
    query_decrease_product_stock run_decrease insert_order query_create_order run_create_order
    create_order_item query_create_order_item run_create_order_item create_payment
    query_create_payment run_create_payment statement add_int mul_int lt_int int32 int_of_int32
    ge_int4 sub_int4
placing = tt

basket_placed :
    let (r, w) = create_order calm 1 basket open_shop in
    (stock_of 7 w.db ≡ 3) × (stock_of 3 w.db ≡ 1) × (reserved 7 w.db ≡ 3) × (reserved 3 w.db ≡ 1)
unfolding placing
basket_placed = (refl, refl, refl, refl)

create_order-Keeps_example :
    Post (λ _ w'. Keeps shop w'.db) (λ _ w'. w'.db ≡ shop) (create_order calm 1 basket open_shop)
create_order-Keeps_example = create_order-Keeps calm 1 basket open_shop shop-Sound

create_order-Priced_example :
    Post
      (λ (order, items, payment) _. Priced 1 basket.items shop order items payment)
      (λ _ w'. w'.db ≡ shop)
      (create_order calm 1 basket open_shop)
create_order-Priced_example = create_order-Priced calm 1 basket open_shop

-- Four of a product that costs 2 ^ 62: the total wraps around to 0.
abbrev dear_shop : World
dear_shop = record open_shop {
  db = record shop { products = record pen { price = 2 ^ 62 } ∷ ink ∷ [] };
}

abbrev four_pens : CreateOrderRequest
four_pens = record { items = record { product_id = 7; quantity = 4 } ∷ [] }

abbrev total_in : Result (Order × List OrderItem × Payment) → Option ℕ
total_in (err e) = none
total_in (ok (order, items, payment)) = some order.total_amount

free_order : total_in (create_order calm 1 four_pens dear_shop).0 ≡ some 0
unfolding placing
free_order = refl

cancel_order-Keeps_example :
    Post (λ _ w'. Keeps shop w'.db) (λ _ w'. w'.db ≡ shop) (cancel_order calm 1 20 open_shop)
cancel_order-Keeps_example = cancel_order-Keeps calm 1 20 open_shop shop-Sound

pay-PaysOnce_example :
    Post
      (λ _ w'. PaysOnce 20 shop [] w'.db w'.charges)
      (λ _ w'. w'.db ≡ shop)
      (Repository.pay calm 1 20 open_shop)
pay-PaysOnce_example = pay-PaysOnce calm 1 20 open_shop shop-Sound

-- The old order is cancelled between two new ones, and paid for too late.
abbrev day : List Command
day = Command.place 1 basket ∷ Command.cancel 1 20 ∷ Command.pay 1 20 ∷ Command.place 1 basket ∷ []

serve_all-Keeps_example : Keeps shop (serve_all calm day open_shop).db
serve_all-Keeps_example = serve_all-Keeps calm day open_shop shop-Sound

transactions-InOrder_example :
    Post (λ _ w'. InOrder w'.locks) (λ _ w'. InOrder w'.locks) (place_order calm 1 basket open_shop)
    × Post
        (λ _ w'. InOrder w'.locks)
        (λ _ w'. InOrder w'.locks)
        (withdraw_order calm 1 20 open_shop)
    × Post (λ _ w'. InOrder w'.locks) (λ _ w'. InOrder w'.locks) (pay_order calm 1 20 open_shop)
transactions-InOrder_example = transactions-InOrder calm 1 20 basket open_shop refl

-- The commit of a payment is lost after its charge, and the payment is sent again.
abbrev pub lossy : Env
lossy = record calm { fails = λ n. n == 6 }

-- Two charges after the first payment has failed and the second has succeeded.
charged_twice :
    let first = Repository.pay lossy 1 20 open_shop in
    let second = Repository.pay lossy 1 20 first.1 in
    (first.1.db ≡ shop) × (paid_count 20 second.1.db ≡ 1) × (successes second.1.charges ≡ 2)
unfolding Repository.pay pay_order pay_locked charge_order record_charge settle_order charge
    query_lock_order_for_payment query_lock_payment_for_update query_update_payment_status
    run_update_payment_status query_mark_order_as_paid run_mark_order_as_paid within_tx_or_return
    finish_or_return finish_tx statement
charged_twice = (refl, refl, refl)
