-- ===== src/Tests/Available.antt =====
-- A basket for which there is stock.
use distributed_order_proces.Base.{refl, arith, ◌≤◌}
use distributed_order_proces.Base.Lists.{All}
use distributed_order_proces.Database.Rows.{Uuid}
use distributed_order_proces.Database.Post.{Post}
use distributed_order_proces.Order.Service.{create_order}
use distributed_order_proces.Order.Answered.{Never}
use distributed_order_proces.Ledger.Spec.{Keeps, stock_of}
use distributed_order_proces.Ledger.Pricing.{Priced}
use distributed_order_proces.Ledger.Available.{create_order-Placed}
use distributed_order_proces.Ledger.Demand.{Fresh, IsOrderable, demand}
use distributed_order_proces.Tests.Shop.{calm, open_shop, shop, shop-Sound}
use distributed_order_proces.Tests.Orders.{basket}

calm-Fresh : Fresh calm open_shop
calm-Fresh = record {
  orders = λ n k. ground arith;
  items = λ n k. ground arith;
  payments = λ n k. ground arith;
}

basket-IsOrderable : All (IsOrderable shop) basket.items
basket-IsOrderable = (
  record { known = refl; positive = omega arith; low = omega arith },
  (
    record { known = refl; positive = omega arith; low = omega arith },
    (record { known = refl; positive = omega arith; low = omega arith }, tt),
  ),
)

basket_in_stock : (p : Uuid) → demand p basket.items ≤ stock_of p shop
basket_in_stock p = ground arith

create_order-Placed_example :
    Post
      (λ (order, items, payment) w'.
        Priced 1 basket.items shop order items payment × Keeps shop w'.db)
      Never
      (create_order calm 1 basket open_shop)
create_order-Placed_example =
    create_order-Placed calm (λ n. refl) (λ m n ne e. absurd (omega (arith, ne, e))) 1 basket
      open_shop shop-Sound calm-Fresh refl basket-IsOrderable basket_in_stock (omega arith)
