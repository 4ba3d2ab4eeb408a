-- ===== src/Tests/Shop.antt =====
-- A small shop: one customer, two products, a pending order of one unit, and calls that succeed.
use distributed_order_proces.Base.{arith, [], ◌+◌, ◌∷◌, none, false}
use distributed_order_proces.Database.Tx.{Env, World}
use distributed_order_proces.Database.Rows.{
  UserRow, ProductRow, OrderRow, OrderItemRow, PaymentRow, Db, OrderStatus, PaymentStatus,
}
use distributed_order_proces.Ledger.Spec.{Sound}

abbrev pub calm : Env
calm = record {
  gen_random_uuid = λ n. 1000 + n;
  now = λ n. n;
  api_now = λ n. n;
  fails = λ n. false;
  draw = λ n. 10;
  new_string = λ n. "tx";
  scan = λ n rows. rows;
}

abbrev pub customer : UserRow
customer = record { id = 1; email = "a@b.c"; password_hash = "h"; created_at = 0; updated_at = 0 }

abbrev pub pen : ProductRow
pen = record {
  id = 7;
  name = "pen";
  description = "blue";
  price = 100;
  stock = 5;
  created_at = 0;
  updated_at = 0;
}

abbrev pub ink : ProductRow
ink = record {
  id = 3;
  name = "ink";
  description = "black";
  price = 250;
  stock = 2;
  created_at = 0;
  updated_at = 0;
}

abbrev pub old_order : OrderRow
old_order = record {
  id = 20;
  user_id = 1;
  status = OrderStatus.pending;
  total_amount = 100;
  created_at = 0;
  updated_at = 0;
}

abbrev pub old_item : OrderItemRow
old_item = record {
  id = 21;
  order_id = 20;
  product_id = 7;
  quantity = 1;
  price = 100;
  subtotal = 100;
  created_at = 0;
  updated_at = 0;
}

abbrev pub old_payment : PaymentRow
old_payment = record {
  id = 22;
  order_id = 20;
  amount = 100;
  status = PaymentStatus.pending;
  provider = "fake";
  transaction_id = none;
  created_at = 0;
  updated_at = 0;
}

abbrev pub shop : Db
shop = record {
  users = customer ∷ [];
  products = pen ∷ ink ∷ [];
  orders = old_order ∷ [];
  order_items = old_item ∷ [];
  payments = old_payment ∷ [];
  idempotency_keys = [];
}

abbrev pub open_shop : World
open_shop = record { db = shop; locks = []; charges = []; tick = 0; tx_start = none }

pub shop-Sound : Sound shop
shop-Sound = record { bounded = λ p. ground arith; items = ground arith; agree = λ o. ground arith }
