-- ===== src/Ledger/Spec.antt =====
-- The specification: the two measures of the ledger, the invariant of the tables, and what a
-- transaction keeps.
use distributed_order_proces.Base.{
  ℕ, List, ◌+◌, ◌≡◌, ◌<◌, ◌^◌, Bool, true, false, not, Option, none, some, ◌==◌, ◌&&◌,
  if◌then◌else◌,
}
use distributed_order_proces.Base.Table.{find}
use distributed_order_proces.Base.Lists.{All, sum_by}
use distributed_order_proces.Database.Rows.{
  Uuid, OrderStatus, ProductRow, OrderRow, OrderItemRow, PaymentRow, Db, is_pending, is_cancelled,
  is_success,
}
use distributed_order_proces.Database.Keys.{is_some, find_product, find_order, find_payment}
use distributed_order_proces.Database.Tx.{ChargeRecord}

abbrev pub stock_in : Option ProductRow → ℕ
stock_in none = 0
stock_in (some row) = row.stock

-- The units of a product on hand; 0 for one that is not in the catalog.
abbrev pub stock_of : Uuid → Db → ℕ
stock_of p db = stock_in (find_product p db)

abbrev pub is_live : Option OrderRow → Bool
is_live none = false
is_live (some row) = not (is_cancelled row.status)

-- The units of a product that one order item reserves.
abbrev pub reserved_by : Uuid → List OrderRow → OrderItemRow → ℕ
reserved_by p orders i =
    if i.product_id == p && is_live (find OrderRow.id i.order_id orders) then i.quantity else 0

abbrev pub reserved : Uuid → Db → ℕ
reserved p db = sum_by (reserved_by p db.orders) db.order_items

abbrev pub is_paid : OrderStatus → Bool
is_paid OrderStatus.paid = true
is_paid _ = false

-- An order is paid exactly if its payment succeeded, and a payment belongs to an order.
abbrev pub StatusesAgree : Option OrderRow → Option PaymentRow → Type 0
StatusesAgree none none = Unit
StatusesAgree none (some p) = ⊥
StatusesAgree (some o) none = is_paid o.status ≡ false
StatusesAgree (some o) (some p) = is_paid o.status ≡ is_success p.status

abbrev pub is_open : Option OrderRow → Bool
is_open none = false
is_open (some row) = is_pending row.status

abbrev pub is_open_order : Uuid → Db → Bool
is_open_order o db = is_open (find_order o db)

-- An order item names an order, and its quantity is an INT above 0.
abbrev pub IsSoundItem : List OrderRow → OrderItemRow → Type 0
IsSoundItem orders i =
    (is_some (find OrderRow.id i.order_id orders) ≡ true) × (0 < i.quantity) × (i.quantity < 2 ^ 31)

pub record Sound (db : Db) : Type 0 where
  pub bounded : (p : Uuid) → stock_of p db < 2 ^ 31  -- no stock below 0
  pub items : All (IsSoundItem db.orders) db.order_items
  pub agree : (o : Uuid) → StatusesAgree (find_order o db) (find_payment o db)

-- No unit of any product appears or vanishes between two states of the database.
pub record Keeps (db db' : Db) : Type 0 where
  pub sound : Sound db'
  pub conserved : (p : Uuid) → stock_of p db' + reserved p db' ≡ stock_of p db + reserved p db

abbrev pub one_if : Bool → ℕ
one_if true = 1
one_if false = 0

abbrev pub took_money : ChargeRecord → ℕ
took_money c = one_if c.success

-- How often the provider has taken money.
abbrev pub successes : List ChargeRecord → ℕ
successes charges = sum_by took_money charges

abbrev pub is_paid_order : Option OrderRow → Bool
is_paid_order none = false
is_paid_order (some row) = is_paid row.status

-- 1 for an order that is paid, else 0.
abbrev pub paid_count : Uuid → Db → ℕ
paid_count o db = one_if (is_paid_order (find_order o db))
