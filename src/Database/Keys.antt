-- ===== src/Database/Keys.antt =====
-- Rows by their keys: PRIMARY KEY and UNIQUE columns of api/migrations.
use distributed_order_proces.Base.{Bool, Option, none, some}
use distributed_order_proces.Base.Table.{find}
use distributed_order_proces.Database.Rows.{Uuid, UserRow, ProductRow, OrderRow, PaymentRow, Db}

abbrev pub is_some {ℓ} : {A : Type ℓ} → Option A → Bool
is_some none = Bool.false
is_some (some _) = Bool.true

abbrev pub find_user : Uuid → Db → Option UserRow
find_user id db = find UserRow.id id db.users

abbrev pub find_product : Uuid → Db → Option ProductRow
find_product id db = find ProductRow.id id db.products

abbrev pub find_order : Uuid → Db → Option OrderRow
find_order id db = find OrderRow.id id db.orders

-- payments.order_id is UNIQUE, so it serves as a key.
abbrev pub find_payment : Uuid → Db → Option PaymentRow
find_payment order_id db = find PaymentRow.order_id order_id db.payments
