-- ===== src/Product/Queries.antt =====
-- The statements of product/sqlc/products.sql.go, each a transaction of its own, with the
-- constraints of api/migrations that they meet. The row type is that of the orders' statements.
use distributed_order_proces.Base.{
  ℕ, zero, suc, String, Bool, true, false, not, Option, none, some, List, [], ◌∷◌, ◌&&◌, ◌||◌, ◌==◌,
  if◌then◌else◌,
}
use Prim.Native.Char.{Char, code}
use distributed_order_proces.Base.Words.{is_nonneg4, is_nonneg8}
use distributed_order_proces.Base.Lists.{take, drop}
use distributed_order_proces.Base.Table.{replace, remove}
use distributed_order_proces.Base.TextTable.{find as find_text}
use distributed_order_proces.Database.Rows.{Uuid, ProductRow, OrderItemRow, Db}
use distributed_order_proces.Database.Keys.{is_some, find_product}
use distributed_order_proces.Database.Tx.{
  driver, unique_violation, no_rows, Result, ok, err, Env, Tx, Clock, statement,
}
use distributed_order_proces.Order.Queries.{one_row}

-- products.name is UNIQUE.
abbrev pub find_name : String → List ProductRow → Option ProductRow
find_name name rows = find_text ProductRow.name name rows

unfoldable pub only_spaces : String → Bool
only_spaces String.[] = true
only_spaces (String.◌∷◌ c s) = code c == 32 && only_spaces s

abbrev pub prefixed : Char → Option String → Option String
prefixed c none = none
prefixed c (some s) = some (String.◌∷◌ c s)

-- A value for a VARCHAR(n): one that is too long is refused, unless all that is over is spaces,
-- which are cut.
unfoldable pub varchar : ℕ → String → Option String
unfolding only_spaces
varchar n String.[] = some String.[]
varchar zero (String.◌∷◌ c s) = if code c == 32 && only_spaces s then some String.[] else none
varchar (suc n) (String.◌∷◌ c s) = prefixed c (varchar n s)

-- INSERT INTO products
pub record CreateProductParams : Type 0 where
  pub name : String
  pub description : String
  pub price : ℕ  -- int64
  pub stock : ℕ  -- int32

abbrev pub new_product : CreateProductParams → String → Clock → ProductRow
new_product arg name c = record {
  id = c.uuid;
  name = name;
  description = arg.description;
  price = arg.price;
  stock = arg.stock;
  created_at = c.time;
  updated_at = c.time;
}

-- The CHECK constraints on price and stock.
abbrev pub is_checked : ProductRow → Bool
is_checked row = is_nonneg8 row.price && is_nonneg4 row.stock

abbrev pub insert_product : ProductRow → Db → Result (ProductRow × Db)
insert_product row db =
    if not (is_checked row)
    then err driver
    else if is_some (find_product row.id db) || is_some (find_name row.name db.products)
    then err unique_violation
    else ok (row, record db { products = row ∷ db.products })

unfoldable pub run_create_product :
    CreateProductParams → Option String → Clock → Db → Result (ProductRow × Db)
run_create_product arg none c db = err driver
run_create_product arg (some name) c db = insert_product (new_product arg name c) db

unfoldable pub query_create_product : Env → CreateProductParams → Tx ProductRow
query_create_product env arg = statement env (run_create_product arg (varchar 255 arg.name))

-- DELETE FROM products WHERE id = $1, under the foreign key of order_items.
abbrev pub is_ordered : Uuid → List OrderItemRow → Bool
is_ordered id [] = false
is_ordered id (item ∷ items) = item.product_id == id || is_ordered id items

unfoldable pub run_delete_product : Uuid → Clock → Db → Result (ℕ × Db)
run_delete_product id c db =
    if not (is_some (find_product id db))
    then ok (0, db)
    else if is_ordered id db.order_items
    then err driver
    else ok (1, record db { products = remove ProductRow.id id db.products })

unfoldable pub query_delete_product_by_id : Env → Uuid → Tx ℕ
query_delete_product_by_id env id = statement env (run_delete_product id)

-- SELECT ... FROM products WHERE id = $1
unfoldable pub query_get_product_by_id : Env → Uuid → Tx ProductRow
query_get_product_by_id env id = statement env (λ c db. one_row db (find_product id db))

-- SELECT ... FROM products WHERE name = $1. Nothing calls it.
unfoldable pub query_get_product_by_name : Env → String → Tx ProductRow
query_get_product_by_name env name = statement env (λ c db. one_row db (find_name name db.products))

-- SELECT ... FROM products LIMIT $1 OFFSET $2: a negative value of either is refused. No order is
-- asked for, so each call has its own.
unfoldable pub run_list_products : ℕ → ℕ → Clock → Db → Result (List ProductRow × Db)
run_list_products limit offset c db =
    if not (is_nonneg4 limit && is_nonneg4 offset)
    then err driver
    else ok (take limit (drop offset (c.scan db.products)), db)

unfoldable pub query_list_products : Env → ℕ → ℕ → Tx (List ProductRow)
query_list_products env limit offset = statement env (run_list_products limit offset)

-- UPDATE products SET name = COALESCE($1, name), ... WHERE id = $5 RETURNING ...
pub record UpdateProductParams : Type 0 where
  pub name : Option String
  pub description : Option String
  pub price : Option ℕ  -- int64
  pub stock : Option ℕ  -- int32
  pub id : Uuid

abbrev pub coalesce : {A : Type 0} → Option A → A → A
coalesce none a = a
coalesce (some b) a = b

abbrev pub updated_product : UpdateProductParams → String → Clock → ProductRow → ProductRow
updated_product arg name c row = record row {
  name = name;
  description = coalesce arg.description row.description;
  price = coalesce arg.price row.price;
  stock = coalesce arg.stock row.stock;
  updated_at = c.time;
}

-- Another row has the name.
abbrev pub is_name_of_other : Uuid → Option ProductRow → Bool
is_name_of_other id none = false
is_name_of_other id (some row) = not (row.id == id)

abbrev pub write_product : Uuid → ProductRow → Db → Result (ProductRow × Db)
write_product id row db =
    if not (is_checked row)
    then err driver
    else if is_name_of_other id (find_name row.name db.products)
    then err unique_violation
    else ok (row, record db { products = replace ProductRow.id id row db.products })

abbrev pub write_named :
    UpdateProductParams → ProductRow → Clock → Db → Option String → Result (ProductRow × Db)
write_named arg row c db none = err driver
write_named arg row c db (some name) = write_product row.id (updated_product arg name c row) db

unfoldable pub run_update_product :
    UpdateProductParams → Option ProductRow → Clock → Db → Result (ProductRow × Db)
run_update_product arg none c db = err no_rows
run_update_product arg (some row) c db =
    write_named arg row c db (varchar 255 (coalesce arg.name row.name))

unfoldable pub query_update_product : Env → UpdateProductParams → Tx ProductRow
query_update_product env arg =
    statement env (λ c db. run_update_product arg (find_product arg.id db) c db)
