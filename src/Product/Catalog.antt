-- ===== src/Product/Catalog.antt =====
-- The invariant of the catalog: ids and names are unique, and every order item names a product.
use distributed_order_proces.Base.{
  ℕ, ◌+◌, ◌≤◌, ◌≡◌, ◌≢◌, refl, String, true, false, none, some, List, [], ◌∷◌, arith, str_eq, ◌==◌,
  if◌then◌else◌,
}
use distributed_order_proces.Base.Lists.{All, count_if}
use distributed_order_proces.Base.Table.{find, replace, remove}
use distributed_order_proces.Database.Rows.{Uuid, ProductRow, OrderItemRow, Db}
use distributed_order_proces.Database.Keys.{is_some}
use distributed_order_proces.Product.Queries.{find_name}

abbrev pub count_id : Uuid → List ProductRow → ℕ
count_id id rows = count_if (λ row. row.id == id) rows

abbrev pub count_name : String → List ProductRow → ℕ
count_name name rows = count_if (λ row. str_eq row.name name) rows

abbrev pub NamesProduct : List ProductRow → OrderItemRow → Type 0
NamesProduct rows item = is_some (find ProductRow.id item.product_id rows) ≡ true

pub record Catalog (db : Db) : Type 0 where
  pub ids : (id : Uuid) → count_id id db.products ≤ 1
  pub names : (name : String) → count_name name db.products ≤ 1
  pub items : All (NamesProduct db.products) db.order_items

-- A key that no row has is counted 0 times.
pub count_id_fresh :
    (id : Uuid) (rows : List ProductRow)
    → is_some (find ProductRow.id id rows) ≡ false
    → count_id id rows ≡ 0
count_id_fresh id [] h = refl
count_id_fresh id (row ∷ rows) h = ground (arith, count_id_fresh id rows)

pub count_name_fresh :
    (name : String) (rows : List ProductRow)
    → is_some (find_name name rows) ≡ false
    → count_name name rows ≡ 0
count_name_fresh name [] h = refl
count_name_fresh name (row ∷ rows) h = ground (arith, count_name_fresh name rows)

-- Writing a row in place of one with its id.
pub count_id-replace :
    (id j : Uuid) (row : ProductRow) (rows : List ProductRow)
    → row.id ≡ id
    → count_id j (replace ProductRow.id id row rows) ≡ count_id j rows
count_id-replace id j row [] e = refl
count_id-replace id j row (x ∷ rows) e = ground (arith, count_id-replace id j row rows e)

-- Writing a row for the one that was found.
pub count_name-replace :
    (id : Uuid) (name : String) (row old : ProductRow) (rows : List ProductRow)
    → find ProductRow.id id rows ≡ some old
    → count_name name (replace ProductRow.id id row rows) + (if str_eq old.name name then 1 else 0)
      ≡ count_name name rows + (if str_eq row.name name then 1 else 0)
count_name-replace id name row old [] e = cc
count_name-replace id name row old (x ∷ rows) e =
    ground (arith, count_name-replace id name row old rows)

pub count_id-remove-le :
    (id j : Uuid) (rows : List ProductRow)
    → count_id j (remove ProductRow.id id rows) ≤ count_id j rows
count_id-remove-le id j [] = omega arith
count_id-remove-le id j (x ∷ rows) = ground (arith, count_id-remove-le id j rows)

pub count_name-remove-le :
    (id : Uuid) (name : String) (rows : List ProductRow)
    → count_name name (remove ProductRow.id id rows) ≤ count_name name rows
count_name-remove-le id name [] = omega arith
count_name-remove-le id name (x ∷ rows) = ground (arith, count_name-remove-le id name rows)

pub find-remove_ne :
    (id j : Uuid) (rows : List ProductRow)
    → j ≢ id
    → find ProductRow.id j (remove ProductRow.id id rows) ≡ find ProductRow.id j rows
find-remove_ne id j [] h = refl
find-remove_ne id j (x ∷ rows) h = ground (arith, find-remove_ne id j rows)

count_id_found :
    (id : Uuid) (name : String) (row : ProductRow) (rows : List ProductRow)
    → find_name name rows ≡ some row
    → 1 ≤ count_id row.id rows
count_id_found id name row [] e = cc
count_id_found id name row (x ∷ rows) e = ground (arith, count_id_found id name row rows)

pub find-remove_self :
    (id : Uuid) (rows : List ProductRow)
    → count_id id rows ≤ 1
    → find ProductRow.id id (remove ProductRow.id id rows) ≡ none
find-remove_self id [] h = refl
find-remove_self id (x ∷ rows) h = ground (arith, find-remove_self id rows, absent id rows)
  where
    absent :
        (id : Uuid) (rows : List ProductRow)
        → count_id id rows ≡ 0
        → find ProductRow.id id rows ≡ none
    absent id [] h = refl
    absent id (x ∷ rows) h = ground (arith, absent id rows)

-- Where ids are unique, the row with a name is the row with its id.
pub find_name-find :
    (name : String) (row old : ProductRow) (rows : List ProductRow)
    → find_name name rows ≡ some row
    → find ProductRow.id row.id rows ≡ some old
    → count_id row.id rows ≤ 1
    → str_eq old.name name ≡ true
find_name-find name row old [] e f h = cc
find_name-find name row old (x ∷ rows) e f h =
    ground (arith, find_name-find name row old rows, count_id_found row.id name row rows)

pub is_some-find-replace :
    (id j : Uuid) (row : ProductRow) (rows : List ProductRow)
    → row.id ≡ id
    → is_some (find ProductRow.id j (replace ProductRow.id id row rows))
      ≡ is_some (find ProductRow.id j rows)
is_some-find-replace id j row [] e = refl
is_some-find-replace id j row (x ∷ rows) e = ground (arith, is_some-find-replace id j row rows e)

pub find-remove_ne-is_some :
    (id j : Uuid) (rows : List ProductRow)
    → j ≢ id
    → is_some (find ProductRow.id j rows) ≡ true
    → is_some (find ProductRow.id j (remove ProductRow.id id rows)) ≡ true
find-remove_ne-is_some id j rows ne h = rw (find-remove_ne id j rows ne) h
