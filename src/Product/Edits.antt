-- ===== src/Product/Edits.antt =====
-- The writes of the catalog keep its invariant, and so do those of orders and payments.
use distributed_order_proces.Base.{
  ◌≤◌, ◌≡◌, ◌≢◌, refl, subst, ◌∙◌, String, true, false, some, List, [], ◌∷◌, arith, str_eq, eq_iff,
  ◌==◌, Bool-cases, inl, inr, ◌⊎◌,
}
use distributed_order_proces.Base.Lists.{All}
use distributed_order_proces.Base.Table.{replace, remove}
use distributed_order_proces.Database.Rows.{Uuid, ProductRow, OrderItemRow, Db}
use distributed_order_proces.Database.Keys.{is_some, find_product}
use distributed_order_proces.Order.Stable.{Stable}
use distributed_order_proces.Product.Queries.{find_name, is_ordered}
use distributed_order_proces.Product.Catalog.{
  Catalog, NamesProduct, count_id, count_name, count_id_fresh, count_name_fresh, count_id-replace,
  count_name-replace, count_id-remove-le, count_name-remove-le, is_some-find-replace,
  find-remove_ne-is_some,
}

All-NamesProduct :
    (rows rows' : List ProductRow) (items : List OrderItemRow)
    → ((i : OrderItemRow) → NamesProduct rows i → NamesProduct rows' i)
    → All (NamesProduct rows) items
    → All (NamesProduct rows') items
All-NamesProduct rows rows' [] k h = tt
All-NamesProduct rows rows' (i ∷ items) k h = (k i h.0, All-NamesProduct rows rows' items k h.1)

-- A row that is written keeps the catalog, if its name is its own or that of no other row.
pub replace-Catalog :
    (row old : ProductRow) (db : Db)
    → find_product row.id db ≡ some old
    → ((n : String)
        → str_eq row.name n ≡ true
        → str_eq old.name n ≡ false
        → count_name n db.products ≡ 0)
    → Catalog db
    → Catalog (record db { products = replace ProductRow.id row.id row db.products })
replace-Catalog row old db found free c = record {
  ids = λ id. omega (arith, count_id-replace row.id id row db.products refl, c.ids id);
  names = λ n. names n (Bool-cases (str_eq row.name n)) (Bool-cases (str_eq old.name n));
  items =
      All-NamesProduct db.products (replace ProductRow.id row.id row db.products) db.order_items
        (λ i h. is_some-find-replace row.id i.product_id row db.products refl ∙ h) c.items;
}
  where
    names :
        (n : String)
        → (str_eq row.name n ≡ true) ⊎ (str_eq row.name n ≡ false)
        → (str_eq old.name n ≡ true) ⊎ (str_eq old.name n ≡ false)
        → count_name n (replace ProductRow.id row.id row db.products) ≤ 1
    names n (inl new) (inl was) =
        ground (arith, count_name-replace row.id n row old db.products found, c.names n)
    names n (inl new) (inr was_not) =
        ground (arith, count_name-replace row.id n row old db.products found, free n new was_not)
    names n (inr not_new) q =
        ground (arith, count_name-replace row.id n row old db.products found, c.names n)

pub Catalog-Stable : Stable Catalog
Catalog-Stable = record {
  placeable = record {
    stocked = record {
      set_stock = λ row s t db found c.
          replace-Catalog (record row { stock = s; updated_at = t }) row db found
            (λ n new was. absurd (ground (arith, new, was))) c;
    };
    new_order = λ row db fresh c. record { ids = c.ids; names = c.names; items = c.items };
    new_item = λ row db known c. record { ids = c.ids; names = c.names; items = (known, c.items) };
    new_payment = λ row db fresh c. record { ids = c.ids; names = c.names; items = c.items };
  };
  set_order = λ id row db c. record { ids = c.ids; names = c.names; items = c.items };
  set_payment = λ id row db c. record { ids = c.ids; names = c.names; items = c.items };
}

-- A row that is inserted.
pub insert-Catalog :
    (row : ProductRow) (db : Db)
    → is_some (find_product row.id db) ≡ false
    → is_some (find_name row.name db.products) ≡ false
    → Catalog db
    → Catalog (record db { products = row ∷ db.products })
insert-Catalog row db fresh unnamed c = record {
  ids = λ id. elim (Bool-cases (row.id == id)) [
    | inl same ↦
        let e : row.id ≡ id = ground arith in
        let zero_times : count_id id db.products ≡ 0 =
          subst (λ j. count_id j db.products ≡ 0) e (count_id_fresh row.id db.products fresh) in
        rw (same, zero_times) (omega arith)
    | inr other ↦ rw other (omega (arith, c.ids id))
  ];
  names = λ n. elim (Bool-cases (str_eq row.name n)) [
    | inl same ↦
        let e : row.name ≡ n = (eq_iff row.name n).0 same in
        let zero_times : count_name n db.products ≡ 0 =
          subst (λ j. count_name j db.products ≡ 0) e
            (count_name_fresh row.name db.products unnamed) in
        rw (same, zero_times) (omega arith)
    | inr other ↦ rw other (omega (arith, c.names n))
  ];
  items =
      All-NamesProduct db.products (row ∷ db.products) db.order_items (λ i h. ground (arith, h))
        c.items;
}

-- A row that no item names is deleted.
pub remove-Catalog :
    (id : Uuid) (db : Db)
    → is_ordered id db.order_items ≡ false
    → Catalog db
    → Catalog (record db { products = remove ProductRow.id id db.products })
remove-Catalog id db unordered c = record {
  ids = λ j. omega (arith, count_id-remove-le id j db.products, c.ids j);
  names = λ n. omega (arith, count_name-remove-le id n db.products, c.names n);
  items = still db.order_items unordered c.items;
}
  where
    still :
        (items : List OrderItemRow)
        → is_ordered id items ≡ false
        → All (NamesProduct db.products) items
        → All (NamesProduct (remove ProductRow.id id db.products)) items
    still [] u h = tt
    still (i ∷ items) u h =
        let other : i.product_id ≢ id = λ e. absurd (ground (arith, e, u)) in
        (
          find-remove_ne-is_some id i.product_id db.products other h.0,
          still items (ground (arith, u)) h.1,
        )
