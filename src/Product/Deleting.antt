-- ===== src/Product/Deleting.antt =====
-- Taking a product out of the catalog.
use distributed_order_proces.Base.{
  ◌<◌, ◌^◌, ◌≡◌, ◌≢◌, refl, subst, true, false, none, arith, ◌==◌, Bool-cases, inl, inr, ◌≤◌, ℕ,
}
use distributed_order_proces.Base.Table.{find, remove}
use distributed_order_proces.Database.Rows.{Uuid, ProductRow, Db}
use distributed_order_proces.Database.Keys.{is_some, find_product}
use distributed_order_proces.Database.Tx.{
  Clock, ok, Env, World, clock_at, product_not_found, Result, err, continue, throw_if,
}
use distributed_order_proces.Database.Post.{Post, returned, failed}
use distributed_order_proces.Database.Single.{single-Post}
use distributed_order_proces.Ledger.Spec.{Sound, stock_in}
use distributed_order_proces.Product.Queries.{
  is_ordered, run_delete_product, query_delete_product_by_id,
}
use distributed_order_proces.Product.Repository.{product_from_sqlc, int4_param, on_unique_violation}
use distributed_order_proces.Product.Service.{delete_product}
use distributed_order_proces.Product.Catalog.{count_id, find-remove_self, find-remove_ne}
use distributed_order_proces.Product.Edits.{remove-Catalog}
use distributed_order_proces.Product.Shop.{SameOthers, IsShop}
use distributed_order_proces.Product.Repository

-- The product is gone, and no item of an order had named it.
pub record Deleted (id : Uuid) (db db' : Db) : Type 0 where
  pub existing : is_some (find_product id db) ≡ true
  pub unordered : is_ordered id db.order_items ≡ false
  pub gone : find_product id db' ≡ none
  pub others : SameOthers id db db'

deleted :
    (id : Uuid) (c : Clock) (db : Db) (n : ℕ) (db' : Db)
    → run_delete_product id c db ≡ ok (n, db')
    → n ≢ 0
    → (is_some (find_product id db) ≡ true)
      × (is_ordered id db.order_items ≡ false)
      × (record db { products = remove ProductRow.id id db.products } ≡ db')
unfolding run_delete_product
deleted id c db n db' h some_rows =
    (ground (arith, some_rows), ground (arith, some_rows), ground (arith, some_rows))

remove-Sound :
    (id : Uuid) (db : Db)
    → count_id id db.products ≤ 1
    → Sound db
    → Sound (record db { products = remove ProductRow.id id db.products })
remove-Sound id db c s = record {
  bounded = λ p. elim (Bool-cases (p == id)) [
    | inl same ↦
        let e : id ≡ p = ground arith in
        subst (λ j. stock_in (find ProductRow.id j (remove ProductRow.id id db.products)) < 2 ^ 31)
          e (rw (find-remove_self id db.products c) (omega arith))
    | inr other ↦
        rw (find-remove_ne id p db.products (λ e. absurd (ground (arith, e)))) (s.bounded p)
  ];
  items = s.items;
  agree = s.agree;
}

remove-IsShop :
    (id : Uuid) (db db' : Db)
    → is_some (find_product id db) ≡ true
    → is_ordered id db.order_items ≡ false
    → record db { products = remove ProductRow.id id db.products } ≡ db'
    → IsShop db
    → IsShop db' × Deleted id db db'
remove-IsShop id db db' existing unordered written shop =
    subst (λ d. IsShop d × Deleted id db d) written
      (
        record {
          sound = remove-Sound id db (shop.catalog.ids id) shop.sound;
          catalog = remove-Catalog id db unordered shop.catalog;
        },
        record {
          existing = existing;
          unordered = unordered;
          gone = find-remove_self id db.products (shop.catalog.ids id);
          others = (λ j ne. find-remove_ne id j db.products ne, refl, refl, refl, refl, refl);
        },
      )

delete_row-Post :
    (env : Env) (id : Uuid) (w : World)
    → IsShop w.db
    → Post
        (λ n w'. (n ≢ 0 → IsShop w'.db × Deleted id w.db w'.db) × (n ≡ 0 → w'.db ≡ w.db))
        (λ _ w'. w'.db ≡ w.db)
        (query_delete_product_by_id env id w)
unfolding query_delete_product_by_id run_delete_product
delete_row-Post env id w shop = single-Post env _ w (λ n db h. (
  λ some_rows.
      let (existing, unordered, written) = deleted id (clock_at env w) w.db n db h some_rows in
      remove-IsShop id w.db db existing unordered written shop,
  λ no_row. ground (arith, h, no_row),
))

-- `DELETE /products/{id}`: the product was there, no item of an order named it, it is gone, and no
-- other product has changed; or the tables are as they were.
pub delete_product-Deleted :
    (env : Env) (id : Uuid) (w : World)
    → IsShop w.db
    → Post
        (λ _ w'. IsShop w'.db × Deleted id w.db w'.db)
        (λ _ w'. w'.db ≡ w.db)
        (delete_product env id w)
unfolding delete_product Repository.delete_product_by_id
delete_product-Deleted env id w shop =
    last (query_delete_product_by_id env id w) (delete_row-Post env id w shop)
  where
    last :
        (r : Result ℕ × World)
        → Post
            (λ n w'. (n ≢ 0 → IsShop w'.db × Deleted id w.db w'.db) × (n ≡ 0 → w'.db ≡ w.db))
            (λ _ w'. w'.db ≡ w.db)
            r
        → Post
            (λ _ w'. IsShop w'.db × Deleted id w.db w'.db)
            (λ _ w'. w'.db ≡ w.db)
            (continue (λ n. throw_if (n == 0) product_not_found) r)
    last (ok n, w') (returned h) = elim (Bool-cases (n == 0)) [
      | inl no_row ↦ rw no_row (failed (h.1 (ground arith)))
      | inr some_rows ↦ rw some_rows (returned (h.0 (λ e. absurd (ground (arith, e)))))
    ]
    last (err e, w') (failed h) = failed h
