-- ===== src/Ledger/Statements.antt =====
-- What each statement on products, orders, order items and payments does to the ledger.
use distributed_order_proces.Base.{
  ℕ, ◌+◌, ◌≡◌, ◌≢◌, ◌<◌, ◌^◌, refl, sym, true, Option, none, some, arith, ◌==◌, if◌then◌else◌, inl,
  inr, Bool-cases, ap, subst,
}
use distributed_order_proces.Base.Words.{
  ge_int4, sub_int4, add_int4, sub_int4-nonneg, ge_int4-nonneg, add_int4-eq-some,
}
use distributed_order_proces.Base.Table.{find, replace, find-key}
use distributed_order_proces.Database.Rows.{Uuid, ProductRow, Db}
use distributed_order_proces.Database.Keys.{find_product}
use distributed_order_proces.Database.Tx.{ok, World, Env, Clock, clock_at}
use distributed_order_proces.Database.Post.{Post, NoClaim, answer-Post}
use distributed_order_proces.Order.Queries.{
  write_stock, run_decrease, run_increase, query_decrease_product_stock,
  query_increase_product_stock,
}
use distributed_order_proces.Ledger.Spec.{stock_in, stock_of}
use distributed_order_proces.Ledger.Rows.{stock_of-replace}

abbrev pub amount_at : Uuid → ℕ → Uuid → ℕ
amount_at id q p = if id == p then q else 0

-- Only the products table differs.
pub record SameOrders (db db' : Db) : Type 0 where
  pub orders : db'.orders ≡ db.orders
  pub order_items : db'.order_items ≡ db.order_items
  pub payments : db'.payments ≡ db.payments

-- `q` units of a product have left the stock, and nothing else has changed.
pub record Taken (id : Uuid) (q : ℕ) (db db' : Db) : Type 0 where
  pub rest : SameOrders db db'
  pub taken : (p : Uuid) → stock_of p db' + amount_at id q p ≡ stock_of p db

-- `q` units of a product have come back to the stock, and nothing else has changed.
pub record Restored (id : Uuid) (q : ℕ) (db db' : Db) : Type 0 where
  pub rest : SameOrders db db'
  pub restored : (p : Uuid) → stock_of p db' ≡ stock_of p db + amount_at id q p
  pub bounded : (p : Uuid) → stock_of p db' < 2 ^ 31

write_stock-eq-ok :
    (row : ProductRow) (o : Option ℕ) (c : Clock) (db : Db) {n : ℕ} {db' : Db}
    → write_stock row o c db ≡ ok (n, db')
    → (s : ℕ) × (o ≡ some s)
      × (s < 2 ^ 31)
      × (record db {
        products =
            replace ProductRow.id row.id
              (record row { stock = s; updated_at = c.time })
              db.products;
      }
          ≡ db')
unfolding write_stock
write_stock-eq-ok row none c db h = cc
write_stock-eq-ok row (some s) c db h = (s, refl, ground arith, ground arith)

-- The stock of the written product is the new one, that of the others is as before.
stock_of-written :
    (p : Uuid) (row : ProductRow) (s t : ℕ) (db : Db)
    → find_product row.id db ≡ some row
    → (stock_in (
          find ProductRow.id p
            (replace ProductRow.id row.id (record row { stock = s; updated_at = t }) db.products))
        ≡ (if row.id == p then s else stock_of p db))
      × ((row.id == p) ≡ true → stock_of p db ≡ row.stock)
stock_of-written p row s t db e = (
  stock_of-replace p row s t db e,
  λ same. let k : row.id ≡ p = ground arith in ap stock_in (rw k at e),
)

Taken-found :
    (q : ℕ) (row : ProductRow) (c : Clock) (db : Db) (n : ℕ) (db' : Db)
    → q < 2 ^ 31
    → row.stock < 2 ^ 31
    → find_product row.id db ≡ some row
    → ge_int4 row.stock q ≡ true
    → write_stock row (sub_int4 row.stock q) c db ≡ ok (n, db')
    → Taken row.id q db db'
Taken-found q row c db n db' hq hs e enough h =
    let (s, difference, _, written) = write_stock-eq-ok row (sub_int4 row.stock q) c db h in
    let exact = sub_int4-nonneg row.stock q hs hq enough in
    let fits = ge_int4-nonneg row.stock q hs hq enough in
    subst (λ d. Taken row.id q db d) written
      (record {
        rest = record { orders = refl; order_items = refl; payments = refl };
        taken = λ p. ground (arith, stock_of-written p row s c.time db e);
      })

decrease-Taken :
    (q : ℕ) (id : Uuid) (o : Option ProductRow) (c : Clock) (db : Db) (n : ℕ) (db' : Db)
    → q < 2 ^ 31
    → ((p : Uuid) → stock_of p db < 2 ^ 31)
    → find_product id db ≡ o
    → run_decrease q o c db ≡ ok (n, db')
    → n ≢ 0
    → Taken id q db db'
unfolding run_decrease
decrease-Taken q id none c db n db' hq bound e h some_rows = absurd (some_rows (ground arith))
decrease-Taken q id (some row) c db n db' hq bound e h some_rows =
    let same = find-key ProductRow.id id db.products e in
    let e' : find_product row.id db ≡ some row =
      subst (λ k. find_product k db ≡ some row) (sym same) e in
    let low : row.stock < 2 ^ 31 = ground (arith, bound id) in
    elim (Bool-cases (ge_int4 row.stock q)) [
      | inl enough ↦
          subst (λ k. Taken k q db db') same
            (Taken-found q row c db n db' hq low e' enough (rw enough at h))
      | inr short ↦ absurd (some_rows (ground arith))
    ]

Restored-found :
    (q : ℕ) (row : ProductRow) (c : Clock) (db : Db) (n : ℕ) (db' : Db)
    → q < 2 ^ 31
    → ((p : Uuid) → stock_of p db < 2 ^ 31)
    → row.stock < 2 ^ 31
    → find_product row.id db ≡ some row
    → write_stock row (add_int4 row.stock q) c db ≡ ok (n, db')
    → Restored row.id q db db'
Restored-found q row c db n db' hq bound hs e h =
    let (s, total, _, written) = write_stock-eq-ok row (add_int4 row.stock q) c db h in
    let (exact, fits) = add_int4-eq-some row.stock q hs hq total in
    subst (λ d. Restored row.id q db d) written
      (record {
        rest = record { orders = refl; order_items = refl; payments = refl };
        restored = λ p. ground (arith, stock_of-written p row s c.time db e);
        bounded = λ p. ground (arith, stock_of-written p row s c.time db e, bound p);
      })

increase-Restored :
    (q : ℕ) (id : Uuid) (o : Option ProductRow) (c : Clock) (db : Db) (n : ℕ) (db' : Db)
    → q < 2 ^ 31
    → ((p : Uuid) → stock_of p db < 2 ^ 31)
    → find_product id db ≡ o
    → run_increase q o c db ≡ ok (n, db')
    → n ≢ 0
    → Restored id q db db'
unfolding run_increase
increase-Restored q id none c db n db' hq bound e h some_rows = absurd (some_rows (ground arith))
increase-Restored q id (some row) c db n db' hq bound e h some_rows =
    let same = find-key ProductRow.id id db.products e in
    let e' : find_product row.id db ≡ some row =
      subst (λ k. find_product k db ≡ some row) (sym same) e in
    let low : row.stock < 2 ^ 31 = ground (arith, bound id) in
    subst (λ k. Restored k q db db') same (Restored-found q row c db n db' hq bound low e' h)

-- A decrease that affected a row took the units from the stock.
pub decrease-Post :
    (env : Env) (q : ℕ) (id : Uuid) (w : World)
    → q < 2 ^ 31
    → ((p : Uuid) → stock_of p w.db < 2 ^ 31)
    → Post (λ n w'. n ≢ 0 → Taken id q w.db w'.db) NoClaim (query_decrease_product_stock env q id w)
unfolding query_decrease_product_stock
decrease-Post env q id w hq bound = answer-Post env _ w (λ n db h.
    decrease-Taken q id (find_product id w.db) (clock_at env w) w.db n db hq bound refl h)

-- An increase that affected a row gave the units back.
pub increase-Post :
    (env : Env) (q : ℕ) (id : Uuid) (w : World)
    → q < 2 ^ 31
    → ((p : Uuid) → stock_of p w.db < 2 ^ 31)
    → Post
        (λ n w'. n ≢ 0 → Restored id q w.db w'.db)
        NoClaim
        (query_increase_product_stock env q id w)
unfolding query_increase_product_stock
increase-Post env q id w hq bound = answer-Post env _ w (λ n db h.
    increase-Restored q id (find_product id w.db) (clock_at env w) w.db n db hq bound refl h)
