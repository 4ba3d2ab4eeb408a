-- ===== src/Product/Updating.antt =====
-- Changing a product of the catalog.
use distributed_order_proces.Base.{
  ◌<◌, ◌^◌, ◌≡◌, refl, sym, subst, ap, ◌∙◌, String, true, false, Option, none, some, arith, ◌==◌,
  Bool-cases, inl, inr, ◌≤◌, str_eq, eq_iff, ℕ, ◌%◌,
}
use distributed_order_proces.Base.Table.{
  find, replace, find-key, find-replace_self, find-replace_ne,
}
use distributed_order_proces.Database.Rows.{Uuid, ProductRow, Db}
use distributed_order_proces.Database.Keys.{is_some, find_product}
use distributed_order_proces.Database.Tx.{Clock, ok, Env, World, clock_at, product_not_found}
use distributed_order_proces.Database.Post.{Post, bind-Post, returned, rename-Post}
use distributed_order_proces.Database.Single.{single-Post}
use distributed_order_proces.Ledger.Spec.{Sound, stock_in}
use distributed_order_proces.Product.Model.{Product, UpdateProductRequest}
use distributed_order_proces.Product.Queries.{
  find_name, run_update_product, UpdateProductParams, coalesce, varchar, is_name_of_other,
  query_update_product, write_named,
}
use distributed_order_proces.Product.Repository.{product_from_sqlc, int4_param, on_unique_violation}
use distributed_order_proces.Product.Service.{update_product}
use distributed_order_proces.Product.Catalog.{
  count_name, count_name_fresh, find_name-find, count_id,
}
use distributed_order_proces.Product.Edits.{replace-Catalog}
use distributed_order_proces.Product.Shop.{SameOthers, IsShop, unique_violation-Post}
use distributed_order_proces.Base.Words.{int32}
use distributed_order_proces.Product.Varchar.{Held, varchar-Held}
use distributed_order_proces.Product.Repository

-- A new value is that of the request, as it is stored, or the old one where the request has none.
abbrev pub IsStored : {A : Type 0} → (A → A) → Option A → A → A → Type 0
IsStored store none old new = new ≡ old
IsStored store (some asked) old new = new ≡ store asked

abbrev pub as_is : {A : Type 0} → A → A
as_is a = a

-- An `int` that was cut to 32 bits.
abbrev pub cut : ℕ → ℕ
cut n = n % 2 ^ 32

-- The product is what the request says where it says something, and what it was where it does not;
-- of the name VARCHAR(255) then holds what it can.
pub record Updated (id : Uuid) (req : UpdateProductRequest) (p : Product) (db db' : Db)
    : Type 0 where
  pub old : ProductRow
  pub existing : find_product id db ≡ some old
  pub row : ProductRow
  pub written : find_product id db' ≡ some row
  pub same : product_from_sqlc row ≡ p
  pub fields :
      IsStored as_is req.description old.description row.description
      × IsStored as_is req.price old.price row.price
      × IsStored cut req.stock old.stock row.stock
      × (row.created_at ≡ old.created_at)
  pub called : String
  pub chosen : IsStored as_is req.name old.name called
  pub name : Held 255 called row.name
  pub others : SameOthers id db db'

-- A statement that wrote a row for the one that it met.
record Rewritten (arg : UpdateProductParams) (old row : ProductRow) (db db' : Db) : Type 0 where
  pub id : row.id ≡ old.id
  pub low : row.stock < 2 ^ 31
  pub free : is_name_of_other old.id (find_name row.name db.products) ≡ false
  pub fields :
      (row.description ≡ coalesce arg.description old.description)
      × (row.price ≡ coalesce arg.price old.price)
      × (row.stock ≡ coalesce arg.stock old.stock)
      × (row.created_at ≡ old.created_at)
  pub name : varchar 255 (coalesce arg.name old.name) ≡ some row.name
  pub written : record db { products = replace ProductRow.id old.id row db.products } ≡ db'

rewritten :
    (arg : UpdateProductParams) (o : Option ProductRow) (c : Clock) (db : Db) (row : ProductRow)
    (db' : Db)
    → run_update_product arg o c db ≡ ok (row, db')
    → (old : ProductRow) × (o ≡ some old) × Rewritten arg old row db db'
unfolding run_update_product
rewritten arg none c db row db' h = cc
rewritten arg (some old) c db row db' h =
    (old, refl, named (varchar 255 (coalesce arg.name old.name)) refl h)
  where
    named :
        (o : Option String)
        → varchar 255 (coalesce arg.name old.name) ≡ o
        → write_named arg old c db o ≡ ok (row, db')
        → Rewritten arg old row db db'
    named none e h = cc
    named (some name) e h = record {
      id = ground arith;
      low = ground arith;
      free = ground arith;
      fields = ground arith;
      name = ground arith;
      written = ground arith;
    }

-- A product that is written in place of itself keeps the ledger sound.
replace-Sound :
    (row old : ProductRow) (db : Db)
    → row.stock < 2 ^ 31
    → find_product row.id db ≡ some old
    → Sound db
    → Sound (record db { products = replace ProductRow.id row.id row db.products })
replace-Sound row old db low found s = record {
  bounded = λ p. elim (Bool-cases (p == row.id)) [
    | inl same ↦
        let e : row.id ≡ p = ground arith in
        subst
          (λ j.
            stock_in (find ProductRow.id j (replace ProductRow.id row.id row db.products)) < 2 ^ 31)
          e (rw (find-replace_self ProductRow.id row.id row db.products {row = old} refl found) low)
    | inr other ↦
        rw
          (find-replace_ne ProductRow.id p row.id row db.products refl
            (λ e. absurd (ground (arith, e))))
          (s.bounded p)
  ];
  items = s.items;
  agree = s.agree;
}

-- A name that the statement let through is that of the row itself, or nobody's.
free_name :
    (row old : ProductRow) (db : Db) (o : Option ProductRow)
    → find_name row.name db.products ≡ o
    → is_name_of_other old.id o ≡ false
    → find_product old.id db ≡ some old
    → count_id old.id db.products ≤ 1
    → (n : String) → str_eq row.name n ≡ true
    → str_eq old.name n ≡ false
    → count_name n db.products ≡ 0
free_name row old db none e free found c n new was =
    let same : row.name ≡ n = (eq_iff row.name n).0 new in
    subst (λ m. count_name m db.products ≡ 0) same
      (count_name_fresh row.name db.products (ap is_some e))
free_name row old db (some r) e free found c n new was =
    let same : row.name ≡ n = (eq_iff row.name n).0 new in
    let mine : r.id ≡ old.id = ground arith in
    let called =
      find_name-find row.name r old db.products e
        (subst (λ j. find_product j db ≡ some old) (sym mine) found)
        (subst (λ j. count_id j db.products ≤ 1) (sym mine) c) in
    let called_n : str_eq old.name n ≡ true = subst (λ m. str_eq old.name m ≡ true) same called in
    cc

coalesce-IsStored :
    {A : Type 0} (o : Option A) (old : A) {new : A}
    → new ≡ coalesce o old
    → IsStored as_is o old new
coalesce-IsStored none old e = e
coalesce-IsStored (some a) old e = e

stock-IsStored :
    (o : Option ℕ) (old : ℕ) {new : ℕ} → new ≡ coalesce (int4_param o) old → IsStored cut o old new
unfolding int32
stock-IsStored none old e = e
stock-IsStored (some n) old e = e

update-IsShop :
    (req : UpdateProductRequest) (arg : UpdateProductParams) (old row : ProductRow) (db db' : Db)
    → arg.name ≡ req.name
    → arg.description ≡ req.description
    → arg.price ≡ req.price
    → arg.stock ≡ int4_param req.stock
    → find_product old.id db ≡ some old
    → Rewritten arg old row db db'
    → IsShop db
    → IsShop db' × Updated old.id req (product_from_sqlc row) db db'
update-IsShop req arg old row db db' name desc price stock found r shop =
    let found' : find_product row.id db ≡ some old =
      subst (λ j. find_product j db ≡ some old) (sym r.id) found in
    let d : Db = record db { products = replace ProductRow.id row.id row db.products } in
    let written : d ≡ db' =
      ap (λ j. record db { products = replace ProductRow.id j row db.products }) r.id ∙ r.written in
    subst (λ e. IsShop e × Updated old.id req (product_from_sqlc row) db e) written
      (
        record {
          sound = replace-Sound row old db r.low found' shop.sound;
          catalog =
              replace-Catalog row old db found'
                (free_name row old db (find_name row.name db.products) refl r.free found
                  (shop.catalog.ids old.id))
                shop.catalog;
        },
        record {
          old = old;
          existing = found;
          row = row;
          written =
              subst (λ j. find_product j d ≡ some row) r.id
                (find-replace_self ProductRow.id row.id row db.products {row = old} refl found');
          same = refl;
          fields = (
            coalesce-IsStored req.description old.description (ground (arith, r.fields)),
            coalesce-IsStored req.price old.price (ground (arith, r.fields)),
            stock-IsStored req.stock old.stock (ground (arith, r.fields)),
            r.fields.3,
          );
          called = coalesce req.name old.name;
          chosen = coalesce-IsStored req.name old.name refl;
          name = rw (← name) (varchar-Held 255 (coalesce arg.name old.name) row.name r.name);
          others = (
            λ j ne.
                find-replace_ne ProductRow.id j row.id row db.products refl (λ e. ne (e ∙ r.id)),
            refl,
            refl,
            refl,
            refl,
            refl,
          );
        },
      )

-- `PATCH /products/{id}` on a shop that meets its invariants: they hold afterwards, so no other product
-- has the name; the product has the fields of the request, of the stock the lowest 32 bits, and its
-- own where the request has none, the name or the first 255 characters of it if only spaces follow, and no other row of any table
-- has changed; or the tables are as they were.
pub update_product-Updated :
    (env : Env) (id : Uuid) (req : UpdateProductRequest) (w : World)
    → IsShop w.db
    → Post
        (λ p w'. IsShop w'.db × Updated id req p w.db w'.db)
        (λ _ w'. w'.db ≡ w.db)
        (update_product env id req w)
unfolding update_product Repository.update_product query_update_product
update_product-Updated env id req w shop =
    let arg : UpdateProductParams = record {
      name = req.name;
      description = req.description;
      price = req.price;
      stock = int4_param req.stock;
      id = id;
    } in
    rename-Post product_not_found (λ _ _ e. e)
      (bind-Post {P = λ row w'. IsShop w'.db × Updated id req (product_from_sqlc row) w.db w'.db}
        (unique_violation-Post (
          single-Post env _ w (λ row db h.
            let (old, found, r) =
              rewritten arg (find_product id w.db) (clock_at env w) w.db row db h in
            let named : old.id ≡ id = find-key ProductRow.id id w.db.products found in
            let found' : find_product old.id w.db ≡ some old =
              subst (λ j. find_product j w.db ≡ some old) (sym named) found in
            subst (λ j. IsShop db × Updated j req (product_from_sqlc row) w.db db) named
              (update-IsShop req arg old row w.db db refl refl refl refl found' r shop))))
        (λ row w' h. returned h))
