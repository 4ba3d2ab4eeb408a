-- ===== src/Product/Creating.antt =====
-- Putting a product into the catalog.
use distributed_order_proces.Base.{
  ◌<◌, ◌^◌, ◌≡◌, refl, subst, String, false, Option, none, some, ◌∷◌, arith, ◌%◌,
}
use distributed_order_proces.Base.Words.{int32}
use distributed_order_proces.Database.Rows.{ProductRow, Db}
use distributed_order_proces.Database.Keys.{is_some, find_product}
use distributed_order_proces.Database.Tx.{Clock, ok, Env, World, clock_at}
use distributed_order_proces.Database.Post.{Post, bind-Post, returned}
use distributed_order_proces.Database.Single.{single-Post}
use distributed_order_proces.Ledger.Spec.{Sound}
use distributed_order_proces.Product.Model.{Product, CreateProductRequest}
use distributed_order_proces.Product.Queries.{
  find_name, run_create_product, CreateProductParams, varchar, query_create_product,
}
use distributed_order_proces.Product.Repository.{product_from_sqlc, int4_param, on_unique_violation}
use distributed_order_proces.Product.Service.{create_product}
use distributed_order_proces.Product.Edits.{insert-Catalog}
use distributed_order_proces.Product.Shop.{SameOthers, IsShop, unique_violation-Post}
use distributed_order_proces.Product.Varchar.{Held, varchar-Held}
use distributed_order_proces.Product.Repository

-- The product is in the catalog with the fields of the request, the stock cut to 32 bits and of the
-- name what VARCHAR(255) holds.
pub record Created (req : CreateProductRequest) (p : Product) (db db' : Db) : Type 0 where
  pub fresh : is_some (find_product p.id db) ≡ false
  pub unnamed : is_some (find_name p.name db.products) ≡ false
  pub row : ProductRow
  pub written : find_product p.id db' ≡ some row
  pub same : product_from_sqlc row ≡ p
  pub fields :
      (p.description ≡ req.description) × (p.price ≡ req.price) × (row.stock ≡ req.stock % 2 ^ 32)
  pub name : Held 255 req.name p.name
  pub others : SameOthers p.id db db'

inserted :
    (arg : CreateProductParams) (o : Option String) (c : Clock) (db : Db) (row : ProductRow)
    (db' : Db)
    → run_create_product arg o c db ≡ ok (row, db')
    → (is_some (find_product row.id db) ≡ false)
      × (is_some (find_name row.name db.products) ≡ false)
      × (row.stock < 2 ^ 31)
      × (o ≡ some row.name)
      × ((row.description ≡ arg.description) × (row.price ≡ arg.price) × (row.stock ≡ arg.stock))
      × (record db { products = row ∷ db.products } ≡ db')
unfolding run_create_product
inserted arg none c db row db' h = cc
inserted arg (some name) c db row db' h = ground arith

-- A product that is put among the others keeps the ledger sound.
insert-Sound :
    (row : ProductRow) (db : Db)
    → row.stock < 2 ^ 31
    → Sound db
    → Sound (record db { products = row ∷ db.products })
insert-Sound row db h s = record {
  bounded = λ p. ground (arith, s.bounded p);
  items = s.items;
  agree = s.agree;
}

insert-IsShop :
    (req : CreateProductRequest) (row : ProductRow) (db db' : Db)
    → (is_some (find_product row.id db) ≡ false)
    → (is_some (find_name row.name db.products) ≡ false)
    → row.stock < 2 ^ 31
    → varchar 255 req.name ≡ some row.name
    → (row.description ≡ req.description) × (row.price ≡ req.price) × (row.stock ≡ int32 req.stock)
    → record db { products = row ∷ db.products } ≡ db'
    → IsShop db
    → IsShop db' × Created req (product_from_sqlc row) db db'
unfolding int32
insert-IsShop req row db db' fresh unnamed low name fields written shop =
    subst (λ d. IsShop d × Created req (product_from_sqlc row) db d) written
      (
        record {
          sound = insert-Sound row db low shop.sound;
          catalog = insert-Catalog row db fresh unnamed shop.catalog;
        },
        record {
          fresh = fresh;
          unnamed = unnamed;
          row = row;
          written = ground arith;
          same = refl;
          fields = fields;
          name = varchar-Held 255 req.name row.name name;
          others = (λ j ne. ground arith, refl, refl, refl, refl, refl);
        },
      )

-- `POST /products` on a shop that meets its invariants: they hold afterwards and the product is there
-- with the description and the price of the request, the lowest 32 bits of its stock and its name, or
-- the first 255 characters of it if only spaces follow, under an id and a name that no other had, and no other row of any table has
-- changed; or the tables are as they were.
pub create_product-Created :
    (env : Env) (req : CreateProductRequest) (w : World)
    → IsShop w.db
    → Post
        (λ p w'. IsShop w'.db × Created req p w.db w'.db)
        (λ _ w'. w'.db ≡ w.db)
        (create_product env req w)
unfolding create_product Repository.create_product query_create_product
create_product-Created env req w shop =
    let arg : CreateProductParams = record {
      name = req.name;
      description = req.description;
      price = req.price;
      stock = int32 req.stock;
    } in
    bind-Post {P = λ row w'. IsShop w'.db × Created req (product_from_sqlc row) w.db w'.db}
      (unique_violation-Post (
        single-Post env _ w (λ row db h.
          let (fresh, unnamed, low, name, fields, written) =
            inserted arg (varchar 255 req.name) (clock_at env w) w.db row db h in
          insert-IsShop req row w.db db fresh unnamed low name fields written shop)))
      (λ row w' h. returned h)
