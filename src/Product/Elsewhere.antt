-- ===== src/Product/Elsewhere.antt =====
-- The writes of the catalog keep every property that does not look at the products.
use distributed_order_proces.Base.{
  ◌≡◌, subst, String, Bool-cases, inl, inr, Option, none, some, List, arith, ℕ, ◌==◌,
}
use distributed_order_proces.Database.Rows.{Uuid, ProductRow, Db}
use distributed_order_proces.Database.Tx.{Env, World, Result, ok, Clock, product_not_found}
use distributed_order_proces.Database.Post.{returned, failed, bind-Post, rename-Post}
use distributed_order_proces.Database.Keeps.{Keeps, statement-Keeps}
use distributed_order_proces.Product.Queries.{
  run_create_product, run_update_product, run_delete_product, query_create_product,
  CreateProductParams, UpdateProductParams, query_update_product, query_delete_product_by_id,
  write_named,
}
use distributed_order_proces.Product.Repository.{on_unique_violation}
use distributed_order_proces.Product.Service.{create_product, update_product, delete_product}
use distributed_order_proces.Product.Model.{CreateProductRequest, UpdateProductRequest}
use distributed_order_proces.Product.Repository

module _ (env : Env) (I : Db → Type 0)
    (any_products : (ps : List ProductRow) (db : Db) → I db → I (record db { products = ps })) where
  named_once : {A : Type 0} {r : Result A × World} → Keeps I r → Keeps I (on_unique_violation r)
  named_once (returned h) = returned h
  named_once (failed h) = failed h

  -- What a statement left differs from `db` in the products.
  Elsewhere : Db → Db → Type 0
  Elsewhere db db' = record db { products = db'.products } ≡ db'

  carried : (db db' : Db) → I db → Elsewhere db db' → I db'
  unfolding Elsewhere
  carried db db' h e = subst I e (any_products db'.products db h)

  created :
      (arg : CreateProductParams) (o : Option String) (c : Clock) (db : Db) (row : ProductRow)
      (db' : Db)
      → run_create_product arg o c db ≡ ok (row, db')
      → Elsewhere db db'
  unfolding run_create_product Elsewhere
  created arg none c db row db' e = cc
  created arg (some name) c db row db' e = ground (arith, e)

  write_named-Elsewhere :
      (arg : UpdateProductParams) (old : ProductRow) (c : Clock) (db : Db) (o : Option String)
      (row : ProductRow) (db' : Db)
      → write_named arg old c db o ≡ ok (row, db')
      → Elsewhere db db'
  unfolding Elsewhere
  write_named-Elsewhere arg old c db none row db' e = cc
  write_named-Elsewhere arg old c db (some name) row db' e = ground (arith, e)

  updated :
      (arg : UpdateProductParams) (o : Option ProductRow) (c : Clock) (db : Db) (row : ProductRow)
      (db' : Db)
      → run_update_product arg o c db ≡ ok (row, db')
      → Elsewhere db db'
  unfolding run_update_product Elsewhere
  updated arg none c db row db' e = cc
  updated arg (some old) c db row db' e = write_named-Elsewhere arg old c db _ row db' e

  deleted :
      (id : Uuid) (c : Clock) (db : Db) (n : ℕ) (db' : Db)
      → run_delete_product id c db ≡ ok (n, db')
      → Elsewhere db db'
  unfolding run_delete_product Elsewhere
  deleted id c db n db' e = ground (arith, e)

  pub create_product-Keeps :
      (req : CreateProductRequest) (w : World) → I w.db → Keeps I (create_product env req w)
  unfolding create_product Repository.create_product query_create_product
  create_product-Keeps req w h =
      bind-Post
        (named_once
          (statement-Keeps I env _ w h (λ a db e. carried w.db db h (created _ _ _ w.db a db e))))
        (λ _ w' i. returned i)

  pub update_product-Keeps :
      (id : Uuid) (req : UpdateProductRequest) (w : World)
      → I w.db
      → Keeps I (update_product env id req w)
  unfolding update_product Repository.update_product query_update_product
  update_product-Keeps id req w h =
      rename-Post product_not_found (λ _ _ i. i)
        (bind-Post
          (named_once
            (statement-Keeps I env _ w h (λ a db e. carried w.db db h (updated _ _ _ w.db a db e))))
          (λ _ w' i. returned i))

  pub delete_product-Keeps : (id : Uuid) (w : World) → I w.db → Keeps I (delete_product env id w)
  unfolding delete_product Repository.delete_product_by_id query_delete_product_by_id
  delete_product-Keeps id w h =
      bind-Post
        (statement-Keeps I env _ w h (λ a db e. carried w.db db h (deleted id _ w.db a db e)))
        (λ n w' i. elim (Bool-cases (n == 0)) [
          | inl none_there ↦ rw none_there (failed i)
          | inr there ↦ rw there (returned i)
        ])
