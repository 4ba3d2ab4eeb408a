-- ===== src/Product/Repository.antt =====
-- product_repository.go
use distributed_order_proces.Base.{ℕ, String, Option, none, some, List, map}
use distributed_order_proces.Base.Words.{int32, int_of_int32}
use distributed_order_proces.Database.Rows.{Uuid, ProductRow}
use distributed_order_proces.Database.Tx.{
  existing_product_name, Error, unique_violation, Result, ok, err, World, Env, Tx, pure, ◌>>=◌,
}
use distributed_order_proces.Product.Model.{Product}
use distributed_order_proces.Product.Queries.{
  query_create_product, query_delete_product_by_id, query_get_product_by_id, query_list_products,
  query_update_product,
}

abbrev pub product_from_sqlc : ProductRow → Product
product_from_sqlc r = record {
  id = r.id;
  name = r.name;
  description = r.description;
  price = r.price;
  stock = int_of_int32 r.stock;
  created_at = r.created_at;
  updated_at = r.updated_at;
}

-- `errors.As(err, &pgErr) && pgErr.Code == pgerrcode.UniqueViolation`, of any UNIQUE constraint.
abbrev pub named_twice : Error → Error
named_twice unique_violation = existing_product_name
named_twice e = e

abbrev pub on_unique_violation : {A : Type 0} → Result A × World → Result A × World
on_unique_violation (ok a, w) = (ok a, w)
on_unique_violation (err e, w) = (err (named_twice e), w)

unfoldable pub get_product_by_id : Env → Uuid → Tx Product
get_product_by_id env id = do row ← query_get_product_by_id env id; pure (product_from_sqlc row)

-- The loop that appends each row.
unfoldable pub products_from_sqlc : List ProductRow → List Product
products_from_sqlc rows = map product_from_sqlc rows

unfoldable pub list_products : Env → ℕ → ℕ → Tx (List Product)
list_products env limit offset = do
  rows ← query_list_products env (int32 limit) (int32 offset)
  pure (products_from_sqlc rows)

unfoldable pub create_product : Env → String → String → ℕ → ℕ → Tx Product
create_product env name desc price stock = do
  row ← λ w. on_unique_violation (
      query_create_product env
        (record { name = name; description = desc; price = price; stock = int32 stock }) w)
  pure (product_from_sqlc row)

abbrev pub int4_param : Option ℕ → Option ℕ
int4_param none = none
int4_param (some n) = some (int32 n)

unfoldable pub update_product :
    Env → Uuid → Option String → Option String → Option ℕ → Option ℕ → Tx Product
update_product env id name desc price stock = do
  row ← λ w. on_unique_violation (
      query_update_product env
        (record {
          name = name;
          description = desc;
          price = price;
          stock = int4_param stock;
          id = id;
        })
        w)
  pure (product_from_sqlc row)

unfoldable pub delete_product_by_id : Env → Uuid → Tx ℕ
delete_product_by_id env id = query_delete_product_by_id env id
