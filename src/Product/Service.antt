-- ===== src/Product/Service.antt =====
-- product_service.go
use distributed_order_proces.Base.{ℕ, List, [], ◌∷◌, ◌==◌, if◌then◌else◌}
use distributed_order_proces.Base.Words.{lt_int, sub_int, mul_int}
use distributed_order_proces.Database.Rows.{Uuid}
use distributed_order_proces.Database.Tx.{
  product_not_found, no_product, Env, Tx, pure, throw, throw_if, ◌>>=◌, on_no_rows,
}
use distributed_order_proces.Product.Model.{Product, CreateProductRequest, UpdateProductRequest}
use distributed_order_proces.Product.Repository

abbrev pub max_limit : ℕ
max_limit = 100

-- `if page < 1 { page = 1 }`, and so for the limit.
unfoldable pub at_least_one : ℕ → ℕ
at_least_one n = if lt_int n 1 then 1 else n

unfoldable pub clamp_limit : ℕ → ℕ
unfolding at_least_one
clamp_limit limit =
    let limit' = at_least_one limit in if lt_int max_limit limit' then max_limit else limit'

-- `(page - 1) * limit`
unfoldable pub offset_of : ℕ → ℕ → ℕ
offset_of page limit = mul_int (sub_int page 1) limit

-- `len(listProducts) == 0`
abbrev pub some_products : List Product → Tx (List Product)
some_products [] = throw no_product
some_products (p ∷ ps) = pure (p ∷ ps)

unfoldable pub list_products : Env → ℕ → ℕ → Tx (List Product)
list_products env page limit = do
  products ←
      Repository.list_products env (clamp_limit limit)
        (offset_of (at_least_one page) (clamp_limit limit))
  some_products products

unfoldable pub get_product_by_id : Env → Uuid → Tx Product
get_product_by_id env id = on_no_rows product_not_found (Repository.get_product_by_id env id)

unfoldable pub create_product : Env → CreateProductRequest → Tx Product
create_product env req = Repository.create_product env req.name req.description req.price req.stock

unfoldable pub update_product : Env → Uuid → UpdateProductRequest → Tx Product
update_product env id req =
    on_no_rows product_not_found
      (Repository.update_product env id req.name req.description req.price req.stock)

unfoldable pub delete_product : Env → Uuid → Tx (Unit {0})
delete_product env id = do
  effected_rows ← Repository.delete_product_by_id env id
  throw_if (effected_rows == 0) product_not_found
