-- ===== src/Tests/Catalog.antt =====
-- The catalog of the shop, edited and read.
use distributed_order_proces.Tests.Idempotency.{codec, retry}
use distributed_order_proces.Product.Repository.{product_from_sqlc}
use distributed_order_proces.Product.Service.{
  list_products, create_product, update_product, delete_product, at_least_one, clamp_limit,
  offset_of,
}
use distributed_order_proces.Base.{
  refl, [], ◌∷◌, ◌≡◌, some, none, true, arith, Bool-cases, inl, inr, String, ◌≤◌, eq_iff, str_eq,
  subst,
}
use distributed_order_proces.Product.Catalog.{Catalog, count_name}
use distributed_order_proces.Product.Model.{CreateProductRequest, UpdateProductRequest}
use distributed_order_proces.Product.Shop.{IsShop}
use distributed_order_proces.Tests.Shop.{calm, open_shop, shop, shop-Sound, ink}
use distributed_order_proces.Database.Post.{Post}
use distributed_order_proces.Product.Pages.{list_products-eq-page_of}
use distributed_order_proces.Product.Queries.{query_list_products, run_list_products}
use distributed_order_proces.Http.Products.{
  ProductCodec, handle_create_product, handle_update_product,
}
use distributed_order_proces.Http.Errors.{Unchanged, handlers-Unchanged}
use distributed_order_proces.Product.Creating.{Created, create_product-Created}
use distributed_order_proces.Product.Updating.{Updated, update_product-Updated}
use distributed_order_proces.Product.Deleting.{Deleted, delete_product-Deleted}
use distributed_order_proces.Http.Orders.{handle_cancel_order}
use distributed_order_proces.Database.Tx.{statement, ok, err, driver}
use distributed_order_proces.Http.Payments.{handle_pay}
use distributed_order_proces.Base.Words.{mul_int, sub_int, int32, lt_int}
use distributed_order_proces.Product.Repository

shop-Catalog : Catalog shop
shop-Catalog = record { ids = λ id. ground arith; names = names; items = (refl, tt) }
  where
    names : (name : String) → count_name name shop.products ≤ 1
    names name = elim (Bool-cases (str_eq "pen" name)) [
      | inl is_pen ↦
          subst (λ n. count_name n shop.products ≤ 1) ((eq_iff "pen" name).0 is_pen) (omega arith)
      | inr other ↦ rw other (ground arith)
    ]

pub shop-IsShop : IsShop shop
shop-IsShop = record { sound = shop-Sound; catalog = shop-Catalog }

abbrev cup : CreateProductRequest
cup = record { name = "cup"; description = "tin"; price = 40; stock = 9 }

-- The pen is renamed.
abbrev new_name : UpdateProductRequest
new_name = record { name = some "quill"; description = none; price = none; stock = none }

create_product-Created_example :
    Post
      (λ p w'. IsShop w'.db × Created cup p shop w'.db)
      (λ _ w'. w'.db ≡ shop)
      (create_product calm cup open_shop)
create_product-Created_example = create_product-Created calm cup open_shop shop-IsShop

update_product-Updated_example :
    Post
      (λ p w'. IsShop w'.db × Updated 7 new_name p shop w'.db)
      (λ _ w'. w'.db ≡ shop)
      (update_product calm 7 new_name open_shop)
update_product-Updated_example = update_product-Updated calm 7 new_name open_shop shop-IsShop

delete_product-Deleted_example :
    Post
      (λ _ w'. IsShop w'.db × Deleted 3 shop w'.db)
      (λ _ w'. w'.db ≡ shop)
      (delete_product calm 3 open_shop)
delete_product-Deleted_example = delete_product-Deleted calm 3 open_shop shop-IsShop

-- The second page, of one product, as the limit 0 is none.
list_products-eq-page_of_example :
    (list_products calm 2 0 open_shop).0 ≡ ok (product_from_sqlc ink ∷ [])
list_products-eq-page_of_example =
    list_products-eq-page_of calm 2 0 open_shop (omega arith) (omega arith) refl

-- A page so far out that its offset is negative as an INT.

far_page : (list_products calm 21474838 100 open_shop).0 ≡ err driver
unfolding list_products Repository.list_products query_list_products run_list_products statement
    at_least_one clamp_limit offset_of mul_int sub_int int32 lt_int
far_page = refl

abbrev pub products : ProductCodec
products = record {
  decode_create = λ s. some cup;
  validate_create = λ req. true;
  decode_update = λ s. some new_name;
  validate_update = λ req. true;
  atoi = λ s. none;
  parse_uuid = λ s. some 7;
}

handlers-Unchanged_example :
    Unchanged shop (handle_cancel_order calm codec retry open_shop)
    × Unchanged shop (handle_pay calm codec retry open_shop)
    × Unchanged shop (handle_create_product calm products "{}" open_shop)
    × Unchanged shop (handle_update_product calm products "7" "{}" open_shop)
handlers-Unchanged_example = handlers-Unchanged calm codec products retry "7" "{}" open_shop
