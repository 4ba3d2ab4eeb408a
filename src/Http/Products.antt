-- ===== src/Http/Products.antt =====
-- product_handler.go: what each route answers for each outcome of the service.
use distributed_order_proces.Base.{
  ℕ, String, Bool, Option, none, some, List, [], not, str_eq, if◌then◌else◌,
}
use distributed_order_proces.Database.Rows.{Uuid}
use distributed_order_proces.Database.Tx.{
  Error, no_product, product_not_found, existing_product_name, Result, ok, err, World, Env,
}
use distributed_order_proces.Product.Model.{Product, CreateProductRequest, UpdateProductRequest}
use distributed_order_proces.Product.Service.{
  list_products, get_product_by_id, create_product, update_product, delete_product,
}
use distributed_order_proces.Http.Message.{
  product_value, product_list, no_content, Response, write_error_json, write_json, Handler,
}

-- What these handlers take from libraries.
pub record ProductCodec : Type 0 where
  pub decode_create : String → Option CreateProductRequest
  pub validate_create : CreateProductRequest → Bool
  pub decode_update : String → Option UpdateProductRequest
  pub validate_update : UpdateProductRequest → Bool
  pub atoi : String → Option ℕ
  pub parse_uuid : String → Option Uuid

-- `""` where the query has no such parameter, and otherwise `strconv.Atoi`.
abbrev pub query_int : ProductCodec → ℕ → String → Option ℕ
query_int codec fallback s = if str_eq s "" then some fallback else codec.atoi s

-- An empty page is answered with an empty list.
abbrev pub answer_products : Result (List Product) × World → Response × World
answer_products (ok ps, w) = (write_json 200 (product_list ps), w)
answer_products (err no_product, w) = (write_json 200 (product_list []), w)
answer_products (err e, w) = (write_error_json 500 "something went wrong", w)

abbrev pub list_page : Env → Option ℕ → Option ℕ → Handler
list_page env none limit w = (write_error_json 400 "invalid page format", w)
list_page env (some page) none w = (write_error_json 400 "invalid limit format", w)
list_page env (some page) (some limit) w = answer_products (list_products env page limit w)

-- The texts of the query parameters `page` and `limit`.
unfoldable pub handle_list_products : Env → ProductCodec → String → String → Handler
handle_list_products env codec page limit w =
    list_page env (query_int codec 1 page) (query_int codec 10 limit) w

-- `parseProductID` and its error.
abbrev pub with_product_id : (Uuid → Handler) → Option Uuid → Handler
with_product_id act none w = (write_error_json 400 "invalid id format", w)
with_product_id act (some id) w = act id w

unfoldable pub get_product_error : Error → Response
get_product_error product_not_found = write_error_json 404 "product not found"
get_product_error _ = write_error_json 500 "something went wrong"

abbrev pub answer_product :
    (Error → Response) → (Product → Response) → Result Product × World → Response × World
answer_product on_error on_product (ok p, w) = (on_product p, w)
answer_product on_error on_product (err e, w) = (on_error e, w)

unfoldable pub handle_get_product_by_id : Env → ProductCodec → String → Handler
handle_get_product_by_id env codec id =
    with_product_id
      (λ product_id w.
        answer_product get_product_error (λ p. write_json 200 (product_value p))
          (get_product_by_id env product_id w))
      (codec.parse_uuid id)

unfoldable pub create_product_error : Error → Response
create_product_error existing_product_name =
    write_error_json 409 "product's name cannot be same with the exists one"
create_product_error _ = write_error_json 500 "something went wrong"

abbrev pub create_valid : Env → ProductCodec → Option CreateProductRequest → Handler
create_valid env codec none w = (write_error_json 400 "invalid json payload", w)
create_valid env codec (some req) w =
    if not (codec.validate_create req)
    then (write_error_json 400 "invalid product payload", w)
    else answer_product create_product_error (λ p. write_json 201 (product_value p))
        (create_product env req w)

unfoldable pub handle_create_product : Env → ProductCodec → String → Handler
handle_create_product env codec body w = create_valid env codec (codec.decode_create body) w

unfoldable pub update_product_error : Error → Response
update_product_error product_not_found = write_error_json 404 "product not found"
update_product_error existing_product_name =
    write_error_json 409 "product's name cannot be same with the exists one"
update_product_error _ = write_error_json 500 "something went wrong"

abbrev pub update_valid : Env → ProductCodec → Uuid → Option UpdateProductRequest → Handler
update_valid env codec id none w = (write_error_json 400 "invalid json payload", w)
update_valid env codec id (some req) w =
    if not (codec.validate_update req)
    then (write_error_json 400 "invalid product payload", w)
    else answer_product update_product_error (λ p. write_json 200 (product_value p))
        (update_product env id req w)

unfoldable pub handle_update_product : Env → ProductCodec → String → String → Handler
handle_update_product env codec id body =
    with_product_id (λ product_id. update_valid env codec product_id (codec.decode_update body))
      (codec.parse_uuid id)

-- The errors are those of `GetProductByID`.
abbrev pub answer_deleted : Result (Unit {0}) × World → Response × World
answer_deleted (ok _, w) = (record { status = 204; body = no_content }, w)
answer_deleted (err e, w) = (get_product_error e, w)

unfoldable pub handle_delete_product : Env → ProductCodec → String → Handler
handle_delete_product env codec id =
    with_product_id (λ product_id w. answer_deleted (delete_product env product_id w))
      (codec.parse_uuid id)
