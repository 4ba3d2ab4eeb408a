-- ===== src/Http/Catalogue.antt =====
-- The handlers on products and users keep a property of the tables that the services keep.
use distributed_order_proces.Base.{String, Option, none, some, ℕ, Bool-cases, inl, inr}
use distributed_order_proces.Database.Rows.{Uuid, Db}
use distributed_order_proces.Database.Tx.{Env}
use distributed_order_proces.Product.Model.{CreateProductRequest, UpdateProductRequest}
use distributed_order_proces.Product.Service.{delete_product, get_product_by_id}
use distributed_order_proces.User.Model.{RegisterRequest, Crypto}
use distributed_order_proces.Http.Message.{Handler, write_json, product_value}
use distributed_order_proces.Auth.Jwt.{Jwt, JwtManager}
use distributed_order_proces.Http.Products.{
  answer_product, answer_deleted, handle_get_product_by_id, ProductCodec, handle_update_product,
  handle_delete_product, list_page, create_valid, update_valid, get_product_error,
  create_product_error, update_product_error,
}
use distributed_order_proces.Http.Users.{UserCodec, auth_middleware, register_valid}
use distributed_order_proces.Http.Answers.{
  Preserves, with_product_id-Kept, answer_products-After, answer_product-After,
  answer_deleted-After, answer_registered-After, with_claims-Kept,
}
use distributed_order_proces.Http.Handlers.{Kept}
use distributed_order_proces.Http.Reads.{list_products-Keeps, get_product_by_id-Keeps}

module _ (env : Env) (crypto : Crypto) (I : Db → Type 0) (k : Kept env crypto I) where
  pub list_page-Kept : (page limit : Option ℕ) → Preserves I (list_page env page limit)
  list_page-Kept none limit w h = h
  list_page-Kept (some page) none w h = h
  list_page-Kept (some page) (some limit) w h =
      answer_products-After I (list_products-Keeps env I page limit w h)

  pub get_product-Kept :
      (codec : ProductCodec) (id : String) → Preserves I (handle_get_product_by_id env codec id)
  unfolding handle_get_product_by_id
  get_product-Kept codec id =
      with_product_id-Kept I
        (λ p w.
          answer_product get_product_error (λ x. write_json 200 (product_value x))
            (get_product_by_id env p w))
        (codec.parse_uuid id)
        (λ p w h.
          answer_product-After I get_product_error (λ p. write_json 200 (product_value p))
            (get_product_by_id-Keeps env I p w h))

  pub create_valid-Kept :
      (codec : ProductCodec) (o : Option CreateProductRequest)
      → Preserves I (create_valid env codec o)
  create_valid-Kept codec none w h = h
  create_valid-Kept codec (some req) w h = elim (Bool-cases (codec.validate_create req)) [
    | inl valid ↦ rw valid (
        answer_product-After I create_product_error (λ p. write_json 201 (product_value p))
          (k.creates req w h))
    | inr bad ↦ rw bad h
  ]

  pub update_valid-Kept :
      (codec : ProductCodec) (id : Uuid) (o : Option UpdateProductRequest)
      → Preserves I (update_valid env codec id o)
  update_valid-Kept codec id none w h = h
  update_valid-Kept codec id (some req) w h = elim (Bool-cases (codec.validate_update req)) [
    | inl valid ↦ rw valid (
        answer_product-After I update_product_error (λ p. write_json 200 (product_value p))
          (k.updates id req w h))
    | inr bad ↦ rw bad h
  ]

  pub update_product-Kept :
      (codec : ProductCodec) (id body : String)
      → Preserves I (handle_update_product env codec id body)
  unfolding handle_update_product
  update_product-Kept codec id body =
      with_product_id-Kept I (λ p. update_valid env codec p (codec.decode_update body))
        (codec.parse_uuid id) (λ p. update_valid-Kept codec p (codec.decode_update body))

  pub delete_product-Kept :
      (codec : ProductCodec) (id : String) → Preserves I (handle_delete_product env codec id)
  unfolding handle_delete_product
  delete_product-Kept codec id =
      with_product_id-Kept I (λ p w. answer_deleted (delete_product env p w)) (codec.parse_uuid id)
        (λ p w h. answer_deleted-After I (k.deletes p w h))

  pub register_valid-Kept :
      (codec : UserCodec) (o : Option RegisterRequest)
      → Preserves I (register_valid env crypto codec o)
  register_valid-Kept codec none w h = h
  register_valid-Kept codec (some req) w h = elim (Bool-cases (codec.validate_register req)) [
    | inl valid ↦ rw valid (answer_registered-After I (k.registers req w h))
    | inr bad ↦ rw bad h
  ]

  pub behind_auth-Kept :
      (jwt : Jwt) (m : JwtManager) (header : String) (next : Uuid → Handler)
      → ((u : Uuid) → Preserves I (next u))
      → Preserves I (auth_middleware env jwt m header next)
  unfolding auth_middleware
  behind_auth-Kept jwt m header next n w h = with_claims-Kept I next _ n w h
