-- ===== src/Tests/Retry.antt =====
-- A request for one pen, sent twice.
use distributed_order_proces.Base.{refl, [], ◌∷◌, ◌≡◌, some, none, true}
use distributed_order_proces.Database.Tx.{statement}
use distributed_order_proces.Order.Model.{CreateOrderRequest, CreateOrderResponse}
use distributed_order_proces.Http.Message.{Codec, Request, write_json, saved, order_created}
use distributed_order_proces.Http.Orders.{post_order, answer_created, handle_create_order}
use distributed_order_proces.Http.Retry.{post_order_retried}
use distributed_order_proces.Tests.Shop.{calm, open_shop}
use distributed_order_proces.Tests.Orders.{placing}
use distributed_order_proces.Http.Idempotency.{idempotency_middleware}
use distributed_order_proces.Idempotency.Service.{check_and_claim, after_create, save_response}
use distributed_order_proces.Idempotency.Repository.{create_idempotency, update_idempotency}
use distributed_order_proces.Idempotency.Queries.{
  query_create_idempotency, run_create_idempotency, query_update_idempotency,
  run_update_idempotency,
}
use distributed_order_proces.Database.Rows.{OrderStatus, PaymentStatus}

abbrev one_pen : CreateOrderRequest
one_pen = record { items = record { product_id = 7; quantity = 1 } ∷ [] }

abbrev codec : Codec
codec = record {
  decode = λ s. some one_pen;
  validate = λ req. true;
  marshal = λ resp. some "{}";
  sha256_hex = λ s. s;
  parse_uuid = λ s. none;
}

abbrev request : Request
request = record { user_id = some 1; idempotency_key = "k2"; body = some "pen"; id = "" }

posting : Unit {0}
unfolding placing post_order idempotency_middleware check_and_claim after_create create_idempotency
    query_create_idempotency run_create_idempotency statement handle_create_order answer_created
    save_response update_idempotency query_update_idempotency run_update_idempotency
posting = tt

abbrev created : CreateOrderResponse
created = record {
  order = record {
    id = 1003;
    user_id = 1;
    status = OrderStatus.pending;
    total_amount = 100;
    created_at = 1;
    updated_at = 1;
  };
  items =
      record {
        id = 1004;
        order_id = 1003;
        product_id = 7;
        quantity = 1;
        price = 100;
        sub_total = 100;
        created_at = 1;
        updated_at = 1;
      }
      ∷ [];
  payment = record {
    id = 1006;
    order_id = 1003;
    amount = 100;
    status = PaymentStatus.pending;
    transaction_id = some "";
    provider = "fake";
    created_at = 1;
    updated_at = 1;
  };
}

pen_ordered : (post_order calm codec request open_shop).0 ≡ write_json 201 (order_created created)
unfolding posting
pen_ordered = refl

post_order_retried_example :
    let w' = (post_order calm codec request open_shop).1 in
    let (response, w'') = post_order calm codec request w' in
    (response ≡ write_json 201 (saved (some "{}"))) × (w''.db ≡ w'.db) × (w''.charges ≡ w'.charges)
post_order_retried_example =
    post_order_retried calm codec request open_shop (λ n. refl) 1 refl refl refl "pen" refl refl
      created "{}" pen_ordered refl refl
