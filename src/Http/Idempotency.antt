-- ===== src/Http/Idempotency.antt =====
-- middleware/idempotency.go: a request runs only if its key is handed to it.
use distributed_order_proces.Base.{String, Option, none, some, str_eq, if◌then◌else◌}
use distributed_order_proces.Database.Rows.{Uuid}
use distributed_order_proces.Database.Tx.{Result, ok, err, World, Env}
use distributed_order_proces.Idempotency.Model.{
  IdempotencyKeyStatus, new, replayed, mismatch, in_progress, IdempotencyResult,
}
use distributed_order_proces.Idempotency.Service.{check_and_claim}
use distributed_order_proces.Http.Message.{
  saved, Response, write_error_json, write_json, Handler, Codec, Request,
}

-- The `switch` on the status. A new key goes on to the handler.
abbrev pub by_status : Handler → Option String → IdempotencyKeyStatus → Handler
by_status next response replayed w = (write_json 201 (saved response), w)
by_status next response mismatch w =
    (write_error_json 409 "idempotency key already used with a different request body", w)
by_status next response in_progress w =
    (write_error_json 409 "a request with this idempotency key is still being processed", w)
by_status next response new w = next w

abbrev pub after_claim : Handler → Result IdempotencyResult × World → Response × World
after_claim next (ok r, w) = by_status next r.response r.status w
after_claim next (err e, w) = (write_error_json 500 "something went wrong", w)

-- From the reading of the body on.
abbrev pub claim_body :
    Env → Codec → Uuid → String → (String → String → Handler) → Option String → Handler
claim_body env codec user_id key next none w =
    (write_error_json 400 "invalid request body payload", w)
claim_body env codec user_id key next (some body) w =
    after_claim (next key body) (check_and_claim env key (codec.sha256_hex body) user_id w)

abbrev pub claim_user : Env → Codec → Request → (String → String → Handler) → Option Uuid → Handler
claim_user env codec r next none w = (write_error_json 401 "unauthorized", w)
claim_user env codec r next (some user_id) w =
    if str_eq r.idempotency_key ""
    then (write_error_json 400 "idempotency-key header is required", w)
    else claim_body env codec user_id r.idempotency_key next r.body w

-- The next handler gets the key by the context, and the body.
unfoldable pub idempotency_middleware :
    Env → Codec → (String → String → Handler) → Request → Handler
idempotency_middleware env codec next r w = claim_user env codec r next r.user_id w
