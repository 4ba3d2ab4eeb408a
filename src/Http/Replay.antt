-- ===== src/Http/Replay.antt =====
-- What POST /api/orders/ answers when its key is in the table already.
use distributed_order_proces.Base.{
  ℕ, String, some, false, ◌≡◌, ◌&&◌, str_eq, arith, suc, if◌then◌else◌, not, ◌==◌,
}
use distributed_order_proces.Database.Tx.{Env, World, statement}
use distributed_order_proces.Database.Rows.{Uuid, IdempotencyKeyRow}
use distributed_order_proces.Idempotency.Queries.{
  find_key, unanswered, is_stale, query_create_idempotency, run_create_idempotency,
  query_get_idempotency_by_user_id, query_reclaim_stale_idempotency, run_reclaim,
}
use distributed_order_proces.Idempotency.Service.{
  check_and_claim, stale_claim_timeout, after_create, is_empty, judge,
}
use distributed_order_proces.Http.Message.{
  Response, Handler, Codec, Request, saved, write_json, write_error_json,
}
use distributed_order_proces.Http.Idempotency.{idempotency_middleware, after_claim}
use distributed_order_proces.Http.Orders.{post_order}
use distributed_order_proces.Idempotency.Repository.{
  create_idempotency, get_idempotency_by_user_id, reclaim_stale_idempotency,
}

-- The answer to a request that may not run, for the row that its key has.
abbrev pub refusal : String → Uuid → IdempotencyKeyRow → Response
refusal hash user_id row =
    if not (row.user_id == user_id)
    then write_error_json 500 "something went wrong"
    else if not (str_eq hash row.request_hash)
    then write_error_json 409 "idempotency key already used with a different request body"
    else if is_empty row.response
    then write_error_json 409 "a request with this idempotency key is still being processed"
    else write_json 201 (saved row.response)

module _ (env : Env) (key hash : String) (user_id : Uuid) (next : Handler) (w : World)
    (calm : (n : ℕ) → env.fails n ≡ false) (row : IdempotencyKeyRow)
    (existing : find_key key w.db ≡ some row)
    (held : (unanswered row.response
        && is_stale stale_claim_timeout (env.api_now (suc (suc w.tick))) row)
      ≡ false) where
  claim_refused :
      let (response, w') = after_claim next (check_and_claim env key hash user_id w) in
      (response ≡ refusal hash user_id row) × (w'.db ≡ w.db) × (w'.charges ≡ w.charges)
  unfolding check_and_claim after_create create_idempotency query_create_idempotency
      run_create_idempotency statement get_idempotency_by_user_id query_get_idempotency_by_user_id
      judge reclaim_stale_idempotency query_reclaim_stale_idempotency run_reclaim
  claim_refused = (
    ground (arith, existing, held, calm w.tick, calm (suc w.tick), calm (suc (suc w.tick))),
    ground (arith, existing, held, calm w.tick, calm (suc w.tick), calm (suc (suc w.tick))),
    ground (arith, existing, held, calm w.tick, calm (suc w.tick), calm (suc (suc w.tick))),
  )

module _ (env : Env) (codec : Codec) (r : Request) (w : World)
    (calm : (n : ℕ) → env.fails n ≡ false) (user_id : Uuid) (user : r.user_id ≡ some user_id)
    (keyed : str_eq r.idempotency_key "" ≡ false) (body : String) (read : r.body ≡ some body)
    (row : IdempotencyKeyRow) (existing : find_key r.idempotency_key w.db ≡ some row)
    (held : (unanswered row.response
        && is_stale stale_claim_timeout (env.api_now (suc (suc w.tick))) row)
      ≡ false) where
  pub post_order-eq-refusal :
      ((post_order env codec r w).0 ≡ refusal (codec.sha256_hex body) user_id row)
      × ((post_order env codec r w).1.db ≡ w.db)
      × ((post_order env codec r w).1.charges ≡ w.charges)
  unfolding post_order idempotency_middleware
  post_order-eq-refusal =
      rw (user, keyed, read)
        (claim_refused env r.idempotency_key (codec.sha256_hex body) user_id _ w calm row existing
          held)
