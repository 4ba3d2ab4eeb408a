-- ===== src/Idempotency/Repository.antt =====
-- idempotency_repository.go
use distributed_order_proces.Base.{String}
use distributed_order_proces.Database.Rows.{Uuid, Time, IdempotencyKeyRow}
use distributed_order_proces.Database.Tx.{
  no_idempotency_found, idempotency_key_exists, Env, Tx, pure, ◌>>=◌, on_no_rows,
}
use distributed_order_proces.Idempotency.Model.{IdempotencyKey}
use distributed_order_proces.Idempotency.Queries.{
  query_get_idempotency_by_user_id, query_create_idempotency, query_update_idempotency,
  query_reclaim_stale_idempotency,
}

-- The value that is returned takes the user from the call, and the hash from the call or the row.
abbrev pub key_from_sqlc : Uuid → String → IdempotencyKeyRow → IdempotencyKey
key_from_sqlc user_id request_hash r = record {
  key = r.key;
  user_id = user_id;
  request_hash = request_hash;
  response = r.response;
  created_at = r.created_at;
  updated_at = r.updated_at;
}

unfoldable pub create_idempotency : Env → String → String → Uuid → Tx IdempotencyKey
create_idempotency env key request_hash user_id = do
  row ← on_no_rows idempotency_key_exists (query_create_idempotency env key user_id request_hash)
  pure (key_from_sqlc user_id request_hash row)

unfoldable pub get_idempotency_by_user_id : Env → String → Uuid → Tx IdempotencyKey
get_idempotency_by_user_id env key user_id = do
  row ← on_no_rows no_idempotency_found (query_get_idempotency_by_user_id env key user_id)
  pure (key_from_sqlc user_id row.request_hash row)

-- `time.Now()` is read before the statement.
unfoldable pub reclaim_stale_idempotency : Env → String → String → Uuid → Time → Tx IdempotencyKey
reclaim_stale_idempotency env key request_hash user_id stale_after w =
    (do
      row ← on_no_rows no_idempotency_found (
          query_reclaim_stale_idempotency env request_hash key user_id stale_after
            (env.api_now w.tick))
      pure (key_from_sqlc user_id request_hash row))
      w

unfoldable pub update_idempotency : Env → String → Uuid → String → Tx IdempotencyKey
update_idempotency env key user_id response = do
  row ← on_no_rows no_idempotency_found (query_update_idempotency env response key user_id)
  pure (key_from_sqlc user_id row.request_hash row)
