-- ===== src/Idempotency/Queries.antt =====
-- The statements of sqlc/idempotency.sql.go, each a transaction of its own.
use distributed_order_proces.Base.{
  ◌+◌, String, Bool, true, false, Option, none, some, ◌∷◌, ◌&&◌, ltb, ◌==◌, if◌then◌else◌,
}
use distributed_order_proces.Base.TextTable.{find, replace}
use distributed_order_proces.Database.Rows.{Uuid, Time, IdempotencyKeyRow, Db}
use distributed_order_proces.Database.Keys.{is_some, find_user}
use distributed_order_proces.Database.Tx.{
  no_rows, driver, Result, ok, err, Env, Tx, Clock, statement,
}
use distributed_order_proces.Order.Queries.{one_row}

abbrev pub find_key : String → Db → Option IdempotencyKeyRow
find_key key db = find IdempotencyKeyRow.key key db.idempotency_keys

abbrev pub key_of_user : Uuid → Option IdempotencyKeyRow → Option IdempotencyKeyRow
key_of_user user_id none = none
key_of_user user_id (some row) = if row.user_id == user_id then some row else none

-- SELECT * FROM idempotency_keys WHERE key = $1 AND user_id = $2
unfoldable pub query_get_idempotency_by_user_id : Env → String → Uuid → Tx IdempotencyKeyRow
query_get_idempotency_by_user_id env key user_id =
    statement env (λ c db. one_row db (key_of_user user_id (find_key key db)))

abbrev pub new_key : String → Uuid → String → Clock → IdempotencyKeyRow
new_key key user_id request_hash c = record {
  key = key;
  user_id = user_id;
  request_hash = request_hash;
  response = none;
  created_at = c.time;
  updated_at = c.time;
}

-- INSERT ... ON CONFLICT (key) DO NOTHING RETURNING *: a key that exists gives no row.
unfoldable pub run_create_idempotency :
    String → Uuid → String → Clock → Db → Result (IdempotencyKeyRow × Db)
run_create_idempotency key user_id request_hash c db =
    let row = new_key key user_id request_hash c in
    if is_some (find_key key db)
    then err no_rows
    else if is_some (find_user user_id db)
    then ok (row, record db { idempotency_keys = row ∷ db.idempotency_keys })
    else err driver

unfoldable pub query_create_idempotency : Env → String → Uuid → String → Tx IdempotencyKeyRow
query_create_idempotency env key user_id request_hash =
    statement env (run_create_idempotency key user_id request_hash)

-- UPDATE idempotency_keys SET ... WHERE key = $.. AND ... RETURNING *, of the row that is met.
abbrev pub write_key :
    Option IdempotencyKeyRow
    → (IdempotencyKeyRow → IdempotencyKeyRow)
    → Db
    → Result (IdempotencyKeyRow × Db)
write_key none change db = err no_rows
write_key (some row) change db = ok (
  change row,
  record db {
    idempotency_keys = replace IdempotencyKeyRow.key row.key (change row) db.idempotency_keys;
  },
)

abbrev pub with_response : String → Time → IdempotencyKeyRow → IdempotencyKeyRow
with_response response time row = record row { response = some response; updated_at = time }

unfoldable pub run_update_idempotency :
    String → String → Uuid → Clock → Db → Result (IdempotencyKeyRow × Db)
run_update_idempotency response key user_id c db =
    write_key (key_of_user user_id (find_key key db)) (with_response response c.time) db

unfoldable pub query_update_idempotency : Env → String → String → Uuid → Tx IdempotencyKeyRow
query_update_idempotency env response key user_id =
    statement env (run_update_idempotency response key user_id)

-- `created_at < now - stale_after`, with the subtraction moved to the other side.
abbrev pub is_stale : Time → Time → IdempotencyKeyRow → Bool
is_stale stale_after now row = ltb (row.created_at + stale_after) now

abbrev pub unanswered : Option String → Bool
unanswered none = true
unanswered (some _) = false

abbrev pub stale_key : Time → Time → Option IdempotencyKeyRow → Option IdempotencyKeyRow
stale_key stale_after now none = none
stale_key stale_after now (some row) =
    if unanswered row.response && is_stale stale_after now row then some row else none

abbrev pub reclaimed : String → Time → IdempotencyKeyRow → IdempotencyKeyRow
reclaimed request_hash time row = record row {
  request_hash = request_hash;
  created_at = time;
  updated_at = time;
}

unfoldable pub run_reclaim :
    String → String → Uuid → Time → Time → Clock → Db → Result (IdempotencyKeyRow × Db)
run_reclaim request_hash key user_id stale_after now c db =
    write_key (stale_key stale_after now (key_of_user user_id (find_key key db)))
      (reclaimed request_hash c.time) db

-- The cut-off is taken from the clock of the API.
unfoldable pub query_reclaim_stale_idempotency :
    Env → String → String → Uuid → Time → Time → Tx IdempotencyKeyRow
query_reclaim_stale_idempotency env request_hash key user_id stale_after now =
    statement env (run_reclaim request_hash key user_id stale_after now)
