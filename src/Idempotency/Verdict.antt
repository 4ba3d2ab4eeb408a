-- ===== src/Idempotency/Verdict.antt =====
-- What a claim answers, as a table over the state of the key.
use text.Mathlib.TextPositions.{eq_refl}
use distributed_order_proces.Base.{
  String, Option, ℕ, ◌≡◌, some, false, if◌then◌else◌, ◌==◌, true, not, ◌&&◌, str_eq, none, suc,
}
use distributed_order_proces.Database.Tx.{
  Env, World, Clock, Result, ok, err, no_idempotency_found, statement, clock_at,
}
use distributed_order_proces.Database.Rows.{Uuid, Time, IdempotencyKeyRow}
use distributed_order_proces.Idempotency.Model.{IdempotencyResult}
use distributed_order_proces.Idempotency.Queries.{
  new_key, unanswered, query_create_idempotency, is_stale, run_create_idempotency, reclaimed,
  find_key,
}
use distributed_order_proces.Database.Keys.{is_some, find_user}
use distributed_order_proces.Idempotency.Service.{
  granted, check_and_claim, after_create, is_empty, refused_mismatch, replay, stale_claim_timeout,
  refused_in_progress,
}
use distributed_order_proces.Idempotency.Repository.{create_idempotency}

-- The answer to a request with a hash, for the row that its key has, at a time on the API's clock.
abbrev pub verdict : String → Uuid → Time → Option IdempotencyKeyRow → Result IdempotencyResult
verdict hash user_id now none = ok granted
verdict hash user_id now (some row) =
    if not (row.user_id == user_id)
    then err no_idempotency_found
    else if not (str_eq hash row.request_hash)
    then ok refused_mismatch
    else if not (is_empty row.response)
    then ok (replay row.response)
    else if unanswered row.response && is_stale stale_claim_timeout now row
    then ok granted
    else ok refused_in_progress

-- The row of the key afterwards.
abbrev pub entry_after :
    String
    → String
    → Uuid
    → Time
    → Clock
    → Clock
    → Option IdempotencyKeyRow
    → Option IdempotencyKeyRow
entry_after key hash user_id now c c' none = some (new_key key user_id hash c)
entry_after key hash user_id now c c' (some row) =
    if row.user_id == user_id
      && str_eq hash row.request_hash
      && is_empty row.response
      && unanswered row.response
      && is_stale stale_claim_timeout now row
    then some (reclaimed hash c'.time row)
    else some row

module _ (env : Env) (key hash : String) (user_id : Uuid) (w : World)
    (calm : (n : ℕ) → env.fails n ≡ false) (known : is_some (find_user user_id w.db) ≡ true) where
  pub claim_new : find_key key w.db ≡ none → (check_and_claim env key hash user_id w).0 ≡ ok granted
  unfolding check_and_claim after_create create_idempotency query_create_idempotency
      run_create_idempotency statement
  claim_new e = rw (calm w.tick, e, known)

  pub claim_new_entry :
      find_key key w.db ≡ none
      → find_key key (check_and_claim env key hash user_id w).1.db
        ≡ some (new_key key user_id hash (clock_at env w))
  unfolding check_and_claim after_create create_idempotency query_create_idempotency
      run_create_idempotency statement
  claim_new_entry e = rw (calm w.tick, e, known) (rw (eq_refl key))

  third : Clock
  third = clock_at env (record w { tick = suc (suc w.tick) })
