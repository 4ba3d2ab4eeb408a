-- ===== src/Idempotency/Service.antt =====
-- idempotency_service.go: claiming a key before the request runs, and saving its response after.
use distributed_order_proces.Base.{
  String, Bool, true, Option, none, some, not, str_eq, if◌then◌else◌,
}
use distributed_order_proces.Database.Rows.{Uuid, Time}
use distributed_order_proces.Database.Tx.{
  idempotency_key_exists, no_idempotency_found, Result, ok, err, World, Env, Tx, pure, ◌>>=◌,
}
use distributed_order_proces.Idempotency.Model.{
  IdempotencyKey, IdempotencyResult, new, replayed, mismatch, in_progress,
}
use distributed_order_proces.Idempotency.Repository.{
  create_idempotency, get_idempotency_by_user_id, reclaim_stale_idempotency, update_idempotency,
}

-- 30 seconds.
abbrev pub stale_claim_timeout : Time
stale_claim_timeout = 30_000_000_000

abbrev pub granted : IdempotencyResult
granted = record { status = new; response = none }

abbrev pub refused_mismatch : IdempotencyResult
refused_mismatch = record { status = mismatch; response = none }

abbrev pub refused_in_progress : IdempotencyResult
refused_in_progress = record { status = in_progress; response = none }

abbrev pub replay : Option String → IdempotencyResult
replay response = record { status = replayed; response = response }

-- `len(response) == 0`
abbrev pub is_empty : Option String → Bool
is_empty none = true
is_empty (some s) = str_eq s ""

-- The answer to a reclaim.
abbrev pub after_reclaim : Result IdempotencyKey × World → Result IdempotencyResult × World
after_reclaim (ok _, w) = (ok granted, w)
after_reclaim (err no_idempotency_found, w) = (ok refused_in_progress, w)
after_reclaim (err e, w) = (err e, w)

-- The branches on a key that exists.
unfoldable pub judge : Env → String → String → Uuid → IdempotencyKey → Tx IdempotencyResult
judge env key request_hash user_id existing w =
    if not (str_eq request_hash existing.request_hash)
    then (ok refused_mismatch, w)
    else if is_empty existing.response
    then after_reclaim
        (reclaim_stale_idempotency env key request_hash user_id stale_claim_timeout w)
    else (ok (replay existing.response), w)

-- What follows the attempt to create the key.
unfoldable pub after_create :
    Env → String → String → Uuid → Result IdempotencyKey × World → Result IdempotencyResult × World
after_create env key request_hash user_id (ok _, w) = (ok granted, w)
after_create env key request_hash user_id (err idempotency_key_exists, w) =
    (do
      existing ← get_idempotency_by_user_id env key user_id
      judge env key request_hash user_id existing)
      w
after_create env key request_hash user_id (err e, w) = (err e, w)

unfoldable pub check_and_claim : Env → String → String → Uuid → Tx IdempotencyResult
check_and_claim env key request_hash user_id w =
    after_create env key request_hash user_id (create_idempotency env key request_hash user_id w)

unfoldable pub save_response : Env → String → Uuid → String → Tx (Unit {0})
save_response env key user_id response = do _ ← update_idempotency env key user_id response; pure tt
