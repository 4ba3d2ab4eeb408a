-- ===== src/Idempotency/Calls.antt =====
-- The calls that any number of requests make of the repository, one statement each, in any order.
use distributed_order_proces.Base.{
  [], String, List, Bool, ℕ, false, ◌∷◌, ◌≡◌, true, if◌then◌else◌, ◌&&◌, some, str_eq, ◌+◌,
}
use distributed_order_proces.Database.Tx.{Result, Env, World, ok, err}
use distributed_order_proces.Database.Rows.{Uuid, IdempotencyKeyRow, Db}
use distributed_order_proces.Idempotency.Queries.{find_key, unanswered, is_stale}
use distributed_order_proces.Idempotency.Repository.{
  create_idempotency, reclaim_stale_idempotency, get_idempotency_by_user_id, update_idempotency,
}
use distributed_order_proces.Idempotency.Service.{stale_claim_timeout}

pub data Call : Type 0 where
  create reclaim : (key request_hash : String) (user_id : Uuid) → Call
  get : (key : String) (user_id : Uuid) → Call
  update : (key : String) (user_id : Uuid) (response : String) → Call

abbrev pub succeeded : {A : Type 0} → Result A × World → Bool × World
succeeded (ok _, w) = (true, w)
succeeded (err _, w) = (false, w)

abbrev pub not_a_claim : {A : Type 0} → Result A × World → Bool × World
not_a_claim (_, w) = (false, w)

-- Whether a call hands the key to the request that makes it, and the world after it.
unfoldable pub perform : Env → Call → World → Bool × World
perform env (create key request_hash user_id) w =
    succeeded (create_idempotency env key request_hash user_id w)
perform env (reclaim key request_hash user_id) w =
    succeeded (reclaim_stale_idempotency env key request_hash user_id stale_claim_timeout w)
perform env (get key user_id) w = not_a_claim (get_idempotency_by_user_id env key user_id w)
perform env (update key user_id response) w =
    not_a_claim (update_idempotency env key user_id response w)

abbrev pub key_of : Call → String
key_of (create key _ _) = key
key_of (reclaim key _ _) = key
key_of (get key _) = key
key_of (update key _ _) = key

-- How often a key is handed out while the calls are made.
unfoldable pub grants : Env → String → List Call → World → ℕ
grants env k [] w = 0
grants env k (call ∷ calls) w =
    let (granted, w') = perform env call w in
    (if str_eq (key_of call) k && granted then 1 else 0) + grants env k calls w'

-- A key that is answered, or whose claim no clock of the API finds older than the timeout.
abbrev pub IsHeld : Env → IdempotencyKeyRow → Type 0
IsHeld env row =
    (n : ℕ) → (unanswered row.response && is_stale stale_claim_timeout (env.api_now n) row) ≡ false

pub record HoldsKey (env : Env) (k : String) (db : Db) : Type 0 where
  pub row : IdempotencyKeyRow
  pub existing : find_key k db ≡ some row
  pub held : IsHeld env row
