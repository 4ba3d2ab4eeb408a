-- ===== src/Tests/Idempotency.antt =====
-- Claims on a key that is answered, and claims on a fresh one.
use distributed_order_proces.Base.{refl, [], ◌∷◌, ◌≡◌, some, none, true, List, ◌≤◌, arith}
use distributed_order_proces.Database.Rows.{IdempotencyKeyRow}
use distributed_order_proces.Database.Tx.{World, Env}
use distributed_order_proces.Idempotency.Calls.{Call, HoldsKey, grants}
use distributed_order_proces.Idempotency.Exclusive.{grants_held}
use distributed_order_proces.Tests.Shop.{calm, open_shop, shop}
use distributed_order_proces.Http.Message.{Codec, Request}
use distributed_order_proces.Idempotency.Once.{grants_once}

abbrev answered : IdempotencyKeyRow
answered = record {
  key = "k1";
  user_id = 1;
  request_hash = "h1";
  response = some "{}";
  created_at = 0;
  updated_at = 0;
}

abbrev after_answer : World
after_answer = record open_shop { db = record shop { idempotency_keys = answered ∷ [] } }

k1-HoldsKey : HoldsKey calm "k1" after_answer.db
k1-HoldsKey = record { row = answered; existing = refl; held = λ n. refl }

-- A late repeat of the first request, and a reclaim.
grants_held_example :
    grants calm "k1"
      (Call.create "k1" "h1" 1
        ∷ Call.get "k1" 1
        ∷ Call.reclaim "k1" "h1" 1
        ∷ Call.update "k1" 1 "[]"
        ∷ Call.reclaim "k1" "h1" 1
        ∷ [])
      after_answer
    ≡ 0
grants_held_example =
    grants_held calm "k1"
      (Call.create "k1" "h1" 1
        ∷ Call.get "k1" 1
        ∷ Call.reclaim "k1" "h1" 1
        ∷ Call.update "k1" 1 "[]"
        ∷ Call.reclaim "k1" "h1" 1
        ∷ [])
      after_answer k1-HoldsKey

abbrev pub codec : Codec
codec = record {
  decode = λ s. none;
  validate = λ req. true;
  marshal = λ resp. none;
  sha256_hex = λ s. s;
  parse_uuid = λ s. none;
}

abbrev pub retry : Request
retry = record { user_id = some 1; idempotency_key = "k1"; body = some "h1"; id = "" }

-- All clocks stand still.
abbrev stopped : Env
stopped = record calm { now = λ n. 5; api_now = λ n. 5 }

abbrev race : List Call
race =
    Call.create "k9" "h1" 1
    ∷ Call.create "k9" "h1" 1
    ∷ Call.get "k9" 1
    ∷ Call.reclaim "k9" "h1" 1
    ∷ []

grants_once_example : grants stopped "k9" race after_answer ≤ 1
grants_once_example = grants_once stopped "k9" (λ n m. omega arith) race after_answer refl
