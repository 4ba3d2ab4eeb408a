-- ===== src/Http/Retry.antt =====
-- A request for an order, and the same request once more.
use distributed_order_proces.Base.{
  ℕ, String, List, Option, Bool-cases, inl, inr, some, none, false, ◌≡◌, ◌∙◌, arith, refl, sym,
  subst, ap, Bool, true, str_eq,
}
use distributed_order_proces.Base.TextTable.{find, replace, find-key, find-replace_self}
use distributed_order_proces.Database.Tx.{Env, World, Result, Error, statement, clock_at, ok, err}
use distributed_order_proces.Database.Rows.{Uuid, Db, IdempotencyKeyRow}
use distributed_order_proces.Database.Post.{Post, returned, failed}
use distributed_order_proces.Idempotency.Queries.{
  find_key, with_response, query_update_idempotency, run_update_idempotency, new_key,
}
use distributed_order_proces.Idempotency.Service.{save_response, check_and_claim, granted}
use distributed_order_proces.Order.Model.{
  Order, OrderItem, Payment, CreateOrderRequest, CreateOrderResponse,
}
use distributed_order_proces.Order.Frame.{create_order-Frames}
use distributed_order_proces.Http.Message.{
  Payload, message, order_created, Codec, write_json, Request, saved, Handler,
}
use distributed_order_proces.Http.Orders.{
  answer_created, create_order_error, create_decoded, response_of, post_order, handle_create_order,
}
use distributed_order_proces.Idempotency.Repository.{update_idempotency}
use distributed_order_proces.Http.Replay.{post_order-eq-refusal, refusal}
use text.Mathlib.TextPositions.{eq_refl}
use distributed_order_proces.Database.Keys.{is_some, find_user}
use distributed_order_proces.Http.Idempotency.{idempotency_middleware, after_claim}
use distributed_order_proces.Idempotency.Verdict.{claim_new_entry, claim_new}
use distributed_order_proces.Idempotency.Model.{IdempotencyResult}

-- A stored response.
record Stored (key hash : String) (user_id : Uuid) (json : String) (db : Db) : Type 0 where
  pub row : IdempotencyKeyRow
  pub existing : find_key key db ≡ some row
  pub user : row.user_id ≡ user_id
  pub hashed : row.request_hash ≡ hash
  pub response : row.response ≡ some json

refusal-eq-saved :
    (hash : String) (user_id : Uuid) (json : String) (row : IdempotencyKeyRow)
    → row.user_id ≡ user_id
    → row.request_hash ≡ hash
    → row.response ≡ some json
    → str_eq json "" ≡ false
    → refusal hash user_id row ≡ write_json 201 (saved (some json))
refusal-eq-saved hash user_id json row user hashed response filled =
    rw (user, hashed, response, filled) (rw (eq_refl hash) (ground arith))

is_message : Payload → Bool
is_message (message _) = true
is_message _ = false

-- No error of the service is answered with an order.
create_order_error-ne :
    (e : Error) (resp : CreateOrderResponse)
    → create_order_error e ≡ write_json 201 (order_created resp)
    → ⊥
unfolding create_order_error is_message
create_order_error-ne e resp h = ground (arith, ap (λ r. is_message r.body) h)

module _ (env : Env) (codec : Codec) (calm : (n : ℕ) → env.fails n ≡ false) (key hash : String)
    (user_id : Uuid) (json : String) (row : IdempotencyKeyRow) (user : row.user_id ≡ user_id)
    (hashed : row.request_hash ≡ hash) where
  save_response-Stored :
      (w : World)
      → find_key key w.db ≡ some row
      → Stored key hash user_id json (save_response env key user_id json w).1.db
  unfolding save_response update_idempotency query_update_idempotency run_update_idempotency
      statement
  save_response-Stored w e =
      let time = (clock_at env w).time in
      let row' = with_response json time row in
      let named = find-key IdempotencyKeyRow.key key w.db.idempotency_keys e in
      let e' : find_key row.key w.db ≡ some row =
        subst (λ k. find_key k w.db ≡ some row) (sym named) e in
      let written : find IdempotencyKeyRow.key key
            (replace IdempotencyKeyRow.key row.key row' w.db.idempotency_keys)
          ≡ some row' =
        subst
          (λ k.
            find IdempotencyKeyRow.key k
              (replace IdempotencyKeyRow.key row.key row' w.db.idempotency_keys)
            ≡ some row')
          named
          (find-replace_self IdempotencyKeyRow.key row.key row' w.db.idempotency_keys {row = row}
            refl e') in
      record {
        row = row';
        existing = ground (arith, e, user, calm w.tick, written);
        user = user;
        hashed = hashed;
        response = refl;
      }

  module _ (resp : CreateOrderResponse) (encodes : codec.marshal resp ≡ some json) (w : World)
      (e : find_key key w.db ≡ some row) where
    answer_created-Stored :
        {r : Result (Order × List OrderItem × Payment) × World}
        → Post (λ _ w'. w'.db.idempotency_keys ≡ w.db.idempotency_keys) (λ _ w'. w'.db ≡ w.db) r
        → (answer_created env codec key user_id r).0 ≡ write_json 201 (order_created resp)
        → Stored key hash user_id json (answer_created env codec key user_id r).1.db
    unfolding answer_created
    answer_created-Stored (failed {e = error} h) p = absurd (create_order_error-ne error resp p)
    answer_created-Stored (returned {a = created} {w = w'} h) p =
        let same : response_of created ≡ resp = cc in
        let encoded : codec.marshal (response_of created) ≡ some json =
          ap codec.marshal same ∙ encodes in
        let found : find_key key w'.db ≡ some row = (ap (find IdempotencyKeyRow.key key) h ∙ e) in
        rw encoded (save_response-Stored w' found)

    create_decoded-Stored :
        (o : Option CreateOrderRequest)
        → (create_decoded env codec (some user_id) (some key) o w).0
          ≡ write_json 201 (order_created resp)
        → Stored key hash user_id json (create_decoded env codec (some user_id) (some key) o w).1.db
    unfolding is_message
    create_decoded-Stored none p = absurd (ground (arith, ap (λ r. is_message r.body) p))
    create_decoded-Stored (some req) p = elim (Bool-cases (codec.validate req)) [
      | inl valid ↦
          (rw valid (answer_created-Stored (create_order-Frames env user_id req w) (rw valid at p)))
      | inr invalid ↦
          absurd (let q = (rw invalid at p) in ground (arith, ap (λ r. is_message r.body) q))
    ]

after_claim-granted :
    (next : Handler) (r : Result IdempotencyResult × World)
    → r.0 ≡ ok granted
    → after_claim next r ≡ next r.1
after_claim-granted next (ok x, w) h = ground (arith, h)
after_claim-granted next (err e, w) h = cc

module _ (env : Env) (codec : Codec) (r : Request) (w : World)
    (calm : (n : ℕ) → env.fails n ≡ false) (user_id : Uuid) (user : r.user_id ≡ some user_id)
    (known : is_some (find_user user_id w.db) ≡ true) (keyed : str_eq r.idempotency_key "" ≡ false)
    (body : String) (read : r.body ≡ some body)
    (fresh : find_key r.idempotency_key w.db ≡ none) where
  claimed : World
  claimed = (check_and_claim env r.idempotency_key (codec.sha256_hex body) user_id w).1

  -- A fresh key is handed to the request, which runs.
  post_order_fresh :
      post_order env codec r w
      ≡ create_decoded env codec (some user_id) (some r.idempotency_key) (codec.decode body) claimed
  unfolding post_order idempotency_middleware claimed handle_create_order
  post_order_fresh =
      rw (user, keyed, read)
        (after_claim-granted _
          (check_and_claim env r.idempotency_key (codec.sha256_hex body) user_id w)
          (claim_new env r.idempotency_key (codec.sha256_hex body) user_id w calm known fresh))

  post_order-Stored :
      (resp : CreateOrderResponse) (json : String)
      → (post_order env codec r w).0 ≡ write_json 201 (order_created resp)
      → codec.marshal resp ≡ some json
      → Stored r.idempotency_key
          (codec.sha256_hex body)
          user_id
          json
          (post_order env codec r w).1.db
  unfolding claimed
  post_order-Stored resp json placed encodes = rw post_order_fresh (
      create_decoded-Stored env codec calm r.idempotency_key (codec.sha256_hex body) user_id json
        (new_key r.idempotency_key user_id (codec.sha256_hex body) (clock_at env w)) refl refl resp
        encodes claimed
        (claim_new_entry env r.idempotency_key (codec.sha256_hex body) user_id w calm known fresh)
        (codec.decode body) (rw post_order_fresh at placed))

  -- When no call fails, a request of a known user with a fresh key that has placed an order can be
  -- repeated: the same request is answered with the response of the first, as it was encoded, and
  -- the tables and the provider's log stay as they are.
  pub post_order_retried :
      (resp : CreateOrderResponse) (json : String)
      → (post_order env codec r w).0 ≡ write_json 201 (order_created resp)
      → codec.marshal resp ≡ some json
      → str_eq json "" ≡ false
      → let w' = (post_order env codec r w).1 in
        let (response, w'') = post_order env codec r w' in
        (response ≡ write_json 201 (saved (some json)))
        × (w''.db ≡ w'.db)
        × (w''.charges ≡ w'.charges)
  post_order_retried resp json placed encodes filled =
      let s = post_order-Stored resp json placed encodes in
      let (answer, tables, log) =
        post_order-eq-refusal env codec r (post_order env codec r w).1 calm user_id user keyed body
          read s.row s.existing (rw s.response refl) in
      (
        answer
            ∙ refusal-eq-saved (codec.sha256_hex body) user_id json s.row s.user s.hashed s.response
                filled,
        tables,
        log,
      )
