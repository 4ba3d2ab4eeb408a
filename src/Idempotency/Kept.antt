-- ===== src/Idempotency/Kept.antt =====
-- Claiming a key and saving a response keep every property of the tables that does not look at the keys.
use distributed_order_proces.Base.{
  subst, ◌≡◌, String, Bool-cases, inl, inr, Option, none, some, List, ◌∷◌, str_eq, arith,
}
use distributed_order_proces.Database.Rows.{Uuid, Time, IdempotencyKeyRow, Db}
use distributed_order_proces.Database.Tx.{
  Error, err, World, Env, Result, ok, no_idempotency_found, continue, idempotency_key_exists,
}
use distributed_order_proces.Database.Post.{returned, failed, bind-Post, rename-Post}
use distributed_order_proces.Database.Keeps.{Keeps, statement-Keeps, read-Keeps}
use distributed_order_proces.Idempotency.Queries.{
  write_key, query_create_idempotency, query_get_idempotency_by_user_id,
  query_reclaim_stale_idempotency, run_create_idempotency, run_reclaim, query_update_idempotency,
  run_update_idempotency,
}
use distributed_order_proces.Idempotency.Repository.{
  create_idempotency, get_idempotency_by_user_id, reclaim_stale_idempotency, update_idempotency,
}
use distributed_order_proces.Idempotency.Service.{
  save_response, judge, check_and_claim, after_reclaim, is_empty, after_create,
}
use distributed_order_proces.Idempotency.Model.{IdempotencyKey}
use distributed_order_proces.Base.TextTable.{replace}

module _ (env : Env) (I : Db → Type 0)
    (any_keys : (keys : List IdempotencyKeyRow) (db : Db)
      → I db
      → I (record db { idempotency_keys = keys })) where
  write_key-Keeps :
      (o : Option IdempotencyKeyRow) (change : IdempotencyKeyRow → IdempotencyKeyRow) (db : Db)
      (a : IdempotencyKeyRow) (db' : Db)
      → I db
      → write_key o change db ≡ ok (a, db')
      → I db'
  write_key-Keeps none change db a db' h e = cc
  write_key-Keeps (some row) change db a db' h e =
      let written : record db {
        idempotency_keys = replace IdempotencyKeyRow.key row.key (change row) db.idempotency_keys;
      }
          ≡ db' =
        cc in
      subst I written (any_keys _ db h)

  create_idempotency-Keeps :
      (key hash : String) (u : Uuid) (w : World)
      → I w.db
      → Keeps I (create_idempotency env key hash u w)
  unfolding create_idempotency query_create_idempotency run_create_idempotency
  create_idempotency-Keeps key hash u w h =
      bind-Post
        (rename-Post idempotency_key_exists (λ _ _ i. i)
          (statement-Keeps I env _ w h (λ a db e.
            let written : record w.db { idempotency_keys = a ∷ w.db.idempotency_keys } ≡ db =
              ground (arith, e) in
            subst I written (any_keys _ w.db h))))
        (λ _ w' i. returned i)

  get_idempotency-Keeps :
      (key : String) (u : Uuid) (w : World)
      → I w.db
      → Keeps I (get_idempotency_by_user_id env key u w)
  unfolding get_idempotency_by_user_id query_get_idempotency_by_user_id
  get_idempotency-Keeps key u w h =
      bind-Post (rename-Post no_idempotency_found (λ _ _ i. i) (read-Keeps I env _ w h))
        (λ _ w' i. returned i)

  reclaim-Keeps :
      (key hash : String) (u : Uuid) (t : Time) (w : World)
      → I w.db
      → Keeps I (reclaim_stale_idempotency env key hash u t w)
  unfolding reclaim_stale_idempotency query_reclaim_stale_idempotency run_reclaim
  reclaim-Keeps key hash u t w h =
      bind-Post
        (rename-Post no_idempotency_found (λ _ _ i. i)
          (statement-Keeps I env _ w h (λ a db e. write_key-Keeps _ _ w.db a db h e)))
        (λ _ w' i. returned i)

  pub save_response-Keeps :
      (key : String) (u : Uuid) (json : String) (w : World)
      → I w.db
      → Keeps I (save_response env key u json w)
  unfolding save_response update_idempotency query_update_idempotency run_update_idempotency
  save_response-Keeps key u json w h =
      bind-Post
        (bind-Post
          (rename-Post no_idempotency_found (λ _ _ i. i)
            (statement-Keeps I env _ w h (λ a db e. write_key-Keeps _ _ w.db a db h e)))
          (λ _ w' i. returned i))
        (λ _ w' i. returned i)

  after_reclaim-Keeps : {r : Result IdempotencyKey × World} → Keeps I r → I (after_reclaim r).1.db
  after_reclaim-Keeps (returned h) = h
  after_reclaim-Keeps (failed {e = e} {w = w} h) = at_error e w h
    where
      at_error : (e : Error) (w : World) → I w.db → I (after_reclaim (err e, w)).1.db
      at_error no_idempotency_found w h = h
      at_error _ w h = h

  judge-Keeps :
      (key hash : String) (u : Uuid) (existing : IdempotencyKey) (w : World)
      → I w.db
      → I (judge env key hash u existing w).1.db
  unfolding judge
  judge-Keeps key hash u existing w h = elim (Bool-cases (str_eq hash existing.request_hash)) [
    | inl same ↦ elim (Bool-cases (is_empty existing.response)) [
      | inl empty ↦ rw (same, empty) (after_reclaim-Keeps (reclaim-Keeps key hash u _ w h))
      | inr full ↦ rw (same, full) h
    ]
    | inr differs ↦ rw differs h
  ]

  pub check_and_claim-Keeps :
      (key hash : String) (u : Uuid) (w : World)
      → I w.db
      → I (check_and_claim env key hash u w).1.db
  unfolding check_and_claim after_create
  check_and_claim-Keeps key hash u w h = claimed (create_idempotency-Keeps key hash u w h)
    where
      looked_up :
          {r : Result IdempotencyKey × World}
          → Keeps I r
          → I (continue (judge env key hash u) r).1.db
      looked_up (returned h) = judge-Keeps key hash u _ _ h
      looked_up (failed h) = h

      at_error : (e : Error) (w : World) → I w.db → I (after_create env key hash u (err e, w)).1.db
      at_error idempotency_key_exists w h = looked_up (get_idempotency-Keeps key u w h)
      at_error _ w h = h

      claimed :
          {r : Result IdempotencyKey × World} → Keeps I r → I (after_create env key hash u r).1.db
      claimed (returned h) = h
      claimed (failed {e = e} {w = w} h) = at_error e w h
