-- ===== src/Idempotency/Exclusive.antt =====
-- A key that is held is not handed out again.
use distributed_order_proces.Base.{
  arith, refl, [], String, Bool, Option, str_eq, ◌&&◌, ◌≡◌, false, some, Bool-cases, inl, inr, none,
  eq_iff, ℕ, subst, sym, ◌∷◌, ◌∙◌, List,
}
use distributed_order_proces.Database.Tx.{
  Env, Result, World, idempotency_key_exists, no_idempotency_found, clock_at,
}
use distributed_order_proces.Idempotency.Queries.{
  find_key, write_key, key_of_user, stale_key, query_create_idempotency, query_update_idempotency,
  unanswered, run_update_idempotency, is_stale, with_response, query_get_idempotency_by_user_id,
  query_reclaim_stale_idempotency, run_reclaim, reclaimed,
}
use distributed_order_proces.Database.Rows.{Uuid, IdempotencyKeyRow}
use distributed_order_proces.Database.Post.{
  Post, Runs, returned, failed, bind-Post, rename-Post, statement-Post,
}
use distributed_order_proces.Idempotency.Calls.{
  HoldsKey, succeeded, not_a_claim, perform, grants, Call, key_of, create, reclaim, get, update,
}
use distributed_order_proces.Idempotency.Repository.{
  create_idempotency, update_idempotency, get_idempotency_by_user_id, reclaim_stale_idempotency,
}
use distributed_order_proces.Base.TextTable.{find-key}
use distributed_order_proces.Idempotency.Service.{stale_claim_timeout}
use distributed_order_proces.Order.Queries.{one_row}
use distributed_order_proces.Idempotency.Held.{
  key_of_user-eq-some, create_run, write_run, stale_key-eq-some,
}

abbrev Silent : Env → String → String → Bool × World → Type 0
Silent env k key (granted, w) = ((str_eq key k && granted) ≡ false) × HoldsKey env k w.db

module _ {A : Type 0} (env : Env) (k key : String) where
  succeeded-Silent :
      {r : Result A × World}
      → Post (λ _ w. (str_eq key k ≡ false) × HoldsKey env k w.db) (λ _ w. HoldsKey env k w.db) r
      → Silent env k key (succeeded r)
  succeeded-Silent (returned (other, h)) = (rw other, h)
  succeeded-Silent (failed h) = (ground arith, h)

  not_a_claim-Silent :
      {r : Result A × World}
      → Post (λ _ w. HoldsKey env k w.db) (λ _ w. HoldsKey env k w.db) r
      → Silent env k key (not_a_claim r)
  not_a_claim-Silent (returned h) = (ground arith, h)
  not_a_claim-Silent (failed h) = (ground arith, h)

module _ (env : Env) (k key : String) (user_id : Uuid) (w : World) (h : HoldsKey env k w.db) where
  -- The row that a call met under the held key is the held one.
  met :
      (row : IdempotencyKeyRow)
      → key_of_user user_id (find_key key w.db) ≡ some row
      → row.key ≡ k
      → find_key k w.db ≡ some row
  met row e mine =
      let found = key_of_user-eq-some user_id (find_key key w.db) row e in
      let named = find-key IdempotencyKeyRow.key key w.db.idempotency_keys found in
      subst (λ j. find_key j w.db ≡ some row) (sym named ∙ mine) found

  create-Held :
      (hash : String)
      → Post
          (λ _ w'. (str_eq key k ≡ false) × HoldsKey env k w'.db)
          (λ _ w'. HoldsKey env k w'.db)
          (create_idempotency env key hash user_id w)
  unfolding create_idempotency query_create_idempotency
  create-Held hash =
      bind-Post
        (rename-Post idempotency_key_exists (λ _ _ e. e)
          (statement-Post env _ w h (create_run env k key hash user_id (clock_at env w) w h)))
        (λ _ w' e. returned e)

  update-Held :
      (response : String)
      → Post
          (λ _ w'. HoldsKey env k w'.db)
          (λ _ w'. HoldsKey env k w'.db)
          (update_idempotency env key user_id response w)
  unfolding update_idempotency query_update_idempotency run_update_idempotency
  update-Held response =
      bind-Post
        (rename-Post no_idempotency_found (λ _ _ e. e)
          (statement-Post env _ w h (
            write_run env k (key_of_user user_id (find_key key w.db))
              (with_response response (clock_at env w).time) w h (λ _ _. refl)
              (λ row e mine. (met row e mine, λ n. refl)))))
        (λ _ w' e. returned e)

  get-Held :
      Post
        (λ _ w'. HoldsKey env k w'.db)
        (λ _ w'. HoldsKey env k w'.db)
        (get_idempotency_by_user_id env key user_id w)
  unfolding get_idempotency_by_user_id query_get_idempotency_by_user_id
  get-Held =
      bind-Post
        (rename-Post no_idempotency_found (λ _ _ e. e)
          (statement-Post env _ w h (read_run (key_of_user user_id (find_key key w.db)))))
        (λ _ w' e. returned e)
    where
      read_run :
          (o : Option IdempotencyKeyRow)
          → Runs (λ _ w'. HoldsKey env k w'.db) (λ _ w'. HoldsKey env k w'.db) w (one_row w.db o)
      read_run none = h
      read_run (some row) = h

  -- The held key has no stale row.
  fresh :
      (n : ℕ) (row : IdempotencyKeyRow)
      → stale_key stale_claim_timeout (env.api_now n) (key_of_user user_id (find_key key w.db))
        ≡ some row
      → row.key ≡ k
      → ⊥
  fresh n row e mine =
      let (found, stale) =
        stale_key-eq-some stale_claim_timeout (env.api_now n)
          (key_of_user user_id (find_key key w.db)) row e in
      let same : some h.row ≡ some row = sym h.existing ∙ met row found mine in
      let one : h.row ≡ row = cc in
      let held =
        subst
          (λ r. (unanswered r.response && is_stale stale_claim_timeout (env.api_now n) r) ≡ false)
          one (h.held n) in
      cc

  -- A reclaim of the held key meets no row.
  reclaim-Held :
      (hash : String)
      → Post
          (λ _ w'. (str_eq key k ≡ false) × HoldsKey env k w'.db)
          (λ _ w'. HoldsKey env k w'.db)
          (reclaim_stale_idempotency env key hash user_id stale_claim_timeout w)
  unfolding reclaim_stale_idempotency query_reclaim_stale_idempotency run_reclaim
  reclaim-Held hash =
      bind-Post
        (rename-Post no_idempotency_found (λ _ _ e. e)
          (statement-Post env _ w h (
            run
              (stale_key stale_claim_timeout (env.api_now w.tick)
                (key_of_user user_id (find_key key w.db)))
              refl)))
        (λ _ w' e. returned e)
    where
      run :
          (o : Option IdempotencyKeyRow)
          → stale_key stale_claim_timeout
              (env.api_now w.tick)
              (key_of_user user_id (find_key key w.db))
            ≡ o
          → Runs
              (λ _ w'. (str_eq key k ≡ false) × HoldsKey env k w'.db)
              (λ _ w'. HoldsKey env k w'.db)
              w
              (write_key o (reclaimed hash (clock_at env w).time) w.db)
      run none e = h
      run (some row) e =
          let (found, _) =
            stale_key-eq-some stale_claim_timeout (env.api_now w.tick)
              (key_of_user user_id (find_key key w.db)) row e in
          let named =
            find-key IdempotencyKeyRow.key key w.db.idempotency_keys
              (key_of_user-eq-some user_id (find_key key w.db) row found) in
          (
            elim (Bool-cases (str_eq key k)) [
              | inl mine ↦ absurd (fresh w.tick row e (named ∙ (eq_iff key k).0 mine))
              | inr other ↦ other
            ],
            write_run env k (some row) (reclaimed hash (clock_at env w).time) w h (λ _ _. refl)
                (λ row' e' mine. absurd (fresh w.tick row' (e ∙ e') mine)),
          )

perform-Silent :
    (env : Env) (k : String) (call : Call) (w : World)
    → HoldsKey env k w.db
    → Silent env k (key_of call) (perform env call w)
unfolding perform
perform-Silent env k (create key hash user_id) w h =
    succeeded-Silent env k key (create-Held env k key user_id w h hash)
perform-Silent env k (reclaim key hash user_id) w h =
    succeeded-Silent env k key (reclaim-Held env k key user_id w h hash)
perform-Silent env k (get key user_id) w h =
    not_a_claim-Silent env k key (get-Held env k key user_id w h)
perform-Silent env k (update key user_id response) w h =
    not_a_claim-Silent env k key (update-Held env k key user_id w h response)

-- While a key is answered, or its claim is not older than 30 seconds on any clock reading of the API,
-- no sequence of calls by any requests hands that key out again, however their calls interleave and
-- whichever of them fail.
pub grants_held :
    (env : Env) (k : String) (calls : List Call) (w : World)
    → HoldsKey env k w.db
    → grants env k calls w ≡ 0
unfolding grants
grants_held env k [] w h = refl
grants_held env k (call ∷ calls) w h =
    let (silent, kept) = perform-Silent env k call w h in
    rw silent (omega (arith, grants_held env k calls (perform env call w).1 kept))
