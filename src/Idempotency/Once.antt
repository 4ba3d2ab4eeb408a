-- ===== src/Idempotency/Once.antt =====
-- A key that nobody has used is handed out at most once.
use distributed_order_proces.Database.Tx.{
  no_rows, Env, World, Result, no_idempotency_found, clock_at, err, ok, driver, tick_of,
  idempotency_key_exists,
}
use distributed_order_proces.Base.{
  arith, refl, String, Bool, Option, none, some, false, ◌≡◌, ◌∙◌, ◌&&◌, str_eq, eq_iff, Bool-cases,
  inl, inr, subst, sym, ◌⊎◌, ℕ, ◌≤◌, ◌+◌, ◌∷◌, List, [], if◌then◌else◌, true,
}
use distributed_order_proces.Database.Rows.{Db, IdempotencyKeyRow, Uuid}
use distributed_order_proces.Database.Post.{
  Post, Runs, returned, failed, bind-Post, rename-Post, statement-Post,
}
use distributed_order_proces.Base.TextTable.{find-key, find-replace_ne}
use distributed_order_proces.Idempotency.Queries.{
  find_key, write_key, query_get_idempotency_by_user_id, query_update_idempotency,
  query_reclaim_stale_idempotency, run_update_idempotency, run_reclaim, key_of_user, new_key,
  query_create_idempotency, run_create_idempotency, with_response, stale_key, reclaimed,
}
use distributed_order_proces.Idempotency.Calls.{
  succeeded, not_a_claim, HoldsKey, perform, grants, Call, key_of, create, reclaim, get, update,
}
use distributed_order_proces.Idempotency.Repository.{
  get_idempotency_by_user_id, update_idempotency, reclaim_stale_idempotency, create_idempotency,
}
use distributed_order_proces.Idempotency.Service.{stale_claim_timeout}
use distributed_order_proces.Order.Queries.{one_row}
use distributed_order_proces.Idempotency.Held.{key_of_user-eq-some, stale_key-eq-some}
use distributed_order_proces.Idempotency.Exclusive.{grants_held}
use distributed_order_proces.Database.Keys.{is_some, find_user}

-- Nobody has the key.
abbrev pub IsFresh : String → Db → Type 0
IsFresh k db = find_key k db ≡ none

-- A call leaves the key as it was, or has just taken it.
abbrev Takes : Env → String → String → Bool × World → Type 0
Takes env k key (granted, w) =
    (((str_eq key k && granted) ≡ false) × IsFresh k w.db) ⊎ HoldsKey env k w.db

-- A call that succeeds only on other keys.
abbrev Passes : {A : Type 0} → String → String → Result A × World → Type 0
Passes k key r = Post (λ _ w. (str_eq key k ≡ false) × IsFresh k w.db) (λ _ w. IsFresh k w.db) r

module _ {A : Type 0} (env : Env) (k key : String) where
  succeeded-Takes :
      {r : Result A × World}
      → Post
          (λ _ w. ((str_eq key k ≡ false) × IsFresh k w.db) ⊎ HoldsKey env k w.db)
          (λ _ w. IsFresh k w.db)
          r
      → Takes env k key (succeeded r)
  succeeded-Takes (returned (inl (other, h))) = inl (rw other, h)
  succeeded-Takes (returned (inr h)) = inr h
  succeeded-Takes (failed h) = inl (ground arith, h)

  not_a_claim-Takes : {r : Result A × World} → Passes k key r → Takes env k key (not_a_claim r)
  not_a_claim-Takes (returned h) = inl (ground arith, h.1)
  not_a_claim-Takes (failed h) = inl (ground arith, h)

module _ (env : Env) (k key : String) (w : World) (h : IsFresh k w.db) where
  -- A row that was found is not that of the fresh key.
  other_key : (row : IdempotencyKeyRow) → find_key key w.db ≡ some row → str_eq key k ≡ false
  other_key row e = elim (Bool-cases (str_eq key k)) [
    | inl same ↦
        let e' = subst (λ j. find_key j w.db ≡ some row) ((eq_iff key k).0 same) e in
        absurd (ground (arith, h, e'))
    | inr other ↦ other
  ]

  write-Passes :
      (o : Option IdempotencyKeyRow) (change : IdempotencyKeyRow → IdempotencyKeyRow)
      → ((row : IdempotencyKeyRow) → (change row).key ≡ row.key)
      → ((row : IdempotencyKeyRow) → o ≡ some row → find_key key w.db ≡ some row)
      → Runs
          (λ _ w'. (str_eq key k ≡ false) × IsFresh k w'.db)
          (λ _ w'. IsFresh k w'.db)
          w
          (write_key o change w.db)
  write-Passes none change same found = h
  write-Passes (some row) change same found =
      let e = found row refl in
      let named = find-key IdempotencyKeyRow.key key w.db.idempotency_keys e in
      let other = other_key row e in
      (
        other,
        find-replace_ne IdempotencyKeyRow.key k row.key (change row) w.db.idempotency_keys
              (same row) (λ c. absurd (ground (arith, other, (eq_iff key k).1 (sym named ∙ sym c))))
            ∙ h,
      )

  get-Passes : (user_id : Uuid) → Passes k key (get_idempotency_by_user_id env key user_id w)
  unfolding get_idempotency_by_user_id query_get_idempotency_by_user_id
  get-Passes user_id =
      bind-Post
        (rename-Post no_idempotency_found (λ _ _ e. e)
          (statement-Post env _ w h (read_run (key_of_user user_id (find_key key w.db)) refl)))
        (λ _ w' e. returned e)
    where
      read_run :
          (o : Option IdempotencyKeyRow)
          → key_of_user user_id (find_key key w.db) ≡ o
          → Runs
              (λ _ w'. (str_eq key k ≡ false) × IsFresh k w'.db)
              (λ _ w'. IsFresh k w'.db)
              w
              (one_row w.db o)
      read_run none e = h
      read_run (some row) e =
          (other_key row (key_of_user-eq-some user_id (find_key key w.db) row e), h)

  update-Passes :
      (user_id : Uuid) (response : String)
      → Passes k key (update_idempotency env key user_id response w)
  unfolding update_idempotency query_update_idempotency run_update_idempotency
  update-Passes user_id response =
      bind-Post
        (rename-Post no_idempotency_found (λ _ _ e. e)
          (statement-Post env _ w h (
            write-Passes (key_of_user user_id (find_key key w.db))
              (with_response response (clock_at env w).time) (λ _. refl)
              (key_of_user-eq-some user_id (find_key key w.db)))))
        (λ _ w' e. returned e)

  reclaim-Passes :
      (user_id : Uuid) (hash : String)
      → Post
          (λ _ w'. ((str_eq key k ≡ false) × IsFresh k w'.db) ⊎ HoldsKey env k w'.db)
          (λ _ w'. IsFresh k w'.db)
          (reclaim_stale_idempotency env key hash user_id stale_claim_timeout w)
  unfolding reclaim_stale_idempotency query_reclaim_stale_idempotency run_reclaim
  reclaim-Passes user_id hash =
      bind-Post
        (rename-Post no_idempotency_found (λ _ _ e. e)
          (statement-Post env _ w h (
            write-Passes
              (stale_key stale_claim_timeout (env.api_now w.tick)
                (key_of_user user_id (find_key key w.db)))
              (reclaimed hash (clock_at env w).time) (λ _. refl)
              (λ row e.
                key_of_user-eq-some user_id (find_key key w.db) row
                  (stale_key-eq-some stale_claim_timeout (env.api_now w.tick)
                    (key_of_user user_id (find_key key w.db)) row e).0))))
        (λ _ w' e. returned (inl e))

  module _ (prompt : (n m : ℕ) → env.api_now n ≤ env.now m + stale_claim_timeout) where
    inserted :
        (user_id : Uuid) (hash : String) (m : ℕ)
        → let row =
            new_key key user_id hash (record { uuid = 0; time = env.now m; scan = λ rows. rows }) in
          let db = record w.db { idempotency_keys = row ∷ w.db.idempotency_keys } in
          ((str_eq key k ≡ false) × IsFresh k db) ⊎ HoldsKey env k db
    inserted user_id hash m = elim (Bool-cases (str_eq key k)) [
      | inl same ↦ inr (record {
        row = new_key key user_id hash (record { uuid = 0; time = env.now m; scan = λ rows. rows });
        existing = rw same refl;
        held = λ n. ground (arith, prompt n m);
      })
      | inr other ↦ inl (other, rw other h)
    ]

    create-Takes :
        (user_id : Uuid) (hash : String)
        → Post
            (λ _ w'. ((str_eq key k ≡ false) × IsFresh k w'.db) ⊎ HoldsKey env k w'.db)
            (λ _ w'. IsFresh k w'.db)
            (create_idempotency env key hash user_id w)
    unfolding create_idempotency query_create_idempotency run_create_idempotency
    create-Takes user_id hash =
        bind-Post
          (rename-Post idempotency_key_exists (λ _ _ e. e)
            (statement-Post env _ w h
              (run (is_some (find_key key w.db)) (is_some (find_user user_id w.db)))))
          (λ _ w' e. returned e)
      where
        run :
            (taken known : Bool)
            → let row = new_key key user_id hash (clock_at env w) in
              Runs
                (λ _ w'. ((str_eq key k ≡ false) × IsFresh k w'.db) ⊎ HoldsKey env k w'.db)
                (λ _ w'. IsFresh k w'.db)
                w
                (if taken
                  then err no_rows
                  else if known
                  then ok (row, record w.db { idempotency_keys = row ∷ w.db.idempotency_keys })
                  else err driver)
        run true known = h
        run false true = inserted user_id hash (tick_of w.tx_start w.tick)
        run false false = h

module _ (env : Env) (k : String)
    (prompt : (n m : ℕ) → env.api_now n ≤ env.now m + stale_claim_timeout) where
  perform-Takes :
      (call : Call) (w : World) → IsFresh k w.db → Takes env k (key_of call) (perform env call w)
  unfolding perform
  perform-Takes (create key hash user_id) w h =
      succeeded-Takes env k key (create-Takes env k key w h prompt user_id hash)
  perform-Takes (reclaim key hash user_id) w h =
      succeeded-Takes env k key (reclaim-Passes env k key w h user_id hash)
  perform-Takes (get key user_id) w h =
      not_a_claim-Takes env k key (get-Passes env k key w h user_id)
  perform-Takes (update key user_id response) w h =
      not_a_claim-Takes env k key (update-Passes env k key w h user_id response)

  -- While no reading of the API's clock is more than 30 seconds after any reading of the server's, a
  -- key that nobody has used is handed out at most once by any sequence of calls by any requests,
  -- however their calls interleave and whichever of them fail.
  pub grants_once : (calls : List Call) (w : World) → IsFresh k w.db → grants env k calls w ≤ 1
  unfolding grants
  grants_once [] w h = omega arith
  grants_once (call ∷ calls) w h = elim (perform-Takes call w h) [
    | inl (passed, fresh) ↦
        rw passed (omega (arith, grants_once calls (perform env call w).1 fresh))
    | inr held ↦ ground (arith, grants_held env k calls (perform env call w).1 held)
  ]
