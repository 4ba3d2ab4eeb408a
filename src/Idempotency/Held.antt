-- ===== src/Idempotency/Held.antt =====
-- What inserting and writing rows does to a key that is held.
use distributed_order_proces.Base.{
  arith, refl, String, Bool, Option, str_eq, ◌&&◌, ◌≡◌, false, some, Bool-cases, inl, inr, none,
  if◌then◌else◌, eq_iff, ℕ, subst, sym, ◌∷◌, ◌∙◌, true,
}
use distributed_order_proces.Database.Tx.{Env, World, Clock, ok, err, driver}
use distributed_order_proces.Idempotency.Queries.{
  run_create_idempotency, find_key, write_key, key_of_user, stale_key, new_key, unanswered,
  is_stale,
}
use distributed_order_proces.Database.Rows.{Uuid, IdempotencyKeyRow}
use distributed_order_proces.Database.Post.{Runs}
use distributed_order_proces.Idempotency.Calls.{HoldsKey, IsHeld}
use distributed_order_proces.Database.Keys.{is_some, find_user}
use distributed_order_proces.Base.TextTable.{replace, find-replace_self, find-replace_ne}

-- Inserting a key that is not there.
pub create_run :
    (env : Env) (k key hash : String) (user_id : Uuid) (c : Clock) (w : World)
    → HoldsKey env k w.db
    → Runs
        (λ _ w'. (str_eq key k ≡ false) × HoldsKey env k w'.db)
        (λ _ w'. HoldsKey env k w'.db)
        w
        (run_create_idempotency key user_id hash c w.db)
unfolding run_create_idempotency
create_run env k key hash user_id c w h = elim (Bool-cases (is_some (find_key key w.db))) [
  | inl there ↦ rw there h
  | inr missing ↦ rw missing (insert_held (is_some (find_user user_id w.db)) missing)
]
  where
    insert_held :
        (b : Bool)
        → is_some (find_key key w.db) ≡ false
        → Runs
            (λ _ w'. (str_eq key k ≡ false) × HoldsKey env k w'.db)
            (λ _ w'. HoldsKey env k w'.db)
            w
            (if b
              then ok (
                new_key key user_id hash c,
                record w.db {
                  idempotency_keys = new_key key user_id hash c ∷ w.db.idempotency_keys;
                },
              )
              else err driver)
    insert_held false missing = h
    insert_held true missing = elim (Bool-cases (str_eq key k)) [
      | inl same ↦
          let e : key ≡ k = (eq_iff key k).0 same in
          absurd
            (ground (arith, subst (λ j. is_some (find_key j w.db) ≡ false) e missing, h.existing))
      | inr other ↦ (other, record { row = h.row; existing = rw other h.existing; held = h.held })
    ]

-- Writing a row under its own key.
pub write_run :
    (env : Env) (k : String) (o : Option IdempotencyKeyRow)
    (change : IdempotencyKeyRow → IdempotencyKeyRow) (w : World)
    → HoldsKey env k w.db
    → ((row : IdempotencyKeyRow) → o ≡ some row → (change row).key ≡ row.key)
    → ((row : IdempotencyKeyRow)
        → o ≡ some row
        → row.key ≡ k
        → (find_key k w.db ≡ some row) × IsHeld env (change row))
    → Runs (λ _ w'. HoldsKey env k w'.db) (λ _ w'. HoldsKey env k w'.db) w (write_key o change w.db)
write_run env k none change w h same held = h
write_run env k (some row) change w h same held = elim (Bool-cases (str_eq row.key k)) [
  | inl mine ↦
      let e : row.key ≡ k = (eq_iff row.key k).0 mine in
      let (found, kept) = held row refl e in
      subst
        (λ j. HoldsKey env k (record w.db {
          idempotency_keys = replace IdempotencyKeyRow.key j (change row) w.db.idempotency_keys;
        }))
        (sym e)
        (record {
          row = change row;
          existing =
              find-replace_self IdempotencyKeyRow.key k (change row) w.db.idempotency_keys
                {row = row} (same row refl ∙ e) found;
          held = kept;
        })
  | inr other ↦ record {
    row = h.row;
    existing =
        find-replace_ne IdempotencyKeyRow.key k row.key (change row) w.db.idempotency_keys
          (same row refl) (λ e. absurd (ground (arith, eq_iff row.key k, e)))
        ∙ h.existing;
    held = h.held;
  }
]

pub key_of_user-eq-some :
    (user_id : Uuid) (o : Option IdempotencyKeyRow) (row : IdempotencyKeyRow)
    → key_of_user user_id o ≡ some row
    → o ≡ some row
key_of_user-eq-some user_id none row h = cc
key_of_user-eq-some user_id (some r) row h = ground arith

pub stale_key-eq-some :
    (t n : ℕ) (o : Option IdempotencyKeyRow) (row : IdempotencyKeyRow)
    → stale_key t n o ≡ some row
    → (o ≡ some row) × ((unanswered row.response && is_stale t n row) ≡ true)
stale_key-eq-some t n none row h = cc
stale_key-eq-some t n (some r) row h = ground arith
