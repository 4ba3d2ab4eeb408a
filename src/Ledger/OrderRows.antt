-- ===== src/Ledger/OrderRows.antt =====
-- The statements that read an order and write its status.
use distributed_order_proces.Base.{arith, refl, Option, map, ◌≡◌, ◌==◌, some, none, subst, ap}
use distributed_order_proces.Database.Rows.{Uuid, OrderRow, Db, OrderStatus}
use distributed_order_proces.Order.Store.{
  order_item_from_sqlc, lock_order_for_update, get_order_items_by_order_id, update_order_status,
  order_from_sqlc,
}
use distributed_order_proces.Base.Table.{replace, find-key}
use distributed_order_proces.Database.Tx.{
  Env, World, ok, Clock, order_not_found, clock_at, order_lock,
}
use distributed_order_proces.Base.Lists.{filter}
use distributed_order_proces.Database.Post.{
  Post, NoClaim, returned, bind-Post, no_claim, answer-Post, rename-Post, holding-Post,
}
use distributed_order_proces.Order.Queries.{
  owned_by, one_row, run_update_order_status, query_lock_order_for_update,
  query_get_order_items_by_order_id, query_update_order_status,
}
use distributed_order_proces.Database.Keys.{find_order}
use distributed_order_proces.Ledger.Rows.{one_row-eq-ok}
use distributed_order_proces.Ledger.Refunds.{items_of}

owned_by-eq-some :
    (user_id : Uuid) (o : Option OrderRow) (row : OrderRow)
    → owned_by user_id o ≡ some row
    → (o ≡ some row) × (row.user_id ≡ user_id)
owned_by-eq-some user_id none row h = cc
owned_by-eq-some user_id (some r) row h = ground arith

-- A row of an order was read, and it is the user's.
pub record ReadOrder (user_id o : Uuid) (row : OrderRow) (db db' : Db) : Type 0 where
  pub same : db' ≡ db
  pub existing : find_order o db ≡ some row
  pub owner : row.user_id ≡ user_id

pub read_order :
    (user_id o : Uuid) (db : Db) (row : OrderRow) (db' : Db)
    → one_row db (owned_by user_id (find_order o db)) ≡ ok (row, db')
    → ReadOrder user_id o row db db'
read_order user_id o db row db' h =
    let (e, same) = one_row-eq-ok db (owned_by user_id (find_order o db)) row db' h in
    let (existing, owner) = owned_by-eq-some user_id (find_order o db) row e in
    record { same = same; existing = existing; owner = owner }

pub lock_order-Post :
    (env : Env) (user_id o : Uuid) (w : World)
    → Post
        (λ a w'. (row : OrderRow) × (a ≡ order_from_sqlc row) × ReadOrder user_id o row w.db w'.db)
        NoClaim
        (lock_order_for_update env user_id o w)
unfolding lock_order_for_update query_lock_order_for_update
lock_order-Post env user_id o w =
    bind-Post
      (rename-Post order_not_found (λ _ _ _. no_claim _ _)
        (holding-Post (order_lock o)
          (answer-Post {P = λ row w'. ReadOrder user_id o row w.db w'.db} env _ w
            (λ row db h. read_order user_id o w.db row db h))
          (λ _ _ e. e)))
      (λ row w' e. returned (row, refl, e))

pub get_items-Post :
    (env : Env) (o : Uuid) (w : World)
    → Post
        (λ items w'. (items ≡ items_of o w.db.order_items) × (w'.db ≡ w.db))
        NoClaim
        (get_order_items_by_order_id env o w)
unfolding get_order_items_by_order_id query_get_order_items_by_order_id
get_items-Post env o w =
    bind-Post
      (answer-Post
        {P = λ rows w'. (rows ≡ filter (λ i. i.order_id == o) w.db.order_items) × (w'.db ≡ w.db)}
        env _ w (λ rows db h. ground arith))
      (λ rows w' h. returned (ap (map order_item_from_sqlc) h.0, h.1))

-- The status of an order was written.
pub record Marked (status : OrderStatus) (o : Uuid) (row : OrderRow) (db db' : Db) : Type 0 where
  pub now : OrderRow
  pub existing : find_order o db ≡ some row
  pub id : now.id ≡ o
  pub status_written : now.status ≡ status
  pub rest : now ≡ record row { status = status; updated_at = now.updated_at }
  pub written : record db { orders = replace OrderRow.id o now db.orders } ≡ db'

marked :
    (status : OrderStatus) (user_id o : Uuid) (c : Clock) (db : Db) (found : Option OrderRow)
    (row' : OrderRow) (db' : Db)
    → owned_by user_id (find_order o db) ≡ found
    → run_update_order_status status found c db ≡ ok (row', db')
    → (row : OrderRow) × Marked status o row db db'
unfolding run_update_order_status
marked status user_id o c db none row' db' e h = cc
marked status user_id o c db (some row) row' db' e h =
    let (existing, owner) = owned_by-eq-some user_id (find_order o db) row e in
    let same = find-key OrderRow.id o db.orders existing in
    (
      row,
      record {
        now = record row { status = status; updated_at = c.time };
        existing = existing;
        id = same;
        status_written = refl;
        rest = refl;
        written =
            subst
              (λ k.
                record db {
                  orders =
                      replace OrderRow.id k (record row { status = status; updated_at = c.time })
                        db.orders;
                }
                ≡ db')
              same (ground arith);
      },
    )

pub mark_order-Post :
    (env : Env) (user_id o : Uuid) (status : OrderStatus) (w : World)
    → Post
        (λ _ w'. (row : OrderRow) × Marked status o row w.db w'.db)
        NoClaim
        (update_order_status env user_id o status w)
unfolding update_order_status query_update_order_status
mark_order-Post env user_id o status w =
    bind-Post
      (rename-Post order_not_found (λ _ _ _. no_claim _ _)
        (answer-Post {P = λ _ w'. (row : OrderRow) × Marked status o row w.db w'.db} env _ w
          (λ row' db h. marked status user_id o (clock_at env w) w.db _ row' db refl h)))
      (λ row' w' h. returned h)
