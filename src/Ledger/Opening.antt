-- ===== src/Ledger/Opening.antt =====
-- The two rows that frame a placement: the order before its items, and the payment after them.
use distributed_order_proces.Base.{
  refl, arith, ℕ, String, Option, some, ◌≡◌, false, true, subst, ◌∷◌, Bool-cases, ◌==◌, none, inl,
  inr, ==_refl,
}
use distributed_order_proces.Order.Queries.{
  run_create_order, run_create_payment, query_create_order, query_create_payment,
}
use distributed_order_proces.Database.Rows.{OrderRow, PaymentRow, Db, OrderStatus, PaymentStatus}
use distributed_order_proces.Order.Store.{insert_order, create_payment}
use distributed_order_proces.Database.Tx.{Clock, Env, ok, World, clock_at}
use distributed_order_proces.Database.Keys.{is_some, find_order, find_payment}
use distributed_order_proces.Ledger.Spec.{is_open, Sound, Keeps, is_open_order, StatusesAgree}
use distributed_order_proces.Database.Post.{Post, NoClaim, bind-Post, answer-Post, returned}
use distributed_order_proces.Ledger.Rows.{items-new_order}

-- An order row was inserted, within the constraints.
pub record Opened (user_id total : ℕ) (row : OrderRow) (db db' : Db) : Type 0 where
  pub fresh : is_some (find_order row.id db) ≡ false
  pub pending : row.status ≡ OrderStatus.pending
  pub owner : row.user_id ≡ user_id
  pub amount : row.total_amount ≡ total
  pub written : record db { orders = row ∷ db.orders } ≡ db'

pub opened :
    (user_id total : ℕ) (c : Clock) (db : Db) (row : OrderRow) (db' : Db)
    → run_create_order user_id total c db ≡ ok (row, db')
    → Opened user_id total row db db'
unfolding run_create_order
opened user_id total c db row db' h = ground arith

-- A payment row was inserted, within the constraints.
pub record Billed (order_id total : ℕ) (row : PaymentRow) (db db' : Db) : Type 0 where
  pub order : row.order_id ≡ order_id
  pub pending : row.status ≡ PaymentStatus.pending
  pub amount : row.amount ≡ total
  pub written : record db { payments = row ∷ db.payments } ≡ db'

pub billed :
    (order_id amount : ℕ) (provider : String) (c : Clock) (db : Db) (row : PaymentRow) (db' : Db)
    → run_create_payment order_id amount provider c db ≡ ok (row, db')
    → Billed order_id amount row db db'
unfolding run_create_payment
billed order_id amount provider c db row db' h = ground arith

new_order_agrees :
    (row : OrderRow) (o : Option OrderRow) (pay : Option PaymentRow)
    → is_some o ≡ false
    → row.status ≡ OrderStatus.pending
    → StatusesAgree o pay
    → StatusesAgree (some row) pay
new_order_agrees row none none f e h = ground arith
new_order_agrees row none (some p) f e h = absurd h
new_order_agrees row (some o) pay f e h = cc

new_payment_agrees :
    (row : PaymentRow) (o : Option OrderRow)
    → is_open o ≡ true
    → row.status ≡ PaymentStatus.pending
    → StatusesAgree o (some row)
new_payment_agrees row none f e = cc
new_payment_agrees row (some o) f e = ground arith

Opened-Keeps :
    (user_id total : ℕ) (row : OrderRow) (db db' : Db)
    → Sound db
    → Opened user_id total row db db'
    → Keeps db db' × (is_open_order row.id db' ≡ true)
Opened-Keeps user_id total row db db' s h =
    subst (λ d. Keeps db d × (is_open_order row.id d ≡ true)) h.written
      (
        record {
          sound = record {
            bounded = s.bounded;
            items = (items-new_order row db.orders 0 db.order_items h.fresh s.items).0;
            agree = λ k. elim (Bool-cases (row.id == k)) [
              | inl same ↦
                  let e : row.id ≡ k = ground arith in
                  rw same (
                    new_order_agrees row (find_order k db) (find_payment k db)
                      (subst (λ o. is_some (find_order o db) ≡ false) e h.fresh) h.pending
                      (s.agree k))
              | inr other ↦ rw other (s.agree k)
            ];
          };
          conserved = λ p.
              omega (arith, (items-new_order row db.orders p db.order_items h.fresh s.items).1);
        },
        rw (==_refl row.id, h.pending),
      )

Billed-Keeps :
    (order_id amount : ℕ) (row : PaymentRow) (db db' : Db)
    → Sound db
    → is_open_order order_id db ≡ true
    → Billed order_id amount row db db'
    → Keeps db db'
Billed-Keeps order_id amount row db db' s open_o h =
    subst (λ d. Keeps db d) h.written
      (record {
        sound = record {
          bounded = s.bounded;
          items = s.items;
          agree = λ k. elim (Bool-cases (row.order_id == k)) [
            | inl same ↦
                let e : order_id ≡ k = ground arith in
                rw same (
                  new_payment_agrees row (find_order k db)
                    (subst (λ o. is_open_order o db ≡ true) e open_o) h.pending)
            | inr other ↦ rw other (s.agree k)
          ];
        };
        conserved = λ p. refl;
      })

-- The order is inserted open, and nothing is reserved by it yet.
pub insert_order-Post :
    (env : Env) (user_id total : ℕ) (w : World)
    → Sound w.db
    → Post
        (λ o w'. Keeps w.db w'.db × (is_open_order o.id w'.db ≡ true))
        NoClaim
        (insert_order env user_id total w)
unfolding insert_order query_create_order
insert_order-Post env user_id total w s =
    bind-Post
      (answer-Post {P = λ row w'. Opened user_id total row w.db w'.db} env _ w
        (λ row db h. opened user_id total (clock_at env w) w.db row db h))
      (λ row w' h. returned (Opened-Keeps user_id total row w.db w'.db s h))

-- The payment of an open order is inserted pending.
pub create_payment-Post :
    (env : Env) (order_id amount : ℕ) (w : World)
    → Sound w.db
    → is_open_order order_id w.db ≡ true
    → Post (λ _ w'. Keeps w.db w'.db) NoClaim (create_payment env order_id amount w)
unfolding create_payment query_create_payment
create_payment-Post env order_id amount w s open_o =
    bind-Post
      (answer-Post {P = λ row w'. Billed order_id amount row w.db w'.db} env _ w
        (λ row db h. billed order_id amount "fake" (clock_at env w) w.db row db h))
      (λ row w' h. returned (Billed-Keeps order_id amount row w.db w'.db s open_o h))
