-- ===== src/Ledger/Settling.antt =====
-- The two rows that a payment writes, of the payment and of the order, and what they keep.
use distributed_order_proces.Base.{
  arith, refl, String, List, ◌≡◌, Option, some, subst, true, none, Bool-cases, ◌==◌, inl, sym, inr,
  ap, ◌∙◌,
}
use distributed_order_proces.Database.Rows.{
  PaymentStatus, Uuid, PaymentRow, OrderRow, Db, OrderItemRow, is_pending, OrderStatus,
}
use distributed_order_proces.Payment.Queries.{
  run_update_payment_status, run_mark_order_as_paid, query_update_payment_status,
  query_mark_order_as_paid,
}
use distributed_order_proces.Database.Tx.{Clock, ok, Env, World, clock_at}
use distributed_order_proces.Base.Table.{
  replace, find, find-key, find-replace_self, find-replace_ne,
}
use distributed_order_proces.Database.Keys.{find_payment, find_order}
use distributed_order_proces.Ledger.OrderRows.{Marked}
use distributed_order_proces.Base.Lists.{All, sum_by}
use distributed_order_proces.Ledger.Spec.{
  IsSoundItem, reserved_by, Sound, Keeps, StatusesAgree, stock_of, reserved,
}
use distributed_order_proces.Ledger.Rows.{items-congr}
use distributed_order_proces.Database.Post.{Post, NoClaim, answer-Post}
use mathlib.Core.Path.{ap₂, subst₂}

-- The status of a payment was written.
pub record Repaid (status : PaymentStatus) (o : Uuid) (row : PaymentRow) (db db' : Db)
    : Type 0 where
  pub order : row.order_id ≡ o
  pub status_written : row.status ≡ status
  pub old : PaymentRow
  pub existing : find_payment o db ≡ some old
  pub rest : row ≡ record old {
    status = status;
    transaction_id = row.transaction_id;
    updated_at = row.updated_at;
  }
  pub written : record db { payments = replace PaymentRow.order_id o row db.payments } ≡ db'

repaid :
    (status : PaymentStatus) (tx : String) (o : Uuid) (c : Clock) (db : Db)
    (found : Option PaymentRow) (row : PaymentRow) (db' : Db)
    → find_payment o db ≡ found
    → run_update_payment_status status tx found c db ≡ ok (row, db')
    → Repaid status o row db db'
unfolding run_update_payment_status
repaid status tx o c db none row db' e h = cc
repaid status tx o c db (some old) row db' e h =
    let same = find-key PaymentRow.order_id o db.payments e in
    record {
      order = ground (arith, same);
      status_written = ground arith;
      old = old;
      existing = e;
      rest = ground arith;
      written =
          subst (λ k. record db { payments = replace PaymentRow.order_id k row db.payments } ≡ db')
            same (ground arith);
    }

paid_mark :
    (o : Uuid) (c : Clock) (db : Db) (found : Option OrderRow) (row' : OrderRow) (db' : Db)
    → find_order o db ≡ found
    → run_mark_order_as_paid found c db ≡ ok (row', db')
    → (row : OrderRow) × Marked OrderStatus.paid o row db db'
unfolding run_mark_order_as_paid
paid_mark o c db none row' db' e h = cc
paid_mark o c db (some row) row' db' e h =
    let same = find-key OrderRow.id o db.orders e in
    (
      row,
      record {
        now = record row { status = OrderStatus.paid; updated_at = c.time };
        existing = e;
        id = same;
        status_written = refl;
        rest = refl;
        written =
            subst
              (λ k.
                record db {
                  orders =
                      replace OrderRow.id k
                        (record row { status = OrderStatus.paid; updated_at = c.time }) db.orders;
                }
                ≡ db')
              same (ground arith);
      },
    )

-- An order that is paid stays live: its items reserve what they did.
paid_items :
    (o p : Uuid) (row now : OrderRow) (os : List OrderRow) (items : List OrderItemRow)
    → find OrderRow.id o os ≡ some row
    → is_pending row.status ≡ true
    → now.id ≡ o
    → now.status ≡ OrderStatus.paid
    → All (IsSoundItem os) items
    → All (IsSoundItem (replace OrderRow.id o now os)) items
      × (sum_by (reserved_by p (replace OrderRow.id o now os)) items
          ≡ sum_by (reserved_by p os) items)
paid_items o p row now os items existing pending id paid h =
    items-congr os (replace OrderRow.id o now os) p items h λ i s.
      elim (Bool-cases (i.order_id == o)) [
        | inl mine ↦
            let e : i.order_id ≡ o = ground arith in
            let after : find OrderRow.id i.order_id (replace OrderRow.id o now os) ≡ some now =
              subst (λ k. find OrderRow.id k (replace OrderRow.id o now os) ≡ some now) (sym e)
                (find-replace_self OrderRow.id o now os {row = row} id existing) in
            let before : find OrderRow.id i.order_id os ≡ some row =
              subst (λ k. find OrderRow.id k os ≡ some row) (sym e) existing in
            rw (after, before, paid) ((refl, s.1, s.2), ground arith)
        | inr other ↦
            rw (find-replace_ne OrderRow.id i.order_id o now os id (ground arith)) (s, refl)
      ]

module _ (o : Uuid) (row : OrderRow) (old : PaymentRow) (a : Db) (s : Sound a)
    (existing : find_order o a ≡ some row) (billed : find_payment o a ≡ some old)
    (pending : is_pending row.status ≡ true) where
  -- A failed charge leaves the order pending.
  pub refused-Keeps : (p : PaymentRow) (b : Db) → Repaid PaymentStatus.failed o p a b → Keeps a b
  refused-Keeps p b r = subst (Keeps a) r.written (record {
    sound = record {
      bounded = s.bounded;
      items = s.items;
      agree = λ k. elim (Bool-cases (k == o)) [
        | inl same ↦
            let e : o ≡ k = ground arith in
            subst
              (λ j.
                StatusesAgree (find_order j a)
                  (find PaymentRow.order_id j (replace PaymentRow.order_id o p a.payments)))
              e
              (rw
                (
                  existing,
                  find-replace_self PaymentRow.order_id o p a.payments {row = old} r.order billed,
                )
                (ground (arith, r.status_written)))
        | inr other ↦
            rw (find-replace_ne PaymentRow.order_id k o p a.payments r.order (ground arith))
              (s.agree k)
      ];
    };
    conserved = λ p. refl;
  })

  -- A successful charge marks the payment and the order together.
  pub settled-Keeps :
      (p : PaymentRow) (row' : OrderRow) (b c : Db)
      → Repaid PaymentStatus.success o p a b
      → Marked OrderStatus.paid o row' b c
      → Keeps a c
  settled-Keeps p row' b c r m = record {
    sound = record {
      bounded = λ q. omega (arith, s.bounded q, same_stock q);
      items = subst₂ (λ os is. All (IsSoundItem os) is) orders_now items_now (moved 0).0;
      agree = λ k.
          subst₂ (λ os ps. StatusesAgree (find OrderRow.id k os) (find PaymentRow.order_id k ps))
            orders_now payments_now (agree k);
    };
    conserved = λ q. omega (arith, same_stock q, (moved q).1, reserved_now q);
  }
    where
      orders_now : replace OrderRow.id o m.now a.orders ≡ c.orders
      orders_now =
          ap (λ d. replace OrderRow.id o m.now (Db.orders d)) r.written ∙ ap Db.orders m.written

      items_now : a.order_items ≡ c.order_items
      items_now = ap Db.order_items r.written ∙ ap Db.order_items m.written

      payments_now : replace PaymentRow.order_id o p a.payments ≡ c.payments
      payments_now = ap Db.payments r.written ∙ ap Db.payments m.written

      same_stock : (q : Uuid) → stock_of q c ≡ stock_of q a
      same_stock q = sym (ap (λ d. stock_of q d) r.written ∙ ap (λ d. stock_of q d) m.written)

      moved :
          (q : Uuid)
          → All (IsSoundItem (replace OrderRow.id o m.now a.orders)) a.order_items
            × (sum_by (reserved_by q (replace OrderRow.id o m.now a.orders)) a.order_items
                ≡ reserved q a)
      moved q =
          paid_items o q row m.now a.orders a.order_items existing pending m.id m.status_written
            s.items

      reserved_now :
          (q : Uuid)
          → sum_by (reserved_by q (replace OrderRow.id o m.now a.orders)) a.order_items
            ≡ reserved q c
      reserved_now q = ap₂ (λ os is. sum_by (reserved_by q os) is) orders_now items_now

      agree :
          (k : Uuid)
          → StatusesAgree
              (find OrderRow.id k (replace OrderRow.id o m.now a.orders))
              (find PaymentRow.order_id k (replace PaymentRow.order_id o p a.payments))
      agree k = elim (Bool-cases (k == o)) [
        | inl same ↦
            let e : o ≡ k = ground arith in
            subst
              (λ j.
                StatusesAgree (find OrderRow.id j (replace OrderRow.id o m.now a.orders))
                  (find PaymentRow.order_id j (replace PaymentRow.order_id o p a.payments)))
              e
              (rw
                (
                  find-replace_self OrderRow.id o m.now a.orders {row = row} m.id existing,
                  find-replace_self PaymentRow.order_id o p a.payments {row = old} r.order billed,
                )
                (ground (arith, r.status_written, m.status_written)))
        | inr other ↦
            rw
              (
                find-replace_ne OrderRow.id k o m.now a.orders m.id (ground arith),
                find-replace_ne PaymentRow.order_id k o p a.payments r.order (ground arith),
              )
              (s.agree k)
      ]

pub update_payment-Post :
    (env : Env) (status : PaymentStatus) (tx : String) (o : Uuid) (w : World)
    → Post
        (λ p w'. Repaid status o p w.db w'.db × (w'.charges ≡ w.charges))
        NoClaim
        (query_update_payment_status env status tx o w)
unfolding query_update_payment_status
update_payment-Post env status tx o w =
    answer-Post env _ w
      (λ p db h. (repaid status tx o (clock_at env w) w.db (find_payment o w.db) p db refl h, refl))

pub mark_paid-Post :
    (env : Env) (o : Uuid) (w : World)
    → Post
        (λ _ w'.
          ((row : OrderRow) × Marked OrderStatus.paid o row w.db w'.db) × (w'.charges ≡ w.charges))
        NoClaim
        (query_mark_order_as_paid env o w)
unfolding query_mark_order_as_paid
mark_paid-Post env o w =
    answer-Post env _ w
      (λ row db h. (paid_mark o (clock_at env w) w.db (find_order o w.db) row db refl h, refl))
