-- ===== src/Ledger/Paying.antt =====
-- Paying for an order keeps the ledger, and keeps orders and payments in step.
use distributed_order_proces.Payment.Repository
use distributed_order_proces.Base.{
  arith, refl, String, List, ◌≡◌, some, subst, true, Bool-cases, inl, sym, inr, ap, ◌∙◌, ◌+◌, Bool,
  false, ltb,
}
use distributed_order_proces.Database.Rows.{
  PaymentStatus, Uuid, PaymentRow, OrderRow, Db, is_pending, OrderStatus, failed, is_success,
}
use distributed_order_proces.Payment.Queries.{
  query_lock_order_for_payment, query_lock_payment_for_update,
}
use distributed_order_proces.Database.Tx.{
  Env, World, ChargeRecord, no_payment_found, no_order_found, on_no_rows, order_lock, payment_lock,
}
use distributed_order_proces.Base.Table.{find-key, find-replace_self}
use distributed_order_proces.Database.Keys.{find_payment, find_order}
use distributed_order_proces.Ledger.OrderRows.{ReadOrder, read_order}
use distributed_order_proces.Ledger.Spec.{
  Sound, Keeps, paid_count, successes, one_if, is_paid, is_paid_order,
}
use distributed_order_proces.Ledger.Rows.{one_row-eq-ok}
use distributed_order_proces.Database.Post.{
  Post, NoClaim, answer-Post, bind-Post, rename-Post, no_claim, returned, within_tx_or_return-Post,
  Leaves, holding-Post, failed, Post-mono,
}
use mathlib.Core.Path.{subst₂, subst₃}
use distributed_order_proces.Payment.Repository.{
  record_charge, settle_order, charge_order, pay_locked, pay_order,
}
use distributed_order_proces.Payment.Provider.{charge}
use distributed_order_proces.Ledger.Placing.{Keeps-refl}
use distributed_order_proces.Ledger.Settling.{
  update_payment-Post, refused-Keeps, mark_paid-Post, settled-Keeps,
}

-- What a payment promises: the ledger, and one successful charge for an order that becomes paid.
abbrev pub PaysOnce : Uuid → Db → List ChargeRecord → Db → List ChargeRecord → Type 0
PaysOnce o before charged db charges =
    Keeps before db
    × (successes charges + paid_count o before ≡ successes charged + paid_count o db)

pub paid_count_of_find :
    (o : Uuid) (row : OrderRow) (db : Db)
    → find_order o db ≡ some row
    → paid_count o db ≡ one_if (is_paid row.status)
paid_count_of_find o row db e = ap (λ r. one_if (is_paid_order r)) e

module _ (env : Env) (tx : String) (o : OrderRow) (old : PaymentRow) (w : World) (s : Sound w.db)
    (existing : find_order o.id w.db ≡ some o) (billed : find_payment o.id w.db ≡ some old)
    (pending : is_pending o.status ≡ true) where
  -- The result of a charge is written down as it was.
  record_charge-Post :
      (success : Bool)
      → Post
          (λ r w'.
            (r.1 ≡ true)
            × Keeps w.db w'.db
            × (one_if success ≡ paid_count o.id w'.db)
            × (w'.charges ≡ w.charges))
          NoClaim
          (record_charge env success tx o w)
  unfolding record_charge settle_order
  record_charge-Post false =
      bind-Post
        (rename-Post no_payment_found (λ _ _ _. no_claim _ _)
          (update_payment-Post env PaymentStatus.failed tx o.id w))
        λ p w1 (r, same). rw r.status_written (
          returned (
            refl,
            refused-Keeps o.id o old w.db s existing billed pending p w1.db r,
            ground (
              arith,
              paid_count_of_find o.id o w1.db
                  (subst (λ d. find_order o.id d ≡ some o) r.written existing),
            ),
            same,
          ))
  record_charge-Post true =
      bind-Post
        (rename-Post no_payment_found (λ _ _ _. no_claim _ _)
          (update_payment-Post env PaymentStatus.success tx o.id w))
        λ p w1 (r, same). rw r.status_written (
          bind-Post
            (rename-Post no_order_found (λ _ _ _. no_claim _ _) (mark_paid-Post env o.id w1))
            λ o' w2 ((row', m), same'). returned (
              refl,
              settled-Keeps o.id o old w.db s existing billed pending p row' w1.db w2.db r m,
              ground (
                arith,
                m.status_written,
                paid_count_of_find o.id m.now w2.db (
                    subst (λ d. find_order o.id d ≡ some m.now) m.written
                      (find-replace_self OrderRow.id o.id m.now w1.db.orders {row = row'} m.id
                        m.existing)),
              ),
              same' ∙ same,
            ))

pub committed :
    {A : Type 0} (P : A → Db → List ChargeRecord → Type 0) (db : Db) (r : A × Bool) (w : World)
    → r.1 ≡ true
    → P r.0 w.db w.charges
    → Leaves P db r w
committed P db (a, true) w e h = h
committed P db (a, false) w e h = cc

-- A pending order is charged, and the charge is on the log.
charge_order-Post :
    (env : Env) (o : OrderRow) (old : PaymentRow) (w : World)
    → Sound w.db
    → find_order o.id w.db ≡ some o
    → find_payment o.id w.db ≡ some old
    → is_pending o.status ≡ true
    → Post
        (λ r w'. Leaves (λ _. PaysOnce o.id w.db w.charges) w.db r w')
        NoClaim
        (charge_order env old o w)
unfolding charge_order charge
charge_order-Post env o old w s existing billed pending =
    let unpaid : paid_count o.id w.db ≡ 0 =
      ground (arith, paid_count_of_find o.id o w.db existing) in
    Post-mono
      (record_charge-Post env (env.new_string w.tick) o old _ s existing billed pending
        (ltb (env.draw w.tick) 80))
      λ r w' h.
        committed (λ _. PaysOnce o.id w.db w.charges) w.db r w' h.0
          (h.1, omega (arith, ap successes h.3, h.2, unpaid))

pub lock_for_payment-Post :
    (env : Env) (user_id o : Uuid) (w : World)
    → Post
        (λ row w'. ReadOrder user_id o row w.db w'.db × (w'.charges ≡ w.charges))
        NoClaim
        (on_no_rows no_order_found (query_lock_order_for_payment env o user_id) w)
unfolding query_lock_order_for_payment
lock_for_payment-Post env user_id o w =
    rename-Post no_order_found (λ _ _ _. no_claim _ _)
      (holding-Post (order_lock o)
        (answer-Post {P = λ row w'. ReadOrder user_id o row w.db w'.db × (w'.charges ≡ w.charges)}
          env _ w (λ row db h. (read_order user_id o w.db row db h, refl)))
        (λ _ _ e. e))

pub lock_payment-Post :
    (env : Env) (o : Uuid) (w : World)
    → Post
        (λ row w'. (find_payment o w.db ≡ some row) × (w'.db ≡ w.db) × (w'.charges ≡ w.charges))
        NoClaim
        (on_no_rows no_payment_found (query_lock_payment_for_update env o) w)
unfolding query_lock_payment_for_update
lock_payment-Post env o w =
    rename-Post no_payment_found (λ _ _ _. no_claim _ _)
      (holding-Post (payment_lock o)
        (answer-Post
          {P = λ row w'.
            (find_payment o w.db ≡ some row) × (w'.db ≡ w.db) × (w'.charges ≡ w.charges)}
          env _ w
          (λ row db h.
            let (e, same) = one_row-eq-ok w.db (find_payment o w.db) row db h in (e, same, refl)))
        (λ _ _ e. e))

pay_locked-Post :
    (env : Env) (o : OrderRow) (p : PaymentRow) (status : OrderStatus) (w : World)
    → o.status ≡ status
    → Sound w.db
    → find_order o.id w.db ≡ some o
    → find_payment o.id w.db ≡ some p
    → Post
        (λ r w'. Leaves (λ _. PaysOnce o.id w.db w.charges) w.db r w')
        NoClaim
        (pay_locked env status p o w)
unfolding pay_locked
pay_locked-Post env o p OrderStatus.paid w e s existing billed = returned (Keeps-refl s, refl)
pay_locked-Post env o p OrderStatus.cancelled w e s existing billed = failed (no_claim _ _)
pay_locked-Post env o p OrderStatus.pending w e s existing billed =
    elim (Bool-cases (is_success p.status)) [
      | inl done ↦ rw done (returned (Keeps-refl s, refl))
      | inr open_p ↦ rw open_p (charge_order-Post env o p w s existing billed (ground arith))
    ]

pay_order-Post :
    (env : Env) (user_id o : Uuid) (w : World)
    → Sound w.db
    → Post
        (λ r w'. Leaves (λ _. PaysOnce o w.db w.charges) w.db r w')
        NoClaim
        (pay_order env user_id o w)
unfolding pay_order
pay_order-Post env user_id o w s =
    bind-Post (lock_for_payment-Post env user_id o w) λ row w1 (r, c1).
      bind-Post (lock_payment-Post env row.id w1) λ p w2 (billed, same, c2).
        let here : w2.db ≡ w.db = same ∙ r.same in
        let named = find-key OrderRow.id o w.db.orders r.existing in
        let existing : find_order row.id w2.db ≡ some row =
          subst₂ (λ k d. find_order k d ≡ some row) (sym named) (sym here) r.existing in
        subst₃
          (λ k d c.
            Post (λ x w'. Leaves (λ _. PaysOnce k d c) d x w') NoClaim
              (pay_locked env row.status p row w2))
          named here (c2 ∙ c1)
          (pay_locked-Post env row p row.status w2 refl (subst Sound (sym here) s) existing
            (subst (λ d. find_payment row.id d ≡ some p) (sym same) billed))

-- Paying in a sound database either fails and leaves the tables as they were, or leaves a sound
-- database with every unit accounted for, in which exactly the paid orders have a successful payment;
-- and the provider has then taken money once if the order became paid, and not at all if it was paid
-- before or stays unpaid.
pub pay-PaysOnce :
    (env : Env) (user_id o : Uuid) (w : World)
    → Sound w.db
    → Post
        (λ _ w'. PaysOnce o w.db w.charges w'.db w'.charges)
        (λ _ w'. w'.db ≡ w.db)
        (Repository.pay env user_id o w)
unfolding Repository.pay
pay-PaysOnce env user_id o w s =
    within_tx_or_return-Post (λ _. PaysOnce o w.db w.charges) env (pay_order env user_id o) w
      λ w0 same same_charges.
        subst₂
          (λ d c.
            Post (λ x w'. Leaves (λ _. PaysOnce o d c) d x w') NoClaim (pay_order env user_id o w0))
          same same_charges (pay_order-Post env user_id o w0 (subst Sound (sym same) s))
