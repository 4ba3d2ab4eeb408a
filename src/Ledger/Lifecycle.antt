-- ===== src/Ledger/Lifecycle.antt =====
-- Placing, cancelling and paying: what becomes of the rows that are there.
use distributed_order_proces.Base.{
  ◌≡◌, refl, sym, subst, List, ◌∙◌, ap, String, Bool, Bool-cases, inl, inr, true, false, some, not,
  ◌==◌, ltb, arith,
}
use mathlib.Core.Path.{subst₂}
use distributed_order_proces.Base.Table.{find-key, replace}
use distributed_order_proces.Base.Sort.{sort_by}
use distributed_order_proces.Base.Lists.{length}
use distributed_order_proces.Database.Rows.{
  Uuid, OrderStatus, PaymentStatus, ProductRow, OrderRow, PaymentRow, Db, is_pending, is_success,
}
use distributed_order_proces.Database.Keys.{find_order, find_payment}
use distributed_order_proces.Database.Tx.{
  Env, World, order_not_pending, order_items_unavailable, no_order_found, no_payment_found,
}
use distributed_order_proces.Database.Post.{
  Post, NoClaim, no_claim, returned, failed, bind-Post, guard-Post, rename-Post, Post-mono,
  within_tx-Post, within_tx_or_return-Post, Leaves,
}
use distributed_order_proces.Order.Model.{OrderItem, Order}
use distributed_order_proces.Order.Service.{withdraw_order, cancel_order}
use distributed_order_proces.Order.Stable.{Stocked, Placeable}
use distributed_order_proces.Order.Frame.{restore_items-Keeping}
use distributed_order_proces.Ledger.OrderRows.{
  Marked, lock_order-Post, get_items-Post, mark_order-Post,
}
use distributed_order_proces.Ledger.Settling.{Repaid, update_payment-Post, mark_paid-Post}
use distributed_order_proces.Ledger.Paying.{committed, lock_for_payment-Post, lock_payment-Post}
use distributed_order_proces.Ledger.Evolution.{
  Moves, Repays, ends, charged, Evolves, Evolves-refl, Evolves-trans, elsewhere-Evolves,
  add_order-Evolves, add_item-Evolves, add_payment-Evolves, end_order-Evolves, repay-Evolves,
  some-inj,
}
use distributed_order_proces.Payment.Repository.{
  record_charge, settle_order, charge_order, pay_locked, pay_order,
}
use distributed_order_proces.Payment.Provider.{charge}
use distributed_order_proces.Payment.Repository as PaymentRepository

pub Evolves-Placeable : (db0 : Db) → Placeable (λ db. Evolves db0 db)
Evolves-Placeable db0 = record {
  stocked = record {
    set_stock =
        λ row s t db found h. Evolves-trans h (elsewhere-Evolves _ db.users db.idempotency_keys db);
  };
  new_order = λ row db fresh h. Evolves-trans h (add_order-Evolves row db fresh);
  new_item = λ row db known h. Evolves-trans h (add_item-Evolves row db);
  new_payment = λ row db fresh h. Evolves-trans h (add_payment-Evolves row db fresh);
}

-- Only the products differ.
abbrev Restocked : Db → Db → Type 0
Restocked db0 db = record db0 { products = db.products } ≡ db

restock :
    (ps : List ProductRow) {a b : Db}
    → a ≡ b
    → record a { products = ps } ≡ record b { products = ps }
restock ps e = ap {A = Db} (λ d. record d { products = ps }) e

Restocked-Stocked : (db0 : Db) → Stocked (Restocked db0)
Restocked-Stocked db0 = record {
  set_stock = λ row s t db found h.
      restock (replace ProductRow.id row.id (record row { stock = s; updated_at = t }) db.products)
        h;
}

-- The status of an order that was pending is written.
ended-Evolves :
    (o : Uuid) (s : OrderStatus) (row : OrderRow) (db db' : Db)
    → is_pending s ≡ false
    → is_pending row.status ≡ true
    → Marked s o row db db'
    → Evolves db db'
ended-Evolves o s row db db' closed pending m = subst (Evolves db) m.written (
    end_order-Evolves o row m.now db m.existing m.id
      (subst (Moves row) (sym m.rest) (ends s m.now.updated_at pending closed)))

withdraw_order-Evolves :
    (env : Env) (user_id o : Uuid) (w : World)
    → Post (λ _ w'. Evolves w.db w'.db) NoClaim (withdraw_order env user_id o w)
unfolding withdraw_order
withdraw_order-Evolves env user_id o w =
    bind-Post (lock_order-Post env user_id o w) λ order w1 (row, converted, r).
      guard-Post _ (not (is_pending order.status)) order_not_pending w1 (no_claim _ _) λ pending.
        bind-Post (get_items-Post env o w1) λ items w2 (read, same).
          guard-Post _ (length items == 0) order_items_unavailable w2 (no_claim _ _) λ _.
            bind-Post
              (restore_items-Keeping (Restocked-Stocked w.db) env
                (sort_by OrderItem.product_id items) w2
                (subst (λ d. Restocked d w2.db) (same ∙ r.same) refl))
              λ _ w3 restocked.
                Post-mono (mark_order-Post env user_id o OrderStatus.cancelled w3) λ _ w4 (row', m).
                  let e : row ≡ row' =
                    some-inj (sym r.existing ∙ ap (λ d. find_order o d) restocked ∙ m.existing) in
                  let was_pending : is_pending row.status ≡ true =
                    ground (arith, pending, ap Order.status converted) in
                  Evolves-trans
                    (subst (Evolves w.db) restocked
                      (elsewhere-Evolves w3.db.products w.db.users w.db.idempotency_keys w.db))
                    (ended-Evolves o OrderStatus.cancelled row' w3.db w4.db refl
                      (subst (λ x. is_pending (OrderRow.status x) ≡ true) e was_pending) m)

pub cancel_order-Evolves :
    (env : Env) (user_id o : Uuid) (w : World)
    → Post (λ _ w'. Evolves w.db w'.db) (λ _ w'. w'.db ≡ w.db) (cancel_order env user_id o w)
unfolding cancel_order
cancel_order-Evolves env user_id o w =
    within_tx-Post (λ _ db. Evolves w.db db) env (withdraw_order env user_id o) w
      λ w0 same _.
        subst (λ d. Post (λ _ w'. Evolves d w'.db) NoClaim (withdraw_order env user_id o w0)) same
          (withdraw_order-Evolves env user_id o w0)

module _ (env : Env) (tx : String) (o : OrderRow) (p : PaymentRow) (w : World)
    (existing : find_order o.id w.db ≡ some o) (billed : find_payment o.id w.db ≡ some p)
    (pending : is_pending o.status ≡ true) (unpaid : is_success p.status ≡ false) where
  Repaid-Evolves :
      (s : PaymentStatus) (now : PaymentRow) (db' : Db)
      → Repaid s o.id now w.db db'
      → Evolves w.db db'
  Repaid-Evolves s now db' r = subst (Evolves w.db) r.written (
      repay-Evolves o.id p now w.db billed r.order (
        let e : r.old ≡ p = some-inj (sym r.existing ∙ billed) in
        let unpaid' : is_success r.old.status ≡ false =
          subst (λ x. is_success (PaymentRow.status x) ≡ false) (sym e) unpaid in
        subst (λ x. Repays x now) e
          (subst (Repays r.old) (sym r.rest)
            (charged s now.transaction_id now.updated_at unpaid'))))

  record_charge-Evolves :
      (success : Bool)
      → Post (λ r w'. (r.1 ≡ true) × Evolves w.db w'.db) NoClaim (record_charge env success tx o w)
  unfolding record_charge settle_order
  record_charge-Evolves false =
      bind-Post
        (rename-Post no_payment_found (λ _ _ _. no_claim _ _)
          (update_payment-Post env PaymentStatus.failed tx o.id w))
        λ now w1 (r, same).
          rw r.status_written (returned (refl, Repaid-Evolves PaymentStatus.failed now w1.db r))
  record_charge-Evolves true =
      bind-Post
        (rename-Post no_payment_found (λ _ _ _. no_claim _ _)
          (update_payment-Post env PaymentStatus.success tx o.id w))
        λ now w1 (r, same). rw r.status_written (
          bind-Post
            (rename-Post no_order_found (λ _ _ _. no_claim _ _) (mark_paid-Post env o.id w1))
            λ o' w2 ((row, m), same'). returned (
              refl,
              Evolves-trans (Repaid-Evolves PaymentStatus.success now w1.db r) (
                  ended-Evolves o.id OrderStatus.paid row w1.db w2.db refl
                    (let here : find_order o.id w1.db ≡ some o =
                        subst (λ d. find_order o.id d ≡ some o) r.written existing in
                      let e : o ≡ row = some-inj (sym here ∙ m.existing) in
                      subst (λ x. is_pending (OrderRow.status x) ≡ true) e pending)
                    m),
            ))

pay_locked-Evolves :
    (env : Env) (o : OrderRow) (p : PaymentRow) (status : OrderStatus) (w : World)
    → o.status ≡ status
    → find_order o.id w.db ≡ some o
    → find_payment o.id w.db ≡ some p
    → Post
        (λ r w'. Leaves (λ _ d _. Evolves w.db d) w.db r w')
        NoClaim
        (pay_locked env status p o w)
unfolding pay_locked charge_order charge
pay_locked-Evolves env o p OrderStatus.paid w e existing billed = returned (Evolves-refl w.db)
pay_locked-Evolves env o p OrderStatus.cancelled w e existing billed = failed (no_claim _ _)
pay_locked-Evolves env o p OrderStatus.pending w e existing billed =
    elim (Bool-cases (is_success p.status)) [
      | inl done ↦ rw done (returned (Evolves-refl w.db))
      | inr unpaid ↦ rw unpaid (
          Post-mono
            (record_charge-Evolves env (env.new_string w.tick) o p _ existing billed
              (ground (arith, e)) unpaid (ltb (env.draw w.tick) 80))
            λ r w' h. committed (λ _ d _. Evolves w.db d) w.db r w' h.0 h.1)
    ]

pay_order-Evolves :
    (env : Env) (user_id o : Uuid) (w : World)
    → Post (λ r w'. Leaves (λ _ d _. Evolves w.db d) w.db r w') NoClaim (pay_order env user_id o w)
unfolding pay_order
pay_order-Evolves env user_id o w =
    bind-Post (lock_for_payment-Post env user_id o w) λ row w1 (r, _).
      bind-Post (lock_payment-Post env row.id w1) λ p w2 (billed, same, _).
        let here : w2.db ≡ w.db = same ∙ r.same in
        let named = find-key OrderRow.id o w.db.orders r.existing in
        let existing : find_order row.id w2.db ≡ some row =
          subst₂ (λ k d. find_order k d ≡ some row) (sym named) (sym here) r.existing in
        subst
          (λ d.
            Post (λ x w'. Leaves (λ _ y _. Evolves d y) d x w') NoClaim
              (pay_locked env row.status p row w2))
          here
          (pay_locked-Evolves env row p row.status w2 refl existing
            (subst (λ d. find_payment row.id d ≡ some p) (sym same) billed))

pub pay-Evolves :
    (env : Env) (user_id o : Uuid) (w : World)
    → Post
        (λ _ w'. Evolves w.db w'.db)
        (λ _ w'. w'.db ≡ w.db)
        (PaymentRepository.pay env user_id o w)
unfolding PaymentRepository.pay
pay-Evolves env user_id o w =
    within_tx_or_return-Post (λ _ d _. Evolves w.db d) env (pay_order env user_id o) w
      λ w0 same _.
        subst
          (λ d.
            Post (λ r w'. Leaves (λ _ x _. Evolves d x) d r w') NoClaim
              (pay_order env user_id o w0))
          same (pay_order-Evolves env user_id o w0)
