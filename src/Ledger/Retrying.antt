-- ===== src/Ledger/Retrying.antt =====
-- A payment whose transaction is lost after the charge, and sent again.
use distributed_order_proces.Base.{
  ◌≡◌, refl, sym, subst, ◌∙◌, ap, ◌+◌, suc, Bool, Bool-cases, inl, inr, true, false, some, String,
  ltb, ◌∷◌, List, arith,
}
use distributed_order_proces.Database.Rows.{Uuid, OrderRow, PaymentRow, Db, is_success, OrderStatus}
use distributed_order_proces.Database.Keys.{find_order, find_payment}
use distributed_order_proces.Database.Tx.{
  Env, World, Result, ok, err, Error, ChargeRecord, finish_or_return, statement, Clock,
  within_tx_or_return, finish_tx, clock_at, no_order_found, no_payment_found, payment_lock,
  order_lock,
}
use distributed_order_proces.Database.Post.{
  Post, returned, failed, Runs, statement-Post, rename-Post, bind-Post, Post-ok,
}
use distributed_order_proces.Ledger.Spec.{Sound, successes, paid_count}
use distributed_order_proces.Ledger.Paying.{pay-PaysOnce, paid_count_of_find}
use distributed_order_proces.Payment.Model.{Payment, Order}
use distributed_order_proces.Payment.Repository.{
  record_charge, settle_order, charge_order, pay_locked, pay_order,
}
use distributed_order_proces.Payment.Provider.{charge}
use distributed_order_proces.Payment.Queries.{
  query_lock_order_for_payment, query_lock_payment_for_update, query_update_payment_status,
  query_mark_order_as_paid,
}
use distributed_order_proces.Order.Queries.{owned_by}
use distributed_order_proces.Payment.Repository

-- An order that can be paid: its user's, pending, with a payment that has not succeeded.
pub record IsPayable (user_id o : Uuid) (db : Db) : Type 0 where
  pub order : OrderRow
  pub payment : PaymentRow
  pub existing : find_order o db ≡ some order
  pub owner : order.user_id ≡ user_id
  pub pending : order.status ≡ OrderStatus.pending
  pub billed : find_payment order.id db ≡ some payment
  pub unpaid : is_success payment.status ≡ false

-- The calls of `Pay` up to the charge are answered, and the provider takes the money.
pub record Charges (env : Env) (w : World) : Type 0 where
  pub begins : env.fails w.tick ≡ false
  pub locks_order : env.fails (suc w.tick) ≡ false
  pub locks_payment : env.fails (suc (suc w.tick)) ≡ false
  pub takes : ltb (env.draw (suc (suc (suc w.tick)))) 80 ≡ true

-- The log of the provider after a call, whatever it answered.
abbrev Logged : {A : Type 0} → List ChargeRecord → Result A × World → Type 0
Logged charges r = Post (λ _ w'. w'.charges ≡ charges) (λ _ w'. w'.charges ≡ charges) r

Runs-Logged :
    {A : Type 0} (w : World) (s : Result (A × Db))
    → Runs {A = A} (λ _ w'. w'.charges ≡ w.charges) (λ _ w'. w'.charges ≡ w.charges) w s
Runs-Logged w (ok (a, db)) = refl
Runs-Logged w (err e) = refl

statement-Logged :
    {A : Type 0} (env : Env) (run : Clock → Db → Result (A × Db)) (w : World)
    → Logged w.charges (statement env run w)
statement-Logged env run w =
    statement-Post env run w refl (Runs-Logged w (run (clock_at env w) w.db))

settle_order-Logged :
    (env : Env) (p : PaymentRow) (o : OrderRow) (w : World)
    → Logged w.charges (settle_order env p o w)
unfolding settle_order query_mark_order_as_paid
settle_order-Logged env p o w = elim (Bool-cases (is_success p.status)) [
  | inl success ↦ rw success (rename-Post no_order_found (λ _ _ k. k) (statement-Logged env _ w))
  | inr other ↦ rw other (returned refl)
]

record_charge-Logged :
    (env : Env) (success : Bool) (tx : String) (o : OrderRow) (w : World)
    → Logged w.charges (record_charge env success tx o w)
unfolding record_charge query_update_payment_status
record_charge-Logged env success tx o w =
    bind-Post (rename-Post no_payment_found (λ _ _ k. k) (statement-Logged env _ w)) (λ p w1 e.
      bind-Post (subst (λ c. Logged c (settle_order env p o w1)) e (settle_order-Logged env p o w1))
        (λ _ w2 k. returned k))

Logged-charges :
    {A : Type 0} {charges : List ChargeRecord} {r : Result A × World}
    → Logged charges r
    → r.1.charges ≡ charges
Logged-charges (returned h) = h
Logged-charges (failed h) = h

finish_or_return-charges :
    {A : Type 0} (env : Env) (db : Db) (r : Result (A × Bool) × World)
    → (finish_or_return env db r).1.charges ≡ r.1.charges
unfolding finish_or_return finish_tx
finish_or_return-charges env db (err e, w) = refl
finish_or_return-charges env db (ok (a, false), w) = refl
finish_or_return-charges env db (ok (a, true), w) = elim (Bool-cases (env.fails w.tick)) [
  | inl lost ↦ rw lost refl
  | inr done ↦ rw done refl
]

pub owned_by-own :
    (user_id : Uuid) (row : OrderRow)
    → row.user_id ≡ user_id
    → owned_by user_id (some row) ≡ some row
owned_by-own user_id row e = ground (arith, e)

-- The world in which the charge is written down.
abbrev pub charged_world : Env → Uuid → Uuid → PaymentRow → Bool → World → World
charged_world env o order_id p success w = record w {
  locks = payment_lock order_id ∷ order_lock o ∷ w.locks;
  charges =
      record {
        amount = p.amount;
        success = success;
        transaction_id = env.new_string (suc (suc w.tick));
      }
      ∷ w.charges;
  tick = suc (suc (suc w.tick));
}

pay_order-successes :
    (env : Env) (user_id o : Uuid) (w : World)
    → IsPayable user_id o w.db
    → env.fails w.tick ≡ false
    → env.fails (suc w.tick) ≡ false
    → ltb (env.draw (suc (suc w.tick))) 80 ≡ true
    → successes (pay_order env user_id o w).1.charges ≡ 1 + successes w.charges
unfolding pay_order pay_locked charge_order charge query_lock_order_for_payment
    query_lock_payment_for_update statement
pay_order-successes env user_id o w p first second takes =
    rw
      (
        first,
        p.existing,
        owned_by-own user_id p.order p.owner,
        second,
        p.billed,
        p.pending,
        p.unpaid,
        takes,
      )
      (ap successes (
        Logged-charges (
          record_charge-Logged env true _ (record p.order { status = OrderStatus.pending })
            (charged_world env o p.order.id p.payment true w))))

-- The log has one more success after a payment that got as far as the charge.
pay-successes :
    (env : Env) (user_id o : Uuid) (w : World)
    → IsPayable user_id o w.db
    → Charges env w
    → successes (Repository.pay env user_id o w).1.charges ≡ 1 + successes w.charges
unfolding Repository.pay within_tx_or_return
pay-successes env user_id o w p c = rw c.begins (
    ap successes (finish_or_return-charges env w.db (pay_order env user_id o _))
    ∙ pay_order-successes env user_id o _ p c.locks_order c.locks_payment c.takes)

failed-Unchanged :
    {A : Type 0} {P : A → World → Type 0} {db : Db} {r : Result A × World} (e : Error) (w : World)
    → Post P (λ _ w'. w'.db ≡ db) r
    → r ≡ (err e, w)
    → w.db ≡ db
failed-Unchanged e w (returned h) k = cc
failed-Unchanged e w (failed h) k = let same = ap (λ x. World.db (x.1)) k in sym same ∙ h

-- If `Pay` takes the money for an order that can be paid and then fails, the tables are as they were,
-- and if it is called again and the order is then paid, the provider has taken the money twice.
pub pay-ChargesTwice :
    (env : Env) (user_id o : Uuid) (w w1 w2 : World) (e : Error) (r : Payment × Order)
    → Sound w.db
    → IsPayable user_id o w.db
    → Charges env w
    → Repository.pay env user_id o w ≡ (err e, w1)
    → Repository.pay env user_id o w1 ≡ (ok r, w2)
    → paid_count o w2.db ≡ 1
    → (w1.db ≡ w.db) × (successes w2.charges ≡ 2 + successes w.charges)
pay-ChargesTwice env user_id o w w1 w2 e r s p c lost sent paid =
    let same : w1.db ≡ w.db = failed-Unchanged e w1 (pay-PaysOnce env user_id o w s) lost in
    let once = Post-ok r w2 (pay-PaysOnce env user_id o w1 (subst Sound (sym same) s)) sent in
    let unpaid : paid_count o w1.db ≡ 0 =
      ground
        (arith, ap (paid_count o) same ∙ paid_count_of_find o p.order w.db p.existing, p.pending) in
    let first : successes w1.charges ≡ 1 + successes w.charges =
      sym (ap (λ x. successes (World.charges (x.1))) lost) ∙ pay-successes env user_id o w p c in
    (same, omega (arith, once.1, unpaid, first, paid))
