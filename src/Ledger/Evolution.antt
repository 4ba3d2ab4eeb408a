-- ===== src/Ledger/Evolution.antt =====
-- How the rows of orders, order items and payments may change over time.
use distributed_order_proces.Base.{
  ◌≡◌, refl, sym, subst, ◌∙◌, ap, String, Bool-cases, inl, inr, true, false, Option, some, List, [],
  ◌∷◌, ◌++◌, ◌==◌, arith,
}
use mathlib.Core.List.{append_assoc}
use distributed_order_proces.Base.Table.{find, replace, find-replace_self, find-replace_ne}
use distributed_order_proces.Database.Rows.{
  Uuid, Time, OrderStatus, PaymentStatus, UserRow, ProductRow, IdempotencyKeyRow, OrderRow,
  OrderItemRow, PaymentRow, Db, is_pending, is_success,
}
use distributed_order_proces.Database.Keys.{is_some, find_order, find_payment}

-- An order leaves `pending` once; nothing else of it changes but the time of the change.
pub data Moves (r : OrderRow) : OrderRow → Type 0 where
  stays : Moves r r
  ends :
      (s : OrderStatus) (t : Time)
      → is_pending r.status ≡ true
      → is_pending s ≡ false
      → Moves r (record r { status = s; updated_at = t })

-- A payment changes its status, its transaction and its time, and only until it succeeded.
pub data Repays (p : PaymentRow) : PaymentRow → Type 0 where
  keeps : Repays p p
  charged :
      (s : PaymentStatus) (tx : Option String) (t : Time)
      → is_success p.status ≡ false
      → Repays p (record p { status = s; transaction_id = tx; updated_at = t })

pub Moves-trans : {a b c : OrderRow} → Moves a b → Moves b c → Moves a c
Moves-trans stays k = k
Moves-trans (ends s t before after) stays = ends s t before after
Moves-trans (ends s t before after) (ends s' t' before' after') =
    absurd (ground (arith, after, before'))

pub Repays-trans : {a b c : PaymentRow} → Repays a b → Repays b c → Repays a c
Repays-trans keeps k = k
Repays-trans (charged s tx t h) keeps = charged s tx t h
Repays-trans (charged s tx t h) (charged s' tx' t' h') = charged s' tx' t' h

-- No order and no payment is lost, and each has changed as above; order items are only added.
pub record Evolves (db db' : Db) : Type 0 where
  pub orders :
      (o : Uuid) (row : OrderRow)
      → find_order o db ≡ some row
      → (row' : OrderRow) × (find_order o db' ≡ some row') × Moves row row'
  pub payments :
      (o : Uuid) (row : PaymentRow)
      → find_payment o db ≡ some row
      → (row' : PaymentRow) × (find_payment o db' ≡ some row') × Repays row row'
  pub items : (added : List OrderItemRow) × (db'.order_items ≡ added ++ db.order_items)

pub Evolves-refl : (db : Db) → Evolves db db
Evolves-refl db = record {
  orders = λ o row e. (row, e, stays);
  payments = λ o row e. (row, e, keeps);
  items = ([], refl);
}

pub Evolves-trans : {a b c : Db} → Evolves a b → Evolves b c → Evolves a c
Evolves-trans {a} h k = record {
  orders = λ o row e.
      let (row', e', m) = h.orders o row e in
      let (row'', e'', n) = k.orders o row' e' in (row'', e'', Moves-trans m n);
  payments = λ o row e.
      let (row', e', m) = h.payments o row e in
      let (row'', e'', n) = k.payments o row' e' in (row'', e'', Repays-trans m n);
  items =
      let (more, e) = h.items in
      let (yet, e') = k.items in
      (yet ++ more, e' ∙ ap (λ l. yet ++ l) e ∙ sym (append_assoc yet more a.order_items));
}

-- Products, users and keys do not matter.
pub elsewhere-Evolves :
    (ps : List ProductRow) (us : List UserRow) (ks : List IdempotencyKeyRow) (db : Db)
    → Evolves db (record db { products = ps; users = us; idempotency_keys = ks })
elsewhere-Evolves ps us ks db = record {
  orders = λ o row e. (row, e, stays);
  payments = λ o row e. (row, e, keeps);
  items = ([], refl);
}

pub add_order-Evolves :
    (row : OrderRow) (db : Db)
    → is_some (find_order row.id db) ≡ false
    → Evolves db (record db { orders = row ∷ db.orders })
add_order-Evolves row db fresh = record {
  orders = λ o old e. elim (Bool-cases (row.id == o)) [
    | inl same ↦ absurd (ground (arith, fresh, e))
    | inr other ↦ (old, rw other e, stays)
  ];
  payments = λ o p e. (p, e, keeps);
  items = ([], refl);
}

pub add_item-Evolves :
    (row : OrderItemRow) (db : Db) → Evolves db (record db { order_items = row ∷ db.order_items })
add_item-Evolves row db = record {
  orders = λ o old e. (old, e, stays);
  payments = λ o p e. (p, e, keeps);
  items = (row ∷ [], refl);
}

pub add_payment-Evolves :
    (row : PaymentRow) (db : Db)
    → is_some (find_payment row.order_id db) ≡ false
    → Evolves db (record db { payments = row ∷ db.payments })
add_payment-Evolves row db fresh = record {
  orders = λ o old e. (old, e, stays);
  payments = λ o p e. elim (Bool-cases (row.order_id == o)) [
    | inl same ↦ absurd (ground (arith, fresh, e))
    | inr other ↦ (p, rw other e, keeps)
  ];
  items = ([], refl);
}

pub some-inj : {A : Type 0} {a b : A} → some a ≡ some b → a ≡ b
some-inj e = cc

pub end_order-Evolves :
    (o : Uuid) (row now : OrderRow) (db : Db)
    → find_order o db ≡ some row
    → now.id ≡ o
    → Moves row now
    → Evolves db (record db { orders = replace OrderRow.id o now db.orders })
end_order-Evolves o row now db found id m = record {
  orders = λ k old old_here. elim (Bool-cases (k == o)) [
    | inl same ↦
        let e : o ≡ k = ground arith in
        let here : find_order k db ≡ some row = subst (λ j. find_order j db ≡ some row) e found in
        let now_here = find-replace_self OrderRow.id o now db.orders {row = row} id found in
        (
          now,
          subst (λ j. find OrderRow.id j (replace OrderRow.id o now db.orders) ≡ some now) e
              now_here,
          subst (λ r. Moves r now) (some-inj (sym here ∙ old_here)) m,
        )
    | inr other ↦
        (old, find-replace_ne OrderRow.id k o now db.orders id (ground arith) ∙ old_here, stays)
  ];
  payments = λ o p e. (p, e, keeps);
  items = ([], refl);
}

pub repay-Evolves :
    (o : Uuid) (row now : PaymentRow) (db : Db)
    → find_payment o db ≡ some row
    → now.order_id ≡ o
    → Repays row now
    → Evolves db (record db { payments = replace PaymentRow.order_id o now db.payments })
repay-Evolves o row now db found id m = record {
  orders = λ o old e. (old, e, stays);
  payments = λ k old old_here. elim (Bool-cases (k == o)) [
    | inl same ↦
        let e : o ≡ k = ground arith in
        let here : find_payment k db ≡ some row =
          subst (λ j. find_payment j db ≡ some row) e found in
        let now_here =
          find-replace_self PaymentRow.order_id o now db.payments {row = row} id found in
        (
          now,
          subst
              (λ j.
                find PaymentRow.order_id j (replace PaymentRow.order_id o now db.payments)
                ≡ some now)
              e now_here,
          subst (λ r. Repays r now) (some-inj (sym here ∙ old_here)) m,
        )
    | inr other ↦ (
      old,
      find-replace_ne PaymentRow.order_id k o now db.payments id (ground arith) ∙ old_here,
      keeps,
    )
  ];
  items = ([], refl);
}
