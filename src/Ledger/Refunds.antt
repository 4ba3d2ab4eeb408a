-- ===== src/Ledger/Refunds.antt =====
-- What a cancelled order gives back: the loop of `CancelOrder` and the items of the order.
use distributed_order_proces.Base.{
  arith, refl, [], List, ℕ, Option, if◌then◌else◌, ◌<◌, map, ◌≡◌, ◌==◌, ◌∷◌, ◌^◌, some, ◌&&◌, ◌+◌,
  ◌∙◌, Bool-cases, true, inl, inr, none, subst, sym,
}
use distributed_order_proces.Database.Rows.{
  Uuid, OrderRow, OrderItemRow, Db, PaymentRow, is_pending, OrderStatus,
}
use distributed_order_proces.Order.Model.{OrderItem}
use distributed_order_proces.Order.Service.{restore_items}
use distributed_order_proces.Base.Words.{int32, int_of_int32}
use distributed_order_proces.Order.Store.{increase_product_stock, order_item_from_sqlc}
use distributed_order_proces.Base.Table.{find, replace, find-replace_self, find-replace_ne}
use distributed_order_proces.Ledger.Statements.{amount_at, SameOrders, Restored, increase-Post}
use distributed_order_proces.Database.Tx.{Env, World, product_not_found}
use distributed_order_proces.Base.Lists.{All, filter, sum_by}
use distributed_order_proces.Ledger.Spec.{stock_of, IsSoundItem, StatusesAgree, reserved_by}
use distributed_order_proces.Database.Post.{
  Post, NoClaim, returned, bind-Post, guard-Post, no_claim, Post-mono,
}
use distributed_order_proces.Ledger.Placing.{lock_product-Post}

-- The units of a product that an item of an order holds.
abbrev pub held_by : Uuid → Uuid → OrderItemRow → ℕ
held_by o p i = if i.order_id == o && i.product_id == p then i.quantity else 0

abbrev pub refund : Uuid → OrderItem → ℕ
refund p i = amount_at i.product_id (int32 i.quantity) p

-- All the items have been given back to the stock.
pub record Refunded (items : List OrderItem) (db db' : Db) : Type 0 where
  pub rest : SameOrders db db'
  pub refunded : (p : Uuid) → stock_of p db' ≡ stock_of p db + sum_by (refund p) items
  pub bounded : (p : Uuid) → stock_of p db' < 2 ^ 31

Refunded-cons :
    (item : OrderItem) (items : List OrderItem) (a b c : Db)
    → Restored item.product_id (int32 item.quantity) a b
    → Refunded items b c
    → Refunded (item ∷ items) a c
Refunded-cons item items a b c r f = record {
  rest = record {
    orders = f.rest.orders ∙ r.rest.orders;
    order_items = f.rest.order_items ∙ r.rest.order_items;
    payments = f.rest.payments ∙ r.rest.payments;
  };
  refunded = λ p. omega (arith, f.refunded p, r.restored p);
  bounded = f.bounded;
}

pub restore_items-Post :
    (env : Env) (items : List OrderItem) (w : World)
    → ((p : Uuid) → stock_of p w.db < 2 ^ 31)
    → All (λ i. int32 i.quantity < 2 ^ 31) items
    → Post (λ _ w'. Refunded items w.db w'.db) NoClaim (restore_items env items w)
unfolding restore_items increase_product_stock
restore_items-Post env [] w bound h = returned (record {
  rest = record { orders = refl; order_items = refl; payments = refl };
  refunded = λ p. omega arith;
  bounded = bound;
})
restore_items-Post env (item ∷ items) w bound h =
    bind-Post (lock_product-Post env item.product_id w) λ _ w1 same.
      bind-Post
        (increase-Post env (int32 item.quantity) item.product_id w1 h.0
          (λ p. subst (λ d. stock_of p d < 2 ^ 31) (sym same) (bound p)))
        λ n w2 give. guard-Post _ (n == 0) product_not_found w2 (no_claim _ _) λ some_rows.
          let r =
            subst (λ d. Restored item.product_id (int32 item.quantity) d w2.db) same
              (give (ground arith)) in
          Post-mono (restore_items-Post env items w2 r.bounded h.1)
            (λ _ w3 f. Refunded-cons item items w.db w2.db w3.db r f)

-- The items as they are read back: their quantities survive the trip through `int`.
int32-int_of_int32 : (q : ℕ) → q < 2 ^ 31 → int32 (int_of_int32 q) ≡ q
unfolding int32 int_of_int32
int32-int_of_int32 q h = ground arith

abbrev pub items_of : Uuid → List OrderItemRow → List OrderItem
items_of o rows = map order_item_from_sqlc (filter (λ i. i.order_id == o) rows)

pub items_of-fit :
    (o : Uuid) (os : List OrderRow) (rows : List OrderItemRow)
    → All (IsSoundItem os) rows
    → All (λ i. int32 i.quantity < 2 ^ 31) (items_of o rows)
items_of-fit o os [] h = tt
items_of-fit o os (row ∷ rows) h = elim (Bool-cases (row.order_id == o)) [
  | inl mine ↦
      rw mine (omega (arith, int32-int_of_int32 row.quantity h.0.2), items_of-fit o os rows h.1)
  | inr other ↦ rw other (items_of-fit o os rows h.1)
]

pub items_of-refund :
    (o p : Uuid) (os : List OrderRow) (rows : List OrderItemRow)
    → All (IsSoundItem os) rows
    → sum_by (refund p) (items_of o rows) ≡ sum_by (held_by o p) rows
items_of-refund o p os [] h = refl
items_of-refund o p os (row ∷ rows) h =
    ground (arith, items_of-refund o p os rows h.1, int32-int_of_int32 row.quantity)

-- Once its order is cancelled an item reserves nothing, and it reserved what it holds.
module _ (o p : Uuid) (row row' : OrderRow) (os : List OrderRow)
    (existing : find OrderRow.id o os ≡ some row) (pending : is_pending row.status ≡ true)
    (id : row'.id ≡ o) (cancelled : row'.status ≡ OrderStatus.cancelled) where
  cancelled_item :
      (i : OrderItemRow)
      → IsSoundItem os i
      → IsSoundItem (replace OrderRow.id o row' os) i
        × (reserved_by p (replace OrderRow.id o row' os) i + held_by o p i ≡ reserved_by p os i)
  cancelled_item i s = elim (Bool-cases (i.order_id == o)) [
    | inl mine ↦
        let e : i.order_id ≡ o = ground arith in
        let now : find OrderRow.id i.order_id (replace OrderRow.id o row' os) ≡ some row' =
          subst (λ k. find OrderRow.id k (replace OrderRow.id o row' os) ≡ some row') (sym e)
            (find-replace_self OrderRow.id o row' os {row = row} id existing) in
        let before : find OrderRow.id i.order_id os ≡ some row =
          subst (λ k. find OrderRow.id k os ≡ some row) (sym e) existing in
        rw (now, before, cancelled, mine) ((refl, s.1, s.2), ground arith)
    | inr other ↦
        let same = find-replace_ne OrderRow.id i.order_id o row' os id (ground arith) in
        rw (same, other) (s, ground arith)
  ]

  pub cancelled_items :
      (rows : List OrderItemRow)
      → All (IsSoundItem os) rows
      → All (IsSoundItem (replace OrderRow.id o row' os)) rows
        × (sum_by (reserved_by p (replace OrderRow.id o row' os)) rows + sum_by (held_by o p) rows
            ≡ sum_by (reserved_by p os) rows)
  cancelled_items [] h = (tt, refl)
  cancelled_items (i ∷ rows) h =
      let (sound, same) = cancelled_item i h.0 in
      let (sounds, sames) = cancelled_items rows h.1 in
      ((sound, sounds), omega (arith, same, sames))

pub cancelled_agrees :
    (row row' : OrderRow) (pay : Option PaymentRow)
    → is_pending row.status ≡ true
    → row'.status ≡ OrderStatus.cancelled
    → StatusesAgree (some row) pay
    → StatusesAgree (some row') pay
cancelled_agrees row row' none h e k = ground arith
cancelled_agrees row row' (some pay) h e k = ground arith
