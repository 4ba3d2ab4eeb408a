-- ===== src/Ledger/Demand.antt =====
-- What a request asks of the stock, and the conditions on which an order can be placed.
use distributed_order_proces.Base.{
  ◌≡◌, refl, sym, subst, ℕ, suc, zero, ◌<◌, ◌≤◌, ◌+◌, ◌*◌, ◌^◌, ◌%◌, Bool-cases, inl, inr, true,
  Option, none, some, List, [], ◌∷◌, arith, ◌==◌, ==_refl,
}
use distributed_order_proces.Base.Lists.{All, sum_by}
use distributed_order_proces.Base.Words.{add_int, int32, lt_int, int_of_int32, mul_int}
use distributed_order_proces.Database.Rows.{Uuid, Db, ProductRow, OrderItemRow, PaymentRow}
use distributed_order_proces.Database.Keys.{is_some, find_product, find_order}
use distributed_order_proces.Database.Tx.{World, Env}
use distributed_order_proces.Order.Model.{CreateOrderItemRequest}
use distributed_order_proces.Order.Service.{
  UuidMap, read, add_quantity, add_quantities, quantity_by_product, sorted_product_ids,
}
use distributed_order_proces.Order.Answered.{Stocked}
use distributed_order_proces.Ledger.Spec.{stock_of, stock_in, StatusesAgree}
use distributed_order_proces.Ledger.Statements.{amount_at}
use distributed_order_proces.Order.Totals.{items_total, keys_of}
use distributed_order_proces.Base.Table.{find}
use distributed_order_proces.Base.Sort.{All-sort_by}

-- The units of a product that a request asks for.
abbrev pub demand : Uuid → List CreateOrderItemRequest → ℕ
demand id items = sum_by (λ i. amount_at i.product_id i.quantity id) items

-- The map of quantities holds the demand, on 64 bits.
add_quantity-read :
    (id k q : ℕ) (m : UuidMap)
    → read (add_quantity k q m) id % 2 ^ 64 ≡ (read m id + amount_at k q id) % 2 ^ 64
unfolding read add_quantity add_int
add_quantity-read id k q [] = ground arith
add_quantity-read id k q ((j, v) ∷ m) = ground (arith, add_quantity-read id k q m)

add_quantities-read :
    (id : ℕ) (m : UuidMap) (items : List CreateOrderItemRequest)
    → read (add_quantities m items) id % 2 ^ 64 ≡ (read m id + demand id items) % 2 ^ 64
unfolding add_quantities
add_quantities-read id m [] = omega arith
add_quantities-read id m (i ∷ items) = omega (
  arith,
  add_quantities-read id (add_quantity i.product_id i.quantity m) items,
  add_quantity-read id i.product_id i.quantity m,
)

-- Every key of the map is a product of the request.
All-keys_add :
    (P : Uuid → Type 0) (id q : ℕ) (m : UuidMap)
    → P id
    → All P (keys_of m)
    → All P (keys_of (add_quantity id q m))
unfolding add_quantity
All-keys_add P id q [] p h = (p, tt)
All-keys_add P id q ((k, v) ∷ m) p h = elim (Bool-cases (k == id)) [
  | inl same ↦ rw same h
  | inr other ↦ rw other (h.0, All-keys_add P id q m p h.1)
]

All-keys :
    (P : Uuid → Type 0) (m : UuidMap) (items : List CreateOrderItemRequest)
    → All P (keys_of m)
    → All (λ i. P i.product_id) items
    → All P (keys_of (add_quantities m items))
unfolding add_quantities
All-keys P m [] h k = h
All-keys P m (i ∷ items) h k =
    All-keys P (add_quantity i.product_id i.quantity m) items
      (All-keys_add P i.product_id i.quantity m k.0 h) k.1

-- No row of the tables that an order writes has an id that the server will draw.
pub record Fresh (env : Env) (w : World) : Type 0 where
  pub orders : (n : ℕ) → w.tick ≤ n → find_order (env.gen_random_uuid n) w.db ≡ none
  pub items :
      (n : ℕ) → w.tick ≤ n → find OrderItemRow.id (env.gen_random_uuid n) w.db.order_items ≡ none
  pub payments :
      (n : ℕ) → w.tick ≤ n → find PaymentRow.id (env.gen_random_uuid n) w.db.payments ≡ none

pub Fresh-later :
    (env : Env) (w w' : World) → w'.db ≡ w.db → w.tick ≤ w'.tick → Fresh env w → Fresh env w'
Fresh-later env w w' same later f = record {
  orders = λ n k.
      subst (λ d. find_order (env.gen_random_uuid n) d ≡ none) (sym same)
        (f.orders n (omega (arith, k, later)));
  items = λ n k.
      subst (λ d. find OrderItemRow.id (env.gen_random_uuid n) (Db.order_items d) ≡ none) (sym same)
        (f.items n (omega (arith, k, later)));
  payments = λ n k.
      subst (λ d. find PaymentRow.id (env.gen_random_uuid n) (Db.payments d) ≡ none) (sym same)
        (f.payments n (omega (arith, k, later)));
}

-- An item that can be ordered.
pub record IsOrderable (db : Db) (i : CreateOrderItemRequest) : Type 0 where
  pub known : is_some (find_product i.product_id db) ≡ true
  pub positive : 0 < i.quantity
  pub low : i.quantity < 2 ^ 31

-- What the loop over the items needs.
pub record Ready (env : Env) (o : Uuid) (prices : UuidMap) (items : List CreateOrderItemRequest)
    (w : World) : Type 0 where
  pub order : is_some (find_order o w.db) ≡ true
  pub bounded : (p : Uuid) → stock_of p w.db < 2 ^ 31
  pub enough : (p : Uuid) → demand p items ≤ stock_of p w.db
  pub fresh :
      (n : ℕ) → w.tick ≤ n → find OrderItemRow.id (env.gen_random_uuid n) w.db.order_items ≡ none
  pub orderable :
      All
        (λ i.
          (0 < i.quantity)
          × (i.quantity < 2 ^ 31)
          × (read prices i.product_id * i.quantity < 2 ^ 63))
        items

pub product_of-stock :
    (o : Option ProductRow) (q : ℕ)
    → 0 < q
    → q ≤ stock_in o
    → (row : ProductRow) × (o ≡ some row) × (q ≤ row.stock)
product_of-stock none q p h = absurd (omega (arith, p, h))
product_of-stock (some row) q p h = (row, refl, h)

pub factor_low : (p q n : ℕ) → 0 < q → p * q < n → p < n
factor_low p zero n pos h = absurd (omega (arith, pos))
factor_low p (suc k) n pos h = omega (arith, h)

pub int32-low : (q : ℕ) → q < 2 ^ 31 → int32 q ≡ q
unfolding int32
int32-low q h = omega (arith, h)

pub mul_int-low : (p q : ℕ) → p * q < 2 ^ 63 → mul_int p q < 2 ^ 63
unfolding mul_int
mul_int-low p q h = omega (arith, h)

pub amount_at_self : (id q : ℕ) → amount_at id q id ≡ q
amount_at_self id q = rw (==_refl id) refl

-- The map asks for no more than there is.
stocked_of :
    (db : Db) (items : List CreateOrderItemRequest) (id : Uuid) (o : Option ProductRow)
    → find_product id db ≡ o
    → is_some o ≡ true
    → stock_in o < 2 ^ 31
    → demand id items ≤ stock_in o
    → Stocked (quantity_by_product items) db id
unfolding lt_int int_of_int32 quantity_by_product read
stocked_of db items id none e known low enough = cc
stocked_of db items id (some row) e known low enough =
    (row, e, ground (arith, low, enough, add_quantities-read id [] items))

pub no_bill : (p : Option PaymentRow) → StatusesAgree none p → p ≡ none
no_bill none h = refl
no_bill (some p) h = absurd h

All-stocked :
    (db : Db) (all items : List CreateOrderItemRequest)
    → ((p : Uuid) → stock_of p db < 2 ^ 31)
    → ((p : Uuid) → demand p all ≤ stock_of p db)
    → All (IsOrderable db) items
    → All (λ i. Stocked (quantity_by_product all) db i.product_id) items
All-stocked db all [] low enough h = tt
All-stocked db all (i ∷ items) low enough h = (
  stocked_of db all i.product_id (find_product i.product_id db) refl h.0.known (low i.product_id)
      (enough i.product_id),
  All-stocked db all items low enough h.1,
)

pub ids_stocked :
    (db : Db) (items : List CreateOrderItemRequest)
    → ((p : Uuid) → stock_of p db < 2 ^ 31)
    → ((p : Uuid) → demand p items ≤ stock_of p db)
    → All (IsOrderable db) items
    → All (Stocked (quantity_by_product items) db) (sorted_product_ids (quantity_by_product items))
unfolding sorted_product_ids quantity_by_product
ids_stocked db items low enough h =
    let m = add_quantities [] items in
    All-sort_by (λ id. id) (Stocked m db) (keys_of m)
      (All-keys (Stocked m db) [] items tt (All-stocked db items items low enough h))

-- The cost of each item is in range.
pub costs_low :
    (db : Db) (price : Uuid → ℕ) (prices : UuidMap) (n : ℕ) (items : List CreateOrderItemRequest)
    → All (IsOrderable db) items
    → All (λ i. read prices i.product_id ≡ price i.product_id) items
    → items_total price items < n
    → All
        (λ i.
          (0 < i.quantity) × (i.quantity < 2 ^ 31) × (read prices i.product_id * i.quantity < n))
        items
costs_low db price prices n [] h k low = tt
costs_low db price prices n (i ∷ items) h k low = (
  (h.0.positive, h.0.low, subst (λ x. x * i.quantity < n) (sym k.0) (omega (arith, low))),
  costs_low db price prices n items h.1 k.1 (omega (arith, low)),
)
