-- ===== src/Ledger/Rows.antt =====
-- The measures when one row is written.
use distributed_order_proces.Base.{
  ℕ, ◌≡◌, refl, some, List, [], ◌∷◌, arith, ◌==◌, if◌then◌else◌, inl, inr, Bool-cases, subst, ◌⊎◌,
  false, true, Option, none,
}
use distributed_order_proces.Base.Lists.{All, sum_by}
use distributed_order_proces.Base.Table.{find, replace, find-replace_self, find-replace_ne}
use distributed_order_proces.Database.Rows.{Uuid, ProductRow, OrderRow, OrderItemRow, Db}
use distributed_order_proces.Database.Keys.{find_product, is_some}
use distributed_order_proces.Ledger.Spec.{stock_in, stock_of, reserved_by, IsSoundItem}
use distributed_order_proces.Order.Queries.{one_row}
use distributed_order_proces.Database.Tx.{ok}

-- Writing the stock of one product.
pub stock_of-replace :
    (p : Uuid) (row : ProductRow) (s t : ℕ) (db : Db)
    → find_product row.id db ≡ some row
    → stock_in (
        find ProductRow.id p
          (replace ProductRow.id row.id (record row { stock = s; updated_at = t }) db.products))
      ≡ (if row.id == p then s else stock_of p db)
stock_of-replace p row s t db h = elim (Bool-cases (row.id == p)) [
  | inl same ↦
      let e : row.id ≡ p = ground arith in
      rw (same, ← e)
        (ground (
          arith,
          find-replace_self ProductRow.id row.id (record row { stock = s; updated_at = t })
              db.products {row = row} refl h,
        ))
  | inr other ↦ rw other (
      ground (
        arith,
        find-replace_ne ProductRow.id p row.id (record row { stock = s; updated_at = t })
            db.products refl,
      ))
]

-- The items keep their orders and what they reserve, if their orders stay live or dead.
pub items-congr :
    (os os' : List OrderRow) (p : Uuid) (items : List OrderItemRow)
    → All (IsSoundItem os) items
    → ((i : OrderItemRow)
        → IsSoundItem os i
        → (IsSoundItem os' i) × (reserved_by p os' i ≡ reserved_by p os i))
    → All (IsSoundItem os') items
      × (sum_by (reserved_by p os') items ≡ sum_by (reserved_by p os) items)
items-congr os os' p [] h k = (tt, refl)
items-congr os os' p (i ∷ items) h k =
    let (sound, same) = k i h.0 in
    let (sounds, sames) = items-congr os os' p items h.1 k in
    ((sound, sounds), omega (arith, same, sames))

-- A new order holds no item yet.
pub items-new_order :
    (row : OrderRow) (os : List OrderRow) (p : Uuid) (items : List OrderItemRow)
    → is_some (find OrderRow.id row.id os) ≡ false
    → All (IsSoundItem os) items
    → All (IsSoundItem (row ∷ os)) items
      × (sum_by (reserved_by p (row ∷ os)) items ≡ sum_by (reserved_by p os) items)
items-new_order row os p items fresh h =
    items-congr os (row ∷ os) p items h λ i s. new_order i s (Bool-cases (row.id == i.order_id))
  where
    new_order :
        (i : OrderItemRow)
        → IsSoundItem os i
        → ((row.id == i.order_id) ≡ true) ⊎ ((row.id == i.order_id) ≡ false)
        → IsSoundItem (row ∷ os) i × (reserved_by p (row ∷ os) i ≡ reserved_by p os i)
    new_order i s (inl same) =
        let e : row.id ≡ i.order_id = ground arith in
        let k : is_some (find OrderRow.id i.order_id os) ≡ false =
          subst (λ o. is_some (find OrderRow.id o os) ≡ false) e fresh in
        absurd (ground (arith, k, s.0))
    new_order i s (inr other) = rw other (s, refl)

-- A query for one row finds it, and writes nothing.
pub one_row-eq-ok :
    {A : Type 0} (db : Db) (o : Option A) (row : A) (db' : Db)
    → one_row db o ≡ ok (row, db')
    → (o ≡ some row) × (db' ≡ db)
one_row-eq-ok db none row db' h = cc
one_row-eq-ok db (some a) row db' h = ground arith
