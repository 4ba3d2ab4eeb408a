-- ===== src/Product/Shop.antt =====
-- The invariants of the shop, and what an edit of one product leaves alone.
use distributed_order_proces.Base.{◌≡◌, ◌≢◌}
use distributed_order_proces.Database.Rows.{Uuid, Db}
use distributed_order_proces.Database.Keys.{find_product}
use distributed_order_proces.Database.Tx.{World, Result}
use distributed_order_proces.Database.Post.{Post, returned, failed}
use distributed_order_proces.Ledger.Spec.{Sound}
use distributed_order_proces.Product.Repository.{on_unique_violation}
use distributed_order_proces.Product.Catalog.{Catalog}

-- No row of any table differs but the product with an id.
abbrev pub SameOthers : Uuid → Db → Db → Type 0
SameOthers id db db' =
    ((j : Uuid) → j ≢ id → find_product j db' ≡ find_product j db)
    × (db'.orders ≡ db.orders)
    × (db'.order_items ≡ db.order_items)
    × (db'.payments ≡ db.payments)
    × (db'.users ≡ db.users)
    × (db'.idempotency_keys ≡ db.idempotency_keys)

-- The invariants of the shop.
pub record IsShop (db : Db) : Type 0 where
  pub sound : Sound db
  pub catalog : Catalog db

pub unique_violation-Post :
    {A : Type 0} {P : A → World → Type 0} {db : Db} {r : Result A × World}
    → Post P (λ _ w'. w'.db ≡ db) r
    → Post P (λ _ w'. w'.db ≡ db) (on_unique_violation r)
unique_violation-Post (returned h) = returned h
unique_violation-Post (failed h) = failed h
