-- ===== src/Ledger/Prices.antt =====
-- What the order code reads of the catalog's prices, and sums up.
use distributed_order_proces.Base.{
  refl, ℕ, ◌+◌, ◌*◌, ◌%◌, ◌^◌, ◌<◌, ◌≡◌, List, [], ◌∷◌, Option, none, some, ◌==◌, arith, Bool-cases,
  inl, inr, ◌∙◌, ap, ==_refl,
}
use distributed_order_proces.Base.Lists.{All, sum_by}
use distributed_order_proces.Base.Words.{add_int, mul_int, lt_int}
use distributed_order_proces.Database.Rows.{Uuid, ProductRow, Db}
use distributed_order_proces.Database.Keys.{find_product}
use distributed_order_proces.Database.Tx.{
  World, Env, ok, product_lock, product_not_found, insufficient_stock,
}
use distributed_order_proces.Database.Post.{
  Post, NoClaim, bind-Post, answer-Post, returned, guard-Post, no_claim, Post-mono, rename-Post,
  holding-Post,
}
use distributed_order_proces.Order.Queries.{one_row, query_lock_product_for_update}
use distributed_order_proces.Order.Store.{lock_product_for_update}
use distributed_order_proces.Order.Service.{UuidMap, read, lock_products}

abbrev pub price_in : Option ProductRow → ℕ
price_in none = 0
price_in (some row) = row.price

-- The price in the catalog.
abbrev pub price_of : Db → Uuid → ℕ
price_of db id = price_in (find_product id db)

lock_product-Price :
    (env : Env) (id : Uuid) (w : World)
    → Post
        (λ p w'. (w'.db ≡ w.db) × (p.price ≡ price_of w.db id))
        NoClaim
        (lock_product_for_update env id w)
unfolding lock_product_for_update query_lock_product_for_update
lock_product-Price env id w =
    bind-Post
      (rename-Post product_not_found (λ _ _ _. no_claim _ _)
        (holding-Post (product_lock id)
          (answer-Post {P = λ row w'. (w'.db ≡ w.db) × (row.price ≡ price_of w.db id)} env _ w
            (λ row db h. read_row (find_product id w.db) row db h))
          (λ _ _ e. e)))
      (λ row w' e. returned e)
  where
    read_row :
        (o : Option ProductRow) (row : ProductRow) (db : Db)
        → one_row w.db o ≡ ok (row, db)
        → (db ≡ w.db) × (row.price ≡ price_in o)
    read_row none row db h = cc
    read_row (some r) row db h = (cc, cc)

-- What pricing the products has read and summed up.
pub record Summed (price : Uuid → ℕ) (quantities : UuidMap) (ids : List Uuid) (prices : UuidMap)
    (total : ℕ) (prices' : UuidMap) (total' : ℕ) : Type 0 where
  pub sum : total' % 2 ^ 64 ≡ (total + sum_by (λ id. price id * read quantities id) ids) % 2 ^ 64
  pub bounded : total < 2 ^ 64 → total' < 2 ^ 64
  pub keeps : (id : Uuid) → read prices id ≡ price id → read prices' id ≡ price id
  pub reads : All (λ id. read prices' id ≡ price id) ids

pub lock_products-Summed :
    (env : Env) (price : Uuid → ℕ) (quantities : UuidMap) (ids : List Uuid) (prices : UuidMap)
    (total : ℕ) (w : World)
    → ((id : Uuid) → price_of w.db id ≡ price id)
    → Post
        (λ r w'. (w'.db ≡ w.db) × Summed price quantities ids prices total r.0 r.1)
        NoClaim
        (lock_products env quantities ids prices total w)
unfolding lock_products read add_int mul_int
lock_products-Summed env price quantities [] prices total w same =
    returned (refl, record { sum = omega arith; bounded = λ h. h; keeps = λ id h. h; reads = tt })
lock_products-Summed env price quantities (id ∷ ids) prices total w same =
    bind-Post (lock_product-Price env id w) λ product w1 (unchanged, cost).
      guard-Post _ (lt_int product.stock (read quantities id)) insufficient_stock w1 (no_claim _ _)
        λ _.
          Post-mono
            (lock_products-Summed env price quantities ids ((id, product.price) ∷ prices)
              (add_int total (mul_int product.price (read quantities id))) w1
              (λ j. ap (λ d. price_of d j) unchanged ∙ same j))
            (λ r w' (e, s). (e ∙ unchanged, more product.price r.0 r.1 (cost ∙ same id) s))
  where
    more :
        (p : ℕ) (prices' : UuidMap) (total' : ℕ)
        → p ≡ price id
        → Summed price quantities ids
            ((id, p) ∷ prices)
            (add_int total (mul_int p (read quantities id)))
            prices'
            total'
        → Summed price quantities (id ∷ ids) prices total prices' total'
    more p prices' total' e s = record {
      sum = omega (arith, s.sum, ap (λ x. x * read quantities id) e);
      bounded = λ h. s.bounded (omega arith);
      keeps = λ j h. s.keeps j (overwrite j h);
      reads = (s.keeps id (rw (==_refl id) e), s.reads);
    }
      where
        overwrite : (j : Uuid) → read prices j ≡ price j → read ((id, p) ∷ prices) j ≡ price j
        overwrite j h = elim (Bool-cases (id == j)) [
          | inl here ↦ rw here (e ∙ ap price (ground (arith, here)))
          | inr other ↦ rw other h
        ]
