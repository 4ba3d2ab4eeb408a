-- ===== src/Order/LockOrder.antt =====
-- The order in which the transactions on orders take their row locks.
use distributed_order_proces.Base.{
  ap, ◌∙◌, ◌⊎◌, inl, inr, Bool-cases, ◌<◌, ◌≢◌, ◌≡◌, List, [], ◌∷◌, ◌++◌, ◌==◌, ℕ, ◌≤◌, ◌+◌, arith,
  subst, sym, not,
}
use distributed_order_proces.Base.Lists.{All, length}
use distributed_order_proces.Base.Sort.{sort_by, IsSorted, sort_by-IsSorted}
use distributed_order_proces.Base.Words.{add_int, mul_int, lt_int}
use distributed_order_proces.Database.Rows.{Uuid, Db, is_pending}
use distributed_order_proces.Database.Tx.{
  Env, World, Result, ok, err, Lock, order_lock, payment_lock, product_lock, Clock, clock_at,
  statement, insufficient_stock, product_not_found, order_not_found, order_not_pending,
  order_items_unavailable,
}
use distributed_order_proces.Database.Post.{
  Post, Runs, bind-Post, statement-Post, returned, guard-Post, rename-Post, holding-Post, Post-mono,
}
use distributed_order_proces.Order.Model.{CreateOrderItemRequest, OrderItem, CreateOrderRequest}
use distributed_order_proces.Order.Store.{
  create_order_item, decrease_product_stock, increase_product_stock, lock_product_for_update,
  insert_order, create_payment, lock_order_for_update, get_order_items_by_order_id,
  update_order_status,
}
use distributed_order_proces.Order.Service.{
  place_items, UuidMap, read, lock_products, place_order, lock_and_price, restore_items,
  withdraw_order, quantity_by_product, sorted_product_ids,
}
use distributed_order_proces.Order.Queries.{
  query_lock_product_for_update, query_create_order_item, query_increase_product_stock,
  query_decrease_product_stock, query_create_order, query_lock_order_for_update,
  query_get_order_items_by_order_id, query_create_payment, query_update_order_status,
}

-- Orders come first, then payments, then products by their id.
abbrev pub rank : Lock → ℕ
rank (order_lock _) = 0
rank (payment_lock _) = 1
rank (product_lock id) = 2 + id

-- A lock is taken after those of a lower rank, or again.
abbrev pub ComesBefore : Lock → Lock → Type 0
ComesBefore m l = (rank m < rank l) ⊎ (m ≡ l)

-- Locks, the latest first.
abbrev pub InOrder : List Lock → Type 0
InOrder [] = Unit
InOrder (l ∷ ls) = All (λ m. ComesBefore m l) ls × InOrder ls

abbrev pub Ordered : {A : Type 0} → Result A × World → Type 0
Ordered r = Post (λ _ w'. InOrder w'.locks) (λ _ w'. InOrder w'.locks) r

-- A call that succeeds with the locks `ls`.
abbrev pub Holding : {A : Type 0} → List Lock → Result A × World → Type 0
Holding ls r = Post (λ _ w'. w'.locks ≡ ls) (λ _ w'. InOrder w'.locks) r

-- The locks held do not come after those of the products still to be locked.
abbrev Before : {A : Type 0} → (A → Uuid) → List A → List Lock → Type 0
Before key xs ls = All (λ m. All (λ x. rank m ≤ 2 + key x) xs) ls

product_next : (m : Lock) (id : Uuid) → rank m ≤ 2 + id → ComesBefore m (product_lock id)
product_next (order_lock o) id h = inl (omega arith)
product_next (payment_lock o) id h = inl (omega arith)
product_next (product_lock j) id h = elim (Bool-cases (j == id)) [
  | inl same ↦ inr (let e : j ≡ id = ground arith in ap product_lock e)
  | inr other ↦ let ne : j ≢ id = ground arith in inl (omega (arith, h, ne))
]

Before-head :
    {A : Type 0} (key : A → Uuid) (x : A) (xs : List A) (ls : List Lock)
    → Before key (x ∷ xs) ls
    → All (λ m. ComesBefore m (product_lock (key x))) ls
Before-head key x xs [] h = tt
Before-head key x xs (l ∷ ls) h = (product_next l (key x) h.0.0, Before-head key x xs ls h.1)

Before-tail :
    {A : Type 0} (key : A → Uuid) (x : A) (xs : List A) (ls : List Lock)
    → Before key (x ∷ xs) ls
    → Before key xs ls
Before-tail key x xs [] h = tt
Before-tail key x xs (l ∷ ls) h = (h.0.1, Before-tail key x xs ls h.1)

above :
    {A : Type 0} (key : A → Uuid) (n : ℕ) (xs : List A)
    → All (λ y. n ≤ key y) xs
    → All (λ y. 2 + n ≤ 2 + key y) xs
above key n [] h = tt
above key n (x ∷ xs) h = (omega (arith, h.0), above key n xs h.1)

module _ (env : Env) where
  pub statement-Holding :
      {A : Type 0} (run : Clock → Db → Result (A × Db)) (w : World)
      → InOrder w.locks
      → Holding w.locks (statement env run w)
  statement-Holding run w h = statement-Post env run w h (runs (run (clock_at env w) w.db))
    where
      runs :
          {A : Type 0} (s : Result (A × Db))
          → Runs (λ _ w'. w'.locks ≡ w.locks) (λ _ w'. InOrder w'.locks) w s
      runs (ok (a, db)) = λ i. w.locks
      runs (err e) = h

  pub statement-Ordered :
      {A : Type 0} (run : Clock → Db → Result (A × Db)) (w : World)
      → InOrder w.locks
      → Ordered (statement env run w)
  statement-Ordered run w h =
      Post-mono (statement-Holding run w h) (λ _ w' e. subst InOrder (sym e) h)

  lock_product-Holding :
      (id : Uuid) (w : World)
      → InOrder w.locks
      → Holding (product_lock id ∷ w.locks) (lock_product_for_update env id w)
  unfolding lock_product_for_update query_lock_product_for_update
  lock_product-Holding id w h =
      bind-Post
        (rename-Post product_not_found (λ _ _ k. k)
          (holding-Post {Q = λ _ w'. w'.locks ≡ product_lock id ∷ w.locks} (product_lock id)
            (statement-Holding _ w h) (λ a w e. ap (λ ls. product_lock id ∷ ls) e)))
        (λ _ w' e. returned e)

  -- One more product is locked.
  step :
      {A : Type 0} (key : A → Uuid) (x : A) (xs : List A) (ls ls' : List Lock)
      → ls' ≡ product_lock (key x) ∷ ls
      → InOrder ls
      → All (λ y. key x ≤ key y) xs
      → Before key (x ∷ xs) ls
      → InOrder ls' × Before key xs ls'
  step key x xs ls ls' e h s b =
      subst (λ l. InOrder l × Before key xs l) (sym e)
        ((Before-head key x xs ls b, h), (above key (key x) xs s, Before-tail key x xs ls b))

  lock_products-Ordered :
      (quantities : UuidMap) (ids : List Uuid) (prices : UuidMap) (total : ℕ) (w : World)
      → IsSorted (λ id. id) ids
      → InOrder w.locks
      → Before (λ id. id) ids w.locks
      → Ordered (lock_products env quantities ids prices total w)
  unfolding lock_products
  lock_products-Ordered quantities [] prices total w s h b = returned h
  lock_products-Ordered quantities (id ∷ ids) prices total w s h b =
      bind-Post (lock_product-Holding id w h) (λ product w' e.
        let (h', b') = step (λ i. i) id ids w.locks w'.locks e h s.0 b in
        let prices' : UuidMap = (id, product.price) ∷ prices in
        let total' = add_int total (mul_int product.price (read quantities id)) in
        guard-Post (λ _. lock_products env quantities ids prices' total')
          (lt_int product.stock (read quantities id)) insufficient_stock w' h'
          (λ _. lock_products-Ordered quantities ids prices' total' w' s.1 h' b'))

  place_items-Ordered :
      (order_id : Uuid) (prices : UuidMap) (items : List CreateOrderItemRequest)
      (created : List OrderItem) (w : World)
      → InOrder w.locks
      → Ordered (place_items env order_id prices items created w)
  unfolding place_items create_order_item query_create_order_item decrease_product_stock
      query_decrease_product_stock
  place_items-Ordered order_id prices [] created w h = returned h
  place_items-Ordered order_id prices (item ∷ items) created w h =
      bind-Post (bind-Post (statement-Ordered _ w h) (λ _ w' e. returned e)) (λ i w1 h1.
        bind-Post (statement-Ordered _ w1 h1) (λ n w2 h2.
          guard-Post (λ _. place_items env order_id prices items (created ++ i ∷ [])) (n == 0)
            insufficient_stock w2 h2
            (λ _. place_items-Ordered order_id prices items (created ++ i ∷ []) w2 h2)))

  restore_items-Ordered :
      (items : List OrderItem) (w : World)
      → IsSorted OrderItem.product_id items
      → InOrder w.locks
      → Before OrderItem.product_id items w.locks
      → Ordered (restore_items env items w)
  unfolding restore_items increase_product_stock query_increase_product_stock
  restore_items-Ordered [] w s h b = returned h
  restore_items-Ordered (item ∷ items) w s h b =
      bind-Post (lock_product-Holding item.product_id w h) (λ _ w1 e.
        let (h1, b1) = step OrderItem.product_id item items w.locks w1.locks e h s.0 b in
        bind-Post (statement-Holding _ w1 h1) (λ n w2 e2.
          let h2 = subst InOrder (sym e2) h1 in
          guard-Post (λ _. restore_items env items) (n == 0) product_not_found w2 h2
            (λ _.
              restore_items-Ordered items w2 s.1 h2
                (subst (Before OrderItem.product_id items) (sym e2) b1))))

  pub place_order-Ordered :
      (user_id : Uuid) (req : CreateOrderRequest) (w : World)
      → w.locks ≡ []
      → Ordered (place_order env user_id req w)
  unfolding place_order lock_and_price insert_order query_create_order create_payment
      query_create_payment sorted_product_ids
  place_order-Ordered user_id req w e =
      bind-Post
        (lock_products-Ordered _ (sorted_product_ids (quantity_by_product req.items)) [] 0 w
          (sort_by-IsSorted (λ id. id) _) (subst InOrder (sym e) tt)
          (subst (Before (λ id. id) (sorted_product_ids (quantity_by_product req.items))) (sym e)
            tt))
        (λ _ w1 h1.
          bind-Post (bind-Post (statement-Ordered _ w1 h1) (λ _ w' k. returned k)) (λ _ w2 h2.
            bind-Post (place_items-Ordered _ _ req.items [] w2 h2) (λ _ w3 h3.
              bind-Post (bind-Post (statement-Ordered _ w3 h3) (λ _ w' k. returned k))
                (λ _ w4 h4. returned h4))))

  lock_order-Holding :
      (user_id order_id : Uuid) (w : World)
      → w.locks ≡ []
      → Holding (order_lock order_id ∷ []) (lock_order_for_update env user_id order_id w)
  unfolding lock_order_for_update query_lock_order_for_update
  lock_order-Holding user_id order_id w e =
      bind-Post
        (rename-Post order_not_found (λ _ _ k. k)
          (holding-Post {Q = λ _ w'. w'.locks ≡ order_lock order_id ∷ []} (order_lock order_id)
            (statement-Holding _ w (subst InOrder (sym e) tt))
            (λ a w' k. ap (λ ls. order_lock order_id ∷ ls) (k ∙ e))))
        (λ _ w' k. returned k)

  Before-order :
      (order_id : Uuid) (items : List OrderItem)
      → Before OrderItem.product_id items (order_lock order_id ∷ [])
  Before-order order_id items = (lowest items, tt)
    where
      lowest : (items : List OrderItem) → All (λ i. 0 ≤ 2 + i.product_id) items
      lowest [] = tt
      lowest (i ∷ items) = (omega arith, lowest items)

  pub withdraw_order-Ordered :
      (user_id order_id : Uuid) (w : World)
      → w.locks ≡ []
      → Ordered (withdraw_order env user_id order_id w)
  unfolding withdraw_order get_order_items_by_order_id query_get_order_items_by_order_id
      update_order_status query_update_order_status
  withdraw_order-Ordered user_id order_id w e =
      bind-Post (lock_order-Holding user_id order_id w e) (λ o w1 e1.
        let h1 : InOrder w1.locks = subst InOrder (sym e1) (tt, tt) in
        guard-Post _ (not (is_pending o.status)) order_not_pending w1 h1 (λ _.
          bind-Post
            (bind-Post {Q = λ _ w'. w'.locks ≡ w1.locks} (statement-Holding _ w1 h1)
              (λ _ w' k. returned k))
            (λ items w2 k2.
              let e2 = k2 ∙ e1 in
              let sorted = sort_by OrderItem.product_id items in
              let h2 : InOrder w2.locks = subst InOrder (sym e2) (tt, tt) in
              guard-Post _ (length items == 0) order_items_unavailable w2 h2 (λ _.
                bind-Post
                  (restore_items-Ordered sorted w2 (sort_by-IsSorted OrderItem.product_id items) h2
                    (subst (Before OrderItem.product_id sorted) (sym e2)
                      (Before-order order_id sorted)))
                  (λ _ w3 h3.
                    bind-Post (rename-Post order_not_found (λ _ _ k. k) (statement-Ordered _ w3 h3))
                      (λ _ w' k. returned k))))))
