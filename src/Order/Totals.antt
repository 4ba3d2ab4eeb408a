-- ===== src/Order/Totals.antt =====
-- What a request costs: the total that the program computes over a map of quantities, against the sum
-- over the request's items.
use distributed_order_proces.Base.{
  refl, ℕ, ◌+◌, ◌*◌, ◌%◌, ◌^◌, ◌≡◌, List, [], ◌∷◌, map, false, ◌==◌, arith, Bool-cases, inl, inr,
  subst, ◌∙◌, ap, ==_refl,
}
use distributed_order_proces.Base.Lists.{All, sum_by}
use distributed_order_proces.Base.Modular.{mul-mod}
use distributed_order_proces.Base.Words.{add_int}
use distributed_order_proces.Base.Sort.{sum_by-sort_by, All-unsorted}
use distributed_order_proces.Database.Rows.{Uuid}
use distributed_order_proces.Order.Model.{CreateOrderItemRequest}
use distributed_order_proces.Order.Service.{
  UuidMap, read, add_quantity, add_quantities, quantity_by_product, sorted_product_ids,
}

-- The sum of price times quantity.
abbrev pub items_total : (Uuid → ℕ) → List CreateOrderItemRequest → ℕ
items_total price items = sum_by (λ i. price i.product_id * i.quantity) items

abbrev map_total : (Uuid → ℕ) → UuidMap → ℕ
map_total price m = sum_by (λ e. price e.0 * e.1) m

module _ (price : Uuid → ℕ) where
  same_key :
      (id k v q rest : ℕ)
      → k ≡ id
      → (price k * add_int v q + rest) % 2 ^ 64 ≡ (price k * v + rest + price id * q) % 2 ^ 64
  unfolding add_int
  same_key id k v q rest e =
      subst
        (λ j.
          (price k * ((v + q) % 2 ^ 64) + rest) % 2 ^ 64
          ≡ (price k * v + rest + price j * q) % 2 ^ 64)
        e (omega (arith, mul-mod (price k) (v + q)))

  add_quantity-total :
      (id q : ℕ) (m : UuidMap)
      → map_total price (add_quantity id q m) % 2 ^ 64 ≡ (map_total price m + price id * q) % 2 ^ 64
  unfolding add_quantity add_int
  add_quantity-total id q [] = omega (arith, mul-mod (price id) (0 + q))
  add_quantity-total id q ((k, v) ∷ m) = elim (Bool-cases (k == id)) [
    | inl same ↦ rw same (same_key id k v q (map_total price m) (ground (arith, same)))
    | inr other ↦ rw other (omega (arith, add_quantity-total id q m))
  ]

  add_quantities-total :
      (m : UuidMap) (items : List CreateOrderItemRequest)
      → map_total price (add_quantities m items) % 2 ^ 64
        ≡ (map_total price m + items_total price items) % 2 ^ 64
  unfolding add_quantities
  add_quantities-total m [] = omega arith
  add_quantities-total m (i ∷ items) =
      let m' = add_quantity i.product_id i.quantity m in
      omega (arith, add_quantities-total m' items, add_quantity-total i.product_id i.quantity m)

-- No key stands in the map twice.
abbrev HasUniqueKeys : UuidMap → Type 0
HasUniqueKeys [] = Unit
HasUniqueKeys ((k, v) ∷ m) = All (λ e. (e.0 == k) ≡ false) m × HasUniqueKeys m

add_quantity-others :
    (j id q : ℕ) (m : UuidMap)
    → (id == j) ≡ false
    → All (λ e. (e.0 == j) ≡ false) m
    → All (λ e. (e.0 == j) ≡ false) (add_quantity id q m)
unfolding add_quantity
add_quantity-others j id q [] ne h = (ne, tt)
add_quantity-others j id q ((k, v) ∷ m) ne h = elim (Bool-cases (k == id)) [
  | inl same ↦ rw same h
  | inr other ↦ rw other (h.0, add_quantity-others j id q m ne h.1)
]

add_quantity-HasUniqueKeys :
    (id q : ℕ) (m : UuidMap) → HasUniqueKeys m → HasUniqueKeys (add_quantity id q m)
unfolding add_quantity
add_quantity-HasUniqueKeys id q [] h = (tt, tt)
add_quantity-HasUniqueKeys id q ((k, v) ∷ m) h = elim (Bool-cases (k == id)) [
  | inl same ↦ rw same h
  | inr other ↦ rw other (
    add_quantity-others k id q m (ground (arith, other)) h.0,
    add_quantity-HasUniqueKeys id q m h.1,
  )
]

add_quantities-HasUniqueKeys :
    (m : UuidMap) (items : List CreateOrderItemRequest)
    → HasUniqueKeys m
    → HasUniqueKeys (add_quantities m items)
unfolding add_quantities
add_quantities-HasUniqueKeys m [] h = h
add_quantities-HasUniqueKeys m (i ∷ items) h =
    add_quantities-HasUniqueKeys (add_quantity i.product_id i.quantity m) items
      (add_quantity-HasUniqueKeys i.product_id i.quantity m h)

abbrev pub keys_of : UuidMap → List Uuid
keys_of m = map (λ e. e.0) m

-- The sum over keys that are not `k` does not see the entry of `k`.
skip_entry :
    (price : Uuid → ℕ) (k v : ℕ) (m : UuidMap) (es : UuidMap)
    → All (λ e. (e.0 == k) ≡ false) es
    → sum_by (λ id. price id * read ((k, v) ∷ m) id) (keys_of es)
      ≡ sum_by (λ id. price id * read m id) (keys_of es)
unfolding read
skip_entry price k v m [] h = refl
skip_entry price k v m ((j, u) ∷ es) h =
    let ne : (k == j) ≡ false = ground (arith, h.0) in
    rw ne (ap (λ n. price j * read m j + n) (skip_entry price k v m es h.1))

read-total :
    (price : Uuid → ℕ) (m : UuidMap)
    → HasUniqueKeys m
    → sum_by (λ id. price id * read m id) (keys_of m) ≡ map_total price m
unfolding read
read-total price [] h = refl
read-total price ((k, v) ∷ m) h =
    rw (==_refl k)
      (ap (λ n. price k * v + n) (skip_entry price k v m m h.0 ∙ read-total price m h.1))

-- The program's sum over the sorted products, each with the quantity that the map holds for it, is
-- the sum over the items.
pub sorted_products-total :
    (price : Uuid → ℕ) (items : List CreateOrderItemRequest)
    → sum_by
          (λ id. price id * read (quantity_by_product items) id)
          (sorted_product_ids (quantity_by_product items))
        % 2 ^ 64
      ≡ items_total price items % 2 ^ 64
unfolding quantity_by_product sorted_product_ids
sorted_products-total price items =
    let m = add_quantities [] items in
    ap (λ n. n % 2 ^ 64)
      (sum_by-sort_by (λ id. id) (λ id. price id * read m id) (keys_of m)
        ∙ read-total price m (add_quantities-HasUniqueKeys [] items tt))
    ∙ add_quantities-total price [] items
    ∙ omega arith

All-add_quantity :
    (P : Uuid → Type 0) (id q : ℕ) (m : UuidMap)
    → All P (keys_of (add_quantity id q m))
    → P id × All P (keys_of m)
unfolding add_quantity
All-add_quantity P id q [] h = (h.0, tt)
All-add_quantity P id q ((k, v) ∷ m) h = elim (Bool-cases (k == id)) [
  | inl same ↦
      let h' : All P (k ∷ keys_of m) = (rw same at h) in (subst P (ground (arith, same)) h'.0, h')
  | inr other ↦
      let h' : All P (k ∷ keys_of (add_quantity id q m)) = (rw other at h) in
      let (p, rest) = All-add_quantity P id q m h'.1 in (p, (h'.0, rest))
]

All-add_quantities :
    (P : Uuid → Type 0) (m : UuidMap) (items : List CreateOrderItemRequest)
    → All P (keys_of (add_quantities m items))
    → All (λ i. P i.product_id) items × All P (keys_of m)
unfolding add_quantities
All-add_quantities P m [] h = (tt, h)
All-add_quantities P m (i ∷ items) h =
    let (later, rest) = All-add_quantities P (add_quantity i.product_id i.quantity m) items h in
    let (here, before) = All-add_quantity P i.product_id i.quantity m rest in
    ((here, later), before)

-- Every product of the request is among the sorted ones.
pub sorted_products-All :
    (P : Uuid → Type 0) (items : List CreateOrderItemRequest)
    → All P (sorted_product_ids (quantity_by_product items))
    → All (λ i. P i.product_id) items
unfolding quantity_by_product sorted_product_ids
sorted_products-All P items h =
    (All-add_quantities P [] items
      (All-unsorted (λ id. id) P (keys_of (add_quantities [] items)) h)).0
