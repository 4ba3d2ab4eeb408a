-- ===== src/Product/Pages.antt =====
-- What a page of the catalog holds.
use distributed_order_proces.Product.Repository
use distributed_order_proces.Base.{
  ℕ, ◌+◌, ◌-◌, ◌*◌, ◌%◌, ◌^◌, ◌≤◌, ◌<◌, ◌≡◌, refl, ap, ◌∙◌, Bool, true, false, List, [], ◌∷◌, map,
  arith, if◌then◌else◌, Bool-cases, inl, inr, ltb, leb, ◌&&◌,
}
use distributed_order_proces.Base.Lists.{take, drop}
use distributed_order_proces.Base.Words.{lt_int, sub_int, mul_int, int32}
use distributed_order_proces.Database.Rows.{ProductRow}
use distributed_order_proces.Database.Tx.{
  Env, World, Result, ok, err, no_product, driver, statement,
}
use distributed_order_proces.Product.Model.{Product}
use distributed_order_proces.Product.Queries.{query_list_products, run_list_products}
use distributed_order_proces.Product.Repository.{product_from_sqlc, products_from_sqlc}
use distributed_order_proces.Product.Service.{
  at_least_one, clamp_limit, offset_of, list_products, some_products,
}

-- An `int` above 0.
abbrev is_positive : ℕ → Bool
is_positive n = leb 1 n && ltb n (2 ^ 63)

-- The page that is shown: the first one for an `int` that numbers none.
abbrev pub shown_page : ℕ → ℕ
shown_page page = if is_positive page then page else 1

-- The number of products on a page: from 1 to 100.
abbrev pub shown_limit : ℕ → ℕ
shown_limit limit = if is_positive limit then (if ltb 100 limit then 100 else limit) else 1

-- What the statement gets for its offset, as an INT.
abbrev pub sent_offset : ℕ → ℕ → ℕ
sent_offset page limit = ((shown_page page - 1) * shown_limit limit) % 2 ^ 32

at_least_one-eq-shown_page : (n : ℕ) → n < 2 ^ 64 → at_least_one n ≡ shown_page n
unfolding at_least_one lt_int
at_least_one-eq-shown_page n h = ground arith

clamp_limit-eq-shown_limit : (n : ℕ) → n < 2 ^ 64 → clamp_limit n ≡ shown_limit n
unfolding clamp_limit lt_int
clamp_limit-eq-shown_limit n h = ground arith

shown_page_bounds : (n : ℕ) → (1 ≤ shown_page n) × (shown_page n < 2 ^ 63)
shown_page_bounds n = ground arith

shown_limit_bounds : (n : ℕ) → shown_limit n ≤ 100
shown_limit_bounds n = ground arith

int32_small : (n : ℕ) → n ≤ 100 → int32 n ≡ n
unfolding int32
int32_small n h = omega arith

low : (n : ℕ) → (n % 2 ^ 64) % 2 ^ 32 ≡ n % 2 ^ 32
low n = omega arith

int32-offset_of :
    (page limit : ℕ)
    → 1 ≤ page
    → page < 2 ^ 63
    → int32 (offset_of page limit) ≡ ((page - 1) * limit) % 2 ^ 32
unfolding int32 offset_of mul_int sub_int
int32-offset_of page limit h k =
    let exact : (page + 2 ^ 64 - 1) % 2 ^ 64 ≡ page - 1 = omega arith in
    low ((page + 2 ^ 64 - 1) % 2 ^ 64 * limit) ∙ ap (λ n. (n * limit) % 2 ^ 32) exact

-- The products of a page, or the error that says that there are none.
abbrev pub listed : List ProductRow → Result (List Product)
listed [] = err no_product
listed (row ∷ rows) = ok (map product_from_sqlc (row ∷ rows))

-- The page of the rows in the order in which they are read.
abbrev pub page_of : ℕ → ℕ → List ProductRow → Result (List Product)
page_of page limit rows =
    if ltb (sent_offset page limit) (2 ^ 31)
    then listed (take (shown_limit limit) (drop (sent_offset page limit) rows))
    else err driver

some_products-listed :
    (rows : List ProductRow) (w : World)
    → (some_products (products_from_sqlc rows) w).0 ≡ listed rows
unfolding products_from_sqlc
some_products-listed [] w = refl
some_products-listed (row ∷ rows) w = refl

-- For every `int` that a client sends as page or limit, a call that is not lost answers with that page
-- of the products in the order in which the database reads them, which may differ from call to call,
-- or with the error for an empty page. A page below 1 is the first one, and a limit is brought
-- between 1 and 100. The offset is cut to 32 bits, and one that is then negative ends in another error.
pub list_products-eq-page_of :
    (env : Env) (page limit : ℕ) (w : World)
    → page < 2 ^ 64
    → limit < 2 ^ 64
    → env.fails w.tick ≡ false
    → (list_products env page limit w).0 ≡ page_of page limit (env.scan w.tick w.db.products)
unfolding list_products Repository.list_products query_list_products run_list_products statement
list_products-eq-page_of env page limit w hp hl calm =
    let (low_page, high_page) = shown_page_bounds page in
    let limit' : clamp_limit limit ≡ shown_limit limit = clamp_limit-eq-shown_limit limit hl in
    let page' : at_least_one page ≡ shown_page page = at_least_one-eq-shown_page page hp in
    let sent = int32-offset_of (shown_page page) (shown_limit limit) low_page high_page in
    let small : int32 (shown_limit limit) ≡ shown_limit limit =
      int32_small (shown_limit limit) (shown_limit_bounds limit) in
    let fits : ltb (shown_limit limit) (2 ^ 31) ≡ true = ground (arith, shown_limit_bounds limit) in
    elim (Bool-cases (ltb (sent_offset page limit) (2 ^ 31))) [
      | inl near ↦ rw (calm, limit', page', sent, small, fits, near) (some_products-listed _ _)
      | inr far ↦ rw (calm, limit', page', sent, small, fits, far)
    ]
