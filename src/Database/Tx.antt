-- ===== src/Database/Tx.antt =====
-- A database call as a computation over the world: the tables, the row locks that the running
-- transaction holds, and the log of the payment provider, which no rollback undoes. What the
-- server and the runtime supply (UUIDs, clocks, random draws, failures) is an `Env`, read at the
-- number of the call.
use distributed_order_proces.Base.{
  ℕ, suc, String, Bool, true, false, Option, none, some, List, [], ◌∷◌, if◌then◌else◌,
}
use distributed_order_proces.Database.Rows.{Uuid, Time, ProductRow, Db}

-- Go's `error` values that the program tells apart. `driver` is any other failure of a call.
pub data Error : Type 0 where
  driver unique_violation no_rows no_context : Error
  product_not_found insufficient_stock no_product existing_product_name : Error
  order_not_found order_items_unavailable order_not_pending : Error
  no_payment_found no_order_found order_not_payable : Error
  no_idempotency_found idempotency_key_exists : Error
  email_registered login_generic : Error

pub data Result (A : Type 0) : Type 0 where
  ok : A → Result A
  err : Error → Result A

-- A row lock taken by FOR UPDATE.
pub data Lock : Type 0 where
  order_lock payment_lock product_lock : Uuid → Lock

-- One call of the payment provider.
pub record ChargeRecord : Type 0 where
  pub amount : ℕ
  pub success : Bool
  pub transaction_id : String

pub record World : Type 0 where
  pub db : Db
  pub locks : List Lock  -- the latest first
  pub charges : List ChargeRecord  -- the latest first
  pub tick : ℕ  -- the calls made so far
  pub tx_start : Option ℕ  -- the call that began the running transaction

pub record Env : Type 0 where
  pub gen_random_uuid : ℕ → Uuid
  pub now : ℕ → Time  -- now() on the server
  pub api_now : ℕ → Time  -- time.Now() on the host of the API
  pub fails : ℕ → Bool  -- whether a call is lost to a driver error
  pub draw : ℕ → ℕ  -- rand.Intn(100)
  pub new_string : ℕ → String  -- uuid.NewString()
  -- The order in which a SELECT without ORDER BY reads the products.
  pub scan : ℕ → List ProductRow → List ProductRow

abbrev pub Tx : Type 0 → Type 0
Tx A = World → Result A × World

abbrev pub pure : {A : Type 0} → A → Tx A
pure a w = (ok a, w)

abbrev pub throw : {A : Type 0} → Error → Tx A
throw e w = (err e, w)

abbrev pub continue : {A B : Type 0} → (A → Tx B) → Result A × World → Result B × World
continue f (ok a, w) = f a w
continue f (err e, w) = (err e, w)

infixl 5 ◌>>=◌ ◌>>◌
abbrev pub ◌>>=◌ : {A B : Type 0} → Tx A → (A → Tx B) → Tx B
◌>>=◌ m f w = continue f (m w)

abbrev pub ◌>>◌ : {A B : Type 0} → Tx A → Tx B → Tx B
m >> k = m >>= λ _. k

-- `if test { return err }`
abbrev pub throw_if : Bool → Error → Tx (Unit {0})
throw_if true e = throw e
throw_if false e = pure tt

-- `if errors.Is(err, pgx.ErrNoRows) { return target }`
abbrev pub renamed : Error → Error → Error
renamed target no_rows = target
renamed target e = e

abbrev pub rename_error : {A : Type 0} → Error → Result A × World → Result A × World
rename_error target (ok a, w) = (ok a, w)
rename_error target (err e, w) = (err (renamed target e), w)

abbrev pub on_no_rows : {A : Type 0} → Error → Tx A → Tx A
on_no_rows target m w = rename_error target (m w)

-- What a statement reads of the server: a fresh UUID and now(), which within a transaction is the
-- time at which it began.
pub record Clock : Type 0 where
  pub uuid : Uuid
  pub time : Time
  pub scan : List ProductRow → List ProductRow

abbrev pub tick_of : Option ℕ → ℕ → ℕ
tick_of none n = n
tick_of (some s) n = s

abbrev pub clock_at : Env → World → Clock
clock_at env w = record {
  uuid = env.gen_random_uuid w.tick;
  time = env.now (tick_of w.tx_start w.tick);
  scan = env.scan w.tick;
}

-- An executed statement's result and new tables. A refused one changes nothing.
abbrev pub settle : {A : Type 0} → World → Result (A × Db) → Result A × World
settle w (ok (a, db)) = (ok a, record w { db = db; tick = suc w.tick })
settle w (err e) = (err e, record w { tick = suc w.tick })

unfoldable pub statement : {A : Type 0} → Env → (Clock → Db → Result (A × Db)) → Tx A
statement env run w =
    if env.fails w.tick then settle w (err driver) else settle w (run (clock_at env w) w.db)

-- SELECT ... FOR UPDATE: the lock of the row that was found is held from then on.
abbrev pub holding : {A : Type 0} → Lock → Result A × World → Result A × World
holding lock (ok a, w) = (ok a, record w { locks = lock ∷ w.locks })
holding lock (err e, w) = (err e, w)

-- The end of a transaction: `tx.Commit`, or the deferred `tx.Rollback` to the tables `db`. A
-- commit that reports an error has not been applied.
abbrev pub released : Db → World → World
released db w = record w { db = db; locks = []; tx_start = none }

abbrev pub rolled_back : {A : Type 0} → Db → Error → World → Result A × World
rolled_back db e w = (err e, released db w)

unfoldable pub finish_tx : {A : Type 0} → Env → Db → Result A × World → Result A × World
finish_tx env db (err e, w) = rolled_back db e w
finish_tx env db (ok a, w) =
    if env.fails w.tick
    then rolled_back db driver (record w { tick = suc w.tick })
    else (ok a, released w.db (record w { tick = suc w.tick }))

-- `pool.BeginTx`, the body, and the commit or the deferred rollback.
unfoldable pub within_tx : {A : Type 0} → Env → Tx A → Tx A
unfolding finish_tx
within_tx env body w =
    let begun = record w { tick = suc w.tick; locks = []; tx_start = some w.tick } in
    if env.fails w.tick
    then (err driver, record w { tick = suc w.tick })
    else finish_tx env w.db (body begun)

-- A transaction whose body says whether it is to be committed: an early return without an error
-- is rolled back too.
unfoldable pub finish_or_return :
    {A : Type 0} → Env → Db → Result (A × Bool) × World → Result A × World
unfolding finish_tx
finish_or_return env db (err e, w) = rolled_back db e w
finish_or_return env db (ok (a, false), w) = (ok a, released db w)
finish_or_return env db (ok (a, true), w) = finish_tx env db (ok a, w)

unfoldable pub within_tx_or_return : {A : Type 0} → Env → Tx (A × Bool) → Tx A
unfolding finish_or_return
within_tx_or_return env body w =
    let begun = record w { tick = suc w.tick; locks = []; tx_start = some w.tick } in
    if env.fails w.tick
    then (err driver, record w { tick = suc w.tick })
    else finish_or_return env w.db (body begun)
