-- ===== src/Database/Post.antt =====
-- Postconditions of database calls: what holds of the result and the world after a success, and of
-- the error and the world after a failure.
use distributed_order_proces.Base.{
  ◌∷◌, suc, ◌≡◌, refl, Bool, true, false, if◌then◌else◌, [], some, List,
}
use distributed_order_proces.Database.Rows.{Db}
use distributed_order_proces.Database.Tx.{
  Error, driver, Result, ok, err, World, Env, Tx, continue, Clock, clock_at, settle, statement,
  renamed, rename_error, throw_if, Lock, holding, finish_tx, within_tx, released, finish_or_return,
  within_tx_or_return, ChargeRecord,
}

module _ {A : Type 0} (P : A → World → Type 0) (E : Error → World → Type 0) where
  -- The postcondition as it computes, for tactics.
  abbrev pub Holds : Result A × World → Type 0
  Holds (ok a, w) = P a w
  Holds (err e, w) = E e w

  -- What a statement that ran must meet: `P` in the world that it leaves, `E` if it was refused.
  abbrev pub Runs : World → Result (A × Db) → Type 0
  Runs w (ok (a, db)) = P a (record w { db = db; tick = suc w.tick })
  Runs w (err e) = E e (record w { tick = suc w.tick })

  -- The postcondition as a family, from which `P` and `E` can be read off.
  pub data Post : Result A × World → Type 0 where
    returned : {a : A} {w : World} → P a w → Post (ok a, w)
    failed : {e : Error} {w : World} → E e w → Post (err e, w)

pub NoClaim : Error → World → Type 0
NoClaim e w = Unit

pub no_claim : (e : Error) (w : World) → NoClaim e w
unfolding NoClaim
no_claim e w = tt

module _ {A : Type 0} {P : A → World → Type 0} {E : Error → World → Type 0} where
  pub post : (r : Result A × World) → Holds P E r → Post P E r
  post (ok a, w) h = returned h
  post (err e, w) h = failed h

  pub Post-Holds : {r : Result A × World} → Post P E r → Holds P E r
  Post-Holds (returned h) = h
  Post-Holds (failed h) = h

  -- A call that returned `a` meets the postcondition of a success.
  pub Post-ok : {r : Result A × World} (a : A) (w : World) → Post P E r → r ≡ (ok a, w) → P a w
  Post-ok a w h e = let k : Holds P E (ok a, w) = (rw e at (Post-Holds h)) in k

  settle-Post : (w : World) (s : Result (A × Db)) → Runs P E w s → Post P E (settle w s)
  settle-Post w (ok (a, db)) h = returned h
  settle-Post w (err e) h = failed h

  pub statement-Post :
      (env : Env) (run : Clock → Db → Result (A × Db)) (w : World)
      → E driver (record w { tick = suc w.tick })
      → Runs P E w (run (clock_at env w) w.db)
      → Post P E (statement env run w)
  unfolding statement
  statement-Post env run w lost h = branch (env.fails w.tick)
    where
      branch :
          (b : Bool)
          → Post P E (if b then settle w (err driver) else settle w (run (clock_at env w) w.db))
      branch true = failed lost
      branch false = settle-Post w (run (clock_at env w) w.db) h

  pub rename-Post :
      (target : Error) {r : Result A × World}
      → ((e : Error) (w : World) → E e w → E (renamed target e) w)
      → Post P E r
      → Post P E (rename_error target r)
  rename-Post target k (returned h) = returned h
  rename-Post target k (failed {e = e} {w = w} h) = failed (k e w h)

  -- The rule for a call followed by another.
  pub bind-Post :
      {B : Type 0} {Q : B → World → Type 0} {f : A → Tx B} {r : Result A × World}
      → Post P E r
      → ((a : A) (w : World) → P a w → Post Q E (f a w))
      → Post Q E (continue f r)
  bind-Post (returned {a = a} {w = w} h) k = k a w h
  bind-Post (failed h) k = failed h

  pub holding-Post :
      {Q : A → World → Type 0} (lock : Lock) {r : Result A × World}
      → Post P E r
      → ((a : A) (w : World) → P a w → Q a (record w { locks = lock ∷ w.locks }))
      → Post Q E (holding lock r)
  holding-Post lock (returned {a = a} {w = w} h) k = returned (k a w h)
  holding-Post lock (failed h) k = failed h

  pub Post-mono :
      {Q : A → World → Type 0} {r : Result A × World}
      → Post P E r
      → ((a : A) (w : World) → P a w → Q a w)
      → Post Q E r
  Post-mono (returned {a = a} {w = w} h) k = returned (k a w h)
  Post-mono (failed h) k = failed h

-- A guard that lets the call go on has found its test false.
pub guard-Post :
    {A : Type 0} {Q : A → World → Type 0} {E : Error → World → Type 0} (f : Unit {0} → Tx A)
    (b : Bool) (e : Error) (w : World)
    → E e w
    → (b ≡ false → Post Q E (f tt w))
    → Post Q E (continue f (throw_if b e w))
guard-Post f true e w h k = failed h
guard-Post f false e w h k = k refl

Runs-of_answers :
    {A : Type 0} (P : A → World → Type 0) (w : World) (s : Result (A × Db))
    → ((a : A) (db : Db) → s ≡ ok (a, db) → P a (record w { db = db; tick = suc w.tick }))
    → Runs P NoClaim w s
Runs-of_answers P w (ok (a, db)) k = k a db refl
Runs-of_answers P w (err e) k = no_claim e _

-- A statement met by what its answers have in common.
pub answer-Post :
    {A : Type 0} {P : A → World → Type 0} (env : Env) (run : Clock → Db → Result (A × Db))
    (w : World)
    → ((a : A) (db : Db)
        → run (clock_at env w) w.db ≡ ok (a, db)
        → P a (record w { db = db; tick = suc w.tick }))
    → Post P NoClaim (statement env run w)
answer-Post {P = P} env run w k =
    statement-Post env run w (no_claim driver _) (Runs-of_answers P w (run (clock_at env w) w.db) k)

finish_tx-Post :
    {A : Type 0} (P : A → Db → List ChargeRecord → Type 0) (env : Env) (db : Db)
    (r : Result A × World)
    → Post (λ a w. P a w.db w.charges) NoClaim r
    → Post (λ a w. P a w.db w.charges) (λ _ w. w.db ≡ db) (finish_tx env db r)
unfolding finish_tx
finish_tx-Post P env db (err e, w) h = failed refl
finish_tx-Post P env db (ok a, w) h = branch (env.fails w.tick)
  where
    branch :
        (b : Bool)
        → Post
            (λ a' w'. P a' w'.db w'.charges)
            (λ _ w'. w'.db ≡ db)
            (if b
              then (err driver, released db (record w { tick = suc w.tick }))
              else (ok a, released w.db (record w { tick = suc w.tick })))
    branch true = failed refl
    branch false = returned (Post-Holds h)

-- The rule for a transaction: it commits what its body achieves, or it leaves the tables as they
-- were.
pub within_tx-Post :
    {A : Type 0} (P : A → Db → Type 0) (env : Env) (body : Tx A) (w : World)
    → ((w0 : World) → w0.db ≡ w.db → w0.locks ≡ [] → Post (λ a w'. P a w'.db) NoClaim (body w0))
    → Post (λ a w'. P a w'.db) (λ _ w'. w'.db ≡ w.db) (within_tx env body w)
unfolding within_tx
within_tx-Post {A} P env body w h = branch (env.fails w.tick)
  where
    begun : World
    begun = record w { tick = suc w.tick; locks = []; tx_start = some w.tick }

    branch :
        (b : Bool)
        → Post
            (λ a w'. P a w'.db)
            (λ _ w'. w'.db ≡ w.db)
            (if b
              then (err driver, record w { tick = suc w.tick })
              else finish_tx env w.db (body begun))
    branch true = failed refl
    branch false = finish_tx-Post (λ a db _. P a db) env w.db (body begun) (h begun refl refl)

-- What a body promises of the tables that its transaction leaves, its own or those it began with,
-- and of the charges.
abbrev pub Leaves :
    {A : Type 0} → (A → Db → List ChargeRecord → Type 0) → Db → A × Bool → World → Type 0
Leaves P db (a, true) w = P a w.db w.charges
Leaves P db (a, false) w = P a db w.charges

finish_or_return-Post :
    {A : Type 0} (P : A → Db → List ChargeRecord → Type 0) (env : Env) (db : Db)
    (r : Result (A × Bool) × World)
    → Post (Leaves P db) NoClaim r
    → Post (λ a w. P a w.db w.charges) (λ _ w. w.db ≡ db) (finish_or_return env db r)
unfolding finish_or_return
finish_or_return-Post P env db (err e, w) h = failed refl
finish_or_return-Post P env db (ok (a, false), w) h = returned (Post-Holds h)
finish_or_return-Post P env db (ok (a, true), w) h =
    finish_tx-Post P env db (ok a, w) (returned (Post-Holds h))

-- The rule for a transaction that may return early.
pub within_tx_or_return-Post :
    {A : Type 0} (P : A → Db → List ChargeRecord → Type 0) (env : Env) (body : Tx (A × Bool))
    (w : World)
    → ((w0 : World)
        → w0.db ≡ w.db
        → w0.charges ≡ w.charges
        → Post (Leaves P w.db) NoClaim (body w0))
    → Post (λ a w'. P a w'.db w'.charges) (λ _ w'. w'.db ≡ w.db) (within_tx_or_return env body w)
unfolding within_tx_or_return
within_tx_or_return-Post {A} P env body w h = branch (env.fails w.tick)
  where
    begun : World
    begun = record w { tick = suc w.tick; locks = []; tx_start = some w.tick }

    branch :
        (b : Bool)
        → Post
            (λ a w'. P a w'.db w'.charges)
            (λ _ w'. w'.db ≡ w.db)
            (if b
              then (err driver, record w { tick = suc w.tick })
              else finish_or_return env w.db (body begun))
    branch true = failed refl
    branch false = finish_or_return-Post P env w.db (body begun) (h begun refl refl)
