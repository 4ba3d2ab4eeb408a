-- ===== src/Database/Keeps.antt =====
-- What the tables meet after a call, whatever it answered.
use distributed_order_proces.Base.{◌≡◌, Option, none, some, subst, sym}
use distributed_order_proces.Database.Rows.{Db}
use distributed_order_proces.Database.Tx.{World, Env, Result, ok, Clock, clock_at, statement}
use distributed_order_proces.Database.Post.{Post, returned, failed}
use distributed_order_proces.Database.Single.{single-Post}
use distributed_order_proces.Order.Queries.{one_row}

one_row-same :
    {A : Type 0} (db : Db) (o : Option A) (a : A) (db' : Db) → one_row db o ≡ ok (a, db') → db' ≡ db
one_row-same db none a db' e = cc
one_row-same db (some x) a db' e = cc

module _ (I : Db → Type 0) where
  abbrev pub Keeps : {A : Type 0} → Result A × World → Type 0
  Keeps r = Post (λ _ w. I w.db) (λ _ w. I w.db) r

  pub Keeps-after : {A : Type 0} {r : Result A × World} → Keeps r → I r.1.db
  Keeps-after (returned h) = h
  Keeps-after (failed h) = h

  -- A call that leaves the tables alone when it fails.
  pub or_same :
      {A : Type 0} {P : A → World → Type 0} {db : Db} {r : Result A × World}
      → I db
      → ((a : A) (w : World) → P a w → I w.db)
      → Post P (λ _ w. w.db ≡ db) r
      → Keeps r
  or_same h keeps (returned p) = returned (keeps _ _ p)
  or_same h keeps (failed e) = failed (subst I (sym e) h)

  pub statement-Keeps :
      {A : Type 0} (env : Env) (run : Clock → Db → Result (A × Db)) (w : World)
      → I w.db
      → ((a : A) (db : Db) → run (clock_at env w) w.db ≡ ok (a, db) → I db)
      → Keeps (statement env run w)
  statement-Keeps env run w h k =
      or_same h (λ _ _ i. i) (single-Post {P = λ _ w'. I w'.db} env run w k)

  pub read-Keeps :
      {A : Type 0} (env : Env) (find : Db → Option A) (w : World)
      → I w.db
      → Keeps (statement env (λ c db. one_row db (find db)) w)
  read-Keeps env find w h =
      statement-Keeps env _ w h (λ a db e. subst I (sym (one_row-same w.db (find w.db) a db e)) h)
