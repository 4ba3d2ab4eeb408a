-- ===== src/Database/Single.antt =====
-- A statement that is a transaction of its own: refused, it leaves the tables as they were.
use distributed_order_proces.Base.{◌≡◌, suc, refl}
use distributed_order_proces.Database.Rows.{Db}
use distributed_order_proces.Database.Tx.{Env, World, Clock, Result, ok, err, clock_at, statement}
use distributed_order_proces.Database.Post.{Post, Runs, statement-Post}

Runs-of_ok :
    {A : Type 0} (P : A → World → Type 0) (w : World) (s : Result (A × Db))
    → ((a : A) (db : Db) → s ≡ ok (a, db) → P a (record w { db = db; tick = suc w.tick }))
    → Runs P (λ _ w'. w'.db ≡ w.db) w s
Runs-of_ok P w (ok (a, db)) k = k a db refl
Runs-of_ok P w (err e) k = refl

pub single-Post :
    {A : Type 0} {P : A → World → Type 0} (env : Env) (run : Clock → Db → Result (A × Db))
    (w : World)
    → ((a : A) (db : Db)
        → run (clock_at env w) w.db ≡ ok (a, db)
        → P a (record w { db = db; tick = suc w.tick }))
    → Post P (λ _ w'. w'.db ≡ w.db) (statement env run w)
single-Post {P = P} env run w k =
    statement-Post env run w refl (Runs-of_ok P w (run (clock_at env w) w.db) k)
