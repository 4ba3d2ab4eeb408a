-- ===== src/Platform/App.antt =====
-- server/app.go: what BuildApp opens and closes.
use distributed_order_proces.Base.{String, Bool, true, false, Option, none, some, not}
use distributed_order_proces.Platform.Connect.{
  PgxPool, Connected, connected, not_ready, bad_config, no_pool, new, Ends, new-Ends, malformed,
  refused, answered, silent,
}

-- Whether the pool of connections and the client of Redis are open.
pub record Resources : Type 0 where
  pub pool : Bool
  pub redis : Bool

pub data Built : Type 0 where
  app failed : Resources → Built

-- The deferred calls, which run when `err` is set.
abbrev pub close_all : Resources → Resources
close_all r = record { pool = false; redis = false }

-- From the instrumentation of Redis to the registration of the pool's metrics. The rest builds values.
abbrev pub wire : Bool → Bool → Resources → Built
wire false registered r = failed (close_all r)
wire true false r = failed (close_all r)
wire true true r = app r

-- `connected` has left the pool open, and `redis.NewClient` cannot fail.
abbrev pub after_connect : Bool → Bool → Connected → Built
after_connect instrumented registered (connected a) =
    wire instrumented registered (record { pool = not a.closed; redis = true })
after_connect instrumented registered (not_ready a) =
    failed (record { pool = not a.closed; redis = false })
after_connect instrumented registered bad_config = failed (record { pool = false; redis = false })
after_connect instrumented registered no_pool = failed (record { pool = false; redis = false })

abbrev pub after_loop : Bool → Bool → Option Connected → Option Built
after_loop instrumented registered none = none
after_loop instrumented registered (some c) = some (after_connect instrumented registered c)

-- `instrumented` and `registered` say whether redisotel.InstrumentTracing and RegisterPool succeed.
unfoldable pub build_app : PgxPool → String → Bool → Bool → Option Built
build_app pgx dsn instrumented registered = after_loop instrumented registered (new pgx dsn)

-- An application with all its resources, or an error that leaves none open.
pub data IsClean : Option Built → Type 0 where
  running : IsClean (some (app (record { pool = true; redis = true })))
  stopped : IsClean (some (failed (record { pool = false; redis = false })))

wire-IsClean :
    (instrumented registered : Bool)
    → IsClean (some (wire instrumented registered (record { pool = true; redis = true })))
wire-IsClean false registered = stopped
wire-IsClean true false = stopped
wire-IsClean true true = running

after_loop-IsClean :
    (pgx : PgxPool) (dsn : String) (instrumented registered : Bool) {r : Option Connected}
    → Ends pgx dsn r
    → IsClean (after_loop instrumented registered r)
after_loop-IsClean pgx dsn instrumented registered (malformed e) = stopped
after_loop-IsClean pgx dsn instrumented registered (refused e h) = stopped
after_loop-IsClean pgx dsn instrumented registered (answered k h f e) =
    wire-IsClean instrumented registered
after_loop-IsClean pgx dsn instrumented registered (silent f) = stopped

-- Building the application always ends, whatever fails: with the pool and Redis open, or with an
-- error and nothing left open.
pub build_app-IsClean :
    (pgx : PgxPool) (dsn : String) (instrumented registered : Bool)
    → IsClean (build_app pgx dsn instrumented registered)
unfolding build_app
build_app-IsClean pgx dsn instrumented registered =
    after_loop-IsClean pgx dsn instrumented registered (new-Ends pgx dsn)
