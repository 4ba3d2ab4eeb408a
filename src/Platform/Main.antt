-- ===== src/Platform/Main.antt =====
-- cmd/api/main.go: the life of the process, from the configuration to the shutdown.
use distributed_order_proces.Base.{
  ℕ, Bool, true, false, not, Option, none, some, ◌&&◌, ◌||◌, if◌then◌else◌,
}
use distributed_order_proces.Platform.Config.{Parsers, Environment, Loaded, loaded, failed, load}
use distributed_order_proces.Platform.Connect.{PgxPool}
use distributed_order_proces.Platform.App.{
  Resources, Built, app, build_app, IsClean, build_app-IsClean,
}
use distributed_order_proces.Platform.Tracing.{Otel, TracerProvider, new_tracing}
use distributed_order_proces.Platform.App as App

-- What happens to the process while it serves, up to its end if it has one: whether the listener of
-- the API and that of the metrics fail, whether a signal comes, and what the `select` takes if an error
-- and the signal are there at once. `returned` says whether all connections come back to the pool.
pub record Happened : Type 0 where
  pub api_failed : Bool
  pub metrics_failed : Bool
  pub signalled : Bool
  pub takes_error : Bool
  pub returned : Bool

-- What the process meets outside: the variables, the libraries, and what happens to it. A listener
-- that is shut down is closed before Shutdown waits for its connections, so also if Shutdown reports
-- an error, at the latest after ten seconds; so is a provider of traces, and `Close` of Redis.
pub record Outside : Type 1 where
  pub parsers : Parsers
  pub environment : Environment
  pub otel : Otel
  pub pgx : PgxPool
  pub instrumented : Bool
  pub registered : Bool
  pub happened : Happened

-- What the process has open.
pub record Held : Type 0 where
  pub api : Bool
  pub metrics : Bool
  pub tracer : Bool
  pub pool : Bool
  pub redis : Bool

-- The process exits with a code and with what it did not close itself, or it still waits in the
-- `select`, or in the `Close` of the pool.
pub data Outcome : Type 0 where
  exits : ℕ → Held → Outcome
  serves waits_for_pool : Held → Outcome

-- What ends the `select`: a value of `serverErr`, or the signal.
pub data Woken : Type 0 where
  server_error by_signal : Woken

abbrev pub has_failed : Happened → Bool
has_failed e = e.api_failed || e.metrics_failed

-- A `select` without a ready case waits; with two it takes either.
unfoldable pub select : Happened → Option Woken
select e =
    if has_failed e && e.signalled
    then (if e.takes_error then some server_error else some by_signal)
    else if has_failed e
    then some server_error
    else if e.signalled
    then some by_signal
    else none

abbrev pub is_running : {p : Parsers} → Option (TracerProvider p) → Bool
is_running none = false
is_running (some tp) = true

-- The shutdown after a signal, call by call. The errors are only logged.
abbrev pub shutdown_api : Held → Held
shutdown_api h = record h { api = false }

abbrev pub shutdown_metrics : Held → Held
shutdown_metrics h = record h { metrics = false }

-- `if tp != nil`
abbrev pub shutdown_tracer : {p : Parsers} → Option (TracerProvider p) → Held → Held
shutdown_tracer none h = h
shutdown_tracer (some tp) h = record h { tracer = false }

-- `Close` of Redis, and the end of `main`.
abbrev pub close_redis : Held → Outcome
close_redis h = exits 0 (record h { redis = false })

-- `Close` of a pool returns once all its connections have come back; what follows does not run before.
abbrev pub close_database : Bool → Held → Outcome
close_database false h = waits_for_pool h
close_database true h = close_redis (record h { pool = false })

unfoldable pub shutdown : {p : Parsers} → Bool → Option (TracerProvider p) → Held → Outcome
shutdown returned tp h =
    close_database returned (shutdown_tracer tp (shutdown_metrics (shutdown_api h)))

-- `return` on the error of a listener runs no deferred call that closes anything.
unfoldable pub wake :
    {p : Parsers} → Bool → Option (TracerProvider p) → Held → Option Woken → Outcome
wake returned tp h none = serves h
wake returned tp h (some server_error) = exits 0 h
wake returned tp h (some by_signal) = shutdown returned tp h

-- A listener that failed is not open.
abbrev pub serving : Happened → Bool → Resources → Held
serving e traced r = record {
  api = not e.api_failed;
  metrics = not e.metrics_failed;
  tracer = traced;
  pool = r.pool;
  redis = r.redis;
}

-- `os.Exit(1)` if the application could not be built.
abbrev pub run : {p : Parsers} → Happened → Option (TracerProvider p) → Built → Outcome
run e tp (App.failed r) = exits 1 (record {
  api = false;
  metrics = false;
  tracer = is_running tp;
  pool = r.pool;
  redis = r.redis;
})
run e tp (app r) = wake e.returned tp (serving e (is_running tp) r) (select e)

abbrev pub run_built :
    {p : Parsers} → Happened → Option (TracerProvider p) → Option Built → Option Outcome
run_built e tp none = none
run_built e tp (some built) = some (run e tp built)

abbrev pub nothing_held : Held
nothing_held = record { api = false; metrics = false; tracer = false; pool = false; redis = false }

-- `log.Fatalf` exits with 1.
abbrev pub start : (o : Outside) → Loaded o.parsers → Option Outcome
start o (failed e) = some (exits 1 nothing_held)
start o (loaded cfg) =
    run_built o.happened (new_tracing o.otel cfg)
      (build_app o.pgx cfg.database_url o.instrumented o.registered)

unfoldable pub main : Outside → Option Outcome
main o = start o (load o.parsers o.environment)
