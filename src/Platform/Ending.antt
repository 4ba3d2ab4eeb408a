-- ===== src/Platform/Ending.antt =====
-- What becomes of the process of cmd/api/main.go.
use distributed_order_proces.Base.{refl, Bool, true, false, not, Option, none, some, ◌≡◌, arith}
use distributed_order_proces.Platform.Config.{
  Config, ConfigError, Loaded, loaded, failed, load, Parsers,
}
use distributed_order_proces.Platform.App.{Resources, Built, build_app, IsClean, build_app-IsClean}
use distributed_order_proces.Platform.Tracing.{TracerProvider, new_tracing}
use distributed_order_proces.Platform.Main.{
  Happened, Outside, Outcome, exits, serves, waits_for_pool, Woken, server_error, by_signal,
  has_failed, select, is_running, close_database, shutdown, wake, serving, run_built, nothing_held,
  start, main,
}
use distributed_order_proces.Platform.App as App

-- What becomes of the process. `traced` is whether there is a provider of traces.
pub data Stops (o : Outside) : Option Outcome → Type 0 where
  unconfigured :
      {e : ConfigError}
      → load o.parsers o.environment ≡ failed e
      → Stops o (some (exits 1 nothing_held))
  unbuilt :
      {cfg : Config o.parsers} {r : Resources} (traced : Bool)
      → load o.parsers o.environment ≡ loaded cfg
      → build_app o.pgx cfg.database_url o.instrumented o.registered ≡ some (App.failed r)
      → Stops o (some (exits 1 (record nothing_held { tracer = traced })))
  still_serves :
      (traced : Bool)
      → o.happened.api_failed ≡ false
      → o.happened.metrics_failed ≡ false
      → o.happened.signalled ≡ false
      → Stops o (
          some (
            serves
              (record { api = true; metrics = true; tracer = traced; pool = true; redis = true })))
  lost_listener :
      (traced : Bool)
      → has_failed o.happened ≡ true
      → Stops o (
          some (
            exits 0 (record {
              api = not o.happened.api_failed;
              metrics = not o.happened.metrics_failed;
              tracer = traced;
              pool = true;
              redis = true;
            })))
  shut_down :
      o.happened.signalled ≡ true
      → o.happened.returned ≡ true
      → Stops o (some (exits 0 nothing_held))
  hangs :
      o.happened.signalled ≡ true
      → o.happened.returned ≡ false
      → Stops o (some (waits_for_pool (record nothing_held { pool = true; redis = true })))

abbrev all_open : Resources
all_open = record { pool = true; redis = true }

-- What is left after the listeners and the provider of traces are shut down.
shutdown-eq :
    {p : Parsers} (e : Happened) (returned : Bool) (tp : Option (TracerProvider p))
    → shutdown returned tp (serving e (is_running tp) all_open)
      ≡ close_database returned (record nothing_held { pool = true; redis = true })
unfolding shutdown
shutdown-eq e returned none = refl
shutdown-eq e returned (some tp) = refl

module _ (o : Outside) where
  shutdown-Stops :
      (returned : Bool)
      → o.happened.signalled ≡ true
      → o.happened.returned ≡ returned
      → Stops o (some (close_database returned (record nothing_held { pool = true; redis = true })))
  shutdown-Stops true s e = shut_down s e
  shutdown-Stops false s e = hangs s e

  wake-Stops :
      {p : Parsers} (tp : Option (TracerProvider p)) (woken : Option Woken)
      → select o.happened ≡ woken
      → Stops o
          (some (wake o.happened.returned tp (serving o.happened (is_running tp) all_open) woken))
  unfolding wake select
  wake-Stops tp none e =
      let api : o.happened.api_failed ≡ false = ground arith in
      let metrics : o.happened.metrics_failed ≡ false = ground arith in
      simp (api, metrics) (still_serves (is_running tp) api metrics (ground arith))
  wake-Stops tp (some server_error) e = lost_listener (is_running tp) (ground arith)
  wake-Stops tp (some by_signal) e =
      rw (shutdown-eq o.happened o.happened.returned tp)
        (shutdown-Stops o.happened.returned (ground arith) refl)

  run_built-Stops :
      {cfg : Config o.parsers} (tp : Option (TracerProvider o.parsers)) {built : Option Built}
      → load o.parsers o.environment ≡ loaded cfg
      → build_app o.pgx cfg.database_url o.instrumented o.registered ≡ built
      → IsClean built
      → Stops o (run_built o.happened tp built)
  run_built-Stops tp configured e App.running = wake-Stops tp (select o.happened) refl
  run_built-Stops tp configured e App.stopped = unbuilt (is_running tp) configured e

-- The process exits with code 1 and nothing open, but for the provider of traces, if the configuration
-- or the application is refused. Else it serves while no listener fails and no signal comes. An error
-- of a listener that the `select` takes ends it with code 0 and the other listener open, unless that
-- failed too, and with the pool and Redis open. A signal that it takes ends it with code 0 and
-- everything closed, if all connections come back to the pool; else it waits in `Close` of the pool,
-- with Redis open.
pub main-Stops : (o : Outside) → Stops o (main o)
unfolding main
main-Stops o = started (load o.parsers o.environment) refl
  where
    started : (l : Loaded o.parsers) → load o.parsers o.environment ≡ l → Stops o (start o l)
    started (failed e) h = unconfigured h
    started (loaded cfg) h =
        run_built-Stops o (new_tracing o.otel cfg) h refl
          (build_app-IsClean o.pgx cfg.database_url o.instrumented o.registered)
