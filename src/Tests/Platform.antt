-- ===== src/Tests/Platform.antt =====
-- Starting up.
use distributed_order_proces.Base.{
  refl, ℕ, true, false, none, some, str_eq, if◌then◌else◌, leb, ◌≡◌, [], ◌∷◌,
}
use distributed_order_proces.Platform.Connect.{PgxPool, new, ping_loop, connected, Ends, new-Ends}
use distributed_order_proces.Platform.Config.{Parsers, Environment, load}
use distributed_order_proces.Platform.Settings.{RejectsEmpty, load-Ends}
use distributed_order_proces.Platform.Metrics.{Visit, Metrics, new_metrics, started, finished}
use distributed_order_proces.Platform.Served.{idle, enters, answers, panics, Tells, Serving-Tells}
use distributed_order_proces.Platform.Settings
use distributed_order_proces.Platform.Main.{Outside, main}
use distributed_order_proces.Platform.Ending.{Stops, main-Stops}
use distributed_order_proces.Platform.App.{IsClean, build_app, build_app-IsClean}

-- A server that answers from the third ping on.
abbrev slow_server : PgxPool
slow_server = record {
  Config = Unit {0};
  parse_config = λ s. some tt;
  new_with_config = λ c. true;
  ping_ok = λ n. leb 2 n;
}

slow_server_connected :
    new slow_server "postgres://db"
    ≡ some (connected (record { pings = 3; slept = 4000000000; closed = false }))
unfolding new ping_loop
slow_server_connected = refl

new-Ends_example : Ends slow_server "postgres://db" (new slow_server "postgres://db")
new-Ends_example = new-Ends slow_server "postgres://db"

abbrev parsers : Parsers
parsers = record {
  Float64 = ℕ;
  one_point_zero = 1;
  parse_float = λ s. none;
  atoi = λ s. none;
  parse_duration = λ s. if str_eq s "1h" then some 3600000000000 else none;
}

abbrev variables : Environment
variables = λ key.
    if str_eq key "DATABASE_URL"
    then some "postgres://db"
    else if str_eq key "JWT_SECRET"
    then some "s"
    else if str_eq key "JWT_EXPIRY"
    then some "1h"
    else none

load-Ends_example : Settings.Ends parsers variables (load parsers variables)
load-Ends_example = load-Ends parsers variables (record { no_number = refl; no_duration = refl })

abbrev list_visit : Visit
list_visit = record { path = "/api/products/"; matched = some "/api/products/"; method = "GET" }

abbrev login_visit : Visit
login_visit = record {
  path = "/api/users/login";
  matched = some "/api/users/login";
  method = "POST";
}

-- A login answered 429 while a listing is in flight, which then panics.
abbrev busy : Metrics
busy =
    finished list_visit none
      (finished login_visit (some 429) (started login_visit (started list_visit new_metrics)))

Serving-Tells_example : Tells [] (record { visit = login_visit; status = 429 } ∷ []) busy
Serving-Tells_example = Serving-Tells (
    panics [] [] list_visit
      (answers [] (list_visit ∷ []) login_visit 429 (enters login_visit (enters list_visit idle))))

-- The metrics of the pool cannot be registered.
build_app-IsClean_example : IsClean (build_app slow_server "postgres://db" true false)
build_app-IsClean_example = build_app-IsClean slow_server "postgres://db" true false

-- A service whose listener of the metrics fails when a signal has come, with a connection still out.
abbrev outside : Outside
outside = record {
  parsers = parsers;
  environment = variables;
  otel = record { new_exporter = λ url. true; new_resource = λ name. true };
  pgx = slow_server;
  instrumented = true;
  registered = true;
  happened = record {
    api_failed = false;
    metrics_failed = true;
    signalled = true;
    takes_error = false;
    returned = false;
  };
}

main-Stops_example : Stops outside (main outside)
main-Stops_example = main-Stops outside
