-- ===== src/Platform/Config.antt =====
-- config.go: the environment variables.
use distributed_order_proces.Base.{ℕ, String, Option, none, some, str_eq, if◌then◌else◌}
use distributed_order_proces.Database.Rows.{Time}

-- What the standard library parses. A float is a type of its own, with the literal 1.0.
pub record Parsers : Type 1 where
  pub Float64 : Type 0
  pub one_point_zero : Float64
  pub parse_float : String → Option Float64
  pub atoi : String → Option ℕ
  pub parse_duration : String → Option Time

-- `os.LookupEnv`, after godotenv has added what the file .env has.
abbrev pub Environment : Type 0
Environment = String → Option String

-- `os.Getenv`
abbrev pub or_empty : Option String → String
or_empty none = ""
or_empty (some s) = s

unfoldable pub getenv : Environment → String → String
getenv lookup key = or_empty (lookup key)

abbrev pub or_else {ℓ} : {A : Type ℓ} → A → Option A → A
or_else fallback none = fallback
or_else fallback (some a) = a

unfoldable pub get_env : Environment → String → String → String
get_env lookup key fallback = or_else fallback (lookup key)

pub data ConfigError : Type 0 where
  missing_database_url missing_jwt_secret invalid_jwt_expiry : ConfigError

module _ (p : Parsers) where
  pub record Config : Type 0 where
    pub database_url : String
    pub jwt_secret : String
    pub port : String
    pub go_env : String
    pub redis_host : String
    pub redis_port : String
    pub jwt_expiry : Time
    pub login_rate_limit : ℕ
    pub login_rate_window : Time
    pub otel_exporter_endpoint : String
    pub otel_service_name : String
    pub otel_sample_ratio : p.Float64
    pub metrics_port : String

  pub data Loaded : Type 0 where
    loaded : Config → Loaded
    failed : ConfigError → Loaded

  unfoldable pub get_env_int : Environment → String → ℕ → ℕ
  unfolding getenv
  get_env_int lookup key fallback = or_else fallback (p.atoi (getenv lookup key))

  unfoldable pub get_env_duration : Environment → String → Time → Time
  unfolding getenv
  get_env_duration lookup key fallback = or_else fallback (p.parse_duration (getenv lookup key))

  unfoldable pub get_env_float : Environment → String → p.Float64 → p.Float64
  unfolding getenv
  get_env_float lookup key fallback =
      let val_str = getenv lookup key in
      if str_eq val_str "" then fallback else or_else fallback (p.parse_float val_str)

  -- 15 minutes in nanoseconds.
  abbrev pub quarter_of_an_hour : Time
  quarter_of_an_hour = 900000000000

  abbrev pub with_expiry : Environment → String → String → Option Time → Loaded
  with_expiry lookup database_url jwt_secret none = failed invalid_jwt_expiry
  with_expiry lookup database_url jwt_secret (some jwt_expiry) = loaded (record {
    database_url = database_url;
    jwt_secret = jwt_secret;
    port = get_env lookup "PORT" "8080";
    go_env = get_env lookup "GO_ENV" "development";
    redis_host = get_env lookup "REDIS_HOST" "localhost";
    redis_port = get_env lookup "REDIS_PORT" "6379";
    jwt_expiry = jwt_expiry;
    login_rate_limit = get_env_int lookup "LOGIN_RATE_LIMIT" 5;
    login_rate_window = get_env_duration lookup "LOGIN_RATE_WINDOW" quarter_of_an_hour;
    otel_exporter_endpoint =
        get_env lookup "OTEL_EXPORTER_OTLP_ENDPOINT" "http://localhost:4318/v1/traces";
    otel_service_name = get_env lookup "OTEL_SERVICE_NAME" "order-api";
    otel_sample_ratio = get_env_float lookup "OTEL_SAMPLE_RATIO" p.one_point_zero;
    metrics_port = get_env lookup "METRICS_PORT" "9100";
  })

  unfoldable pub load : Environment → Loaded
  unfolding getenv get_env get_env_int get_env_duration get_env_float
  load lookup =
      let database_url = getenv lookup "DATABASE_URL" in
      let jwt_secret = getenv lookup "JWT_SECRET" in
      if str_eq database_url ""
      then failed missing_database_url
      else if str_eq jwt_secret ""
      then failed missing_jwt_secret
      else with_expiry lookup database_url jwt_secret
          (p.parse_duration (getenv lookup "JWT_EXPIRY"))
