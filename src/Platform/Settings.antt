-- ===== src/Platform/Settings.antt =====
-- What a configuration that was loaded can be relied on for.
use distributed_order_proces.Base.{
  refl, ℕ, ◌<◌, ◌^◌, ◌≡◌, ◌≢◌, ◌⊎◌, inl, inr, String, true, false, Option, none, some, str_eq,
  eq_iff, arith, Bool-cases, ap, ◌∙◌,
}
use distributed_order_proces.Platform.Config.{
  Parsers, Environment, Config, ConfigError, Loaded, loaded, failed, getenv, or_empty, or_else,
  get_env_int, get_env_duration, with_expiry, load,
}
use distributed_order_proces.Database.Rows.{Time}

-- strconv and time: the empty text is no number and no duration.
pub record RejectsEmpty (p : Parsers) : Type 0 where
  pub no_number : p.atoi "" ≡ none
  pub no_duration : p.parse_duration "" ≡ none

module _ (p : Parsers) (lookup : Environment) where
  -- What the rest of the program asks of a configuration. The last two fields are the conditions on
  -- the limit and the window of the rate limiter.
  pub record Usable (c : Config p) : Type 0 where
    pub database : c.database_url ≢ ""
    pub secret : c.jwt_secret ≢ ""
    pub limit :
        lookup "LOGIN_RATE_LIMIT" ≡ none → (0 < c.login_rate_limit) × (c.login_rate_limit < 2 ^ 63)
    pub window :
        lookup "LOGIN_RATE_WINDOW" ≡ none
        → (0 < c.login_rate_window) × (c.login_rate_window < 2 ^ 63)

  pub data Ends : Loaded p → Type 0 where
    incomplete :
        {e : ConfigError}
        → (getenv lookup "DATABASE_URL" ≡ "")
          ⊎ (getenv lookup "JWT_SECRET" ≡ "")
          ⊎ (p.parse_duration (getenv lookup "JWT_EXPIRY") ≡ none)
        → Ends (failed e)
    usable : {c : Config p} → Usable c → Ends (loaded c)

  differ : {a b : String} → str_eq a b ≡ false → a ≢ b
  differ {a} {b} other e = let h : str_eq a b ≡ true = (eq_iff a b).1 e in cc

  default_int :
      (key : String) (n : ℕ) → RejectsEmpty p → lookup key ≡ none → get_env_int p lookup key n ≡ n
  unfolding get_env_int getenv
  default_int key n empty unset =
      ap (λ o. or_else n (p.atoi (or_empty o))) unset ∙ ap (or_else n) empty.no_number

  default_duration :
      (key : String) (n : Time)
      → RejectsEmpty p
      → lookup key ≡ none
      → get_env_duration p lookup key n ≡ n
  unfolding get_env_duration getenv
  default_duration key n empty unset =
      ap (λ o. or_else n (p.parse_duration (or_empty o))) unset ∙ ap (or_else n) empty.no_duration

  with_expiry-Ends :
      (o : Option Time) (database_url jwt_secret : String)
      → RejectsEmpty p
      → p.parse_duration (getenv lookup "JWT_EXPIRY") ≡ o
      → database_url ≢ ""
      → jwt_secret ≢ ""
      → Ends (with_expiry p lookup database_url jwt_secret o)
  with_expiry-Ends none database_url jwt_secret empty e db secret = incomplete (inr (inr e))
  with_expiry-Ends (some t) database_url jwt_secret empty e db secret = usable (record {
    database = db;
    secret = secret;
    limit = λ unset.
        let five = default_int "LOGIN_RATE_LIMIT" 5 empty unset in
        (omega (arith, five), omega (arith, five));
    window = λ unset.
        let quarter = default_duration "LOGIN_RATE_WINDOW" 900000000000 empty unset in
        (omega (arith, quarter), omega (arith, quarter));
  })

  -- Loading the configuration fails only if the address of the database or the secret is empty or
  -- the expiry of tokens is no duration; else neither is empty, and unless they are set the limit
  -- of failed logins and its window are such that the rate limiter works.
  pub load-Ends : RejectsEmpty p → Ends (load p lookup)
  unfolding load
  load-Ends empty = elim (Bool-cases (str_eq (getenv lookup "DATABASE_URL") "")) [
    | inl missing ↦ rw missing (incomplete (inl ((eq_iff _ _).0 missing)))
    | inr there ↦ elim (Bool-cases (str_eq (getenv lookup "JWT_SECRET") "")) [
      | inl missing ↦ rw (there, missing) (incomplete (inr (inl ((eq_iff _ _).0 missing))))
      | inr given ↦
          rw (there, given)
            (with_expiry-Ends (p.parse_duration (getenv lookup "JWT_EXPIRY"))
              (getenv lookup "DATABASE_URL") (getenv lookup "JWT_SECRET") empty refl (differ there)
              (differ given))
    ]
  ]
