-- ===== src/Platform/Connect.antt =====
-- database.go: connecting to PostgreSQL, with retries.
use distributed_order_proces.Base.{
  not, sym, refl, ℕ, zero, suc, ◌+◌, ◌*◌, ◌<◌, ◌≡◌, String, Bool, true, false, Option, none, some,
  arith, ltb, if◌then◌else◌, Bool-cases, inl, inr, ◌==◌, subst, ◌∙◌, ap,
}
use distributed_order_proces.Database.Rows.{Time}
use mathlib.Core.Path.{subst₂}

-- What pgxpool does: `parse_config` and `new_with_config` can fail, and `ping_ok n` says whether the
-- n-th ping of the pool succeeds, from 0.
pub record PgxPool : Type 1 where
  pub Config : Type 0
  pub parse_config : String → Option Config
  pub new_with_config : Config → Bool
  pub ping_ok : ℕ → Bool

-- What the attempts have done.
pub record Attempts : Type 0 where
  pub pings : ℕ
  pub slept : Time
  pub closed : Bool

pub data Connected : Type 0 where
  connected : Attempts → Connected
  not_ready : Attempts → Connected
  bad_config no_pool : Connected

abbrev pub max_attempts : ℕ
max_attempts = 10

-- Nanoseconds.
abbrev pub retry_delay : Time
retry_delay = 2000000000

-- The loop over `i`, on fuel.
unfoldable pub ping_loop : (ℕ → Bool) → ℕ → ℕ → Attempts → Option Connected
ping_loop ping_ok zero i a = none
ping_loop ping_ok (suc fuel) i a =
    let a' = record a { pings = suc a.pings } in
    let rest = ping_loop ping_ok fuel (suc i) (record a' { slept = a.slept + retry_delay }) in
    if not (ltb i max_attempts)
    then some (not_ready (record a { closed = true }))
    else if ping_ok a.pings
    then some (connected a')
    else rest

abbrev pub with_pool : (ℕ → Bool) → Bool → Option Connected
with_pool ping_ok false = some no_pool
with_pool ping_ok true = ping_loop ping_ok 10 1 (record { pings = 0; slept = 0; closed = false })

abbrev pub with_config : (pgx : PgxPool) → Option pgx.Config → Option Connected
with_config pgx none = some bad_config
with_config pgx (some cfg) = with_pool pgx.ping_ok (pgx.new_with_config cfg)

unfoldable pub new : PgxPool → String → Option Connected
unfolding ping_loop
new pgx dsn = with_config pgx (pgx.parse_config dsn)

-- How connecting can end. The pool is open exactly if it is returned.
pub data Ends (pgx : PgxPool) (dsn : String) : Option Connected → Type 0 where
  malformed : pgx.parse_config dsn ≡ none → Ends pgx dsn (some bad_config)
  refused :
      {cfg : pgx.Config}
      → pgx.parse_config dsn ≡ some cfg
      → pgx.new_with_config cfg ≡ false
      → Ends pgx dsn (some no_pool)
  answered :
      (k : ℕ)
      → k < 9
      → ((j : ℕ) → j < k → pgx.ping_ok j ≡ false)
      → pgx.ping_ok k ≡ true
      → Ends pgx dsn
          (some (connected (record { pings = suc k; slept = k * 2000000000; closed = false })))
  silent :
      ((j : ℕ) → j < 9 → pgx.ping_ok j ≡ false)
      → Ends pgx dsn (some (not_ready (record { pings = 9; slept = 18000000000; closed = true })))

module _ (pgx : PgxPool) (dsn : String) where
  abbrev AllFail : ℕ → Type 0
  AllFail n = (j : ℕ) → j < n → pgx.ping_ok j ≡ false

  one_more : (n : ℕ) → AllFail n → pgx.ping_ok n ≡ false → AllFail (suc n)
  one_more n failed lost j h = elim (Bool-cases (j == n)) [
    | inl same ↦ ap pgx.ping_ok (ground (arith, same)) ∙ lost
    | inr other ↦ failed j (ground (arith, other))
  ]

  -- The loop after `n` pings have failed, with as much fuel as attempts are left.
  ping_loop-Ends :
      (left n slept : ℕ)
      → n + left ≡ 9
      → AllFail n
      → n * 2000000000 ≡ slept
      → Ends pgx dsn (
          ping_loop pgx.ping_ok
            (suc left)
            (suc n)
            (record { pings = n; slept = slept; closed = false }))
  unfolding ping_loop
  ping_loop-Ends zero n slept e failed h =
      let over : ltb (suc n) 10 ≡ false = ground arith in
      let nine : 9 ≡ n = omega (arith, e) in
      let waited : 18000000000 ≡ slept = omega (arith, e, h) in
      rw over (
        subst₂
          (λ p t. Ends pgx dsn (some (not_ready (record { pings = p; slept = t; closed = true }))))
          nine waited (silent (subst AllFail (sym nine) failed)))
  ping_loop-Ends (suc left) n slept e failed h =
      let going : ltb (suc n) 10 ≡ true = ground arith in
      elim (Bool-cases (pgx.ping_ok n)) [
        | inl ready ↦
            rw (going, ready)
              (subst
                (λ t.
                  Ends pgx dsn
                    (some (connected (record { pings = suc n; slept = t; closed = false }))))
                h (answered n (omega (arith, e)) failed ready))
        | inr lost ↦
            rw (going, lost)
              (ping_loop-Ends left (suc n) (slept + retry_delay) (omega (arith, e))
                (one_more n failed lost) (omega (arith, h)))
      ]

  with_pool-Ends :
      (cfg : pgx.Config) (b : Bool)
      → pgx.parse_config dsn ≡ some cfg
      → pgx.new_with_config cfg ≡ b
      → Ends pgx dsn (with_pool pgx.ping_ok b)
  with_pool-Ends cfg false parsed made = refused parsed made
  with_pool-Ends cfg true parsed made =
      ping_loop-Ends 9 0 0 (omega arith) (λ j h. absurd (omega (arith, h))) (omega arith)

  with_config-Ends :
      (o : Option pgx.Config) → pgx.parse_config dsn ≡ o → Ends pgx dsn (with_config pgx o)
  with_config-Ends none parsed = malformed parsed
  with_config-Ends (some cfg) parsed = with_pool-Ends cfg (pgx.new_with_config cfg) parsed refl

  -- Connecting always ends, whatever the pool does: with an error if the configuration is malformed or
  -- refused, with the pool at the first ping that succeeds if it is one of the first nine, and else
  -- with an error and the pool closed. Two seconds are slept after each ping that failed.
  pub new-Ends : Ends pgx dsn (new pgx dsn)
  unfolding new
  new-Ends = with_config-Ends (pgx.parse_config dsn) refl
