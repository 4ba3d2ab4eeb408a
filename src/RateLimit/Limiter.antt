-- ===== src/RateLimit/Limiter.antt =====
-- ratelimit/rate_limiter.go
use distributed_order_proces.Base.{ℕ, String, Bool, true, Option, some, none}
use distributed_order_proces.Base.Texts.{append}
use distributed_order_proces.Base.Words.{lt_int}
use distributed_order_proces.Database.Rows.{Time}
use distributed_order_proces.RateLimit.Redis.{Reply, value, nil, failed, Redis}

-- The limit is an `int`, the window a time.Duration, an int64 of nanoseconds.
pub record RateLimiter : Type 0 where
  pub limit : ℕ
  pub window : Time

unfoldable pub login_key : String → String
login_key ip = append "login:ip:" ip

unfoldable pub full_key : String → String
full_key key = append "rate_limit:" key

-- A missing counter allows; another error is returned, here as `none`.
abbrev pub below : RateLimiter → Reply ℕ → Option Bool
below rl nil = some true
below rl failed = none
below rl (value count) = some (lt_int count rl.limit)

module _ (r : Redis) (rl : RateLimiter) where
  unfoldable pub allow : String → r.Store → Option Bool
  allow key s = below rl (r.get (full_key key) s)

  -- `SetArgs` with a reply of redis.Nil has found the key there.
  abbrev pub count_up : String → Reply (Unit {0}) × r.Store → Reply ℕ × r.Store
  count_up key (failed, s) = (failed, s)
  count_up key (nil, s) = r.incr key s
  count_up key (value _, s) = r.incr key s

  unfoldable pub record_failure : String → r.Store → Reply ℕ × r.Store
  record_failure key s = count_up (full_key key) (r.set_nx (full_key key) 0 rl.window s)

  unfoldable pub reset : String → r.Store → Reply ℕ × r.Store
  reset key s = r.del (full_key key) s
