-- ===== src/Tests/Logins.antt =====
-- Logins that fail until the address is turned away.
use distributed_order_proces.Base.{
  refl, ◌≡◌, ◌≤◌, String, true, false, Option, none, some, inl, str_eq, arith, if◌then◌else◌,
}
use distributed_order_proces.Database.Tx.{World}
use distributed_order_proces.RateLimit.Counters.{Counters, counter, Tracks}
use distributed_order_proces.RateLimit.Limiter.{allow, full_key, record_failure, reset}
use distributed_order_proces.RateLimit.Race.{
  again, time_passes, here, late_failure, late_failure-Stuck,
}
use distributed_order_proces.RateLimit.Redis.{Entry}
use distributed_order_proces.Http.Users.{UserCodec, handle_login, post_login}
use distributed_order_proces.Http.Lockout.{
  Up, Guarded, post_login-Guarded, Run, begun, answered, Run-Bounded, IsUsable, counters_after,
  left_by,
}
use distributed_order_proces.Http.Refusals.{refused, handle_login-Alike}
use distributed_order_proces.Tests.Shop.{calm, open_shop, customer}
use distributed_order_proces.Tests.Users.{plain_hashes, stroke_tokens, manager}
use distributed_order_proces.Tests.Redis.{
  redis, redis-Documented, two, reply_of-answered, record_failure-answered,
}

-- A body is the password, of the customer unless it is "who".
abbrev pub users : UserCodec
users = record {
  decode_register = λ s. none;
  validate_register = λ req. true;
  decode_login =
      λ s. some (record { email = if str_eq s "who" then "who@b.c" else "a@b.c"; password = s });
  validate_login = λ req. true;
  split_host_port = λ s. if str_eq s "10.0.0.1:4711" then some "10.0.0.1" else none;
}

redis-Up : (ip : String) (s : String → Option Entry) → Up redis redis-Documented two ip s
unfolding reset
redis-Up ip s = record {
  reads = reply_of-answered (s (counter ip));
  counts = record_failure-answered _ s;
  clears = cc;
}

abbrev attempt : String → World × (String → Option Entry) → World × (String → Option Entry)
attempt body x =
    left_by redis redis-Documented two
      (post_login redis two calm plain_hashes stroke_tokens manager users "10.0.0.1:4711" body x)

abbrev start : World × (String → Option Entry)
start = (open_shop, λ k. none)

abbrev counted : String → Counters → World × (String → Option Entry) → Counters
counted body f x =
    counters_after redis redis-Documented two f "10.0.0.1"
      (post_login redis two calm plain_hashes stroke_tokens manager users "10.0.0.1:4711" body x)

abbrev one_wrong : Counters
one_wrong = counted "guess" (λ ip. 0) start

abbrev two_wrong : Counters
two_wrong = counted "who" one_wrong (attempt "guess" start)

-- Two wrong passwords.
two_guesses :
    Run redis redis-Documented two calm plain_hashes stroke_tokens manager users two_wrong
      (attempt "who" (attempt "guess" start))
unfolding redis-Documented
two_guesses =
    answered "10.0.0.1:4711" "who" "10.0.0.1" (inl refl)
      (answered "10.0.0.1:4711" "guess" "10.0.0.1" (inl refl) (begun (λ ip. refl)) (redis-Up _ _))
      (redis-Up _ _)

two-IsUsable : IsUsable two
two-IsUsable = record {
  some_limit = omega arith;
  int_limit = omega arith;
  some_window = omega arith;
  int_window = omega arith;
}

Run-Bounded_example :
    Tracks redis redis-Documented two two_wrong (attempt "who" (attempt "guess" start)).1
    × ((ip : String) → two_wrong ip ≤ 2)
Run-Bounded_example =
    Run-Bounded redis redis-Documented two calm plain_hashes stroke_tokens manager users
      two-IsUsable two_guesses

-- The third attempt, with the right password.
post_login-Guarded_example :
    Guarded redis redis-Documented two calm plain_hashes stroke_tokens manager users two_wrong
      "10.0.0.1"
      (attempt "who" (attempt "guess" start)).0
      (attempt "who" (attempt "guess" start)).1
      (handle_login redis two calm plain_hashes stroke_tokens manager users "10.0.0.1:4711" "h"
        (attempt "who" (attempt "guess" start)))
      (post_login redis two calm plain_hashes stroke_tokens manager users "10.0.0.1:4711" "h"
        (attempt "who" (attempt "guess" start)))
post_login-Guarded_example =
    post_login-Guarded redis redis-Documented two calm plain_hashes stroke_tokens manager users
      "10.0.0.1:4711" "h" "10.0.0.1" two_wrong (attempt "who" (attempt "guess" start)).0
      (attempt "who" (attempt "guess" start)).1 two-IsUsable (inl refl) (redis-Up _ _)
      ((Run-Bounded redis redis-Documented two calm plain_hashes stroke_tokens manager users
          two-IsUsable two_guesses).1
        "10.0.0.1")
      (Run-Bounded redis redis-Documented two calm plain_hashes stroke_tokens manager users
        two-IsUsable two_guesses).0

handle_login-Alike_example :
    (handle_login redis two calm plain_hashes stroke_tokens manager users "10.0.0.1" "who" start
      ≡ refused redis two calm plain_hashes stroke_tokens manager users "10.0.0.1" open_shop
          (λ k. none))
    × (handle_login redis two calm plain_hashes stroke_tokens manager users "10.0.0.1" "guess" start
        ≡ refused redis two calm plain_hashes stroke_tokens manager users "10.0.0.1" open_shop
            (λ k. none))
handle_login-Alike_example =
    handle_login-Alike redis two calm plain_hashes stroke_tokens manager users "10.0.0.1" "who"
      "guess" (record { email = "who@b.c"; password = "who" })
      (record { email = "a@b.c"; password = "guess" }) customer open_shop (λ k. none) refl refl refl
      refl refl refl refl refl

abbrev counted_once : String → Option Entry
counted_once k = some (record { count = 1; expires = true })

-- The counter runs out in the middle of a second failure, and a third follows.
late_failure-Stuck_example :
    allow redis two "login:ip:10.0.0.1" (
      redis.expire
        (full_key "login:ip:10.0.0.1")
        (record_failure redis two "login:ip:10.0.0.1"
          (late_failure redis redis-Documented two "login:ip:10.0.0.1" counted_once)).1)
    ≡ some false
unfolding redis-Documented
late_failure-Stuck_example =
    late_failure-Stuck redis redis-Documented two "login:ip:10.0.0.1" 1 1 counted_once _ refl
      (record { set_ok = cc; incr_ok = cc })
      (time_passes (again here (record_failure-answered _ _))) (omega arith) (omega arith)
      (reply_of-answered _)
