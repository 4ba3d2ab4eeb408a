-- ===== src/Http/Lockout.antt =====
-- Logins against the rate limiter's promise: the failures of an address are counted since its last
-- success or expiry, and at the limit it is turned away.
use distributed_order_proces.Base.{
  refl, ℕ, suc, ◌<◌, ◌≡◌, ◌≢◌, String, Option, none, some, Bool-cases, inl, inr, ◌==◌,
  if◌then◌else◌, str_eq, eq_iff, subst, ◌≤◌, arith, ◌^◌, ltb, sym, ◌⊎◌,
}
use distributed_order_proces.Database.Tx.{World, Env, Result, ok, err}
use distributed_order_proces.RateLimit.Redis.{Redis, failed, Documented}
use distributed_order_proces.RateLimit.Limiter.{RateLimiter, login_key, record_failure, reset}
use distributed_order_proces.RateLimit.Counters.{
  Counters, set_counter, counter, Tracks, record_failure-Tracks, reset-Tracks, entry_of,
  allow-Tracks, expire-Tracks,
}
use distributed_order_proces.User.Model.{Crypto, LoginRequest}
use distributed_order_proces.User.Service.{login}
use distributed_order_proces.Auth.Jwt.{Jwt, JwtManager}
use distributed_order_proces.Http.Message.{Response, write_error_json}
use distributed_order_proces.Http.Users.{
  UserCodec, is_login_generic, answer_login, login_valid, post_login, login_rate_limiter,
  handle_login, client_ip,
}

-- A limit and a window above 0.
pub record IsUsable (rl : RateLimiter) : Type 0 where
  pub some_limit : 0 < rl.limit
  pub int_limit : rl.limit < 2 ^ 63
  pub some_window : 0 < rl.window
  pub int_window : rl.window < 2 ^ 63

-- The address that a request comes from: the host of `host:port`, or all of it if it is no such pair.
abbrev pub IsFrom : UserCodec → String → String → Type 0
IsFrom codec remote_addr ip =
    (codec.split_host_port remote_addr ≡ some ip)
    ⊎ ((codec.split_host_port remote_addr ≡ none) × (ip ≡ remote_addr))

client_ip-eq :
    (codec : UserCodec) (remote_addr ip : String)
    → IsFrom codec remote_addr ip
    → client_ip codec remote_addr ≡ ip
unfolding client_ip
client_ip-eq codec remote_addr ip (inl split) = rw split refl
client_ip-eq codec remote_addr ip (inr (whole, e)) = rw whole (sym e)

-- The failures of an address after an answer.
abbrev pub tally : ℕ → ℕ → ℕ
tally status n = if status == 401 then suc n else if status == 200 then 0 else n

module _ (r : Redis) (doc : Documented r) (rl : RateLimiter) where
  -- Redis answers the commands on the counter of this address.
  pub record Up (ip : String) (s : r.Store) : Type 0 where
    pub reads : r.get (counter ip) s ≢ failed
    pub counts : (record_failure r rl (login_key ip) s).0 ≢ failed
    pub clears : (reset r rl (login_key ip) s).0 ≢ failed

  -- The tables and Redis after an answer.
  abbrev pub left_by : Response × World × r.Store → World × r.Store
  left_by (response, w, s) = (w, s)

  -- The counters after an answer.
  abbrev pub counters_after : Counters → String → Response × World × r.Store → Counters
  counters_after f ip answer = set_counter ip (tally answer.0.status (f ip)) f

  abbrev pub Counted : Counters → String → Response × World × r.Store → Type 0
  Counted f ip (response, w, s) = Tracks r doc rl (counters_after f ip (response, w, s)) s

  kept-Tracks :
      (ip : String) (f : Counters) (s : r.Store)
      → Tracks r doc rl f s
      → Tracks r doc rl (set_counter ip (f ip) f) s
  kept-Tracks ip f s tracks j = elim (Bool-cases (str_eq j ip)) [
    | inl same ↦
        rw same
          (subst (λ i. doc.entry (counter j) s ≡ entry_of (f i)) ((eq_iff j ip).0 same) (tracks j))
    | inr other ↦ rw other (tracks j)
  ]

  answer_login-Counted :
      (ip : String) (f : Counters) (x : Result String × World) (s : r.Store)
      → IsUsable rl
      → Up ip s
      → Tracks r doc rl f s
      → Counted f ip (answer_login r rl (login_key ip) x s)
  answer_login-Counted ip f (ok t, w) s set up tracks =
      reset-Tracks r doc rl ip f s up.clears tracks
  answer_login-Counted ip f (err e, w) s set up tracks = elim (Bool-cases (is_login_generic e)) [
    | inl wrong ↦
        rw wrong
          (record_failure-Tracks r doc rl ip f s set.some_window set.int_window up.counts tracks)
    | inr other ↦ rw other (kept-Tracks ip f s tracks)
  ]

  module _ (env : Env) (crypto : Crypto) (jwt : Jwt) (m : JwtManager) (codec : UserCodec) where
    login_valid-Counted :
        (ip : String) (f : Counters) (o : Option LoginRequest) (w : World) (s : r.Store)
        → IsUsable rl
        → Up ip s
        → Tracks r doc rl f s
        → Counted f ip (login_valid r rl env crypto jwt m codec ip o (w, s))
    login_valid-Counted ip f none w s set up tracks = kept-Tracks ip f s tracks
    login_valid-Counted ip f (some req) w s set up tracks =
        elim (Bool-cases (codec.validate_login req)) [
          | inl valid ↦
              rw valid (answer_login-Counted ip f (login env crypto jwt m req w) s set up tracks)
          | inr invalid ↦ rw invalid (kept-Tracks ip f s tracks)
        ]

    -- What a login answers, given what the handler would have.
    pub record Guarded (f : Counters) (ip : String) (w : World) (s : r.Store)
        (handled answer : Response × World × r.Store) : Type 0 where
      pub counted : Counted f ip answer
      pub within : tally answer.0.status (f ip) ≤ rl.limit
      pub turned_away :
          rl.limit ≤ f ip
          → answer ≡ (write_error_json 429 "too many login attempts, please try again later", w, s)
      pub let_in : f ip < rl.limit → answer ≡ handled

    tally-le : (status n : ℕ) → n < rl.limit → tally status n ≤ rl.limit
    tally-le status n h = ground arith

    set_counter-le :
        (ip j : String) (n : ℕ) (f : Counters)
        → n ≤ rl.limit
        → f j ≤ rl.limit
        → set_counter ip n f j ≤ rl.limit
    set_counter-le ip j n f h k = ground arith

    guarded :
        (remote_addr body : String) (f : Counters) (w : World) (s : r.Store)
        → IsUsable rl
        → Up (client_ip codec remote_addr) s
        → f (client_ip codec remote_addr) ≤ rl.limit
        → Tracks r doc rl f s
        → Guarded f
            (client_ip codec remote_addr)
            w
            s
            (handle_login r rl env crypto jwt m codec remote_addr body (w, s))
            (post_login r rl env crypto jwt m codec remote_addr body (w, s))
    unfolding post_login login_rate_limiter handle_login
    guarded remote_addr body f w s set up within tracks =
        let ip = client_ip codec remote_addr in
        let allowed =
          allow-Tracks r doc rl ip f s set.some_limit set.int_limit within up.reads tracks in
        elim (Bool-cases (ltb (f ip) rl.limit)) [
          | inl free ↦ rw allowed (
              rw free (record {
                counted = login_valid-Counted ip f (codec.decode_login body) w s set up tracks;
                within =
                    tally-le
                      (handle_login r rl env crypto jwt m codec remote_addr body (w, s)).0.status
                      (f ip) (ground arith);
                turned_away = λ h. absurd (ground arith);
                let_in = λ h. refl;
              }))
          | inr full ↦ rw allowed (
              rw full (record {
                counted = kept-Tracks ip f s tracks;
                within = within;
                turned_away = λ h. refl;
                let_in = λ h. absurd (ground arith);
              }))
        ]

    -- A login from an address, with a limit and a window above 0 and at counters of failures that are
    -- within the limit: at the limit the answer is 429 and neither the tables nor Redis change; below
    -- it the handler runs. Afterwards Redis holds the counters with the failure of a 401 added and
    -- with a 200 setting the address to 0, and they are within the limit again. Redis is to answer its
    -- commands.
    pub post_login-Guarded :
        (remote_addr body ip : String) (f : Counters) (w : World) (s : r.Store)
        → IsUsable rl
        → IsFrom codec remote_addr ip
        → Up ip s
        → f ip ≤ rl.limit
        → Tracks r doc rl f s
        → Guarded f ip w s
            (handle_login r rl env crypto jwt m codec remote_addr body (w, s))
            (post_login r rl env crypto jwt m codec remote_addr body (w, s))
    post_login-Guarded remote_addr body ip f w s set from up within tracks =
        let e = client_ip-eq codec remote_addr ip from in
        subst
          (λ i.
            Guarded f i w s (handle_login r rl env crypto jwt m codec remote_addr body (w, s))
              (post_login r rl env crypto jwt m codec remote_addr body (w, s)))
          e
          (guarded remote_addr body f w s set (subst (λ i. Up i s) (sym e) up)
            (subst (λ i. f i ≤ rl.limit) (sym e) within) tracks)

    -- Logins one after the other from an empty Redis, between which counters expire, with the
    -- failures of each address since its last success or expiry.
    pub data Run : Counters → World × r.Store → Type 0 where
      begun : {w : World} {s : r.Store} → Tracks r doc rl (λ ip. 0) s → Run (λ ip. 0) (w, s)
      expired :
          {f : Counters} {x : World × r.Store} (ip : String)
          → Run f x
          → Run (set_counter ip 0 f) (x.0, r.expire (counter ip) x.1)
      answered :
          {f : Counters} {x : World × r.Store} (remote_addr body ip : String)
          → IsFrom codec remote_addr ip
          → Run f x
          → Up ip x.1
          → Run
              (counters_after f ip (post_login r rl env crypto jwt m codec remote_addr body x))
              (left_by (post_login r rl env crypto jwt m codec remote_addr body x))

    -- With a limit and a window above 0, however logins and expiries follow one another, no address
    -- gets more than the limit of answers 401 before its counter expires or it gets a 200, and Redis
    -- holds the count of each. Redis is to answer its commands.
    pub Run-Bounded :
        {f : Counters} {x : World × r.Store}
        → IsUsable rl
        → Run f x
        → Tracks r doc rl f x.1 × ((ip : String) → f ip ≤ rl.limit)
    Run-Bounded set (begun tracks) = (tracks, λ ip. ground arith)
    Run-Bounded set (expired {f = f} {x = x} ip run) =
        let (tracks, within) = Run-Bounded set run in
        (
          expire-Tracks r doc rl ip f x.1 tracks,
          λ j. set_counter-le ip j 0 f (ground arith) (within j),
        )
    Run-Bounded set (answered {f = f} {x = x} remote_addr body ip from run up) =
        let (tracks, within) = Run-Bounded set run in
        let kept =
          post_login-Guarded remote_addr body ip f x.0 x.1 set from up (within ip) tracks in
        (kept.counted, λ j. set_counter-le ip j _ f kept.within (within j))
