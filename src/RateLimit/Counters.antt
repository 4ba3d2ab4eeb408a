-- ===== src/RateLimit/Counters.antt =====
-- What the rate limiter is for: one counter of failures for each address.
use distributed_order_proces.Base.{
  ℕ, zero, suc, ◌≤◌, ◌<◌, ◌^◌, ◌≡◌, ◌≢◌, refl, String, Option, none, some, Bool-cases, inl, inr,
  arith, str_eq, eq_iff, ltb, if◌then◌else◌, ◌∙◌, ap, Bool,
}
use distributed_order_proces.Base.Texts.{append-inj}
use distributed_order_proces.Base.Words.{lt_int}
use distributed_order_proces.RateLimit.Redis.{
  Redis, Reply, failed, Entry, Documented, reply_of, set_if_none, incremented, dropped, nil, value,
}
use distributed_order_proces.RateLimit.Limiter.{
  RateLimiter, login_key, full_key, below, allow, count_up, record_failure, reset,
}

abbrev pub Counters : Type 0
Counters = String → ℕ

abbrev pub set_counter : String → ℕ → Counters → Counters
set_counter ip n f = λ j. if str_eq j ip then n else f j

-- The key of an address.
unfoldable pub counter : String → String
counter ip = full_key (login_key ip)

-- No failures, no key; a key has a time to live.
abbrev pub entry_of : ℕ → Option Entry
entry_of zero = none
entry_of (suc n) = some (record { count = suc n; expires = Bool.true })

pub counter-inj : (i j : String) → counter i ≡ counter j → i ≡ j
unfolding counter full_key login_key
counter-inj i j h = append-inj "login:ip:" i j (append-inj "rate_limit:" _ _ h)

-- A counter that was counted up is there, and so are its commands.
pub count_up-answered :
    (r : Redis) (rl : RateLimiter) (key : String) (x : Reply (Unit {0}) × r.Store)
    → (count_up r rl key x).0 ≢ failed
    → (x.0 ≢ failed) × (count_up r rl key x ≡ r.incr key x.1)
count_up-answered r rl key (failed, s) h = absurd (h refl)
count_up-answered r rl key (nil, s) h = (cc, refl)
count_up-answered r rl key (value _, s) h = (cc, refl)

module _ (r : Redis) (doc : Documented r) (rl : RateLimiter) where
  -- The store holds these counters.
  abbrev pub Tracks : Counters → r.Store → Type 0
  Tracks f s = (ip : String) → doc.entry (counter ip) s ≡ entry_of (f ip)

  set_counter-Tracks :
      (ip : String) (n : ℕ) (f : Counters) (s s' : r.Store)
      → Tracks f s
      → doc.entry (counter ip) s' ≡ entry_of n
      → ((j : String) → j ≢ counter ip → doc.entry j s' ≡ doc.entry j s)
      → Tracks (set_counter ip n f) s'
  set_counter-Tracks ip n f s s' tracks here others j = elim (Bool-cases (str_eq j ip)) [
    | inl same ↦
        rw same
          (let e : j ≡ ip = (eq_iff j ip).0 same in ap (λ k. doc.entry (counter k) s') e ∙ here)
    | inr other ↦ rw other (others (counter j) (λ e. differ other (counter-inj j ip e)) ∙ tracks j)
  ]
    where
      differ : {j : String} → str_eq j ip ≡ Bool.false → j ≢ ip
      differ {j} other e = let h : str_eq j ip ≡ Bool.true = (eq_iff j ip).1 e in cc

  pub record_failure-Tracks :
      (ip : String) (f : Counters) (s : r.Store)
      → 0 < rl.window
      → rl.window < 2 ^ 63
      → (record_failure r rl (login_key ip) s).0 ≢ failed
      → Tracks f s
      → Tracks (set_counter ip (suc (f ip)) f) (record_failure r rl (login_key ip) s).1
  unfolding record_failure counter
  record_failure-Tracks ip f s window short h tracks =
      let k = full_key (login_key ip) in
      let set = r.set_nx k 0 rl.window s in
      let (set_ok, e) = count_up-answered r rl k set h in
      let incr_ok : (r.incr k set.1).0 ≢ failed = λ bad. h (ap (λ x. x.0) e ∙ bad) in
      set_counter-Tracks ip (suc (f ip)) f s _ tracks
        (ap (λ x. doc.entry k x.1) e
          ∙ doc.incr_lem k set.1 incr_ok
          ∙ ap (λ o. some (incremented o)) (doc.set_nx_lem k 0 rl.window s set_ok)
          ∙ ap (λ o. some (incremented (some (set_if_none 0 rl.window o)))) (tracks ip)
          ∙ counted (f ip))
        (λ j ne.
          ap (λ x. doc.entry j x.1) e
          ∙ doc.incr_others j k set.1 ne
          ∙ doc.set_nx_others j k 0 rl.window s ne)
    where
      counted :
          (n : ℕ)
          → some (incremented (some (set_if_none 0 rl.window (entry_of n)))) ≡ entry_of (suc n)
      counted zero = ground arith
      counted (suc n) = refl

  pub reset-Tracks :
      (ip : String) (f : Counters) (s : r.Store)
      → (reset r rl (login_key ip) s).0 ≢ failed
      → Tracks f s
      → Tracks (set_counter ip 0 f) (reset r rl (login_key ip) s).1
  unfolding reset counter
  reset-Tracks ip f s h tracks =
      set_counter-Tracks ip 0 f s _ tracks (doc.del_lem _ s h) (λ j ne. doc.del_others j _ s ne)

  pub expire-Tracks :
      (ip : String) (f : Counters) (s : r.Store)
      → Tracks f s
      → Tracks (set_counter ip 0 f) (r.expire (counter ip) s)
  expire-Tracks ip f s tracks =
      set_counter-Tracks ip 0 f s _ tracks
        (doc.expire_lem _ s ∙ ap dropped (tracks ip) ∙ gone (f ip))
        (λ j ne. doc.expire_others j _ s ne)
    where
      gone : (n : ℕ) → dropped (entry_of n) ≡ none
      gone zero = refl
      gone (suc n) = refl

  pub allow-Tracks :
      (ip : String) (f : Counters) (s : r.Store)
      → 0 < rl.limit
      → rl.limit < 2 ^ 63
      → f ip ≤ rl.limit
      → r.get (counter ip) s ≢ failed
      → Tracks f s
      → allow r rl (login_key ip) s ≡ some (ltb (f ip) rl.limit)
  unfolding allow counter lt_int
  allow-Tracks ip f s pos low h ok tracks =
      ap (below rl) (doc.get_lem _ s ok ∙ ap reply_of (tracks ip)) ∙ small (f ip) h
    where
      small : (n : ℕ) → n ≤ rl.limit → below rl (reply_of (entry_of n)) ≡ some (ltb n rl.limit)
      small zero h = ground arith
      small (suc n) h = ground arith
