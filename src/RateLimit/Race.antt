-- ===== src/RateLimit/Race.antt =====
-- The two commands of `RecordFailure` with an expiry between them.
use distributed_order_proces.Base.{
  subst, ℕ, suc, ◌+◌, ◌≤◌, ◌<◌, ◌^◌, ◌≡◌, ◌≢◌, String, true, false, some, arith, ap, ◌∙◌,
}
use distributed_order_proces.Base.Words.{lt_int}
use distributed_order_proces.RateLimit.Redis.{
  Redis, failed, Documented, incremented, dropped, reply_of, set_if_none,
}
use distributed_order_proces.RateLimit.Limiter.{RateLimiter, full_key, below, allow, record_failure}
use distributed_order_proces.RateLimit.Counters.{count_up-answered}

module _ (r : Redis) (doc : Documented r) (rl : RateLimiter) (key : String) where
  -- `RecordFailure` when the counter's time runs out after SET NX has found it.
  abbrev pub late_failure : r.Store → r.Store
  late_failure s = let k = full_key key in (r.incr k (r.expire k (r.set_nx k 0 rl.window s).1)).1

  -- Both commands were answered.
  pub record Late (s : r.Store) : Type 0 where
    pub set_ok : (r.set_nx (full_key key) 0 rl.window s).0 ≢ failed
    pub incr_ok :
        (r.incr
          (full_key key)
          (r.expire (full_key key) (r.set_nx (full_key key) 0 rl.window s).1)).0
        ≢ failed

  -- Some failures, all recorded, with expiries between them.
  pub data Later : ℕ → r.Store → r.Store → Type 0 where
    here : {s : r.Store} → Later 0 s s
    again :
        {n : ℕ} {s t : r.Store}
        → Later n s t
        → (record_failure r rl key t).0 ≢ failed
        → Later (suc n) s (record_failure r rl key t).1
    time_passes : {n : ℕ} {s t : r.Store} → Later n s t → Later n s (r.expire (full_key key) t)

  Forever : ℕ → r.Store → Type 0
  Forever n s = doc.entry (full_key key) s ≡ some (record { count = n; expires = false })

  late_failure-Forever :
      (count : ℕ) (s : r.Store)
      → doc.entry (full_key key) s ≡ some (record { count = count; expires = true })
      → Late s
      → Forever 1 (late_failure s)
  unfolding Forever
  late_failure-Forever count s there late =
      let k = full_key key in
      let set = (r.set_nx k 0 rl.window s).1 in
      doc.incr_lem k (r.expire k set) late.incr_ok
      ∙ ap (λ o. some (incremented o))
          (doc.expire_lem k set
            ∙ ap dropped (doc.set_nx_lem k 0 rl.window s late.set_ok)
            ∙ ap (λ o. dropped (some (set_if_none 0 rl.window o))) there)

  record_failure-Forever :
      (n : ℕ) (s : r.Store)
      → (record_failure r rl key s).0 ≢ failed
      → Forever n s
      → Forever (suc n) (record_failure r rl key s).1
  unfolding record_failure Forever
  record_failure-Forever n s h stuck =
      let k = full_key key in
      let set = r.set_nx k 0 rl.window s in
      let (set_ok, e) = count_up-answered r rl k set h in
      ap (λ x. doc.entry k x.1) e
      ∙ doc.incr_lem k set.1 (λ bad. h (ap (λ x. x.0) e ∙ bad))
      ∙ ap (λ o. some (incremented o)) (doc.set_nx_lem k 0 rl.window s set_ok)
      ∙ ap (λ o. some (incremented (some (set_if_none 0 rl.window o)))) stuck

  Later-Forever : {n : ℕ} {s t : r.Store} (m : ℕ) → Forever m s → Later n s t → Forever (n + m) t
  unfolding Forever
  Later-Forever m stuck (here {s = s}) = subst (λ c. Forever c s) (omega arith) stuck
  Later-Forever m stuck (again {n = n} {t = t} later ok) =
      subst (λ c. Forever c (record_failure r rl key t).1) (omega arith)
        (record_failure-Forever (n + m) t ok (Later-Forever m stuck later))
  Later-Forever m stuck (time_passes {t = t} later) =
      doc.expire_lem (full_key key) t ∙ ap dropped (Later-Forever m stuck later)

  -- A failure whose counter runs out between its two commands leaves a counter that no longer
  -- expires: once as many failures as the limit have been recorded in all, the address is turned
  -- away after any number of expiries. Redis is to answer its commands.
  pub late_failure-Stuck :
      (count n : ℕ) (s t : r.Store)
      → doc.entry (full_key key) s ≡ some (record { count = count; expires = true })
      → Late s
      → Later n (late_failure s) t
      → rl.limit ≤ n + 1
      → n + 1 < 2 ^ 63
      → r.get (full_key key) t ≢ failed
      → allow r rl key t ≡ some false
  unfolding allow Forever lt_int
  late_failure-Stuck count n s t there late later full low ok =
      ap (below rl) (
        doc.get_lem _ t ok
        ∙ ap reply_of (Later-Forever 1 (late_failure-Forever count s there late) later))
      ∙ not_below (n + 1) full low
    where
      not_below : (c : ℕ) → rl.limit ≤ c → c < 2 ^ 63 → some (lt_int c rl.limit) ≡ some false
      not_below c full low = ground arith
