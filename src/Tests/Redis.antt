-- ===== src/Tests/Redis.antt =====
-- A Redis that holds its keys in a function and answers every command.
use distributed_order_proces.Base.{
  refl, ◌≡◌, ◌≢◌, String, true, Option, none, some, str_eq, eq_iff, if◌then◌else◌, Bool-cases, inl,
  inr,
}
use distributed_order_proces.RateLimit.Redis.{
  Redis, Reply, value, nil, failed, Documented, Entry, reply_of, set_if_none, incremented, dropped,
}
use distributed_order_proces.RateLimit.Limiter.{RateLimiter, full_key, record_failure, count_up}

abbrev Keys : Type 0
Keys = String → Option Entry

abbrev put : String → Option Entry → Keys → Keys
put k o s = λ j. if str_eq j k then o else s j

abbrev pub reply_set : Option Entry → Reply (Unit {0})
reply_set none = value tt
reply_set (some e) = nil

abbrev pub redis : Redis
redis = record {
  Store = String → Option Entry;
  get = λ k s. reply_of (s k);
  set_nx = λ k v ttl s. (reply_set (s k), put k (some (set_if_none v ttl (s k))) s);
  incr = λ k s. (value (incremented (s k)).count, put k (some (incremented (s k))) s);
  del = λ k s. (value 1, put k none s);
  expire = λ k s. put k (dropped (s k)) s;
}

pub put-here : (k : String) (o : Option Entry) (s : Keys) → put k o s k ≡ o
put-here k o s = let same : str_eq k k ≡ true = (eq_iff k k).1 refl in rw same refl

pub put-others : (j k : String) (o : Option Entry) (s : Keys) → j ≢ k → put k o s j ≡ s j
put-others j k o s h = elim (Bool-cases (str_eq j k)) [
  | inl same ↦ absurd (h ((eq_iff j k).0 same))
  | inr other ↦ rw other refl
]

unfoldable pub redis-Documented : Documented redis
redis-Documented = record {
  entry = λ k s. s k;
  get_lem = λ k s h. refl;
  set_nx_lem = λ k v ttl s h. put-here k _ s;
  incr_lem = λ k s h. put-here k _ s;
  del_lem = λ k s h. put-here k none s;
  expire_lem = λ k s. put-here k _ s;
  set_nx_others = λ j k v ttl s h. put-others j k _ s h;
  incr_others = λ j k s h. put-others j k _ s h;
  del_others = λ j k s h. put-others j k none s h;
  expire_others = λ j k s h. put-others j k _ s h;
}

-- Two failures within a minute.
abbrev pub two : RateLimiter
two = record { limit = 2; window = 60 }

pub reply_of-answered : (o : Option Entry) → reply_of o ≢ failed
reply_of-answered none = cc
reply_of-answered (some e) = cc

pub reply_set-answered : (o : Option Entry) → reply_set o ≢ failed
reply_set-answered none = cc
reply_set-answered (some e) = cc

count_up-answered :
    (k : String) (reply : Reply (Unit {0})) (s : Keys)
    → reply ≢ failed
    → (count_up redis two k (reply, s)).0 ≢ failed
count_up-answered k (value u) s h = cc
count_up-answered k nil s h = cc
count_up-answered k failed s h = absurd (h refl)

pub record_failure-answered :
    (key : String) (s : Keys) → (record_failure redis two key s).0 ≢ failed
unfolding record_failure
record_failure-answered key s =
    count_up-answered (full_key key) _ _ (reply_set-answered (s (full_key key)))
