-- ===== src/RateLimit/Redis.antt =====
-- The four commands of Redis that the rate limiter sends, as an interface, with the behaviour that
-- their documentation promises.
use distributed_order_proces.Base.{
  ℕ, suc, String, Bool, false, Option, none, some, ◌≡◌, ◌≢◌, if◌then◌else◌, ltb, ◌&&◌, ◌^◌,
}
use distributed_order_proces.Database.Rows.{Time}

-- A reply of go-redis: a value, redis.Nil, or another error.
pub data Reply (A : Type 0) : Type 0 where
  value : A → Reply A
  nil failed : Reply A

-- `set_nx` is SET with NX and a time to live, which go-redis leaves out when it is not above 0.
pub record Redis : Type 1 where
  pub Store : Type 0
  pub get : String → Store → Reply ℕ
  pub set_nx : String → ℕ → Time → Store → Reply (Unit {0}) × Store
  pub incr : String → Store → Reply ℕ × Store
  pub del : String → Store → Reply ℕ × Store
  pub expire : String → Store → Store  -- the server drops a key whose time to live has run out

-- A counter under a key, and whether it has a time to live.
pub record Entry : Type 0 where
  pub count : ℕ
  pub expires : Bool

abbrev pub reply_of : Option Entry → Reply ℕ
reply_of none = nil
reply_of (some e) = value e.count

-- A time.Duration above 0.
abbrev pub is_positive : Time → Bool
is_positive ttl = ltb 0 ttl && ltb ttl (2 ^ 63)

abbrev pub set_if_none : ℕ → Time → Option Entry → Entry
set_if_none v ttl none = record { count = v; expires = is_positive ttl }
set_if_none v ttl (some e) = e

-- INCR creates a missing key at 0, without a time to live.
abbrev pub incremented : Option Entry → Entry
incremented none = record { count = 1; expires = false }
incremented (some e) = record e { count = suc e.count }

abbrev pub dropped : Option Entry → Option Entry
dropped none = none
dropped (some e) = if e.expires then none else some e

-- A command that fails may or may not have been carried out: nothing is said of it but that it
-- leaves the other keys alone.
pub record Documented (r : Redis) : Type 0 where
  pub entry : String → r.Store → Option Entry
  pub get_lem : (k : String) (s : r.Store) → r.get k s ≢ failed → r.get k s ≡ reply_of (entry k s)
  pub set_nx_lem :
      (k : String) (v : ℕ) (ttl : Time) (s : r.Store)
      → (r.set_nx k v ttl s).0 ≢ failed
      → entry k (r.set_nx k v ttl s).1 ≡ some (set_if_none v ttl (entry k s))
  pub incr_lem :
      (k : String) (s : r.Store)
      → (r.incr k s).0 ≢ failed
      → entry k (r.incr k s).1 ≡ some (incremented (entry k s))
  pub del_lem : (k : String) (s : r.Store) → (r.del k s).0 ≢ failed → entry k (r.del k s).1 ≡ none
  pub expire_lem : (k : String) (s : r.Store) → entry k (r.expire k s) ≡ dropped (entry k s)
  pub set_nx_others :
      (j k : String) (v : ℕ) (ttl : Time) (s : r.Store)
      → j ≢ k
      → entry j (r.set_nx k v ttl s).1 ≡ entry j s
  pub incr_others : (j k : String) (s : r.Store) → j ≢ k → entry j (r.incr k s).1 ≡ entry j s
  pub del_others : (j k : String) (s : r.Store) → j ≢ k → entry j (r.del k s).1 ≡ entry j s
  pub expire_others : (j k : String) (s : r.Store) → j ≢ k → entry j (r.expire k s) ≡ entry j s
