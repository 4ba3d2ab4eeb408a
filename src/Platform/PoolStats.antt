-- ===== src/Platform/PoolStats.antt =====
-- metrics/pool.go: what the collector reports of the pool of connections.
use distributed_order_proces.Base.{ℕ, String, List, [], ◌∷◌, map, ◌≡◌, refl}

pub record PoolCollector : Type 0 where
  pub acquired : String
  pub idle : String
  pub total : String
  pub max : String
  pub constructing : String
  pub acquire_count : String
  pub empty_acquires : String

-- A description stands for its name.
abbrev pub new_pool_collector : PoolCollector
new_pool_collector = record {
  acquired = "db_pool_acquired_connections";
  idle = "db_pool_idle_connections";
  total = "db_pool_total_connections";
  max = "db_pool_max_connections";
  constructing = "db_pool_constructing_connections";
  acquire_count = "db_pool_acquire_total";
  empty_acquires = "db_pool_empty_acquire_total";
}

abbrev pub describe : PoolCollector → List String
describe c =
    c.acquired ∷ c.idle ∷ c.total ∷ c.max ∷ c.constructing ∷ c.acquire_count ∷ c.empty_acquires ∷ []

-- pgxpool.Stat
pub record Stat : Type 0 where
  pub acquired_conns : ℕ
  pub idle_conns : ℕ
  pub total_conns : ℕ
  pub max_conns : ℕ
  pub constructing_conns : ℕ
  pub acquire_count : ℕ
  pub empty_acquire_count : ℕ

pub data Metric : Type 0 where
  gauge counter : String → ℕ → Metric

-- The metrics of one snapshot.
abbrev pub collect : PoolCollector → Stat → List Metric
collect c stat =
    gauge c.acquired stat.acquired_conns
    ∷ gauge c.idle stat.idle_conns
    ∷ gauge c.total stat.total_conns
    ∷ gauge c.max stat.max_conns
    ∷ gauge c.constructing stat.constructing_conns
    ∷ counter c.acquire_count stat.acquire_count
    ∷ counter c.empty_acquires stat.empty_acquire_count
    ∷ []

abbrev desc : Metric → String
desc (gauge d v) = d
desc (counter d v) = d

-- The registry refuses a metric that was not described.
collect-describe : (c : PoolCollector) (stat : Stat) → map desc (collect c stat) ≡ describe c
collect-describe c stat = refl
