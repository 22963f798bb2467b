-- ===== src/Metrics/Collector.antt =====
-- The collector of request metrics (metrics/collector.go). The counters wrap as `uint64`; the samples of
-- the database file and the rates, which are floating-point numbers, are left out.
pub mod Window
pub mod Tests
use relay_gateway.Common.Base.{
  ℕ, zero, suc, ◌+◌, ◌%◌, Bool, true, false, not, ◌&&◌, List, [], ◌∷◌, ◌++◌, ltb, leb, ◌==◌,
  if◌then◌else◌, u64,
}
use relay_gateway.Common.Int.{ℤ, pos_part}
use relay_gateway.Common.Lists.{length, set}

pub record Collector : Type 0 where
  pub requests : ℕ
  pub successes : ℕ
  pub errors : ℕ
  pub latencies : List ℕ
  pub next_latency : ℕ
  pub max_latencies : ℕ

abbrev pub default_max_latency_samples : ℕ
default_max_latency_samples = 10000

-- `New` with the argument of `WithMaxLatencySamples`; a value less than one, here 0, is ignored.
unfoldable pub new_collector : ℕ → Collector
new_collector max = record {
  requests = 0;
  successes = 0;
  errors = 0;
  latencies = [];
  next_latency = 0;
  max_latencies = if max == 0 then default_max_latency_samples else max;
}

-- The part of `ObserveRequest` that keeps the window.
unfoldable pub keep_latency : ℕ → Collector → Collector
keep_latency duration c =
    if ltb 0 c.max_latencies
    then (if length c.latencies == c.max_latencies
        then record c {
          latencies = set c.latencies c.next_latency duration;
          next_latency = (c.next_latency + 1) % c.max_latencies;
        }
        else record c { latencies = c.latencies ++ duration ∷ [] })
    else c

unfoldable pub observe_request : ℤ → Bool → Collector → Collector
unfolding keep_latency
observe_request duration success c = keep_latency (pos_part duration) (record c {
  requests = u64 (c.requests + 1);
  successes = if success then u64 (c.successes + 1) else c.successes;
  errors = if success then c.errors else u64 (c.errors + 1);
})

unfoldable pub observe_status : ℕ → ℤ → Collector → Collector
observe_status status duration c = observe_request duration (leb 200 status && ltb status 400) c

unfoldable pub observe_all : List (ℤ × Bool) → Collector → Collector
observe_all [] c = c
observe_all ((duration, success) ∷ es) c = observe_all es (observe_request duration success c)
