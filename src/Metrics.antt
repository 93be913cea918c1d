-- ===== src/Metrics.antt =====
-- include/wss/metrics.hpp: four counters of 64 bits, and their snapshot.
pub mod Output
pub mod RoundTrip
mod Tests
use thread_pool_runtime.Prelude.{ℕ, ◌+◌, ◌%◌, ◌^◌}

-- `RuntimeMetrics`
pub record RuntimeMetrics : Type 0 where
  pub tasks_submitted : ℕ
  pub tasks_completed : ℕ
  pub tasks_panicked : ℕ
  pub tasks_stolen : ℕ

-- `Metrics`: the atomics, each below 2^64.
pub record Metrics : Type 0 where
  pub submitted : ℕ
  pub completed : ℕ
  pub panicked : ℕ
  pub stolen : ℕ

-- `fetch_add(1)` on a `std::atomic<std::uint64_t>`
abbrev pub increment : ℕ → ℕ
increment n = (n + 1) % 2 ^ 64

abbrev pub no_activity : Metrics
no_activity = record { submitted = 0; completed = 0; panicked = 0; stolen = 0 }

unfoldable pub record_submitted : Metrics → Metrics
record_submitted m = record m { submitted = increment m.submitted }

unfoldable pub record_completed : Metrics → Metrics
record_completed m = record m { completed = increment m.completed }

unfoldable pub record_panicked : Metrics → Metrics
record_panicked m = record m { panicked = increment m.panicked }

unfoldable pub record_stolen : Metrics → Metrics
record_stolen m = record m { stolen = increment m.stolen }

unfoldable pub snapshot : Metrics → RuntimeMetrics
snapshot m = record {
  tasks_submitted = m.submitted;
  tasks_completed = m.completed;
  tasks_panicked = m.panicked;
  tasks_stolen = m.stolen;
}
