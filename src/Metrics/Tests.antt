-- ===== src/Metrics/Tests.antt =====
-- The text of a snapshot, read back.
use thread_pool_runtime.Prelude.{◌≡◌, refl, some, arith}
use thread_pool_runtime.Metrics.{RuntimeMetrics}
use thread_pool_runtime.Metrics.Output.{codes, digits, put_number, put_metrics}
use thread_pool_runtime.Metrics.RoundTrip.{get_metrics, get_metrics-put_metrics}

abbrev sample : RuntimeMetrics
sample = record {
  tasks_submitted = 1024;
  tasks_completed = 18446744073709551615;
  tasks_panicked = 7;
  tasks_stolen = 0;
}

sample_text :
    put_metrics sample ≡ codes "submitted=1024 completed=18446744073709551615 panicked=7 stolen=0"
unfolding put_metrics put_number digits
sample_text = refl

get_metrics-put_metrics_example : get_metrics (put_metrics sample) ≡ some sample
get_metrics-put_metrics_example =
    get_metrics-put_metrics sample (omega arith) (omega arith) (omega arith) (omega arith)
