-- ===== src/ThreadPerCore/Tests.antt =====
-- Two cores and three jobs: by turn, by hint, and of high priority.
use thread_pool_runtime.Prelude.{
  ℕ, arith, count_if, ◌==◌, ◌≡◌, refl, List, [], ◌∷◌, ◌++◌, false, none, some, ℕ_discrete,
}
use mathlib.Core.List.{reverse}
use thread_pool_runtime.Metrics.{no_activity}
use thread_pool_runtime.Priority.{high, normal, priority_order}
use thread_pool_runtime.ThreadPerCore.{
  Cores, target, enqueue, submit, take_job, Event, accepts, submits, CoreRun, start, later,
}
use thread_pool_runtime.ThreadPerCore.Choice.{IsTaken, take_job-IsTaken}
use thread_pool_runtime.ThreadPerCore.Order.{accepted_at, started_at, queues_kept}
use thread_pool_runtime.ThreadPerCore.RoundRobin.{turns, turns_even}

abbrev empty : Cores ℕ
empty = record {
  num_cores = 2;
  queues = λ c r. [];
  next = 0;
  shutdown_flag = false;
  metrics = no_activity;
}

abbrev loaded : Cores ℕ
loaded = submit 9 (some 4) high (submit 8 (some 2) normal (submit 7 none normal empty))

abbrev events : List (Event ℕ)
events = accepts 0 0 9 ∷ accepts 0 1 8 ∷ accepts 0 1 7 ∷ []

loading : CoreRun empty events loaded
unfolding submit target enqueue
loading =
    later (later (later start (submits 7 none normal)) (submits 8 (some 2) normal))
      (submits 9 (some 4) high)

loaded_kept : accepted_at 0 1 events ≡ reverse (loaded.queues 0 1) ++ started_at 0 1 events
loaded_kept = queues_kept 0 1 empty loaded events (λ d q. refl) loading

high_first : (take_job priority_order (loaded.queues 0)).0 ≡ some (high, 9)
unfolding take_job submit target enqueue ℕ_discrete
high_first = refl

take_job-IsTaken_example : IsTaken (loaded.queues 0) (take_job priority_order (loaded.queues 0))
take_job-IsTaken_example = take_job-IsTaken (loaded.queues 0)

turns_even_example : count_if (λ x. x == 1) (turns 2 empty) ≡ 1
turns_even_example = turns_even 1 empty (omega arith) (omega arith)
