-- ===== src/WorkStealing/Tests.antt =====
-- Two workers: three jobs in the injector of normal priority, and then an idle pool.
use thread_pool_runtime.Prelude.{
  ℕ, ◌≡◌, refl, ◌∙◌, false, ◌==◌, if◌then◌else◌, List, [], ◌∷◌, arith, some, none,
}
use thread_pool_runtime.Deque.{new_deque}
use thread_pool_runtime.Deque.ListDeque
use thread_pool_runtime.Deque.Represents.{new_deque-Represents}
use thread_pool_runtime.Metrics.{no_activity}
use thread_pool_runtime.WorkStealing.{Shared, local, find_task}
use thread_pool_runtime.WorkStealing.Search.{Jobs, Holds}
use thread_pool_runtime.WorkStealing.Task.{wanted, IsDrained, find_task-wanted, find_task-IsDrained}

abbrev pool : (ℕ → List ℕ) → Shared ℕ
pool queues = record {
  worker_count = 2;
  local_deques = λ w r. new_deque 2;
  injectors = queues;
  pending = 3;
  shutdown_flag = false;
  gen = 0;
  metrics = no_activity;
}

abbrev jobs : (ℕ → List ℕ) → Jobs ℕ
jobs queues = record { in_deque = λ w r. []; in_injector = queues }

abbrev three_normal : ℕ → List ℕ
three_normal r = if r == 1 then 5 ∷ 6 ∷ 7 ∷ [] else []

pool-Holds : (queues : ℕ → List ℕ) → Holds (pool queues) 2 (jobs queues)
pool-Holds queues = record {
  deques = λ w r. new_deque-Represents 1 (omega arith);
  injected = λ r. refl;
  count = refl;
}

find_task-wanted_example :
    ((find_task 0 (pool three_normal)).0 ≡ wanted 2 (jobs three_normal) 0)
    × (wanted 2 (jobs three_normal) 0 ≡ none
        → Holds (find_task 0 (pool three_normal)).1 2 (jobs three_normal))
find_task-wanted_example =
    find_task-wanted 2 (jobs three_normal) 0 (pool three_normal) (pool-Holds three_normal)

first_wanted : wanted 2 (jobs three_normal) 0 ≡ some (5, local)
unfolding ListDeque.pop
first_wanted = refl

idle_pool : (find_task 1 (pool (λ r. []))).0 ≡ none
unfolding ListDeque.pop
idle_pool = (find_task-wanted 2 (jobs (λ r. [])) 1 (pool (λ r. [])) (pool-Holds (λ r. []))).0 ∙ refl

find_task-IsDrained_example : IsDrained 2 (jobs (λ r. []))
find_task-IsDrained_example =
    find_task-IsDrained 2 (jobs (λ r. [])) 1 (pool (λ r. [])) (pool-Holds (λ r. [])) idle_pool
