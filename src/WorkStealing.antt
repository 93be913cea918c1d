-- ===== src/WorkStealing.antt =====
-- src/work_stealing_scheduler.cpp: what the workers share, and the search for a task by a worker
-- that no other disturbs.
pub mod Search
pub mod Task
pub mod Workers
mod Tests
use thread_pool_runtime.Prelude.{
  ℕ, zero, suc, ◌+◌, ◌%◌, ◌==◌, Bool, false, if◌then◌else◌, List, [], ◌∷◌, Option, none, some,
}
use thread_pool_runtime.Prelude.Family.{update}
use thread_pool_runtime.Deque
use thread_pool_runtime.Deque.{Deque, new_deque}
use thread_pool_runtime.Deque.Words.{word}
use thread_pool_runtime.Metrics.{Metrics, no_activity, record_submitted}
use thread_pool_runtime.Priority.{Priority, rank, priority_order}
use thread_pool_runtime.Injector
use thread_pool_runtime.Injector.{pop_batch_into}

-- `Shared`: the deques are indexed by worker, below `worker_count`, and priority; `gen` is the count
-- in `idle`.
pub record Shared (T : Type 0) : Type 0 where
  pub worker_count : ℕ
  pub local_deques : ℕ → ℕ → Deque T
  pub injectors : ℕ → List T
  pub pending : ℕ
  pub shutdown_flag : Bool
  pub gen : ℕ
  pub metrics : Metrics

pub data FoundKind : Type 0 where
  local stolen : FoundKind

-- `kInjectorBatchSize`
abbrev pub injector_batch_size : ℕ
injector_batch_size = 32

abbrev pub Found : Type 0 → Type 0
Found T = Option (T × FoundKind)

-- `IdleSignal::notify`
unfoldable pub notify : {T : Type 0} → Shared T → Shared T
notify s = record s { gen = (s.gen + 1) % word }

-- The constructor; `none` is `std::invalid_argument`. A new deque has the default 256 slots.
unfoldable pub make_shared : {T : Type 0} → ℕ → Option (Shared T)
make_shared num_workers =
    if num_workers == 0
    then none
    else some (record {
      worker_count = num_workers;
      local_deques = λ w r. new_deque 256;
      injectors = λ r. [];
      pending = 0;
      shutdown_flag = false;
      gen = 0;
      metrics = no_activity;
    })

module _ {T : Type 0} where
  -- One operation on a deque, seen from the shared state.
  unfoldable pub at_deque : (Deque T → Option T × Deque T) → ℕ → ℕ → Shared T → Option T × Shared T
  at_deque f w r s =
      let (job, d) = f (s.local_deques w r) in
      (job, record s { local_deques = update s.local_deques w (update (s.local_deques w) r d) })

  -- The batch that worker `w` pulls from injector `r`.
  unfoldable pub pull : ℕ → ℕ → Shared T → Option T × Shared T
  pull w r s =
      let (job, (d, queue)) =
        pop_batch_into (s.injectors r) (s.local_deques w r) injector_batch_size in
      (
        job,
        record s {
          injectors = update s.injectors r queue;
          local_deques = update s.local_deques w (update (s.local_deques w) r d);
        },
      )

  -- A `for` loop that returns at the first iteration that finds a job.
  unfoldable pub or_else :
      Option T × Shared T → (Shared T → Option T × Shared T) → Option T × Shared T
  or_else (some job, s) g = (some job, s)
  or_else (none, s) g = g s

  unfoldable pub for_each :
      (Priority → Shared T → Option T × Shared T) → List Priority → Shared T → Option T × Shared T
  for_each f [] s = (none, s)
  for_each f (p ∷ ps) s = or_else (f p s) (for_each f ps)

  -- `for (peer = …; peer < local_deques.size(); ++peer)`, on the peers left.
  unfoldable pub steal_peers : ℕ → ℕ → ℕ → ℕ → Shared T → Option T × Shared T
  steal_peers zero peer w r s = (none, s)
  steal_peers (suc left) peer w r s =
      if peer == w
      then steal_peers left (suc peer) w r s
      else or_else (at_deque Deque.steal peer r s) (steal_peers left (suc peer) w r)

  unfoldable pub found_as :
      FoundKind → (Option T × Shared T) → (Shared T → Found T × Shared T) → Found T × Shared T
  found_as kind (some job, s) g = (some (job, kind), s)
  found_as kind (none, s) g = g s

  unfoldable pub find_task : ℕ → Shared T → Found T × Shared T
  find_task w s =
      found_as local (for_each (λ p. at_deque Deque.pop w (rank p)) priority_order s) (λ s.
        found_as local (for_each (λ p. pull w (rank p)) priority_order s) (λ s.
          found_as stolen (for_each (λ p. steal_peers s.worker_count 0 w (rank p)) priority_order s)
            (λ s. (none, s))))

  -- `submit`, when no other thread runs between its steps.
  unfoldable pub submit : T → Priority → Shared T → Shared T
  submit job p s = notify (record s {
    metrics = record_submitted s.metrics;
    pending = (s.pending + 1) % word;
    injectors = update s.injectors (rank p) (Injector.push (s.injectors (rank p)) job);
  })
