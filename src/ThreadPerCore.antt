-- ===== src/ThreadPerCore.antt =====
-- src/thread_per_core_scheduler.cpp: the queues of the cores, the choice of a core, and the sections
-- that run with the mutex of a core held, each as one function; ThreadPerCore/Workers.antt has its
-- threads.
pub mod Choice
pub mod Order
pub mod Target
pub mod RoundRobin
pub mod Workers
mod Tests
use thread_pool_runtime.Prelude.{
  ℕ, ◌+◌, ◌%◌, ◌<◌, ◌≡◌, ◌==◌, Bool, false, if◌then◌else◌, List, [], ◌∷◌, ◌++◌, Option, none, some,
}
use thread_pool_runtime.Prelude.Family.{update}
use thread_pool_runtime.Deque.Words.{word}
use thread_pool_runtime.Metrics.{Metrics, no_activity, record_submitted}
use thread_pool_runtime.Priority.{Priority, rank, priority_order}

-- `queues` is indexed by core, below `num_cores`, and priority.
pub record Cores (T : Type 0) : Type 0 where
  pub num_cores : ℕ
  pub queues : ℕ → ℕ → List T
  pub next : ℕ
  pub shutdown_flag : Bool
  pub metrics : Metrics

-- The constructor; `none` is `std::invalid_argument`.
unfoldable pub make_cores : {T : Type 0} → ℕ → Option (Cores T)
make_cores num_cores =
    if num_cores == 0
    then none
    else some (record {
      num_cores = num_cores;
      queues = λ c r. [];
      next = 0;
      shutdown_flag = false;
      metrics = no_activity;
    })

module _ {T : Type 0} where
  -- The core for a job: by its hint, or the next one in turn.
  unfoldable pub target : Option ℕ → Cores T → ℕ × Cores T
  target (some core_hint) s = (core_hint % s.num_cores, s)
  target none s = (s.next % s.num_cores, record s { next = (s.next + 1) % word })

  unfoldable pub enqueue : ℕ → Priority → T → Cores T → Cores T
  enqueue core p job s = record s {
    metrics = record_submitted s.metrics;
    queues =
        update s.queues core (update (s.queues core) (rank p) (s.queues core (rank p) ++ job ∷ []));
  }

  unfoldable pub submit : T → Option ℕ → Priority → Cores T → Cores T
  submit job core_hint p s = let (core, s') = target core_hint s in enqueue core p job s'

  -- The inner loop of `worker_loop` over the priorities, on the queues of the worker's core.
  unfoldable pub take_job : List Priority → (ℕ → List T) → Option (Priority × T) × (ℕ → List T)
  take_job [] q = (none, q)
  take_job (p ∷ ps) q =
      let later = take_job ps q in
      elim (q (rank p)) [ [] ↦ later | job ∷ rest ↦ (some (p, job), update q (rank p) rest) ]

-- The core and the priority that a job is queued at, or taken from.
pub data Event (T : Type 0) : Type 0 where
  accepts starts : ℕ → ℕ → T → Event T

-- A call of `submit`, or a worker that takes a job: worker `i` knows the core `i` only.
pub data CoreStep {T : Type 0} (s : Cores T) : Event T → Cores T → Type 0 where
  submits :
      (job : T) (core_hint : Option ℕ) (p : Priority)
      → CoreStep s (accepts (target core_hint s).0 (rank p) job) (submit job core_hint p s)
  takes :
      (i : ℕ) {p : Priority} {job : T} {q : ℕ → List T}
      → i < s.num_cores
      → take_job priority_order (s.queues i) ≡ (some (p, job), q)
      → CoreStep s (starts i (rank p) job) (record s { queues = update s.queues i q })

pub data CoreRun {T : Type 0} (s : Cores T) : List (Event T) → Cores T → Type 0 where
  start : CoreRun s [] s
  later :
      {es : List (Event T)} {t u : Cores T} {e : Event T}
      → CoreRun s es t
      → CoreStep t e u
      → CoreRun s (e ∷ es) u
