-- ===== src/ThreadPerCore/Workers.antt =====
-- src/thread_per_core_scheduler.cpp with all its threads: a worker per core that takes jobs, waits and
-- leaves, callers of `submit` and the caller of `shutdown`. Each core has a mutex and a condition
-- variable of its own; a step is one access to what threads share, and what a thread does under a
-- mutex takes several steps, with the mutex held.
pub mod Stuck
pub mod Inv
pub mod Drain
pub mod Range
mod Tests
use thread_pool_runtime.Prelude.{
  ℕ, zero, suc, ◌<◌, ◌≡◌, Bool, true, false, List, [], ◌∷◌, ◌++◌, Option, none, some,
}
use thread_pool_runtime.Prelude.Family.{update}
use thread_pool_runtime.Metrics.{no_activity, record_submitted}
use thread_pool_runtime.Priority.{Priority, rank, priority_order}
use thread_pool_runtime.ThreadPerCore.{Cores, target, take_job, Event, accepts, starts}

-- Where a worker stands in `worker_loop`; the mutex is that of its core.
pub data Worker (T : Type 0) : Type 0 where
  outside : Worker T  -- before it has the mutex: at the top, or woken from `core.cv.wait`
  looking : Worker T  -- has the mutex, before the loop over the priorities
  found_empty : Worker T  -- has the mutex, before it reads `shutdown_flag_`
  going_to_wait : Worker T  -- has the mutex, before `core.cv.wait(lock)`
  blocked : Worker T  -- in `core.cv.wait`, without the mutex
  running : T → Worker T
  exited : Worker T

-- Where a thread stands in `submit`; the number is its `target`.
pub data Client (T : Type 0) : Type 0 where
  away : Client T
  chosen : T → ℕ → Priority → Client T  -- before `record_submitted()`
  recorded : T → ℕ → Priority → Client T  -- before the push
  ringing : ℕ → Client T  -- before `core.cv.notify_one()`

-- Where a thread stands in `shutdown`; the number is that of the cores notified so far.
pub data Closer : Type 0 where
  open_for_work : Closer
  notifying : ℕ → Closer
  joined : Closer

pub record Pool (T : Type 0) : Type 0 where
  pub cores : Cores T
  pub locked : ℕ → Bool
  pub worker : ℕ → Worker T
  pub client : ℕ → Client T
  pub closer : Closer

pub data Action (T : Type 0) : Type 0 where
  silent : Action T
  does : Event T → Action T
  spurious : Action T  -- `core.cv.wait` may return with no notification

-- A notification of the condition variable on which this worker alone waits.
abbrev pub wake : {T : Type 0} → Worker T → Worker T
wake blocked = outside
wake w = w

abbrev pub moves : {T : Type 0} → Pool T → ℕ → Worker T → Pool T
moves s i w = record s { worker = update s.worker i w }

-- Worker `i` gives up the mutex of its core.
abbrev pub releases : {T : Type 0} → Pool T → ℕ → Worker T → Pool T
releases s i w = record (moves s i w) { locked = update s.locked i false }

-- `pop_front`, or `push_back`, on the queues of a core
abbrev pub set_queues : {T : Type 0} → Pool T → ℕ → (ℕ → List T) → Pool T
set_queues s c q = record s { cores = record s.cores { queues = update s.cores.queues c q } }

pub data Step {T : Type 0} (s : Pool T) : Action T → Pool T → Type 0 where
  worker_locks :
      (i : ℕ)
      → i < s.cores.num_cores
      → s.worker i ≡ outside
      → s.locked i ≡ false
      → Step s silent (record (moves s i looking) { locked = update s.locked i true })
  worker_takes :
      (i : ℕ) {p : Priority} {job : T} {q : ℕ → List T}
      → s.worker i ≡ looking
      → take_job priority_order (s.cores.queues i) ≡ (some (p, job), q)
      → Step s (does (starts i (rank p) job)) (releases (set_queues s i q) i (running job))
  worker_finds_none :
      (i : ℕ) {q : ℕ → List T}
      → s.worker i ≡ looking
      → take_job priority_order (s.cores.queues i) ≡ (none, q)
      → Step s silent (moves s i found_empty)
  worker_returns :
      (i : ℕ)
      → s.worker i ≡ found_empty
      → s.cores.shutdown_flag ≡ true
      → Step s silent (releases s i exited)
  worker_stays :
      (i : ℕ)
      → s.worker i ≡ found_empty
      → s.cores.shutdown_flag ≡ false
      → Step s silent (moves s i going_to_wait)
  worker_waits : (i : ℕ) → s.worker i ≡ going_to_wait → Step s silent (releases s i blocked)
  worker_wakes : (i : ℕ) → s.worker i ≡ blocked → Step s spurious (moves s i outside)
  worker_finishes : (i : ℕ) {job : T} → s.worker i ≡ running job → Step s silent (moves s i outside)
  submit_chooses :
      (c : ℕ) (job : T) (core_hint : Option ℕ) (p : Priority)
      → s.client c ≡ away
      → Step s silent (record s {
        client = update s.client c (chosen job (target core_hint s.cores).0 p);
        cores = (target core_hint s.cores).1;
      })
  submit_records :
      (c : ℕ) {job : T} {core : ℕ} {p : Priority}
      → s.client c ≡ chosen job core p
      → Step s silent (record s {
        client = update s.client c (recorded job core p);
        cores = record s.cores { metrics = record_submitted s.cores.metrics };
      })
  submit_pushes :
      (c : ℕ) {job : T} {core : ℕ} {p : Priority}
      → s.client c ≡ recorded job core p
      → s.locked core ≡ false
      → Step s
          (does (accepts core (rank p) job))
          (record (set_queues s core
            (update (s.cores.queues core) (rank p) (s.cores.queues core (rank p) ++ job ∷ []))) {
              client = update s.client c (ringing core);
            })
  submit_notifies :
      (c : ℕ) {core : ℕ}
      → s.client c ≡ ringing core
      → Step s silent
          (record (moves s core (wake (s.worker core))) { client = update s.client c away })
  shutdown_stores :
      s.closer ≡ open_for_work
      → Step s silent
          (record s { cores = record s.cores { shutdown_flag = true }; closer = notifying 0 })
  shutdown_notifies :
      {k : ℕ}
      → s.closer ≡ notifying k
      → k < s.cores.num_cores
      → Step s silent (record (moves s k (wake (s.worker k))) { closer = notifying (suc k) })
  shutdown_joins :
      s.closer ≡ notifying s.cores.num_cores
      → ((i : ℕ) → i < s.cores.num_cores → s.worker i ≡ exited)
      → Step s silent (record s { closer = joined })

pub data Run {T : Type 0} (s : Pool T) : List (Action T) → Pool T → Type 0 where
  start : Run s [] s
  later :
      {es : List (Action T)} {t u : Pool T} {e : Action T}
      → Run s es t
      → Step t e u
      → Run s (e ∷ es) u

-- A new scheduler with `n` cores.
abbrev pub initial : {T : Type 0} → ℕ → Pool T
initial n = record {
  cores = record {
    num_cores = n;
    queues = λ c r. [];
    next = 0;
    shutdown_flag = false;
    metrics = no_activity;
  };
  locked = λ c. false;
  worker = λ i. outside;
  client = λ c. away;
  closer = open_for_work;
}

-- What the run did to the queues, newest first.
abbrev pub events : {T : Type 0} → List (Action T) → List (Event T)
events [] = []
events (does e ∷ es) = e ∷ events es
events (silent ∷ es) = events es
events (spurious ∷ es) = events es
