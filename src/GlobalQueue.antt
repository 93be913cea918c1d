-- ===== src/GlobalQueue.antt =====
-- src/global_queue_scheduler.cpp, include/wss/global_queue_scheduler.hpp: one queue, one mutex, one
-- condition variable. A step is one access to what threads share; what a thread does under the mutex
-- takes several, with the mutex held. A job is any value: its body is not part of the scheduler.
pub mod Fifo
pub mod Mutex
pub mod Drain
pub mod LostWakeup
mod Tests
use thread_pool_runtime.Prelude.{
  ℕ, ◌<◌, ◌≡◌, ◌≢◌, Bool, true, false, List, [], ◌∷◌, ◌++◌, Option, none, some, ◌==◌, if◌then◌else◌,
}
use thread_pool_runtime.Prelude.Family.{update}
use thread_pool_runtime.Metrics.{Metrics, no_activity, record_submitted}

-- Where a worker stands in `worker_loop`.
pub data Worker (T : Type 0) : Type 0 where
  outside : Worker T  -- before it has the mutex: at the top, or woken from `cv_.wait`
  looking : Worker T  -- has the mutex, before `queue_.empty()`
  found_empty : Worker T  -- has the mutex, before it reads `shutdown_flag_`
  going_to_wait : Worker T  -- has the mutex, before `cv_.wait(lock)`
  blocked : Worker T  -- in `cv_.wait`, without the mutex
  running : T → Worker T
  exited : Worker T

-- Where a thread stands in `submit`.
pub data Client (T : Type 0) : Type 0 where
  away : Client T
  recorded : T → Client T  -- counted, not yet in the queue
  ringing : Client T  -- before `cv_.notify_one()`

-- Where a thread stands in `shutdown`.
pub data Closer : Type 0 where
  open_for_work stored notified joined : Closer

pub record Pool (T : Type 0) : Type 0 where
  pub queue : List T
  pub shutdown_flag : Bool
  pub metrics : Metrics
  pub locked : Bool
  pub worker : ℕ → Worker T
  pub client : ℕ → Client T
  pub closer : Closer

pub data Event (T : Type 0) : Type 0 where
  silent : Event T
  accepts starts : T → Event T
  spurious : Event T  -- `cv_.wait` may return with no notification

abbrev pub moves : {T : Type 0} → Pool T → ℕ → Worker T → Pool T
moves s i w = record s { worker = update s.worker i w }

-- `cv_.notify_all()`
abbrev pub wake : {T : Type 0} → Worker T → Worker T
wake blocked = outside
wake w = w

-- The pool of `n` workers, which are the indices below `n`.
pub data Step {T : Type 0} (n : ℕ) (s : Pool T) : Event T → Pool T → Type 0 where
  worker_locks :
      (i : ℕ)
      → i < n
      → s.worker i ≡ outside
      → s.locked ≡ false
      → Step n s silent (record s { worker = update s.worker i looking; locked = true })
  worker_takes :
      (i : ℕ) {job : T} {rest : List T}
      → i < n
      → s.worker i ≡ looking
      → s.queue ≡ job ∷ rest
      → Step n s
          (starts job)
          (record s { worker = update s.worker i (running job); queue = rest; locked = false })
  worker_finds_none :
      (i : ℕ)
      → i < n
      → s.worker i ≡ looking
      → s.queue ≡ []
      → Step n s silent (moves s i found_empty)
  worker_returns :
      (i : ℕ)
      → i < n
      → s.worker i ≡ found_empty
      → s.shutdown_flag ≡ true
      → Step n s silent (record s { worker = update s.worker i exited; locked = false })
  worker_stays :
      (i : ℕ)
      → i < n
      → s.worker i ≡ found_empty
      → s.shutdown_flag ≡ false
      → Step n s silent (moves s i going_to_wait)
  worker_waits :
      (i : ℕ)
      → i < n
      → s.worker i ≡ going_to_wait
      → Step n s silent (record s { worker = update s.worker i blocked; locked = false })
  worker_wakes : (i : ℕ) → i < n → s.worker i ≡ blocked → Step n s spurious (moves s i outside)
  worker_finishes :
      (i : ℕ) {job : T} → i < n → s.worker i ≡ running job → Step n s silent (moves s i outside)
  submit_records :
      (c : ℕ) (job : T)
      → s.client c ≡ away
      → Step n s silent (record s {
        client = update s.client c (recorded job);
        metrics = record_submitted s.metrics;
      })
  submit_pushes :
      (c : ℕ) {job : T}
      → s.client c ≡ recorded job
      → s.locked ≡ false
      → Step n s
          (accepts job)
          (record s { client = update s.client c ringing; queue = s.queue ++ job ∷ [] })
  submit_notifies :
      (c i : ℕ)
      → s.client c ≡ ringing
      → i < n
      → s.worker i ≡ blocked
      → Step n s silent
          (record s { client = update s.client c away; worker = update s.worker i outside })
  submit_notifies_none :
      (c : ℕ)
      → s.client c ≡ ringing
      → ((i : ℕ) → i < n → s.worker i ≢ blocked)
      → Step n s silent (record s { client = update s.client c away })
  shutdown_stores :
      s.closer ≡ open_for_work
      → Step n s silent (record s { shutdown_flag = true; closer = stored })
  shutdown_notifies :
      s.closer ≡ stored
      → Step n s silent (record s { worker = λ i. wake (s.worker i); closer = notified })
  shutdown_joins :
      s.closer ≡ notified
      → ((i : ℕ) → i < n → s.worker i ≡ exited)
      → Step n s silent (record s { closer = joined })

pub data Run {T : Type 0} (n : ℕ) (s : Pool T) : List (Event T) → Pool T → Type 0 where
  start : Run n s [] s
  later :
      {es : List (Event T)} {t u : Pool T} {e : Event T}
      → Run n s es t
      → Step n t e u
      → Run n s (e ∷ es) u

abbrev pub initial : {T : Type 0} → Pool T
initial = record {
  queue = [];
  shutdown_flag = false;
  metrics = no_activity;
  locked = false;
  worker = λ _. outside;
  client = λ _. away;
  closer = open_for_work;
}

-- The constructor; `none` is `std::invalid_argument`.
unfoldable pub make_pool : {T : Type 0} → ℕ → Option (Pool T)
make_pool num_workers = if num_workers == 0 then none else some initial
