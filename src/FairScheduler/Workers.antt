-- ===== src/FairScheduler/Workers.antt =====
-- src/fair_scheduler.cpp with all its threads: workers that dispatch, run and sleep, callers of
-- `submit` and `register_class`, and the caller of `shutdown`. A section under `mu_` is one step: no
-- thread waits inside one. Elsewhere a step is one access to what threads share.
pub mod Inv
pub mod Count
pub mod Rest
pub mod ClassOrder
pub mod Drain
mod Tests
use thread_pool_runtime.Prelude.{
  ℕ, zero, suc, ◌+◌, ◌%◌, ◌<◌, ◌≡◌, ◌≢◌, Bool, true, false, if◌then◌else◌, ◌==◌, some,
}
use thread_pool_runtime.Prelude.Family.{update}
use thread_pool_runtime.Deque.Words.{word, sub64}
use thread_pool_runtime.Metrics.{Metrics, no_activity, record_submitted}
use thread_pool_runtime.FairScheduler.{
  Name, FairState, nothing_ready, took, empty_state, register_class, submit, dispatch, account,
}
use thread_pool_runtime.FairScheduler.Doubles.{Double}

-- Where a worker stands in `worker_loop`; `gen` is its snapshot of the signal, `id` the class of its
-- job.
pub data Worker (T : Type 0) : Type 0 where
  outside : Worker T
  looking : ℕ → Worker T  -- before the section that dispatches
  running : ℕ → T → Worker T
  counted : ℕ → Worker T  -- the job has run and `pending_` is decremented
  ringing : ℕ → Worker T  -- has advanced the signal, before `notify_all()`
  timing : ℕ → Worker T  -- before the section that accounts for the job
  checking : ℕ → Worker T  -- found nothing, before it reads the flag
  flagged : ℕ → Worker T  -- has seen the flag, before it reads `pending_`
  going_to_wait : ℕ → Worker T
  sleeping : ℕ → Worker T  -- in `idle_.wait`
  exited : Worker T

-- A job with the options that the scheduler reads.
pub record Order (V T : Type 0) : Type 0 where
  pub job : T
  pub name : Name
  pub weight : V

-- Where a thread stands in `submit`.
pub data Client (V T : Type 0) : Type 0 where
  away : Client V T
  recorded : Order V T → Client V T  -- before it increments `pending_`
  holding : Order V T → Client V T  -- before the section that queues the job
  pushed : Client V T  -- before it advances the signal
  calling : Client V T  -- before `notify_all()`

-- Where a thread stands in `shutdown`.
pub data Closer : Type 0 where
  open_for_work stored shouting notified joined : Closer

pub record Pool (V T : Type 0) : Type 0 where
  pub fair : FairState V T
  pub pending : ℕ
  pub shutdown_flag : Bool
  pub gen : ℕ
  pub metrics : Metrics
  pub worker : ℕ → Worker T
  pub client : ℕ → Client V T
  pub closer : Closer

-- `idle_.notify()`: first the count, then the sleepers, of which `wait` lets those go whose count has
-- changed.
abbrev pub advance : {V T : Type 0} → Pool V T → Pool V T
advance s = record s { gen = (s.gen + 1) % word }

abbrev pub wake : {T : Type 0} → ℕ → Worker T → Worker T
wake gen (sleeping g) = if g == gen then sleeping g else outside
wake gen w = w

abbrev pub moves : {V T : Type 0} → Pool V T → ℕ → Worker T → Pool V T
moves s i w = record s { worker = update s.worker i w }

-- A step of worker `i`.
pub data WorkerMove {V : Type 0} (F : Double V) {T : Type 0} (s : Pool V T) (i : ℕ)
    : Worker T → Pool V T → Type 0 where
  snapshots : WorkerMove F s i outside (moves s i (looking s.gen))
  takes :
      {g : ℕ} (id : ℕ) (job : T) (fair : FairState V T)
      → dispatch F s.fair ≡ took id job fair
      → WorkerMove F s i (looking g) (moves (record s { fair = fair }) i (running id job))
  finds_nothing :
      {g : ℕ}
      → dispatch F s.fair ≡ nothing_ready
      → WorkerMove F s i (looking g) (moves s i (checking g))
  finishes :
      {id : ℕ} {job : T}
      → WorkerMove F s i
          (running id job)
          (moves (record s { pending = sub64 s.pending 1 }) i (counted id))
  rings : {id : ℕ} → WorkerMove F s i (counted id) (moves (advance s) i (ringing id))
  wakes_all :
      {id : ℕ}
      → WorkerMove F s i
          (ringing id)
          (record s { worker = update (λ j. wake s.gen (s.worker j)) i (timing id) })
  accounts :
      {id : ℕ} (elapsed : V)
      → F.le F.double_0 elapsed ≡ true
      → WorkerMove F s i
          (timing id)
          (moves (record s { fair = account F id elapsed s.fair }) i outside)
  sees_open :
      {g : ℕ}
      → s.shutdown_flag ≡ false
      → WorkerMove F s i (checking g) (moves s i (going_to_wait g))
  sees_flag :
      {g : ℕ} → s.shutdown_flag ≡ true → WorkerMove F s i (checking g) (moves s i (flagged g))
  breaks : {g : ℕ} → s.pending ≡ 0 → WorkerMove F s i (flagged g) (moves s i exited)
  sees_pending :
      {g : ℕ} → s.pending ≢ 0 → WorkerMove F s i (flagged g) (moves s i (going_to_wait g))
  waits_not : {g : ℕ} → g ≢ s.gen → WorkerMove F s i (going_to_wait g) (moves s i outside)
  sleeps : {g : ℕ} → g ≡ s.gen → WorkerMove F s i (going_to_wait g) (moves s i (sleeping g))

-- A step of a thread in `submit`.
pub data ClientMove {V : Type 0} (F : Double V) {T : Type 0} (s : Pool V T) (c : ℕ)
    : Client V T → Pool V T → Type 0 where
  records :
      (o : Order V T)
      → ClientMove F s c away (record s {
        client = update s.client c (recorded o);
        metrics = record_submitted s.metrics;
      })
  counts :
      {o : Order V T}
      → ClientMove F s c
          (recorded o)
          (record s { client = update s.client c (holding o); pending = (s.pending + 1) % word })
  pushes :
      {o : Order V T} (fair : FairState V T)
      → submit F o.name o.weight o.job s.fair ≡ some fair
      → ClientMove F s c (holding o) (record s { client = update s.client c pushed; fair = fair })
  advances : ClientMove F s c pushed (record (advance s) { client = update s.client c calling })
  calls :
      ClientMove F s c calling
        (record s { client = update s.client c away; worker = λ j. wake s.gen (s.worker j) })

-- A step of the thread in `shutdown`.
pub data CloserMove {V T : Type 0} (n : ℕ) (s : Pool V T) : Closer → Pool V T → Type 0 where
  stores : CloserMove n s open_for_work (record s { shutdown_flag = true; closer = stored })
  shouts : CloserMove n s stored (record (advance s) { closer = shouting })
  notifies :
      CloserMove n s shouting
        (record s { worker = λ j. wake s.gen (s.worker j); closer = notified })
  joins :
      ((i : ℕ) → i < n → s.worker i ≡ exited)
      → CloserMove n s notified (record s { closer = joined })

-- `n` workers, any number of threads that call `register_class`, and `m` that submit.
pub data Step {V : Type 0} (F : Double V) {T : Type 0} (n m : ℕ) (s : Pool V T)
    : Pool V T → Type 0 where
  by_worker : (i : ℕ) {t : Pool V T} → i < n → WorkerMove F s i (s.worker i) t → Step F n m s t
  by_client : (c : ℕ) {t : Pool V T} → c < m → ClientMove F s c (s.client c) t → Step F n m s t
  by_closer : {t : Pool V T} → CloserMove n s s.closer t → Step F n m s t
  registers :
      (name : Name) (weight : V) (fair : FairState V T)
      → register_class F name weight s.fair ≡ some fair
      → Step F n m s (record s { fair = fair })

-- Runs with the number of their steps.
pub data Run {V : Type 0} (F : Double V) {T : Type 0} (n m : ℕ) (s : Pool V T)
    : ℕ → Pool V T → Type 0 where
  start : Run F n m s 0 s
  later : {k : ℕ} {t u : Pool V T} → Run F n m s k t → Step F n m t u → Run F n m s (suc k) u

abbrev pub initial : {V : Type 0} → Double V → {T : Type 0} → Pool V T
initial F = record {
  fair = empty_state F;
  pending = 0;
  shutdown_flag = false;
  gen = 0;
  metrics = no_activity;
  worker = λ i. outside;
  client = λ c. away;
  closer = open_for_work;
}
