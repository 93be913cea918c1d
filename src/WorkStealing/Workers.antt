-- ===== src/WorkStealing/Workers.antt =====
-- src/work_stealing_scheduler.cpp with all its threads: workers that search, run and sleep, callers of
-- `submit` and the caller of `shutdown`, a shared access at a time. An operation on a deque is one
-- step on its list (Deque/Threads.antt has its accesses), and so is a batch; a steal that loses the race
-- for the item may fail on a deque that is not empty.
pub mod Inv
pub mod Looking
pub mod Waiting
pub mod Ringing
pub mod Steps
pub mod Count
pub mod Counting
pub mod Conserve
pub mod Drain
pub mod Others
pub mod Rest
pub mod Shutdown
mod Tests
mod DrainTests
use thread_pool_runtime.Prelude.{
  ℕ, zero, suc, ◌+◌, ◌-◌, ◌%◌, ◌<◌, ◌≡◌, ◌≢◌, Bool, true, false, if◌then◌else◌, ◌==◌, List, [], ◌∷◌,
  ◌++◌, take, drop, Option, some, none,
}
use thread_pool_runtime.Prelude.Family.{update}
use thread_pool_runtime.Deque.Words.{word, sub64}
use thread_pool_runtime.Deque.ListDeque
use thread_pool_runtime.Metrics.{Metrics, no_activity, record_submitted, record_stolen}
use thread_pool_runtime.Priority.{Priority, high, normal, background, rank}
use thread_pool_runtime.WorkStealing.{injector_batch_size}

-- A place where `find_task` looks.
pub data Probe : Type 0 where
  own injected : Priority → Probe
  peer : ℕ → Priority → Probe

-- The peers of `w` among the `left` workers from `v` on.
unfoldable pub peer_probes : ℕ → ℕ → ℕ → Priority → List Probe
peer_probes zero v w p = []
peer_probes (suc left) v w p =
    let later = peer_probes left (suc v) w p in if v == w then later else peer v p ∷ later

-- The order in which worker `w` of `n` looks.
unfoldable pub probes : ℕ → ℕ → List Probe
probes n w =
    own high
    ∷ own normal
    ∷ own background
    ∷ injected high
    ∷ injected normal
    ∷ injected background
    ∷ (peer_probes n 0 w high ++ peer_probes n 0 w normal ++ peer_probes n 0 w background)

-- Where a worker stands in `run_worker`; the number is its `gen`.
pub data Worker (T : Type 0) : Type 0 where
  outside : Worker T
  searching : ℕ → List Probe → Worker T
  checking : ℕ → Worker T  -- found nothing, before it reads the flag
  flagged : ℕ → Worker T  -- has seen the flag, before it reads `pending`
  going_to_wait : ℕ → Worker T
  sleeping : ℕ → Worker T  -- in `gen_.wait`
  running : T → Worker T
  counted : Worker T  -- the job has run and `pending` is decremented
  ringing : Worker T  -- has advanced `gen_`, before `gen_.notify_all()`
  exited : Worker T

-- Where a thread stands in `submit`.
pub data Client (T : Type 0) : Type 0 where
  away : Client T
  recorded : T → Priority → Client T  -- before it increments `pending`
  holding : T → Priority → Client T  -- before the push
  pushed : Client T  -- before it advances `gen_`
  calling : Client T  -- before `gen_.notify_all()`

-- Where a thread stands in `shutdown`.
pub data Closer : Type 0 where
  open_for_work stored shouting notified joined : Closer

pub record Pool (T : Type 0) : Type 0 where
  pub deques : ℕ → ℕ → List T
  pub injectors : ℕ → List T
  pub pending : ℕ
  pub shutdown_flag : Bool
  pub gen : ℕ
  pub metrics : Metrics
  pub worker : ℕ → Worker T
  pub client : ℕ → Client T
  pub closer : Closer

-- `gen_.fetch_add(1)`
abbrev pub advance : {T : Type 0} → Pool T → Pool T
advance s = record s { gen = (s.gen + 1) % word }

-- `gen_.notify_all()` for one worker: `wait` returns when the value has changed.
abbrev pub wake : {T : Type 0} → ℕ → Worker T → Worker T
wake gen (sleeping g) = if g == gen then sleeping g else outside
wake gen w = w

abbrev pub moves : {T : Type 0} → Pool T → ℕ → Worker T → Pool T
moves s i w = record s { worker = update s.worker i w }

-- Worker `i` has taken a job from its deque, or from another's.
abbrev pub set_deque : {T : Type 0} → Pool T → ℕ → ℕ → List T → Pool T
set_deque s v r xs = record s { deques = update s.deques v (update (s.deques v) r xs) }

-- A step of worker `i` of `n`.
pub data WorkerMove {T : Type 0} (n : ℕ) (s : Pool T) (i : ℕ) : Worker T → Pool T → Type 0 where
  snapshots : WorkerMove n s i outside (moves s i (searching s.gen (probes n i)))
  own_found :
      {g : ℕ} {p : Priority} {ps : List Probe} (job : T) (rest : List T)
      → s.deques i (rank p) ≡ rest ++ job ∷ []
      → WorkerMove n s i
          (searching g (own p ∷ ps))
          (moves (set_deque s i (rank p) rest) i (running job))
  own_empty :
      {g : ℕ} {p : Priority} {ps : List Probe}
      → s.deques i (rank p) ≡ []
      → WorkerMove n s i (searching g (own p ∷ ps)) (moves s i (searching g ps))
  injected_found :
      {g : ℕ} {p : Priority} {ps : List Probe} (job : T) (rest : List T)
      → s.injectors (rank p) ≡ job ∷ rest
      → WorkerMove n s i (searching g (injected p ∷ ps)) (
          moves
            (record (set_deque s i
              (rank p)
              (s.deques i (rank p) ++ take (injector_batch_size - 1) rest)) {
                injectors = update s.injectors (rank p) (drop (injector_batch_size - 1) rest);
              })
            i
            (running job))
  injected_empty :
      {g : ℕ} {p : Priority} {ps : List Probe}
      → s.injectors (rank p) ≡ []
      → WorkerMove n s i (searching g (injected p ∷ ps)) (moves s i (searching g ps))
  peer_found :
      {g v : ℕ} {p : Priority} {ps : List Probe} (job : T) (rest : List T)
      → v < n
      → s.deques v (rank p) ≡ job ∷ rest
      → WorkerMove n s i (searching g (peer v p ∷ ps)) (
          moves
            (record (set_deque s v (rank p) rest) { metrics = record_stolen s.metrics })
            i
            (running job))
  peer_missed :
      {g v : ℕ} {p : Priority} {ps : List Probe}
      → WorkerMove n s i (searching g (peer v p ∷ ps)) (moves s i (searching g ps))
  finds_nothing : {g : ℕ} → WorkerMove n s i (searching g []) (moves s i (checking g))
  sees_open :
      {g : ℕ}
      → s.shutdown_flag ≡ false
      → WorkerMove n s i (checking g) (moves s i (going_to_wait g))
  sees_flag :
      {g : ℕ} → s.shutdown_flag ≡ true → WorkerMove n s i (checking g) (moves s i (flagged g))
  breaks : {g : ℕ} → s.pending ≡ 0 → WorkerMove n s i (flagged g) (moves s i exited)
  sees_pending :
      {g : ℕ} → s.pending ≢ 0 → WorkerMove n s i (flagged g) (moves s i (going_to_wait g))
  waits_not : {g : ℕ} → g ≢ s.gen → WorkerMove n s i (going_to_wait g) (moves s i outside)
  sleeps : {g : ℕ} → g ≡ s.gen → WorkerMove n s i (going_to_wait g) (moves s i (sleeping g))
  finishes :
      {job : T}
      → WorkerMove n s i (running job) (moves (record s { pending = sub64 s.pending 1 }) i counted)
  rings : WorkerMove n s i counted (moves (advance s) i ringing)
  wakes_all :
      WorkerMove n s i ringing
        (record s { worker = update (λ j. wake s.gen (s.worker j)) i outside })

-- A step of a thread in `submit`.
pub data ClientMove {T : Type 0} (s : Pool T) (c : ℕ) : Client T → Pool T → Type 0 where
  records :
      (job : T) (p : Priority)
      → ClientMove s c away (record s {
        client = update s.client c (recorded job p);
        metrics = record_submitted s.metrics;
      })
  counts :
      {job : T} {p : Priority}
      → ClientMove s c (recorded job p) (record s {
        client = update s.client c (holding job p);
        pending = (s.pending + 1) % word;
      })
  pushes :
      {job : T} {p : Priority}
      → ClientMove s c (holding job p) (record s {
        client = update s.client c pushed;
        injectors = update s.injectors (rank p) (s.injectors (rank p) ++ job ∷ []);
      })
  advances : ClientMove s c pushed (record (advance s) { client = update s.client c calling })
  calls :
      ClientMove s c calling
        (record s { client = update s.client c away; worker = λ j. wake s.gen (s.worker j) })

-- A step of the thread in `shutdown`.
pub data CloserMove {T : Type 0} (n : ℕ) (s : Pool T) : Closer → Pool T → Type 0 where
  stores : CloserMove n s open_for_work (record s { shutdown_flag = true; closer = stored })
  shouts : CloserMove n s stored (record (advance s) { closer = shouting })
  notifies :
      CloserMove n s shouting
        (record s { worker = λ j. wake s.gen (s.worker j); closer = notified })
  joins :
      ((i : ℕ) → i < n → s.worker i ≡ exited)
      → CloserMove n s notified (record s { closer = joined })

-- `n` workers and `m` threads that submit.
pub data Step {T : Type 0} (n m : ℕ) (s : Pool T) : Pool T → Type 0 where
  by_worker : (i : ℕ) {t : Pool T} → i < n → WorkerMove n s i (s.worker i) t → Step n m s t
  by_client : (c : ℕ) {t : Pool T} → c < m → ClientMove s c (s.client c) t → Step n m s t
  by_closer : {t : Pool T} → CloserMove n s s.closer t → Step n m s t

-- Runs with the number of their steps.
pub data Run {T : Type 0} (n m : ℕ) (s : Pool T) : ℕ → Pool T → Type 0 where
  start : Run n m s 0 s
  later : {k : ℕ} {t u : Pool T} → Run n m s k t → Step n m t u → Run n m s (suc k) u

abbrev pub initial : {T : Type 0} → Pool T
initial = record {
  deques = λ v r. [];
  injectors = λ r. [];
  pending = 0;
  shutdown_flag = false;
  gen = 0;
  metrics = no_activity;
  worker = λ i. outside;
  client = λ c. away;
  closer = open_for_work;
}
