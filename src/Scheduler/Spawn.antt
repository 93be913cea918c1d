-- ===== src/Scheduler/Spawn.antt =====
-- `spawn` of include/wss/scheduler.hpp on any scheduler: the jobs are numbers, each the job of one task
-- (Task), which the scheduler's workers run and whose handle is joined.
pub mod Joins
use thread_pool_runtime.Prelude.{ℕ, ◌≡◌, Bool, true, false, List, [], ◌∷◌, ◌++◌}
use thread_pool_runtime.Prelude.Family.{update}
use thread_pool_runtime.Metrics.{no_activity}
use thread_pool_runtime.Task.{Outcome, done, Task, JobStep, JoinStep, spawned}
use thread_pool_runtime.Scheduler.{Label, silent, accepts, starts, finishes, Scheduler}

-- The scheduler, the task of each number, the numbers that `spawn` has used, and those whose job a
-- worker has called.
pub record Program (S : Scheduler ℕ) (V E : Type 0) : Type 0 where
  pub backend : S.State
  pub task : ℕ → Task V E
  pub is_spawned : ℕ → Bool
  pub is_called : ℕ → Bool

abbrev pub program : {S : Scheduler ℕ} {V E : Type 0} → Program S V E
program {S = S} = record {
  backend = S.initial;
  task = λ _. spawned no_activity;
  is_spawned = λ _. false;
  is_called = λ _. false;
}

-- The body of task `i` does `f i`. Between the worker's call of a job and its return the job takes the
-- steps of the function that `spawn` builds. The handle may be joined as soon as the job is queued, which
-- includes what can happen once `submit` and `spawn` have returned.
pub data ProgramStep (S : Scheduler ℕ) {V E : Type 0} (f : ℕ → Outcome V E) (s : Program S V E)
    : List (Label ℕ) → Program S V E → Type 0 where
  moves :
      {b : S.State}
      → S.Step s.backend silent b
      → ProgramStep S f s (silent ∷ []) (record s { backend = b })
  spawns :
      (i : ℕ) {b : S.State}
      → s.is_spawned i ≡ false
      → S.Step s.backend (accepts i) b
      → ProgramStep S f s
          (accepts i ∷ [])
          (record s { backend = b; is_spawned = update s.is_spawned i true })
  calls :
      (i : ℕ) {b : S.State}
      → S.Step s.backend (starts i) b
      → ProgramStep S f s
          (starts i ∷ [])
          (record s { backend = b; is_called = update s.is_called i true })
  returns :
      (i : ℕ) {b : S.State}
      → (s.task i).job ≡ done
      → S.Step s.backend (finishes i) b
      → ProgramStep S f s
          (finishes i ∷ [])
          (record s { backend = b; is_called = update s.is_called i false })
  runs :
      (i : ℕ) {t : Task V E}
      → s.is_called i ≡ true
      → JobStep (f i) (s.task i) (s.task i).job t
      → ProgramStep S f s [] (record s { task = update s.task i t })
  joins :
      (i : ℕ) {t : Task V E}
      → s.is_spawned i ≡ true
      → JoinStep (s.task i) (s.task i).joiner t
      → ProgramStep S f s [] (record s { task = update s.task i t })

-- With the labels of the scheduler's steps, newest first.
pub data ProgramRun (S : Scheduler ℕ) {V E : Type 0} (f : ℕ → Outcome V E)
    : List (Label ℕ) → Program S V E → Type 0 where
  start : ProgramRun S f [] program
  later :
      {es ls : List (Label ℕ)} {s t : Program S V E}
      → ProgramRun S f es s
      → ProgramStep S f s ls t
      → ProgramRun S f (ls ++ es) t
