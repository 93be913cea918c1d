-- ===== src/Scheduler/Spawn/Joins.antt =====
-- Every task that `spawn` has made can be joined once the scheduler's `shutdown` is over: by induction
-- on the program's runs, from the scheduler's own law and what `join` does for one task.
use thread_pool_runtime.Prelude.{
  ℕ, ◌<◌, ◌≡◌, ◌≢◌, ◌⊎◌, sym, subst, ◌∙◌, Bool, true, false, List, ◌∷◌, length, arith, count_if,
  some, ℕ_discrete,
}
use mathlib.Core.Logic.{ite}
use thread_pool_runtime.Prelude.Family.{update, update_eq, update_ne}
use thread_pool_runtime.Deque.Words.{word}
use thread_pool_runtime.Metrics.{no_activity}
use thread_pool_runtime.Task.{
  Outcome, Job, done, blocked, got, Task, JobStep, TaskStep, by_job, by_joiner, TaskRun, spawned,
}
use thread_pool_runtime.Task as Single
use thread_pool_runtime.Task.Join.{delivery, joiner_only, join_woken}
use thread_pool_runtime.Scheduler.{
  Label, accepts, finishes, accepted, finished, LabelledRun, Scheduler,
}
use thread_pool_runtime.Scheduler as Backend
use thread_pool_runtime.Scheduler.Spawn.{
  Program, moves, spawns, calls, returns, runs, joins, ProgramRun, start, later,
}

-- The job is that of task `i`.
abbrev pub is_of : ℕ → ℕ → Bool
is_of i j = ite (ℕ_discrete j i) true false

-- What one more job adds to the count of task `i`.
one : (i j : ℕ) (js : List ℕ) → j ≡ i → 0 < count_if (is_of i) (j ∷ js)
one i j js e = ground arith

another : (i j : ℕ) (js : List ℕ) → j ≢ i → count_if (is_of i) (j ∷ js) ≡ count_if (is_of i) js
another i j js ne = ground arith

module _ {V E : Type 0} where
  JobStep-done : (f : Outcome V E) (s t : Task V E) (j : Job V E) → j ≡ done → JobStep f s j t → ⊥
  JobStep-done f s t j e mv = elim (subst (λ x. JobStep f s x t) e mv) [ ]

  -- What is over stays so.
  TaskStep-done : {f : Outcome V E} {s t : Task V E} → TaskStep f s t → s.job ≡ done → t.job ≡ done
  TaskStep-done {f = f} {s = s} (by_job mv) e = absurd (JobStep-done f s _ s.job e mv)
  TaskStep-done {f = f} {s = s} (by_joiner mv) e = (joiner_only f no_activity s.joiner mv).0 ∙ e

module _ {V E : Type 0} (S : Scheduler ℕ) (f : ℕ → Outcome V E) where
  -- Task `i` moves to `t`.
  task_moves :
      (g : ℕ → Task V E) (i j : ℕ) (t : Task V E)
      → TaskStep (f i) (g i) t
      → TaskRun (f j) (spawned no_activity) (g j)
      → TaskRun (f j) (spawned no_activity) (update g i t j)
  task_moves g i j t mv r = elim (ℕ_discrete i j) [
    | yes e ↦
        subst (TaskRun (f j) (spawned no_activity)) (sym (update_eq g i j t e))
          (Single.later r (subst (λ k. TaskStep (f k) (g k) t) e mv))
    | no ne ↦ subst (TaskRun (f j) (spawned no_activity)) (sym (update_ne g i j t ne)) r
  ]

  done_moves :
      (g : ℕ → Task V E) (i j : ℕ) (t : Task V E)
      → TaskStep (f i) (g i) t
      → (g j).job ≡ done
      → (update g i t j).job ≡ done
  done_moves g i j t mv at = elim (ℕ_discrete i j) [
    | yes e ↦
        subst (λ x. x.job ≡ done) (sym (update_eq g i j t e))
          (TaskStep-done mv (subst (λ k. (g k).job ≡ done) (sym e) at))
    | no ne ↦ subst (λ x. x.job ≡ done) (sym (update_ne g i j t ne)) at
  ]

  -- The scheduler's part of a run is a run of the scheduler.
  backend_run :
      {es : List (Label ℕ)} {s : Program S V E}
      → ProgramRun S f es s
      → LabelledRun S.Step S.initial es s.backend
  backend_run start = Backend.start
  backend_run (later r (moves mv)) = Backend.later (backend_run r) mv
  backend_run (later r (spawns i fresh mv)) = Backend.later (backend_run r) mv
  backend_run (later r (calls i mv)) = Backend.later (backend_run r) mv
  backend_run (later r (returns i over mv)) = Backend.later (backend_run r) mv
  backend_run (later r (runs i called mv)) = backend_run r
  backend_run (later r (joins i made mv)) = backend_run r

  -- What happens to a task is a run of the task.
  task_run :
      (i : ℕ) {es : List (Label ℕ)} {s : Program S V E}
      → ProgramRun S f es s
      → TaskRun (f i) (spawned no_activity) (s.task i)
  task_run i start = Single.start
  task_run i (later r (moves mv)) = task_run i r
  task_run i (later r (spawns j fresh mv)) = task_run i r
  task_run i (later r (calls j mv)) = task_run i r
  task_run i (later r (returns j over mv)) = task_run i r
  task_run i (later {s = s} r (runs j {t} called mv)) =
      task_moves s.task j i t (by_job mv) (task_run i r)
  task_run i (later {s = s} r (joins j {t} made mv)) =
      task_moves s.task j i t (by_joiner mv) (task_run i r)

  -- A worker is through with a job only when the function that `spawn` builds has returned.
  finished_done :
      (i : ℕ) {es : List (Label ℕ)} {s : Program S V E}
      → ProgramRun S f es s
      → 0 < count_if (is_of i) (finished es)
      → (s.task i).job ≡ done
  finished_done i start lt = absurd (omega (arith, lt))
  finished_done i (later r (moves mv)) lt = finished_done i r lt
  finished_done i (later r (spawns j fresh mv)) lt = finished_done i r lt
  finished_done i (later r (calls j mv)) lt = finished_done i r lt
  finished_done i (later {es = es} {s = s} r (returns j over mv)) lt = elim (ℕ_discrete j i) [
    | yes e ↦ subst (λ k. (s.task k).job ≡ done) e over
    | no ne ↦ finished_done i r (omega (arith, lt, another i j (finished es) ne))
  ]
  finished_done i (later {s = s} r (runs j {t} called mv)) lt =
      done_moves s.task j i t (by_job mv) (finished_done i r lt)
  finished_done i (later {s = s} r (joins j {t} made mv)) lt =
      done_moves s.task j i t (by_joiner mv) (finished_done i r lt)

  -- `spawn` has put the job into the scheduler before it returns the handle.
  spawned_accepted :
      (i : ℕ) {es : List (Label ℕ)} {s : Program S V E}
      → ProgramRun S f es s
      → s.is_spawned i ≡ true
      → 0 < count_if (is_of i) (accepted es)
  spawned_accepted i start e = absurd (cc)
  spawned_accepted i (later r (moves mv)) e = spawned_accepted i r e
  spawned_accepted i (later {es = es} {s = s} r (spawns j fresh mv)) e = elim (ℕ_discrete j i) [
    | yes same ↦ one i j (accepted es) same
    | no ne ↦ omega (
      arith,
      another i j (accepted es) ne,
      spawned_accepted i r (sym (update_ne s.is_spawned j i true ne) ∙ e),
    )
  ]
  spawned_accepted i (later r (calls j mv)) e = spawned_accepted i r e
  spawned_accepted i (later r (returns j over mv)) e = spawned_accepted i r e
  spawned_accepted i (later r (runs j called mv)) e = spawned_accepted i r e
  spawned_accepted i (later r (joins j made mv)) e = spawned_accepted i r e

-- Tasks made by `spawn` on any scheduler, with runs of fewer than 2^64 scheduler steps: once the
-- scheduler has shut down, the job of every spawned task is over, no thread is left blocked in `join`
-- on it, and its result is there to be taken or was taken; it is what the task's body returned or threw.
pub join_returns :
    {V E : Type 0} (S : Scheduler ℕ) (f : ℕ → Outcome V E) (s : Program S V E) (es : List (Label ℕ))
    (i : ℕ)
    → ProgramRun S f es s
    → length es < word
    → S.HasShutDown s.backend
    → s.is_spawned i ≡ true
    → ((s.task i).job ≡ done)
      × ((s.task i).joiner ≢ blocked)
      × (((s.task i).result ≡ some (delivery (f i))) ⊎ ((s.task i).joiner ≡ got (delivery (f i))))
join_returns S f s es i r few closed made =
    let over = finished_done S f i r (
      omega (
        arith,
        spawned_accepted S f i r made,
        S.drains (backend_run S f r) few closed (is_of i),
      )) in
    let (free, there) = join_woken (f i) no_activity (s.task i) (task_run S f i r) over in
    (over, free, there)
