-- ===== src/Scheduler/ThreadPerCore.antt =====
-- src/thread_per_core_scheduler.cpp as a scheduler.
pub mod Within
pub mod Total
pub mod Drains
use thread_pool_runtime.Prelude.{ℕ, ◌≡◌, false}
use thread_pool_runtime.ThreadPerCore as Cores
use thread_pool_runtime.ThreadPerCore.Workers.{
  Pool, Action, does, Step, worker_takes, worker_finishes, submit_pushes,
}
use thread_pool_runtime.Scheduler.{Label, silent, accepts, starts, finishes}

module _ {T : Type 0} where
  abbrev pub label : {s t : Pool T} {e : Action T} → Step s e t → Label T
  label (worker_takes i {job = job} at e) = starts job
  label (worker_finishes i {job} at) = finishes job
  label (submit_pushes c {job = job} at unheld) = accepts job
  label mv = silent

  -- No job is queued once the flag is set.
  abbrev pub TimelyStep : Pool T → Label T → Pool T → Type 0
  TimelyStep s l t =
      (e : Action T) × (mv : Step s e t) × (label mv ≡ l)
      × ((c r : ℕ) (job : T) → e ≡ does (Cores.accepts c r job) → s.cores.shutdown_flag ≡ false)
