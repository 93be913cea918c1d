-- ===== src/Scheduler/WorkStealing.antt =====
-- src/work_stealing_scheduler.cpp as a scheduler.
pub mod UnderWay
pub mod Drains
use thread_pool_runtime.Prelude.{
  ℕ, suc, ◌+◌, ◌<◌, ◌≡◌, refl, sym, ap, ap₂, subst, ◌∙◌, ◌++◌, Bool, false, if◌then◌else◌, List, [],
  ◌∷◌, arith, sum, sum_same, sum_zero, update_total, zero_sum, length, count_if,
}
use thread_pool_runtime.Prelude.Family.{update}
use thread_pool_runtime.Deque.Words.{word}
use thread_pool_runtime.Priority.{Priority}
use thread_pool_runtime.WorkStealing.Workers.{
  Worker, outside, searching, checking, flagged, going_to_wait, sleeping, running, counted, ringing,
  exited, Client, recorded, Closer, open_for_work, stored, shouting, notified, joined, Pool, wake,
  WorkerMove, probes, snapshots, own_found, own_empty, injected_found, injected_empty, peer_found,
  peer_missed, finds_nothing, sees_open, sees_flag, breaks, sees_pending, waits_not, sleeps,
  finishes, rings, wakes_all, ClientMove, records, counts, pushes, advances, calls, CloserMove,
  stores, shouts, notifies, joins, Step, by_worker, by_client, by_closer, Run, initial,
}
use thread_pool_runtime.WorkStealing.Workers as Stealing
use thread_pool_runtime.WorkStealing.Workers.Conserve as Conserve
use thread_pool_runtime.WorkStealing.Workers.Conserve.{taken_by, queued_by}
use thread_pool_runtime.WorkStealing.Workers.Drain.{Timely, shutdown_completes}
use thread_pool_runtime.Scheduler.Balance.{started_balance}
use thread_pool_runtime.Scheduler.{
  Label, silent, accepts, starts, accepted, accepted-cons, started, started-cons, finished,
  LabelledRun, start, later, Scheduler,
}
use thread_pool_runtime.Scheduler as Backend

module _ {T : Type 0} where
  abbrev pub worker_label : {n i : ℕ} {s t : Pool T} {w : Worker T} → WorkerMove n s i w t → Label T
  worker_label (own_found job rest e) = starts job
  worker_label (injected_found job rest e) = starts job
  worker_label (peer_found job rest lt e) = starts job
  worker_label (finishes {job = job}) = Backend.finishes job
  worker_label mv = silent

  abbrev pub client_label : {c : ℕ} {s t : Pool T} {w : Client T} → ClientMove s c w t → Label T
  client_label (pushes {job = job}) = accepts job
  client_label mv = silent

  abbrev pub label : {n m : ℕ} {s t : Pool T} → Step n m s t → Label T
  label (by_worker i lt mv) = worker_label mv
  label (by_client c lt mv) = client_label mv
  label (by_closer mv) = silent

  -- No call of `submit` increments `pending` once the flag is set.
  abbrev pub IsTimely : {n m : ℕ} {s t : Pool T} → Step n m s t → Type 0
  IsTimely (by_worker i lt mv) = Unit
  IsTimely {s = s} (by_client c lt mv) =
      (job : T) (p : Priority) → s.client c ≡ recorded job p → s.shutdown_flag ≡ false
  IsTimely (by_closer mv) = Unit

  abbrev pub TimelyStep : ℕ → ℕ → Pool T → Label T → Pool T → Type 0
  TimelyStep n m s l t = (mv : Step n m s t) × (label mv ≡ l) × IsTimely mv
