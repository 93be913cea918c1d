-- ===== src/Scheduler/FairScheduler.antt =====
-- src/fair_scheduler.cpp as a scheduler.
pub mod Total
pub mod Drains
use thread_pool_runtime.Prelude.{ℕ, ◌≡◌, false}
use thread_pool_runtime.FairScheduler.Doubles.{Double}
use thread_pool_runtime.FairScheduler.Workers.{
  Order, Worker, Client, recorded, Pool, WorkerMove, takes, ClientMove, pushes, Step, by_worker,
  by_client, by_closer, registers,
}
use thread_pool_runtime.FairScheduler.Workers as Fair
use thread_pool_runtime.Scheduler.{Label, silent, accepts, starts, finishes}

module _ {V : Type 0} {F : Double V} {T : Type 0} where
  abbrev pub worker_label : {i : ℕ} {s t : Pool V T} {w : Worker T} → WorkerMove F s i w t → Label T
  worker_label (takes id job f e) = starts job
  worker_label (Fair.finishes {job = job}) = finishes job
  worker_label mv = silent

  abbrev pub client_label :
      {c : ℕ} {s t : Pool V T} {w : Client V T} → ClientMove F s c w t → Label T
  client_label (pushes {o = o} f e) = accepts o.job
  client_label mv = silent

  abbrev pub label : {n m : ℕ} {s t : Pool V T} → Step F n m s t → Label T
  label (by_worker i lt mv) = worker_label mv
  label (by_client c lt mv) = client_label mv
  label (by_closer mv) = silent
  label (registers name weight f e) = silent

  -- No call of `submit` increments `pending_` once the flag is set.
  abbrev pub IsTimely : {n m : ℕ} {s t : Pool V T} → Step F n m s t → Type 0
  IsTimely (by_worker i lt mv) = Unit
  IsTimely {s = s} (by_client c lt mv) =
      (o : Order V T) → s.client c ≡ recorded o → s.shutdown_flag ≡ false
  IsTimely (by_closer mv) = Unit
  IsTimely (registers name weight f e) = Unit

-- What the scheduler does next.
abbrev pub TimelyStep :
    {V : Type 0} → Double V → {T : Type 0} → ℕ → ℕ → Pool V T → Label T → Pool V T → Type 0
TimelyStep F n m s l t = (mv : Step F n m s t) × (label mv ≡ l) × IsTimely mv
