-- ===== src/Scheduler/WorkStealing/Drains.antt =====
-- The work-stealing scheduler keeps the law of a scheduler: runs of labelled steps are its runs.
use thread_pool_runtime.Prelude.{
  ℕ, ◌<◌, ◌≡◌, refl, sym, ap, ap₂, ◌∙◌, ◌++◌, Bool, List, [], ◌∷◌, arith, sum_zero, zero_sum,
  length, count_if,
}
use thread_pool_runtime.Deque.Words.{word}
use thread_pool_runtime.WorkStealing.Workers.{
  Worker, outside, searching, checking, flagged, going_to_wait, sleeping, running, counted, ringing,
  exited, Client, recorded, Closer, open_for_work, stored, shouting, notified, joined, Pool, wake,
  WorkerMove, probes, snapshots, own_found, own_empty, injected_found, injected_empty, peer_found,
  peer_missed, finds_nothing, sees_open, sees_flag, breaks, sees_pending, waits_not, sleeps,
  finishes, rings, wakes_all, ClientMove, records, counts, pushes, advances, calls, CloserMove,
  stores, shouts, notifies, joins, Step, by_worker, by_client, by_closer, Run, initial,
}
use thread_pool_runtime.WorkStealing.Workers as Stealing
use thread_pool_runtime.WorkStealing.Workers.Conserve as Conserve
use thread_pool_runtime.WorkStealing.Workers.Conserve.{taken_by, queued_by}
use thread_pool_runtime.WorkStealing.Workers.Drain.{Timely, shutdown_completes}
use thread_pool_runtime.Scheduler.Balance.{started_balance}
use thread_pool_runtime.Scheduler.{
  Label, accepted, accepted-cons, started, started-cons, finished, LabelledRun, start, later,
  Scheduler,
}
use thread_pool_runtime.Scheduler.WorkStealing.UnderWay.{
  running_if, under_way, TimelyStep-under_way,
}
use thread_pool_runtime.Scheduler.WorkStealing.{
  worker_label, client_label, label, IsTimely, TimelyStep,
}

module _ {T : Type 0} where
  -- What a step does, by its label.
  worker_label_lem :
      {n i : ℕ} {s t : Pool T} {w : Worker T} (mv : WorkerMove n s i w t)
      → (taken_by mv ≡ started (worker_label mv ∷ [])) × (accepted (worker_label mv ∷ []) ≡ [])
  worker_label_lem (own_found job rest e) = (refl, refl)
  worker_label_lem mv = (refl, refl)

  client_label_lem :
      {c : ℕ} {s t : Pool T} {w : Client T} (mv : ClientMove s c w t)
      → (queued_by mv ≡ accepted (client_label mv ∷ [])) × (started (client_label mv ∷ []) ≡ [])
  client_label_lem pushes = (refl, refl)
  client_label_lem mv = (refl, refl)

  label_lem :
      {n m k : ℕ} {s t : Pool T} (r : Run n m initial k s) (mv : Step n m s t)
      → (Conserve.accepted (Stealing.later r mv) ≡ accepted (label mv ∷ []) ++ Conserve.accepted r)
        × (Conserve.started (Stealing.later r mv) ≡ started (label mv ∷ []) ++ Conserve.started r)
  label_lem r (by_worker i lt mv) =
      let (a, b) = worker_label_lem mv in
      (ap (λ xs. xs ++ Conserve.accepted r) (sym b), ap (λ xs. xs ++ Conserve.started r) a)
  label_lem r (by_client c lt mv) =
      let (a, b) = client_label_lem mv in
      (ap (λ xs. xs ++ Conserve.accepted r) a, ap (λ xs. xs ++ Conserve.started r) (sym b))
  label_lem r (by_closer mv) = (refl, refl)

  Timely-later :
      {n m k : ℕ} {s t : Pool T} (r : Run n m initial k s) (mv : Step n m s t)
      → Timely r
      → IsTimely mv
      → Timely (Stealing.later r mv)
  Timely-later r (by_worker i lt mv) timely ok = timely
  Timely-later r (by_client c lt mv) timely ok = (timely, ok)
  Timely-later r (by_closer mv) timely ok = timely

  -- A run of labelled steps is a run, with the same jobs.
  unlabelled :
      {n m : ℕ} {s : Pool T} {ls : List (Label T)}
      → LabelledRun (TimelyStep n m) initial ls s
      → (r : Run n m initial (length ls) s) × Timely r
        × (Conserve.accepted r ≡ accepted ls)
        × (Conserve.started r ≡ started ls)
  unlabelled start = (Stealing.start, tt, refl, refl)
  unlabelled (later {es = ls} {e = l} run (mv, same, ok)) =
      let (r, timely, a, b) = unlabelled run in
      let (a', b') = label_lem r mv in
      (
        Stealing.later r mv,
        Timely-later r mv timely ok,
        a' ∙ ap₂ (λ x xs. accepted (x ∷ []) ++ xs) same a ∙ sym (accepted-cons l ls),
        b' ∙ ap₂ (λ x xs. started (x ∷ []) ++ xs) same b ∙ sym (started-cons l ls),
      )

  pub pool_drains :
      {n m : ℕ} {s : Pool T} {ls : List (Label T)}
      → 0 < n
      → LabelledRun (TimelyStep n m) initial ls s
      → length ls < word
      → s.closer ≡ joined
      → (P : T → Bool) → count_if P (accepted ls) ≡ count_if P (finished ls)
  pool_drains {n = n} {m = m} {s = s} {ls = ls} pos run less closed P =
      let (r, timely, a, b) = unlabelled run in
      let (gone, idle, same) = shutdown_completes n m (length ls) s r pos less timely closed in
      omega (
        arith,
        same P,
        ap (count_if P) a,
        ap (count_if P) b,
        started_balance P (under_way P n) (TimelyStep-under_way P n m) (sum_zero n) run,
        zero_sum n (λ i. running_if P (s.worker i)) (λ i lt. ap (running_if P) (gone i lt)),
      )

  -- A work-stealing scheduler of `n` workers, with `m` threads that submit.
  unfoldable pub work_stealing : (n m : ℕ) → 0 < n → Scheduler T
  work_stealing n m pos = record {
    State = Pool T;
    initial = initial;
    Step = TimelyStep n m;
    HasShutDown = λ s. s.closer ≡ joined;
    drains = λ run less closed. pool_drains pos run less closed;
  }
