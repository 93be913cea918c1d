-- ===== src/Scheduler/FairScheduler/Total.antt =====
-- The jobs that have been queued in some class and have not been run to their end.
use thread_pool_runtime.Prelude.{
  ℕ, ◌+◌, ◌<◌, ◌≡◌, refl, ap, Bool, if◌then◌else◌, [], ◌∷◌, arith, sum, sum_same, update_total_from,
  count_if, count_if-append,
}
use thread_pool_runtime.FairScheduler.{account}
use thread_pool_runtime.FairScheduler.Inv as State
use thread_pool_runtime.FairScheduler.Submit.{class_name}
use thread_pool_runtime.FairScheduler.Backlog.{
  queue, backlog_by, class_for, account-KeepsQueues, register_class-KeepsQueues,
  backlog-KeepsQueues, dispatch-IsServed, submit-IsQueued,
}
use thread_pool_runtime.FairScheduler.Doubles.{Double, IsOrdered}
use thread_pool_runtime.FairScheduler.Workers.{
  Worker, outside, looking, running, counted, ringing, timing, checking, flagged, going_to_wait,
  sleeping, exited, Client, Closer, open_for_work, stored, shouting, notified, joined, Pool, wake,
  WorkerMove, snapshots, takes, finds_nothing, finishes, rings, wakes_all, accounts, sees_open,
  sees_flag, breaks, sees_pending, waits_not, sleeps, ClientMove, records, counts, pushes, advances,
  calls, CloserMove, stores, shouts, notifies, joins, Step, by_worker, by_client, by_closer,
  registers,
}
use thread_pool_runtime.Scheduler.{accepted, finished}
use thread_pool_runtime.Scheduler.FairScheduler.{worker_label, client_label, label}

module _ {T : Type 0} where
  abbrev pub running_if : (T → Bool) → Worker T → ℕ
  running_if P (running id job) = if P job then 1 else 0
  running_if P w = 0

  running_if-wake : (P : T → Bool) (g : ℕ) (w : Worker T) → running_if P (wake g w) ≡ running_if P w
  running_if-wake P g w = ground arith

module _ {V T : Type 0} where
  -- The jobs that pass the test, with workers and in classes.
  abbrev pub under_way : (T → Bool) → ℕ → Pool V T → ℕ
  under_way P n s = sum n (λ i. running_if P (s.worker i)) + backlog_by (count_if P) s.fair

module _ {T : Type 0} (P : T → Bool) (n : ℕ) where
  -- The notification of the count wakes sleepers only.
  wakes_same :
      (g : ℕ) (f : ℕ → Worker T)
      → sum n (λ j. running_if P (wake g (f j))) ≡ sum n (λ j. running_if P (f j))
  wakes_same g f =
      sum_same n (λ i. running_if P (f i)) (λ i. running_if P (wake g (f i)))
        (λ i lt. running_if-wake P g (f i))

module _ {V : Type 0} {F : Double V} (L : IsOrdered F) {T : Type 0} (P : T → Bool) (n : ℕ) where
  WorkerMove-under_way :
      (w : Worker T) {i : ℕ} {s t : Pool V T}
      → s.worker i ≡ w
      → i < n
      → (mv : WorkerMove F s i w t) → State.Inv F s.fair
      → count_if P (accepted (worker_label mv ∷ [])) + under_way P n s
        ≡ count_if P (finished (worker_label mv ∷ [])) + under_way P n t
  WorkerMove-under_way w {i} {s} at lt (takes id job f e) v =
      let (front, _, change) = dispatch-IsServed L s.fair f id job v e in
      omega (
        arith,
        update_total_from n i (running_if P) s.worker w (running id job) lt at,
        change (count_if P) refl,
        ap (count_if P) front,
      )
  WorkerMove-under_way w {i} {s} at lt (accounts {id} elapsed pos) v = omega (
    arith,
    update_total_from n i (running_if P) s.worker w outside lt at,
    backlog-KeepsQueues L (count_if P) s.fair (account F id elapsed s.fair) refl v
        (account-KeepsQueues L id elapsed s.fair),
  )
  WorkerMove-under_way w {i} {s} at lt snapshots v =
      omega (arith, update_total_from n i (running_if P) s.worker w (looking s.gen) lt at)
  WorkerMove-under_way w {i} {s} at lt (finds_nothing {g} e) v =
      omega (arith, update_total_from n i (running_if P) s.worker w (checking g) lt at)
  WorkerMove-under_way w {i} {s} at lt (finishes {id}) v =
      omega (arith, update_total_from n i (running_if P) s.worker w (counted id) lt at)
  WorkerMove-under_way w {i} {s} at lt (rings {id}) v =
      omega (arith, update_total_from n i (running_if P) s.worker w (ringing id) lt at)
  WorkerMove-under_way w {i} {s} at lt (wakes_all {id}) v = omega (
    arith,
    update_total_from n i (running_if P) (λ j. wake s.gen (s.worker j)) w (timing id) lt
        (ap (wake s.gen) at),
    wakes_same P n s.gen s.worker,
  )
  WorkerMove-under_way w {i} {s} at lt (sees_open {g} e) v =
      omega (arith, update_total_from n i (running_if P) s.worker w (going_to_wait g) lt at)
  WorkerMove-under_way w {i} {s} at lt (sees_flag {g} e) v =
      omega (arith, update_total_from n i (running_if P) s.worker w (flagged g) lt at)
  WorkerMove-under_way w {i} {s} at lt (breaks e) v =
      omega (arith, update_total_from n i (running_if P) s.worker w exited lt at)
  WorkerMove-under_way w {i} {s} at lt (sees_pending {g} e) v =
      omega (arith, update_total_from n i (running_if P) s.worker w (going_to_wait g) lt at)
  WorkerMove-under_way w {i} {s} at lt (waits_not e) v =
      omega (arith, update_total_from n i (running_if P) s.worker w outside lt at)
  WorkerMove-under_way w {i} {s} at lt (sleeps {g} e) v =
      omega (arith, update_total_from n i (running_if P) s.worker w (sleeping g) lt at)

  ClientMove-under_way :
      (w : Client V T) {c : ℕ} {s t : Pool V T} (mv : ClientMove F s c w t)
      → State.Inv F s.fair
      → count_if P (accepted (client_label mv ∷ [])) + under_way P n s
        ≡ count_if P (finished (client_label mv ∷ [])) + under_way P n t
  ClientMove-under_way w {s = s} (pushes {o = o} f e) v =
      let id = class_for (class_name o.name) s.fair in
      let (back, _, change) = submit-IsQueued L o.name o.weight o.job s.fair f v e in
      omega (
        arith,
        change (count_if P) refl,
        ap (count_if P) back,
        count_if-append P (queue s.fair id) (o.job ∷ []),
      )
  ClientMove-under_way w (records o) v = refl
  ClientMove-under_way w counts v = refl
  ClientMove-under_way w advances v = refl
  ClientMove-under_way w {s = s} calls v = omega (arith, wakes_same P n s.gen s.worker)

  CloserMove-under_way :
      (w : Closer) {s t : Pool V T} → CloserMove n s w t → under_way P n s ≡ under_way P n t
  CloserMove-under_way open_for_work stores = refl
  CloserMove-under_way stored shouts = refl
  CloserMove-under_way shouting {s = s} notifies = omega (arith, wakes_same P n s.gen s.worker)
  CloserMove-under_way notified (joins all) = refl
  CloserMove-under_way joined mv = elim mv [ ]

  -- What each step adds and takes away.
  pub Step-under_way :
      {m : ℕ} {s t : Pool V T} (mv : Step F n m s t)
      → State.Inv F s.fair
      → count_if P (accepted (label mv ∷ [])) + under_way P n s
        ≡ count_if P (finished (label mv ∷ [])) + under_way P n t
  Step-under_way {s = s} (by_worker i lt mv) v = WorkerMove-under_way (s.worker i) refl lt mv v
  Step-under_way {s = s} (by_client c lt mv) v = ClientMove-under_way (s.client c) mv v
  Step-under_way {s = s} (by_closer mv) v = omega (arith, CloserMove-under_way s.closer mv)
  Step-under_way {s = s} (registers name weight f e) v = omega (
    arith,
    backlog-KeepsQueues L (count_if P) s.fair f refl v
        (register_class-KeepsQueues L name weight s.fair f v e),
  )
