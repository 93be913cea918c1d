-- ===== src/Scheduler/WorkStealing/UnderWay.antt =====
-- The jobs that the workers of the work-stealing scheduler are running.
use thread_pool_runtime.Prelude.{
  ℕ, ◌+◌, ◌<◌, ◌≡◌, refl, ap, subst, Bool, if◌then◌else◌, [], ◌∷◌, arith, sum, sum_same,
  update_total_from, count_if,
}
use thread_pool_runtime.WorkStealing.Workers.{
  Worker, outside, searching, checking, flagged, going_to_wait, sleeping, running, counted, ringing,
  exited, Client, Closer, open_for_work, stored, shouting, notified, joined, Pool, wake, WorkerMove,
  probes, snapshots, own_found, own_empty, injected_found, injected_empty, peer_found, peer_missed,
  finds_nothing, sees_open, sees_flag, breaks, sees_pending, waits_not, sleeps, finishes, rings,
  wakes_all, ClientMove, records, counts, pushes, advances, calls, CloserMove, stores, shouts,
  notifies, joins, Step, by_worker, by_client, by_closer,
}
use thread_pool_runtime.Scheduler.{Label, started, finished}
use thread_pool_runtime.Scheduler.WorkStealing.{worker_label, client_label, label, TimelyStep}

module _ {T : Type 0} where
  abbrev pub running_if : (T → Bool) → Worker T → ℕ
  running_if P (running job) = if P job then 1 else 0
  running_if P w = 0

  -- The jobs that pass the test and are being run.
  abbrev pub under_way : (T → Bool) → ℕ → Pool T → ℕ
  under_way P n s = sum n (λ i. running_if P (s.worker i))

  running_if-wake : (P : T → Bool) (g : ℕ) (w : Worker T) → running_if P (wake g w) ≡ running_if P w
  running_if-wake P g w = ground arith

  module _ (P : T → Bool) (n : ℕ) where
    -- The notification of the count wakes sleepers only.
    wakes_same :
        (g : ℕ) (s : Pool T) → sum n (λ j. running_if P (wake g (s.worker j))) ≡ under_way P n s
    wakes_same g s =
        sum_same n (λ i. running_if P (s.worker i)) (λ i. running_if P (wake g (s.worker i)))
          (λ i lt. running_if-wake P g (s.worker i))

    WorkerMove-under_way :
        (w : Worker T) {i : ℕ} {s t : Pool T}
        → s.worker i ≡ w
        → i < n
        → (mv : WorkerMove n s i w t)
        → count_if P (started (worker_label mv ∷ [])) + under_way P n s
          ≡ count_if P (finished (worker_label mv ∷ [])) + under_way P n t
    WorkerMove-under_way w {i} {s} at lt (own_found job rest e) =
        omega (arith, update_total_from n i (running_if P) s.worker w (running job) lt at)
    WorkerMove-under_way w {i} {s} at lt (injected_found job rest e) =
        omega (arith, update_total_from n i (running_if P) s.worker w (running job) lt at)
    WorkerMove-under_way w {i} {s} at lt (peer_found job rest lt' e) =
        omega (arith, update_total_from n i (running_if P) s.worker w (running job) lt at)
    WorkerMove-under_way w {i} {s} at lt snapshots = omega (
      arith,
      update_total_from n i (running_if P) s.worker w (searching s.gen (probes n i)) lt at,
    )
    WorkerMove-under_way w {i} {s} at lt (own_empty {g} {p} {ps} e) =
        omega (arith, update_total_from n i (running_if P) s.worker w (searching g ps) lt at)
    WorkerMove-under_way w {i} {s} at lt (injected_empty {g} {p} {ps} e) =
        omega (arith, update_total_from n i (running_if P) s.worker w (searching g ps) lt at)
    WorkerMove-under_way w {i} {s} at lt (peer_missed {g} {v} {p} {ps}) =
        omega (arith, update_total_from n i (running_if P) s.worker w (searching g ps) lt at)
    WorkerMove-under_way w {i} {s} at lt (finds_nothing {g}) =
        omega (arith, update_total_from n i (running_if P) s.worker w (checking g) lt at)
    WorkerMove-under_way w {i} {s} at lt (sees_open {g} e) =
        omega (arith, update_total_from n i (running_if P) s.worker w (going_to_wait g) lt at)
    WorkerMove-under_way w {i} {s} at lt (sees_flag {g} e) =
        omega (arith, update_total_from n i (running_if P) s.worker w (flagged g) lt at)
    WorkerMove-under_way w {i} {s} at lt (breaks e) =
        omega (arith, update_total_from n i (running_if P) s.worker w exited lt at)
    WorkerMove-under_way w {i} {s} at lt (sees_pending {g} e) =
        omega (arith, update_total_from n i (running_if P) s.worker w (going_to_wait g) lt at)
    WorkerMove-under_way w {i} {s} at lt (waits_not e) =
        omega (arith, update_total_from n i (running_if P) s.worker w outside lt at)
    WorkerMove-under_way w {i} {s} at lt (sleeps {g} e) =
        omega (arith, update_total_from n i (running_if P) s.worker w (sleeping g) lt at)
    WorkerMove-under_way w {i} {s} at lt finishes =
        omega (arith, update_total_from n i (running_if P) s.worker w counted lt at)
    WorkerMove-under_way w {i} {s} at lt rings =
        omega (arith, update_total_from n i (running_if P) s.worker w ringing lt at)
    WorkerMove-under_way w {i} {s} at lt wakes_all = omega (
      arith,
      update_total_from n i (running_if P) (λ j. wake s.gen (s.worker j)) w outside lt
          (ap (wake s.gen) at),
      wakes_same s.gen s,
    )

    ClientMove-under_way :
        (w : Client T) {c : ℕ} {s t : Pool T} (mv : ClientMove s c w t)
        → (started (client_label mv ∷ []) ≡ [])
          × (finished (client_label mv ∷ []) ≡ [])
          × (under_way P n t ≡ under_way P n s)
    ClientMove-under_way w (records job p) = (refl, refl, refl)
    ClientMove-under_way w counts = (refl, refl, refl)
    ClientMove-under_way w pushes = (refl, refl, refl)
    ClientMove-under_way w advances = (refl, refl, refl)
    ClientMove-under_way w {s = s} calls = (refl, refl, wakes_same s.gen s)

    CloserMove-under_way :
        (w : Closer) {s t : Pool T} → CloserMove n s w t → under_way P n t ≡ under_way P n s
    CloserMove-under_way open_for_work stores = refl
    CloserMove-under_way stored shouts = refl
    CloserMove-under_way shouting {s = s} notifies = wakes_same s.gen s
    CloserMove-under_way notified (joins all) = refl
    CloserMove-under_way joined mv = elim mv [ ]

    Step-under_way :
        {m : ℕ} {s t : Pool T} (mv : Step n m s t)
        → count_if P (started (label mv ∷ [])) + under_way P n s
          ≡ count_if P (finished (label mv ∷ [])) + under_way P n t
    Step-under_way {s = s} (by_worker i lt mv) = WorkerMove-under_way (s.worker i) refl lt mv
    Step-under_way {s = s} (by_client c lt mv) =
        let (a, b, same) = ClientMove-under_way (s.client c) mv in
        omega (arith, ap (count_if P) a, ap (count_if P) b, same)
    Step-under_way {s = s} (by_closer mv) = omega (arith, CloserMove-under_way s.closer mv)

  pub TimelyStep-under_way :
      (P : T → Bool) (n m : ℕ) (s t : Pool T) (l : Label T)
      → TimelyStep n m s l t
      → count_if P (started (l ∷ [])) + under_way P n s
        ≡ count_if P (finished (l ∷ [])) + under_way P n t
  TimelyStep-under_way P n m s t l (mv, same, ok) =
      subst
        (λ x.
          count_if P (started (x ∷ [])) + under_way P n s
          ≡ count_if P (finished (x ∷ [])) + under_way P n t)
        same (Step-under_way P n mv)
