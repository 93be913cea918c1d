-- ===== src/WorkStealing/Workers/Others.antt =====
-- Only the indices below the number of workers ever do anything.
use thread_pool_runtime.Prelude.{ℕ, ◌≤◌, ◌≡◌, ◌≢◌, refl, ap, ◌∙◌, List, arith}
use thread_pool_runtime.Prelude.Family.{update_ne}
use thread_pool_runtime.WorkStealing.Workers.{
  Probe, probes, Worker, outside, searching, checking, flagged, going_to_wait, sleeping, running,
  counted, ringing, exited, Client, away, recorded, holding, pushed, calling, Closer, open_for_work,
  stored, shouting, notified, joined, Pool, wake, WorkerMove, snapshots, own_found, own_empty,
  injected_found, injected_empty, peer_found, peer_missed, finds_nothing, sees_open, sees_flag,
  breaks, sees_pending, waits_not, sleeps, finishes, rings, wakes_all, ClientMove, records, counts,
  pushes, advances, calls, CloserMove, stores, shouts, notifies, joins, by_worker, by_client,
  by_closer, Run, start, later, initial,
}

module _ {T : Type 0} where
  -- A step of worker `i` leaves worker `j` outside.
  searching_other :
      {n i j g : ℕ} {ps : List Probe} {s t : Pool T}
      → i ≢ j
      → WorkerMove n s i (searching g ps) t
      → s.worker j ≡ outside
      → t.worker j ≡ outside
  searching_other {i = i} {j = j} {s = s} ne (own_found job rest e) o =
      update_ne s.worker i j (running job) ne ∙ o
  searching_other {i = i} {j = j} {g = g} {s = s} ne (own_empty {ps = ps} e) o =
      update_ne s.worker i j (searching g ps) ne ∙ o
  searching_other {i = i} {j = j} {s = s} ne (injected_found job rest e) o =
      update_ne s.worker i j (running job) ne ∙ o
  searching_other {i = i} {j = j} {g = g} {s = s} ne (injected_empty {ps = ps} e) o =
      update_ne s.worker i j (searching g ps) ne ∙ o
  searching_other {i = i} {j = j} {s = s} ne (peer_found job rest lt e) o =
      update_ne s.worker i j (running job) ne ∙ o
  searching_other {i = i} {j = j} {g = g} {s = s} ne (peer_missed {ps = ps}) o =
      update_ne s.worker i j (searching g ps) ne ∙ o
  searching_other {i = i} {j = j} {g = g} {s = s} ne finds_nothing o =
      update_ne s.worker i j (checking g) ne ∙ o

  WorkerMove-other :
      (w : Worker T) {n i j : ℕ} {s t : Pool T}
      → i ≢ j
      → WorkerMove n s i w t
      → s.worker j ≡ outside
      → t.worker j ≡ outside
  WorkerMove-other outside {n = n} {i = i} {j = j} {s = s} ne snapshots o =
      update_ne s.worker i j (searching s.gen (probes n i)) ne ∙ o
  WorkerMove-other (searching g ps) ne mv o = searching_other ne mv o
  WorkerMove-other (checking g) {i = i} {j = j} {s = s} ne (sees_open e) o =
      update_ne s.worker i j (going_to_wait g) ne ∙ o
  WorkerMove-other (checking g) {i = i} {j = j} {s = s} ne (sees_flag e) o =
      update_ne s.worker i j (flagged g) ne ∙ o
  WorkerMove-other (flagged g) {i = i} {j = j} {s = s} ne (breaks e) o =
      update_ne s.worker i j exited ne ∙ o
  WorkerMove-other (flagged g) {i = i} {j = j} {s = s} ne (sees_pending e) o =
      update_ne s.worker i j (going_to_wait g) ne ∙ o
  WorkerMove-other (going_to_wait g) {i = i} {j = j} {s = s} ne (waits_not e) o =
      update_ne s.worker i j outside ne ∙ o
  WorkerMove-other (going_to_wait g) {i = i} {j = j} {s = s} ne (sleeps e) o =
      update_ne s.worker i j (sleeping g) ne ∙ o
  WorkerMove-other (sleeping g) ne mv o = elim mv [ ]
  WorkerMove-other (running job) {i = i} {j = j} {s = s} ne finishes o =
      update_ne s.worker i j counted ne ∙ o
  WorkerMove-other counted {i = i} {j = j} {s = s} ne rings o =
      update_ne s.worker i j ringing ne ∙ o
  WorkerMove-other ringing {i = i} {j = j} {s = s} ne wakes_all o =
      update_ne (λ x. wake s.gen (s.worker x)) i j outside ne ∙ ap (wake s.gen) o
  WorkerMove-other exited ne mv o = elim mv [ ]

  client_other :
      (w : Client T) {c j : ℕ} {s t : Pool T}
      → ClientMove s c w t
      → s.worker j ≡ outside
      → t.worker j ≡ outside
  client_other away (records job p) o = o
  client_other (recorded job p) counts o = o
  client_other (holding job p) pushes o = o
  client_other pushed advances o = o
  client_other calling {s = s} calls o = ap (wake s.gen) o

  closer_other :
      (x : Closer) {n j : ℕ} {s t : Pool T}
      → CloserMove n s x t
      → s.worker j ≡ outside
      → t.worker j ≡ outside
  closer_other open_for_work stores o = o
  closer_other stored shouts o = o
  closer_other shouting {s = s} notifies o = ap (wake s.gen) o
  closer_other notified (joins all) o = o
  closer_other joined mv o = elim mv [ ]

  -- The indices from `n` on are no workers.
  pub Run-outside : {n m k j : ℕ} {s : Pool T} → Run n m initial k s → n ≤ j → s.worker j ≡ outside
  Run-outside start le = refl
  Run-outside (later {t = t} r (by_worker i lt mv)) le =
      WorkerMove-other (t.worker i) (λ e. absurd (omega arith)) mv (Run-outside r le)
  Run-outside (later {t = t} r (by_client c lt mv)) le =
      client_other (t.client c) mv (Run-outside r le)
  Run-outside (later {t = t} r (by_closer mv)) le = closer_other t.closer mv (Run-outside r le)
