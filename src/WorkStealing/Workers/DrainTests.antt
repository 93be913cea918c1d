-- ===== src/WorkStealing/Workers/DrainTests.antt =====
-- A job that is submitted and taken, and `shutdown` of a pool whose worker has not begun to look.
use thread_pool_runtime.Prelude.{
  ℕ, zero, suc, ◌≡◌, ◌<◌, ◌+◌, refl, [], ◌∷◌, arith, ℕ_discrete, count_if, Bool, ◌==◌,
}
use thread_pool_runtime.Priority.{normal}
use thread_pool_runtime.WorkStealing.Workers.{
  Worker, exited, joined, Pool, probes, peer_probes, snapshots, own_empty, injected_empty,
  injected_found, finds_nothing, sees_flag, breaks, records, counts, pushes, advances, calls,
  stores, shouts, notifies, joins, by_worker, by_client, by_closer, Run, start, later, initial,
}
use thread_pool_runtime.WorkStealing.Workers.Conserve.{accepted, started, waiting, jobs_conserved}
use thread_pool_runtime.WorkStealing.Workers.Drain.{Timely, shutdown_completes}

only : 0 < 1
only = omega arith

-- The one worker has left.
all_left : (f : ℕ → Worker ℕ) → f 0 ≡ exited → (i : ℕ) → i < 1 → f i ≡ exited
all_left f e zero lt = e
all_left f e (suc i) lt = absurd (omega arith)

-- Job 7 is submitted, and the worker takes it from the injector.
taken_run : (t : Pool ℕ) × (r : Run 1 1 initial 11 t) × (accepted r ≡ 7 ∷ []) × (started r ≡ 7 ∷ [])
unfolding probes peer_probes ℕ_discrete
taken_run =
    let r0 : Run 1 1 (initial {T = ℕ}) 0 initial = start in
    let r1 = later r0 (by_client 0 only (records 7 normal)) in
    let r2 = later r1 (by_client 0 only counts) in
    let r3 = later r2 (by_client 0 only pushes) in
    let r4 = later r3 (by_client 0 only advances) in
    let r5 = later r4 (by_client 0 only calls) in
    let r6 = later r5 (by_worker 0 only snapshots) in
    let r7 = later r6 (by_worker 0 only (own_empty refl)) in
    let r8 = later r7 (by_worker 0 only (own_empty refl)) in
    let r9 = later r8 (by_worker 0 only (own_empty refl)) in
    let r10 = later r9 (by_worker 0 only (injected_empty refl)) in
    let r11 = later r10 (by_worker 0 only (injected_found 7 [] refl)) in (_, r11, refl, refl)

jobs_conserved_example :
    count_if (λ x. x == 7) (accepted taken_run.1)
    ≡ count_if (λ x. x == 7) (started taken_run.1) + waiting (λ x. x == 7) 1 taken_run.0
jobs_conserved_example = jobs_conserved (λ x. x == 7) taken_run.1

-- `shutdown` finds the worker at the top of its loop.
closing_run : (t : Pool ℕ) × (r : Run 1 1 initial 14 t) × Timely r × (t.closer ≡ joined)
unfolding probes peer_probes ℕ_discrete
closing_run =
    let r0 : Run 1 1 (initial {T = ℕ}) 0 initial = start in
    let r1 = later r0 (by_closer stores) in
    let r2 = later r1 (by_closer shouts) in
    let r3 = later r2 (by_closer notifies) in
    let r4 = later r3 (by_worker 0 only snapshots) in
    let r5 = later r4 (by_worker 0 only (own_empty refl)) in
    let r6 = later r5 (by_worker 0 only (own_empty refl)) in
    let r7 = later r6 (by_worker 0 only (own_empty refl)) in
    let r8 = later r7 (by_worker 0 only (injected_empty refl)) in
    let r9 = later r8 (by_worker 0 only (injected_empty refl)) in
    let r10 = later r9 (by_worker 0 only (injected_empty refl)) in
    let r11 = later r10 (by_worker 0 only finds_nothing) in
    let r12 = later r11 (by_worker 0 only (sees_flag refl)) in
    let r13 = later r12 (by_worker 0 only (breaks refl)) in
    let r14 = later r13 (by_closer (joins (all_left _ refl))) in (_, r14, tt, refl)

shutdown_completes_example :
    ((i : ℕ) → i < 1 → closing_run.0.worker i ≡ exited)
    × (closing_run.0.pending ≡ 0)
    × ((P : ℕ → Bool) → count_if P (started closing_run.1) ≡ count_if P (accepted closing_run.1))
shutdown_completes_example =
    shutdown_completes 1 1 14 closing_run.0 closing_run.1 only (omega arith) closing_run.2
      closing_run.3
