-- ===== src/ThreadPerCore/Workers/Tests.antt =====
-- A worker that falls asleep before a job comes, and one core from a job to the end of `shutdown`.
use thread_pool_runtime.Prelude.{
  ℕ, zero, suc, ◌<◌, ◌≡◌, ◌≢◌, ◌⊎◌, refl, Bool, true, false, List, [], ◌∷◌, ◌++◌, arith, none,
  ℕ_discrete,
}
use mathlib.Core.List.{reverse}
use thread_pool_runtime.Priority.{Priority, normal, rank}
use thread_pool_runtime.ThreadPerCore.{accepts, starts, target, take_job}
use thread_pool_runtime.ThreadPerCore.Order.{accepted_at, started_at}
use thread_pool_runtime.ThreadPerCore.Workers.{
  Pool, Worker, blocked, exited, ringing, joined, Action, silent, does, events, worker_locks,
  worker_takes, worker_finds_none, worker_returns, worker_stays, worker_waits, worker_finishes,
  submit_chooses, submit_records, submit_pushes, submit_notifies, shutdown_stores,
  shutdown_notifies, shutdown_joins, Run, start, later, initial,
}
use thread_pool_runtime.ThreadPerCore.Workers.Drain.{
  Timely, threads_keep_order, core_shutdown_drains,
}
use thread_pool_runtime.ThreadPerCore.Workers.Inv.{waits_idle}
use thread_pool_runtime.ThreadPerCore.Workers.Range.{IsBelow, queued_in_range}
use thread_pool_runtime.ThreadPerCore.Workers.Stuck.{
  IsSilent, IsQuiet, IsStuck, core_shutdown_hangs,
}

only : 0 < 1
only = omega arith

all_left : (f : ℕ → Worker ℕ) → f 0 ≡ exited → (i : ℕ) → i < 1 → f i ≡ exited
all_left f e zero lt = e
all_left f e (suc i) lt = absurd (omega arith)

-- The worker waits when job 7 is queued, before the notification.
abbrev late_job : List (Action ℕ)
late_job = does (accepts 0 1 7) ∷ silent ∷ silent ∷ silent ∷ silent ∷ silent ∷ silent ∷ []

waiting_run : (t : Pool ℕ) × Run (initial 1) late_job t × (t.worker 0 ≡ blocked)
unfolding target take_job ℕ_discrete
waiting_run =
    let r0 : Run (initial {T = ℕ} 1) [] (initial 1) = start in
    let r1 = later r0 (worker_locks 0 only refl refl) in
    let r2 = later r1 (worker_finds_none 0 refl refl) in
    let r3 = later r2 (worker_stays 0 refl refl) in
    let r4 = later r3 (worker_waits 0 refl) in
    let r5 = later r4 (submit_chooses 0 7 none normal refl) in
    let r6 = later r5 (submit_records 0 refl) in
    let r7 = later r6 (submit_pushes 0 refl refl) in (_, r7, refl)

waits_idle_example :
    ((p : Priority) → waiting_run.0.cores.queues 0 (rank p) ≡ [])
    ⊎ ((c : ℕ) × (waiting_run.0.client c ≡ ringing 0))
waits_idle_example = waits_idle 1 0 waiting_run.0 late_job waiting_run.1 waiting_run.2

-- Job 7 is queued and run, then the scheduler is shut down.
abbrev one_job : List (Action ℕ)
one_job =
    silent
    ∷ silent
    ∷ silent
    ∷ silent
    ∷ silent
    ∷ silent
    ∷ silent
    ∷ does (starts 0 1 7)
    ∷ silent
    ∷ silent
    ∷ does (accepts 0 1 7)
    ∷ silent
    ∷ silent
    ∷ []

whole_run : (t : Pool ℕ) × (r : Run (initial 1) one_job t) × Timely r × (t.closer ≡ joined)
unfolding target take_job ℕ_discrete
whole_run =
    let r0 : Run (initial {T = ℕ} 1) [] (initial 1) = start in
    let r1 = later r0 (submit_chooses 0 7 none normal refl) in
    let r2 = later r1 (submit_records 0 refl) in
    let r3 = later r2 (submit_pushes 0 refl refl) in
    let r4 = later r3 (submit_notifies 0 refl) in
    let r5 = later r4 (worker_locks 0 only refl refl) in
    let r6 = later r5 (worker_takes 0 refl refl) in
    let r7 = later r6 (worker_finishes 0 refl) in
    let r8 = later r7 (shutdown_stores refl) in
    let r9 = later r8 (shutdown_notifies refl only) in
    let r10 = later r9 (worker_locks 0 only refl refl) in
    let r11 = later r10 (worker_finds_none 0 refl refl) in
    let r12 = later r11 (worker_returns 0 refl refl) in
    let r13 = later r12 (shutdown_joins refl (all_left _ refl)) in
    (
      _,
      r13,
      (
        (
          (((((((((((tt, no), no), λ c r job e. refl), no), no), other), no), no), no), no), no),
          no,
        ),
        no,
      ),
      refl,
    )
  where
    no : {b : Bool} (c r : ℕ) (job : ℕ) → silent ≡ does (accepts c r job) → b ≡ false
    no c r job e = absurd (cc)

    other :
        {b : Bool} (c r : ℕ) (job : ℕ) → does (starts 0 1 7) ≡ does (accepts c r job) → b ≡ false
    other c r job e = absurd (cc)

threads_keep_order_example :
    accepted_at 0 1 (events one_job)
    ≡ reverse (whole_run.0.cores.queues 0 1) ++ started_at 0 1 (events one_job)
threads_keep_order_example = threads_keep_order 0 1 1 whole_run.0 one_job whole_run.1

core_shutdown_drains_example :
    (whole_run.0.worker 0 ≡ exited)
    × ((p : Priority)
        → accepted_at 0 (rank p) (events one_job) ≡ started_at 0 (rank p) (events one_job))
core_shutdown_drains_example =
    core_shutdown_drains 1 whole_run.0 one_job whole_run.1 whole_run.2 whole_run.3 0 only

queued_in_range_example : IsBelow 1 one_job
queued_in_range_example = queued_in_range 1 whole_run.0 one_job only whole_run.1

core_shutdown_hangs_example :
    (es : List (Action ℕ)) × (t : Pool ℕ) × Run (initial 1) es t
    × IsSilent es
    × (t.cores.shutdown_flag ≡ true)
    × IsStuck 0 t
    × ((u : Pool ℕ) (fs : List (Action ℕ)) → Run t fs u → IsQuiet fs → u.closer ≢ joined)
core_shutdown_hangs_example = core_shutdown_hangs ℕ 1 0 only
