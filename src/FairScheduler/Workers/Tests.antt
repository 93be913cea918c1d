-- ===== src/FairScheduler/Workers/Tests.antt =====
-- A worker that falls asleep, a job that is dispatched, and one job from its submission to the joins
-- of `shutdown`.
use thread_pool_runtime.Prelude.{
  ℕ, zero, suc, ◌<◌, ◌≡◌, ◌⊎◌, refl, [], ◌∷◌, ◌++◌, arith, ℕ_discrete,
}
use mathlib.Core.List.{reverse}
use thread_pool_runtime.FairScheduler.{
  FairState, find, same_name, is_empty, find_or_create_class, create, submit, enqueue, insert,
  dispatch, dispatch_from, serve, requeue, account,
}
use thread_pool_runtime.FairScheduler.Backlog.{class_for}
use thread_pool_runtime.FairScheduler.Doubles.{larger}
use thread_pool_runtime.FairScheduler.Whole.{whole, whole-IsOrdered}
use thread_pool_runtime.FairScheduler.Workers.{
  Order, Worker, sleeping, exited, away, notified, joined, Pool, WorkerMove, snapshots, takes,
  finds_nothing, finishes, rings, wakes_all, accounts, sees_open, sees_flag, breaks, sleeps,
  records, counts, pushes, stores, shouts, notifies, joins, by_worker, by_client, by_closer, Run,
  start, later, initial,
}
use thread_pool_runtime.FairScheduler.Workers.ClassOrder.{accepted_in, started_in, class_order}
use thread_pool_runtime.FairScheduler.Workers.Drain.{Timely, fair_shutdown_completes}
use thread_pool_runtime.FairScheduler.Workers.Inv.{IsWaking, IsPushing}
use thread_pool_runtime.FairScheduler.Workers.Rest.{asleep_idle, fair_shutdown_moves}

only : 0 < 1
only = omega arith

all_left : (f : ℕ → Worker ℕ) → f 0 ≡ exited → (i : ℕ) → i < 1 → f i ≡ exited
all_left f e zero lt = e
all_left f e (suc i) lt = absurd (omega arith)

asleep_run : (t : Pool ℕ ℕ) × Run whole 1 1 (initial whole) 4 t × (t.worker 0 ≡ sleeping 0)
unfolding dispatch dispatch_from ℕ_discrete
asleep_run =
    let r0 : Run whole 1 1 (initial whole {T = ℕ}) 0 (initial whole) = start in
    let r1 = later r0 (by_worker 0 only snapshots) in
    let r2 = later r1 (by_worker 0 only (finds_nothing refl)) in
    let r3 = later r2 (by_worker 0 only (sees_open refl)) in
    let r4 = later r3 (by_worker 0 only (sleeps refl)) in (_, r4, refl)

asleep_idle_example :
    ((id : ℕ) → (asleep_run.0.fair.classes id).runnable ≡ [])
    ⊎ IsPushing asleep_run.0
    ⊎ IsWaking 1 asleep_run.0
asleep_idle_example =
    asleep_idle whole-IsOrdered 1 1 4 0 0 asleep_run.0 asleep_run.1 (omega arith) asleep_run.2

-- `shutdown` rings for the worker that sleeps.
rung_run :
    (t : Pool ℕ ℕ) × Run whole 1 1 (initial whole) 7 t
    × ((c : ℕ) → t.client c ≡ away)
    × (t.closer ≡ notified)
unfolding dispatch dispatch_from ℕ_discrete
rung_run =
    let r0 : Run whole 1 1 (initial whole {T = ℕ}) 0 (initial whole) = start in
    let r1 = later r0 (by_worker 0 only snapshots) in
    let r2 = later r1 (by_worker 0 only (finds_nothing refl)) in
    let r3 = later r2 (by_worker 0 only (sees_open refl)) in
    let r4 = later r3 (by_worker 0 only (sleeps refl)) in
    let r5 = later r4 (by_closer stores) in
    let r6 = later r5 (by_closer shouts) in
    let r7 = later r6 (by_closer notifies) in (_, r7, λ c. refl, refl)

fair_shutdown_moves_example :
    ((i : ℕ) → i < 1 → rung_run.0.worker i ≡ exited)
    ⊎ ((i : ℕ) × (i < 1) × ((t : Pool ℕ ℕ) × WorkerMove whole rung_run.0 i (rung_run.0.worker i) t))
fair_shutdown_moves_example =
    fair_shutdown_moves whole-IsOrdered 1 1 7 rung_run.0 rung_run.1 (omega arith) rung_run.2
      rung_run.3

abbrev order : Order ℕ ℕ
order = record { job = 7; name = 119 ∷ 101 ∷ 98 ∷ []; weight = 4 }

abbrev queued : FairState ℕ ℕ
queued = enqueue whole 0 7 (create whole (119 ∷ 101 ∷ 98 ∷ []) 4 (initial whole {T = ℕ}).fair)

abbrev served : FairState ℕ ℕ
served = requeue whole 0 0 [] [] queued

-- Job 7 of the class `web` is submitted and dispatched.
taken_run :
    (t : Pool ℕ ℕ) × (r : Run whole 1 1 (initial whole) 5 t) × (accepted_in 0 r ≡ 7 ∷ [])
    × (started_in 0 r ≡ 7 ∷ [])
unfolding submit find_or_create_class find same_name is_empty enqueue create insert larger dispatch
    dispatch_from serve class_for ℕ_discrete
taken_run =
    let r0 : Run whole 1 1 (initial whole {T = ℕ}) 0 (initial whole) = start in
    let r1 = later r0 (by_client 0 only (records order)) in
    let r2 = later r1 (by_client 0 only counts) in
    let r3 = later r2 (by_client 0 only (pushes queued refl)) in
    let r4 = later r3 (by_worker 0 only snapshots) in
    let r5 = later r4 (by_worker 0 only (takes 0 7 served refl)) in (_, r5, refl, refl)

class_order_example :
    accepted_in 0 taken_run.1
    ≡ reverse ((taken_run.0.fair.classes 0).runnable) ++ started_in 0 taken_run.1
class_order_example = class_order whole-IsOrdered 0 1 1 5 taken_run.0 taken_run.1 (omega arith)

-- It is run, and the pool is shut down.
whole_run :
    (t : Pool ℕ ℕ) × (r : Run whole 1 1 (initial whole) 17 t) × Timely r × (t.closer ≡ joined)
unfolding submit find_or_create_class find same_name is_empty enqueue create insert larger dispatch
    dispatch_from serve requeue account ℕ_discrete
whole_run =
    let r0 : Run whole 1 1 (initial whole {T = ℕ}) 0 (initial whole) = start in
    let r1 = later r0 (by_client 0 only (records order)) in
    let r2 = later r1 (by_client 0 only counts) in
    let r3 = later r2 (by_client 0 only (pushes queued refl)) in
    let r4 = later r3 (by_worker 0 only snapshots) in
    let r5 = later r4 (by_worker 0 only (takes 0 7 served refl)) in
    let r6 = later r5 (by_worker 0 only finishes) in
    let r7 = later r6 (by_worker 0 only rings) in
    let r8 = later r7 (by_worker 0 only wakes_all) in
    let r9 = later r8 (by_worker 0 only (accounts 8 refl)) in
    let r10 = later r9 (by_closer stores) in
    let r11 = later r10 (by_closer shouts) in
    let r12 = later r11 (by_closer notifies) in
    let r13 = later r12 (by_worker 0 only snapshots) in
    let r14 = later r13 (by_worker 0 only (finds_nothing refl)) in
    let r15 = later r14 (by_worker 0 only (sees_flag refl)) in
    let r16 = later r15 (by_worker 0 only (breaks refl)) in
    let r17 = later r16 (by_closer (joins (all_left _ refl))) in
    (_, r17, (((tt, λ o e. refl), λ o e. refl), λ o e. refl), refl)

fair_shutdown_completes_example :
    ((i : ℕ) → i < 1 → whole_run.0.worker i ≡ exited)
    × ((id : ℕ) → accepted_in id whole_run.1 ≡ started_in id whole_run.1)
fair_shutdown_completes_example =
    fair_shutdown_completes whole-IsOrdered 1 1 17 whole_run.0 whole_run.1 only (omega arith)
      whole_run.2 whole_run.3
