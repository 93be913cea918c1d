-- ===== src/Scheduler/Tests.antt =====
-- One task on a global queue scheduler of one worker: spawned, run, joined, and the scheduler shut down.
use thread_pool_runtime.Prelude.{
  ℕ, zero, suc, ◌<◌, ◌≡◌, ◌≢◌, ◌⊎◌, ◌+◌, true, ℕ_discrete, refl, List, [], ◌∷◌, arith, some,
}
use thread_pool_runtime.GlobalQueue.{
  Worker, exited, worker_locks, worker_takes, worker_finds_none, worker_returns, worker_finishes,
  submit_records, submit_pushes, submit_notifies_none, shutdown_stores, shutdown_notifies,
  shutdown_joins,
}
use thread_pool_runtime.Task.{
  Outcome, returns, done, blocked, got, body_returns, completes, sets, notifies, enters, blocks,
}
use thread_pool_runtime.Task.Join.{delivery}
use thread_pool_runtime.Scheduler.{Label, silent, accepts, starts, finishes, Scheduler}
use thread_pool_runtime.Scheduler.GlobalQueue.{global_queue}
use thread_pool_runtime.Scheduler.Spawn as Spawned
use thread_pool_runtime.Scheduler.Spawn.{
  Program, ProgramRun, start, later, moves, spawns, calls, runs, joins, program,
}
use thread_pool_runtime.Scheduler.Spawn.Joins.{join_returns}

only : 0 < 1
only = omega arith

abbrev one_worker : Scheduler ℕ
one_worker = global_queue 1 only

abbrev answers : ℕ → Outcome ℕ ℕ
answers i = returns (i + 7)

abbrev labels : List (Label ℕ)
labels =
    silent
    ∷ silent
    ∷ silent
    ∷ silent
    ∷ silent
    ∷ silent
    ∷ finishes 5
    ∷ starts 5
    ∷ silent
    ∷ silent
    ∷ accepts 5
    ∷ silent
    ∷ []

all_exited : (w : ℕ → Worker ℕ) → w 0 ≡ exited → (i : ℕ) → i < 1 → w i ≡ exited
all_exited w e zero lt = e
all_exited w e (suc i) lt = absurd (omega arith)

lifetime :
    (s : Program one_worker ℕ ℕ) × (r : ProgramRun one_worker answers labels s)
    × one_worker.HasShutDown s.backend
    × (s.is_spawned 5 ≡ true)
unfolding global_queue ℕ_discrete
lifetime =
    let r0 : ProgramRun one_worker answers [] program = start in
    let r1 = later r0 (moves (_, submit_records 0 5 refl, refl, λ job e. cc)) in
    let r2 = later r1 (spawns 5 refl (_, submit_pushes 0 refl refl, refl, λ job e. refl)) in
    let r3 = later r2 (moves (_, submit_notifies_none 0 refl (λ i lt. cc), refl, λ job e. cc)) in
    let r4 = later r3 (moves (_, worker_locks 0 only refl refl, refl, λ job e. cc)) in
    let r5 = later r4 (calls 5 (_, worker_takes 0 only refl refl, refl, λ job e. cc)) in
    let r6 = later r5 (joins 5 refl enters) in
    let r7 = later r6 (joins 5 refl (blocks refl)) in
    let r8 = later r7 (runs 5 refl (body_returns refl)) in
    let r9 = later r8 (runs 5 refl completes) in
    let r10 = later r9 (runs 5 refl sets) in
    let r11 = later r10 (runs 5 refl notifies) in
    let r12 =
      later r11
        (Spawned.returns 5 refl (_, worker_finishes 0 {job = 5} only refl, refl, λ job e. cc)) in
    let r13 = later r12 (moves (_, shutdown_stores refl, refl, λ job e. cc)) in
    let r14 = later r13 (moves (_, shutdown_notifies refl, refl, λ job e. cc)) in
    let r15 = later r14 (moves (_, worker_locks 0 only refl refl, refl, λ job e. cc)) in
    let r16 = later r15 (moves (_, worker_finds_none 0 only refl refl, refl, λ job e. cc)) in
    let r17 = later r16 (moves (_, worker_returns 0 only refl refl, refl, λ job e. cc)) in
    let r18 = later r17 (moves (_, shutdown_joins refl (all_exited _ refl), refl, λ job e. cc)) in
    (_, r18, refl, refl)

join_returns_example :
    ((lifetime.0.task 5).job ≡ done)
    × ((lifetime.0.task 5).joiner ≢ blocked)
    × (((lifetime.0.task 5).result ≡ some (delivery (answers 5)))
        ⊎ ((lifetime.0.task 5).joiner ≡ got (delivery (answers 5))))
join_returns_example =
    join_returns one_worker answers lifetime.0 labels 5 lifetime.1 (omega arith) lifetime.2
      lifetime.3
