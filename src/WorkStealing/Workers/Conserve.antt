-- ===== src/WorkStealing/Workers/Conserve.antt =====
-- No job is lost or run twice by the threads of src/work_stealing_scheduler.cpp. Jobs are compared by
-- the number of those that pass a test, whatever the test.
use thread_pool_runtime.Prelude.{
  ℕ, ◌+◌, ◌-◌, ◌<◌, ◌≡◌, refl, ap, Bool, List, [], ◌∷◌, ◌++◌, take, drop, arith, sum, count_if,
  count_if-append, take-append-drop, sum_zero,
}
use thread_pool_runtime.Priority.{rank}
use thread_pool_runtime.WorkStealing.{injector_batch_size}
use thread_pool_runtime.WorkStealing.Workers.{
  Worker, Client, Closer, open_for_work, stored, shouting, notified, joined, Pool, WorkerMove,
  own_found, injected_found, peer_found, own_empty, injected_empty, peer_missed, finds_nothing,
  snapshots, sees_open, sees_flag, breaks, sees_pending, waits_not, sleeps, finishes, rings,
  wakes_all, ClientMove, records, counts, pushes, advances, calls, CloserMove, stores, shouts,
  notifies, joins, by_worker, by_client, by_closer, Run, start, later, initial,
}
use thread_pool_runtime.WorkStealing.Workers.Count.{stock_by, stock_by-update, deque_total}

module _ {T : Type 0} where
  -- The job that a move of a worker takes to run, and the one that a move in `submit` queues.
  abbrev pub taken_by : {n i : ℕ} {s t : Pool T} {w : Worker T} → WorkerMove n s i w t → List T
  taken_by (own_found job rest e) = job ∷ []
  taken_by (injected_found job rest e) = job ∷ []
  taken_by (peer_found job rest lt e) = job ∷ []
  taken_by mv = []

  abbrev pub queued_by : {c : ℕ} {s t : Pool T} {w : Client T} → ClientMove s c w t → List T
  queued_by (pushes {job = job}) = job ∷ []
  queued_by mv = []

  -- The jobs that a run has queued and those that it has begun to run, newest first.
  abbrev pub accepted : {n m : ℕ} {s : Pool T} {k : ℕ} {t : Pool T} → Run n m s k t → List T
  accepted start = []
  accepted (later r (by_worker i lt mv)) = accepted r
  accepted (later r (by_client c lt mv)) = queued_by mv ++ accepted r
  accepted (later r (by_closer mv)) = accepted r

  abbrev pub started : {n m : ℕ} {s : Pool T} {k : ℕ} {t : Pool T} → Run n m s k t → List T
  started start = []
  started (later r (by_worker i lt mv)) = taken_by mv ++ started r
  started (later r (by_client c lt mv)) = started r
  started (later r (by_closer mv)) = started r

  -- The jobs in the deques of `n` workers and in the injectors that pass the test `P`.
  abbrev pub waiting : (T → Bool) → ℕ → Pool T → ℕ
  waiting P n s =
      sum n (λ j. stock_by (count_if P) (s.deques j)) + stock_by (count_if P) s.injectors

  WorkerMove-waiting :
      (P : T → Bool) {n i : ℕ} {s t : Pool T} {w : Worker T} (mv : WorkerMove n s i w t)
      → i < n
      → count_if P (taken_by mv) + waiting P n t ≡ waiting P n s
  WorkerMove-waiting P {n = n} {i = i} {s = s} (own_found {p = p} job rest e) lt = omega (
    arith,
    deque_total (count_if P) n i s p rest lt,
    ap (count_if P) e,
    count_if-append P rest (job ∷ []),
  )
  WorkerMove-waiting P {n = n} {i = i} {s = s} (injected_found {p = p} job rest e) lt =
      let few_left = take (injector_batch_size - 1) rest in
      omega (
        arith,
        deque_total (count_if P) n i s p (s.deques i (rank p) ++ few_left) lt,
        count_if-append P (s.deques i (rank p)) few_left,
        ap (count_if P) e,
        stock_by-update (count_if P) s.injectors p (drop (injector_batch_size - 1) rest),
        ap (count_if P) (take-append-drop (injector_batch_size - 1) rest),
        count_if-append P few_left (drop (injector_batch_size - 1) rest),
      )
  WorkerMove-waiting P {n = n} {s = s} (peer_found {v = v} {p = p} job rest lt' e) lt =
      omega (arith, deque_total (count_if P) n v s p rest lt', ap (count_if P) e)
  WorkerMove-waiting P (own_empty e) lt = omega arith
  WorkerMove-waiting P (injected_empty e) lt = omega arith
  WorkerMove-waiting P peer_missed lt = omega arith
  WorkerMove-waiting P finds_nothing lt = omega arith
  WorkerMove-waiting P snapshots lt = omega arith
  WorkerMove-waiting P (sees_open e) lt = omega arith
  WorkerMove-waiting P (sees_flag e) lt = omega arith
  WorkerMove-waiting P (breaks e) lt = omega arith
  WorkerMove-waiting P (sees_pending e) lt = omega arith
  WorkerMove-waiting P (waits_not e) lt = omega arith
  WorkerMove-waiting P (sleeps e) lt = omega arith
  WorkerMove-waiting P finishes lt = omega arith
  WorkerMove-waiting P rings lt = omega arith
  WorkerMove-waiting P wakes_all lt = omega arith

  ClientMove-waiting :
      (P : T → Bool) (n : ℕ) {c : ℕ} {s t : Pool T} {w : Client T} (mv : ClientMove s c w t)
      → waiting P n t ≡ count_if P (queued_by mv) + waiting P n s
  ClientMove-waiting P n (records job p) = omega arith
  ClientMove-waiting P n counts = omega arith
  ClientMove-waiting P n {s = s} (pushes {job = job} {p = p}) = omega (
    arith,
    stock_by-update (count_if P) s.injectors p (s.injectors (rank p) ++ job ∷ []),
    count_if-append P (s.injectors (rank p)) (job ∷ []),
  )
  ClientMove-waiting P n advances = omega arith
  ClientMove-waiting P n calls = omega arith

  CloserMove-waiting :
      (P : T → Bool) {n : ℕ} {s t : Pool T} (x : Closer)
      → CloserMove n s x t
      → waiting P n t ≡ waiting P n s
  CloserMove-waiting P open_for_work stores = refl
  CloserMove-waiting P stored shouts = refl
  CloserMove-waiting P shouting notifies = refl
  CloserMove-waiting P notified (joins all) = refl
  CloserMove-waiting P joined mv = elim mv [ ]

  -- In every run of a new pool, for every test on jobs: those that were queued and pass it are as
  -- many as those that workers took to run and those still in a deque or an injector together, so
  -- that no interleaving of owners, thieves, batches and submissions loses or repeats a job.
  pub jobs_conserved :
      (P : T → Bool) {n m k : ℕ} {s : Pool T} (r : Run n m initial k s)
      → count_if P (accepted r) ≡ count_if P (started r) + waiting P n s
  jobs_conserved P {n = n} start = omega (arith, sum_zero n)
  jobs_conserved P (later r (by_worker i lt mv)) = omega (
    arith,
    jobs_conserved P r,
    count_if-append P (taken_by mv) (started r),
    WorkerMove-waiting P mv lt,
  )
  jobs_conserved P {n = n} (later r (by_client c lt mv)) = omega (
    arith,
    jobs_conserved P r,
    count_if-append P (queued_by mv) (accepted r),
    ClientMove-waiting P n mv,
  )
  jobs_conserved P (later {t = t} r (by_closer mv)) =
      omega (arith, jobs_conserved P r, CloserMove-waiting P t.closer mv)
