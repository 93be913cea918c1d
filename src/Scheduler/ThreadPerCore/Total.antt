-- ===== src/Scheduler/ThreadPerCore/Total.antt =====
-- The jobs that have been queued at some core and have not been run to their end.
use thread_pool_runtime.Prelude.{
  ℕ, ◌+◌, ◌<◌, ◌≡◌, refl, sym, ap, ◌∙◌, Bool, if◌then◌else◌, List, [], ◌∷◌, ◌++◌, arith, sum,
  sum_same, update_total, update_total_from, count_if, count_if-append, subst, ℕ_discrete, some,
}
use thread_pool_runtime.Prelude.Family.{update, update_eq, update_ne}
use thread_pool_runtime.Priority.{Priority, high, normal, background, rank, priority_order}
use thread_pool_runtime.WorkStealing.Workers.Count.{stock_by, stock_by-update}
use thread_pool_runtime.ThreadPerCore.{take_job}
use thread_pool_runtime.ThreadPerCore.Choice.{IsTaken, take_job-IsTaken}
use thread_pool_runtime.ThreadPerCore.Target.{target-queues}
use thread_pool_runtime.ThreadPerCore.Workers.{
  Pool, Worker, outside, looking, found_empty, going_to_wait, blocked, running, exited, wake,
  Action, Step, worker_locks, worker_takes, worker_finds_none, worker_returns, worker_stays,
  worker_waits, worker_wakes, worker_finishes, submit_chooses, submit_records, submit_pushes,
  submit_notifies, shutdown_stores, shutdown_notifies, shutdown_joins,
}
use thread_pool_runtime.ThreadPerCore.Workers.Range.{IsInRange, Range}
use thread_pool_runtime.Scheduler.{accepted, finished}
use thread_pool_runtime.Scheduler.ThreadPerCore.{label}
use thread_pool_runtime.Scheduler.ThreadPerCore.Within.{IsWithin}

module _ {T : Type 0} where
  abbrev pub running_if : (T → Bool) → Worker T → ℕ
  running_if P (running job) = if P job then 1 else 0
  running_if P w = 0

  -- The jobs that pass the test, with workers and in queues.
  abbrev pub under_way : (T → Bool) → ℕ → Pool T → ℕ
  under_way P n s =
      sum n (λ i. running_if P (s.worker i)) + sum n (λ i. stock_by (count_if P) (s.cores.queues i))

  -- What a worker takes was in the queues of its core.
  taken_stock :
      (P : T → Bool) (q q' : ℕ → List T) (p : Priority) (job : T)
      → take_job priority_order q ≡ (some (p, job), q')
      → stock_by (count_if P) q' + (if P job then 1 else 0) ≡ stock_by (count_if P) q
  taken_stock P q q' p job e = by_rank p (subst (IsTaken q) e (take_job-IsTaken q))
    where
      by_rank :
          (p : Priority)
          → IsTaken q (some (p, job), q')
          → stock_by (count_if P) q' + (if P job then 1 else 0) ≡ stock_by (count_if P) q
      by_rank high (above, here, others) = omega (
        arith,
        ap (count_if P) here,
        ap (count_if P) (others 1 (λ x. omega (arith, x))),
        ap (count_if P) (others 2 (λ x. omega (arith, x))),
      )
      by_rank normal (above, here, others) = omega (
        arith,
        ap (count_if P) here,
        ap (count_if P) (others 0 (λ x. omega (arith, x))),
        ap (count_if P) (others 2 (λ x. omega (arith, x))),
      )
      by_rank background (above, here, others) = omega (
        arith,
        ap (count_if P) here,
        ap (count_if P) (others 0 (λ x. omega (arith, x))),
        ap (count_if P) (others 1 (λ x. omega (arith, x))),
      )

  running_if-wake : (P : T → Bool) (w : Worker T) → running_if P (wake w) ≡ running_if P w
  running_if-wake P w = ground arith

  module _ (P : T → Bool) (n : ℕ) where
    -- A notification wakes one that waits only.
    notified :
        (f : ℕ → Worker T) (i : ℕ)
        → sum n (λ j. running_if P (update f i (wake (f i)) j)) ≡ sum n (λ j. running_if P (f j))
    notified f i =
        sum_same n (λ j. running_if P (f j)) (λ j. running_if P (update f i (wake (f i)) j)) same
      where
        same : (j : ℕ) → j < n → running_if P (update f i (wake (f i)) j) ≡ running_if P (f j)
        same j lt = elim (ℕ_discrete i j) [
          | yes e ↦
              ap (running_if P) (update_eq f i j (wake (f i)) e)
              ∙ running_if-wake P (f i)
              ∙ ap (λ k. running_if P (f k)) e
          | no ne ↦ ap (running_if P) (update_ne f i j (wake (f i)) ne)
        ]

    -- The queues of core `i` become `q`.
    queues_become :
        (f : ℕ → ℕ → List T) (i : ℕ) (q : ℕ → List T)
        → i < n
        → sum n (λ j. stock_by (count_if P) (update f i q j)) + stock_by (count_if P) (f i)
          ≡ sum n (λ j. stock_by (count_if P) (f j)) + stock_by (count_if P) q
    queues_become f i q lt = update_total n i (stock_by (count_if P)) f q lt

    -- What each step adds and takes away.
    pub Step-under_way :
        {s t : Pool T} {e : Action T} (mv : Step s e t)
        → IsWithin n s
        → Range n s
        → count_if P (accepted (label mv ∷ [])) + under_way P n s
          ≡ count_if P (finished (label mv ∷ [])) + under_way P n t
    Step-under_way {s = s} (worker_locks i lt at unheld) v r = omega (
      arith,
      update_total_from n i (running_if P) s.worker outside looking (subst (λ k. i < k) r.size lt)
          at,
    )
    Step-under_way {s = s} (worker_takes i {p} {job} {q} at e) v r = omega (
      arith,
      update_total_from n i (running_if P) s.worker looking (running job) (v i (λ x. cc)) at,
      queues_become s.cores.queues i q (v i (λ x. cc)),
      taken_stock P (s.cores.queues i) q p job e,
    )
    Step-under_way {s = s} (worker_finds_none i at e) v r = omega (
      arith,
      update_total_from n i (running_if P) s.worker looking found_empty (v i (λ x. cc)) at,
    )
    Step-under_way {s = s} (worker_returns i at flag) v r =
        omega (
          arith,
          update_total_from n i (running_if P) s.worker found_empty exited (v i (λ x. cc)) at,
        )
    Step-under_way {s = s} (worker_stays i at flag) v r = omega (
      arith,
      update_total_from n i (running_if P) s.worker found_empty going_to_wait (v i (λ x. cc)) at,
    )
    Step-under_way {s = s} (worker_waits i at) v r = omega (
      arith,
      update_total_from n i (running_if P) s.worker going_to_wait blocked (v i (λ x. cc)) at,
    )
    Step-under_way {s = s} (worker_wakes i at) v r =
        omega
          (arith, update_total_from n i (running_if P) s.worker blocked outside (v i (λ x. cc)) at)
    Step-under_way {s = s} (worker_finishes i {job} at) v r = omega (
      arith,
      update_total_from n i (running_if P) s.worker (running job) outside (v i (λ x. cc)) at,
    )
    Step-under_way {s = s} (submit_chooses c job hint p at) v r =
        ap
          (λ q.
            0 + (sum n (λ i. running_if P (s.worker i)) + sum n (λ i. stock_by (count_if P) (q i))))
          (sym (target-queues hint s.cores))
    Step-under_way (submit_records c at) v r = refl
    Step-under_way {s = s} (submit_pushes c {job} {core} {p} at unheld) v r =
        let q = s.cores.queues core in
        omega (
          arith,
          queues_become s.cores.queues core (update q (rank p) (q (rank p) ++ job ∷ []))
              (subst (IsInRange n) at (r.clients c)),
          stock_by-update (count_if P) q p (q (rank p) ++ job ∷ []),
          count_if-append P (q (rank p)) (job ∷ []),
        )
    Step-under_way {s = s} (submit_notifies c {core} at) v r = omega (arith, notified s.worker core)
    Step-under_way (shutdown_stores at) v r = refl
    Step-under_way {s = s} (shutdown_notifies {k} at lt) v r = omega (arith, notified s.worker k)
    Step-under_way (shutdown_joins at every) v r = refl
