-- ===== src/Scheduler/ThreadPerCore/Drains.antt =====
-- The thread-per-core scheduler keeps the law of a scheduler.
use thread_pool_runtime.Prelude.{
  ℕ, ◌+◌, ◌<◌, ◌≡◌, ap, subst, Bool, List, [], ◌∷◌, arith, sum_zero, zero_sum, count_if,
  count_if-append,
}
use thread_pool_runtime.Priority.{high, normal, background}
use thread_pool_runtime.WorkStealing.Workers.Count.{stock_by}
use thread_pool_runtime.ThreadPerCore.Workers.{Pool, joined, Action, Run, initial}
use thread_pool_runtime.ThreadPerCore.Workers as Threads
use thread_pool_runtime.ThreadPerCore.Workers.Range.{Run-Range}
use thread_pool_runtime.ThreadPerCore.Workers.Drain.{Timely, Run-IsDrained}
use thread_pool_runtime.Scheduler.{
  Label, accepted, accepted-cons, finished, finished-cons, LabelledRun, start, later, Scheduler,
}
use thread_pool_runtime.Scheduler.ThreadPerCore.{TimelyStep}
use thread_pool_runtime.Scheduler.ThreadPerCore.Within.{Run-IsWithin}
use thread_pool_runtime.Scheduler.ThreadPerCore.Total.{running_if, under_way, Step-under_way}

module _ {T : Type 0} where
  -- A run of labelled steps is a run.
  unlabelled :
      {n : ℕ} {s : Pool T} {ls : List (Label T)}
      → LabelledRun TimelyStep (initial n) ls s
      → (es : List (Action T)) × (r : Run (initial n) es s) × Timely r
  unlabelled start = ([], Threads.start, tt)
  unlabelled (later run (e, mv, same, ok)) =
      let (es, r, timely) = unlabelled run in (e ∷ es, Threads.later r mv, (timely, ok))

  -- The jobs that were queued have been run to their end, are with workers or are in queues.
  accepted_balance :
      (P : T → Bool) {n : ℕ} {s : Pool T} {ls : List (Label T)}
      → 0 < n
      → LabelledRun TimelyStep (initial n) ls s
      → count_if P (accepted ls) ≡ count_if P (finished ls) + under_way P n s
  accepted_balance P {n = n} pos start = omega (arith, sum_zero n)
  accepted_balance P {n = n} {s = t} pos (later {es = ls} {t = s} {e = l} run (e, mv, same, ok)) =
      let (es, r, timely) = unlabelled run in
      let step =
        subst
          (λ x.
            count_if P (accepted (x ∷ [])) + under_way P n s
            ≡ count_if P (finished (x ∷ [])) + under_way P n t)
          same (Step-under_way P n mv (Run-IsWithin pos r) (Run-Range pos r)) in
      omega (
        arith,
        accepted_balance P pos run,
        step,
        ap (count_if P) (accepted-cons l ls),
        ap (count_if P) (finished-cons l ls),
        count_if-append P (accepted (l ∷ [])) (accepted ls),
        count_if-append P (finished (l ∷ [])) (finished ls),
      )

  pub cores_drain :
      {n : ℕ} {s : Pool T} {ls : List (Label T)}
      → 0 < n
      → LabelledRun TimelyStep (initial n) ls s
      → s.closer ≡ joined
      → (P : T → Bool) → count_if P (accepted ls) ≡ count_if P (finished ls)
  cores_drain {n = n} {s = s} pos run closed P =
      let (es, r, timely) = unlabelled run in
      let d = Run-IsDrained r timely in
      omega (
        arith,
        accepted_balance P pos run,
        zero_sum n (λ i. running_if P (s.worker i)) (λ i lt. ap (running_if P) (d.all closed i lt)),
        zero_sum n (λ i. stock_by (count_if P) (s.cores.queues i))
            (λ i lt.
              let gone = d.all closed i lt in
              omega (
                arith,
                ap (count_if P) (d.queue i gone high),
                ap (count_if P) (d.queue i gone normal),
                ap (count_if P) (d.queue i gone background),
              )),
      )

  -- A thread-per-core scheduler of `n` cores.
  unfoldable pub thread_per_core : (n : ℕ) → 0 < n → Scheduler T
  thread_per_core n pos = record {
    State = Pool T;
    initial = initial n;
    Step = TimelyStep;
    HasShutDown = λ s. s.closer ≡ joined;
    drains = λ run less closed. cores_drain pos run closed;
  }
