-- ===== src/Scheduler/FairScheduler/Drains.antt =====
-- The fair scheduler keeps the law of a scheduler.
use thread_pool_runtime.Prelude.{
  ℕ, ◌+◌, ◌<◌, ◌≡◌, ap, subst, Bool, List, [], ◌∷◌, arith, sum, sum_zero, zero_sum, count_if,
  count_if-append, length,
}
use thread_pool_runtime.Deque.Words.{word}
use thread_pool_runtime.FairScheduler.Backlog.{queue, backlog-empty}
use thread_pool_runtime.FairScheduler.Doubles.{Double, IsOrdered}
use thread_pool_runtime.FairScheduler.Workers.{
  Pool, Step, by_worker, by_client, by_closer, registers, joined, Run, initial,
}
use thread_pool_runtime.FairScheduler.Workers as Threads
use thread_pool_runtime.FairScheduler.Workers.Count.{run_sound}
use thread_pool_runtime.FairScheduler.Workers.Drain.{Timely, Run-IsDrained, is_gone-exited}
use thread_pool_runtime.Scheduler.{
  Label, accepted, accepted-cons, finished, finished-cons, LabelledRun, start, later, Scheduler,
}
use thread_pool_runtime.Scheduler.FairScheduler.{IsTimely, TimelyStep}
use thread_pool_runtime.Scheduler.FairScheduler.Total.{running_if, under_way, Step-under_way}

module _ {V : Type 0} {F : Double V} {T : Type 0} where
  Timely-later :
      {n m k : ℕ} {s t : Pool V T} (r : Run F n m (initial F) k s) (mv : Step F n m s t)
      → Timely r
      → IsTimely mv
      → Timely (Threads.later r mv)
  Timely-later r (by_worker i lt mv) timely ok = timely
  Timely-later r (by_client c lt mv) timely ok = (timely, ok)
  Timely-later r (by_closer mv) timely ok = timely
  Timely-later r (registers name weight f e) timely ok = timely

  -- A run of labelled steps is a run.
  unlabelled :
      {n m : ℕ} {s : Pool V T} {ls : List (Label T)}
      → LabelledRun (TimelyStep F n m) (initial F) ls s
      → (r : Run F n m (initial F) (length ls) s) × Timely r
  unlabelled start = (Threads.start, tt)
  unlabelled (later run (mv, same, ok)) =
      let (r, timely) = unlabelled run in (Threads.later r mv, Timely-later r mv timely ok)

module _ {V : Type 0} {F : Double V} (L : IsOrdered F) {T : Type 0} where
  -- The jobs that were queued have been run to their end, are with workers or are in classes.
  accepted_balance :
      (P : T → Bool) {n m : ℕ} {s : Pool V T} {ls : List (Label T)}
      → length ls < word
      → LabelledRun (TimelyStep F n m) (initial F) ls s
      → count_if P (accepted ls) ≡ count_if P (finished ls) + under_way P n s
  unfolding sum
  accepted_balance P {n = n} less start = omega (arith, sum_zero n)
  accepted_balance P {n = n} {s = t} less (later {es = ls} {t = s} {e = l} run (mv, same, ok)) =
      let (r, timely) = unlabelled run in
      let step =
        subst
          (λ x.
            count_if P (accepted (x ∷ [])) + under_way P n s
            ≡ count_if P (finished (x ∷ [])) + under_way P n t)
          same (Step-under_way L P n mv (run_sound L r (omega arith)).0.sound) in
      omega (
        arith,
        accepted_balance P (omega arith) run,
        step,
        ap (count_if P) (accepted-cons l ls),
        ap (count_if P) (finished-cons l ls),
        count_if-append P (accepted (l ∷ [])) (accepted ls),
        count_if-append P (finished (l ∷ [])) (finished ls),
      )

  pub classes_drain :
      {n m : ℕ} {s : Pool V T} {ls : List (Label T)}
      → 0 < n
      → LabelledRun (TimelyStep F n m) (initial F) ls s
      → length ls < word
      → s.closer ≡ joined
      → (P : T → Bool) → count_if P (accepted ls) ≡ count_if P (finished ls)
  classes_drain {n = n} {s = s} pos run less closed P =
      let (r, timely) = unlabelled run in
      let d = Run-IsDrained L r less timely in
      let (v, count) = run_sound L r less in
      let idle =
        backlog-empty L s.fair v.sound
          (omega (arith, count.exact, d.pending 0 (d.all closed 0 pos))) in
      omega (
        arith,
        accepted_balance P less run,
        zero_sum n (λ i. running_if P (s.worker i))
            (λ i lt. ap (running_if P) (is_gone-exited (s.worker i) (d.all closed i lt))),
        zero_sum s.fair.class_count (λ id. count_if P (queue s.fair id))
            (λ id lt. ap (count_if P) (idle id)),
      )

  -- A fair scheduler of `n` workers, with `m` threads that submit.
  unfoldable pub fair_scheduler : (n m : ℕ) → 0 < n → Scheduler T
  fair_scheduler n m pos = record {
    State = Pool V T;
    initial = initial F;
    Step = TimelyStep F n m;
    HasShutDown = λ s. s.closer ≡ joined;
    drains = λ run less closed. classes_drain pos run less closed;
  }
