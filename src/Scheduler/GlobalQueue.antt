-- ===== src/Scheduler/GlobalQueue.antt =====
-- src/global_queue_scheduler.cpp as a scheduler.
use thread_pool_runtime.Prelude.{
  ℕ, ◌+◌, ◌<◌, ◌≡◌, refl, sym, ap, ap₂, subst, ◌∙◌, ◌++◌, Bool, false, if◌then◌else◌, List, [], ◌∷◌,
  arith, sum, sum_same, sum_zero, update_total, zero_sum, count_if,
}
use thread_pool_runtime.Prelude.Family.{update}
use thread_pool_runtime.GlobalQueue.{
  Pool, Worker, outside, looking, found_empty, going_to_wait, blocked, running, exited, joined,
  Event, Step, worker_locks, worker_takes, worker_finds_none, worker_returns, worker_stays,
  worker_waits, worker_wakes, worker_finishes, submit_records, submit_pushes, submit_notifies,
  submit_notifies_none, shutdown_stores, shutdown_notifies, shutdown_joins, wake, Run, initial,
}
use thread_pool_runtime.GlobalQueue as Queue
use thread_pool_runtime.Scheduler.Balance.{started_balance}
use thread_pool_runtime.GlobalQueue.Drain.{Timely, shutdown_drains}
use thread_pool_runtime.GlobalQueue.Fifo as Fifo
use thread_pool_runtime.Scheduler.{
  Label, silent, accepts, starts, finishes, accepted, accepted-cons, started, started-cons,
  finished, LabelledRun, start, later, Scheduler,
}

module _ {T : Type 0} where
  abbrev pub label : {n : ℕ} {s t : Pool T} {e : Event T} → Step n s e t → Label T
  label (worker_takes i {job} lt at e) = starts job
  label (worker_finishes i {job} lt at) = finishes job
  label (submit_pushes c {job} at free) = accepts job
  label mv = silent

  -- A step with its label, in time for `shutdown`: no job is queued once the flag is set.
  abbrev pub TimelyStep : ℕ → Pool T → Label T → Pool T → Type 0
  TimelyStep n s l t =
      (e : Event T) × (mv : Step n s e t) × (label mv ≡ l)
      × ((job : T) → e ≡ Queue.accepts job → s.shutdown_flag ≡ false)

  abbrev running_if : (T → Bool) → Worker T → ℕ
  running_if P (running job) = if P job then 1 else 0
  running_if P w = 0

  -- The jobs that pass the test and are being run.
  abbrev under_way : (T → Bool) → ℕ → Pool T → ℕ
  under_way P n s = sum n (λ i. running_if P (s.worker i))

  running_if-wake : (P : T → Bool) (w : Worker T) → running_if P (wake w) ≡ running_if P w
  running_if-wake P w = ground arith

  module _ (P : T → Bool) (n : ℕ) where
    -- Worker `i` moves on to `w`.
    moves_on :
        (s t : Pool T) (i : ℕ) (w : Worker T)
        → i < n
        → t.worker ≡ update s.worker i w
        → under_way P n t + running_if P (s.worker i) ≡ under_way P n s + running_if P w
    moves_on s t i w lt e =
        ap (λ f. sum n (λ j. running_if P (f j)) + running_if P (s.worker i)) e
        ∙ update_total n i (running_if P) s.worker w lt

    Step-under_way :
        {s t : Pool T} {e : Event T} (mv : Step n s e t)
        → count_if P (started (label mv ∷ [])) + under_way P n s
          ≡ count_if P (finished (label mv ∷ [])) + under_way P n t
    Step-under_way {s = s} {t = t} (worker_locks i lt at free) =
        omega (arith, moves_on s t i looking lt refl, ap (running_if P) at)
    Step-under_way {s = s} {t = t} (worker_takes i {job} lt at e) =
        omega (arith, moves_on s t i (running job) lt refl, ap (running_if P) at)
    Step-under_way {s = s} {t = t} (worker_finds_none i lt at e) =
        omega (arith, moves_on s t i found_empty lt refl, ap (running_if P) at)
    Step-under_way {s = s} {t = t} (worker_returns i lt at flag) =
        omega (arith, moves_on s t i exited lt refl, ap (running_if P) at)
    Step-under_way {s = s} {t = t} (worker_stays i lt at flag) =
        omega (arith, moves_on s t i going_to_wait lt refl, ap (running_if P) at)
    Step-under_way {s = s} {t = t} (worker_waits i lt at) =
        omega (arith, moves_on s t i blocked lt refl, ap (running_if P) at)
    Step-under_way {s = s} {t = t} (worker_wakes i lt at) =
        omega (arith, moves_on s t i outside lt refl, ap (running_if P) at)
    Step-under_way {s = s} {t = t} (worker_finishes i lt at) =
        omega (arith, moves_on s t i outside lt refl, ap (running_if P) at)
    Step-under_way (submit_records c job at) = refl
    Step-under_way (submit_pushes c at free) = refl
    Step-under_way {s = s} {t = t} (submit_notifies c i at lt w) =
        omega (arith, moves_on s t i outside lt refl, ap (running_if P) w)
    Step-under_way (submit_notifies_none c at none) = refl
    Step-under_way (shutdown_stores at) = refl
    Step-under_way {s = s} (shutdown_notifies at) = omega (
      arith,
      sum_same n (λ i. running_if P (s.worker i)) (λ i. running_if P (wake (s.worker i)))
          (λ i lt. running_if-wake P (s.worker i)),
    )
    Step-under_way (shutdown_joins at every) = refl

  Fifo_accepted-cons :
      {n : ℕ} {s t : Pool T} {e : Event T} (mv : Step n s e t) (es : List (Event T))
      → Fifo.accepted (e ∷ es) ≡ accepted (label mv ∷ []) ++ Fifo.accepted es
  Fifo_accepted-cons (submit_pushes c at free) es = refl
  Fifo_accepted-cons mv es = refl

  Fifo_started-cons :
      {n : ℕ} {s t : Pool T} {e : Event T} (mv : Step n s e t) (es : List (Event T))
      → Fifo.started (e ∷ es) ≡ started (label mv ∷ []) ++ Fifo.started es
  Fifo_started-cons (worker_takes i lt at e) es = refl
  Fifo_started-cons mv es = refl

  -- A run of labelled steps is a run, with the same jobs.
  unlabelled :
      {n : ℕ} {s : Pool T} {ls : List (Label T)}
      → LabelledRun (TimelyStep n) initial ls s
      → (es : List (Event T)) × (r : Run n initial es s) × Timely r
        × (Fifo.accepted es ≡ accepted ls)
        × (Fifo.started es ≡ started ls)
  unlabelled start = ([], Queue.start, tt, refl, refl)
  unlabelled (later {es = ls} {e = l} run (e, mv, same, ok)) =
      let (es, r, timely, a, b) = unlabelled run in
      (
        e ∷ es,
        Queue.later r mv,
        (timely, ok),
        Fifo_accepted-cons mv es
            ∙ ap₂ (λ x xs. accepted (x ∷ []) ++ xs) same a
            ∙ sym (accepted-cons l ls),
        Fifo_started-cons mv es
            ∙ ap₂ (λ x xs. started (x ∷ []) ++ xs) same b
            ∙ sym (started-cons l ls),
      )

  TimelyStep-under_way :
      (P : T → Bool) (n : ℕ) (s t : Pool T) (l : Label T)
      → TimelyStep n s l t
      → count_if P (started (l ∷ [])) + under_way P n s
        ≡ count_if P (finished (l ∷ [])) + under_way P n t
  TimelyStep-under_way P n s t l (e, mv, same, ok) =
      subst
        (λ x.
          count_if P (started (x ∷ [])) + under_way P n s
          ≡ count_if P (finished (x ∷ [])) + under_way P n t)
        same (Step-under_way P n mv)

  pub queue_drains :
      {n : ℕ} {s : Pool T} {ls : List (Label T)}
      → 0 < n
      → LabelledRun (TimelyStep n) initial ls s
      → s.closer ≡ joined
      → (P : T → Bool) → count_if P (accepted ls) ≡ count_if P (finished ls)
  queue_drains {n = n} {s = s} {ls = ls} pos run closed P =
      let (es, r, timely, a, b) = unlabelled run in
      let (gone, same) = shutdown_drains n s es r pos timely closed in
      omega (
        arith,
        ap (count_if P) (sym a ∙ same ∙ b),
        started_balance P (under_way P n) (TimelyStep-under_way P n) (sum_zero n) run,
        zero_sum n (λ i. running_if P (s.worker i)) (λ i lt. ap (running_if P) (gone i lt)),
      )

  -- A global queue scheduler of `n` workers.
  unfoldable pub global_queue : (n : ℕ) → 0 < n → Scheduler T
  global_queue n pos = record {
    State = Pool T;
    initial = initial;
    Step = TimelyStep n;
    HasShutDown = λ s. s.closer ≡ joined;
    drains = λ run less closed. queue_drains pos run closed;
  }
