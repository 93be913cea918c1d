-- ===== src/FairScheduler/Workers/Rest.antt =====
-- No worker of the fair scheduler sleeps while a class has a job, and `shutdown` can return.
use thread_pool_runtime.Prelude.{
  ℕ, ◌<◌, ◌≡◌, ◌≢◌, ◌⊎◌, inl, inr, refl, sym, ap, subst, ◌∙◌, true, false, not, ◌==◌, [], arith,
  Bool-cases, ℕ_discrete, all_or_one, zero_sum,
}
use thread_pool_runtime.Deque.Words.{word}
use thread_pool_runtime.FairScheduler.{
  FairState, Dispatched, nothing_ready, undefined, took, dispatch,
}
use thread_pool_runtime.FairScheduler.Inv as Fair
use thread_pool_runtime.FairScheduler.Dispatch.{IsDispatch, dispatch-IsDispatch}
use thread_pool_runtime.FairScheduler.Backlog.{backlog, backlog-empty}
use thread_pool_runtime.FairScheduler.Doubles.{Double, IsOrdered}
use thread_pool_runtime.FairScheduler.Workers.{
  Worker, outside, looking, running, counted, ringing, timing, checking, flagged, going_to_wait,
  sleeping, exited, away, notified, Pool, WorkerMove, snapshots, takes, finds_nothing, finishes,
  rings, wakes_all, accounts, sees_open, sees_flag, breaks, sees_pending, waits_not, sleeps, Run,
  initial,
}
use thread_pool_runtime.FairScheduler.Workers.Inv.{
  looked, settled, outdated, IsWaking, IsPushing, Reason,
}
use thread_pool_runtime.FairScheduler.Workers.Count.{busy, held, run_sound}

Dispatched-cases :
    {V T : Type 0} (d : Dispatched V T)
    → (d ≡ nothing_ready)
      ⊎ (d ≡ undefined)
      ⊎ ((id : ℕ) × (job : T) × (t : FairState V T) × (d ≡ took id job t))
Dispatched-cases nothing_ready = inl refl
Dispatched-cases undefined = inr (inl refl)
Dispatched-cases (took id job t) = inr (inr (id, job, t, refl))

-- The worker sleeps or has left.
abbrev IsAtRest : {T : Type 0} → Worker T → Type 0
IsAtRest w = ((g : ℕ) × (w ≡ sleeping g)) ⊎ (w ≡ exited)

-- It is neither about to ring nor runs a job.
rest_quiet :
    {T : Type 0} (w : Worker T)
    → IsAtRest w
    → (busy w ≡ 0) × ((id : ℕ) → w ≢ counted id) × ((id : ℕ) → w ≢ ringing id)
rest_quiet w (inl (g, e)) = (ap busy e, λ id f. absurd (cc), λ id f. absurd (cc))
rest_quiet w (inr e) = (ap busy e, λ id f. absurd (cc), λ id f. absurd (cc))

current : (gen g : ℕ) → not (g == gen) ≡ false → g ≡ gen
current gen g e = ground arith

same_count : (gen g : ℕ) → g ≡ gen → (g == gen) ≡ true
same_count gen g e = ground arith

module _ {V : Type 0} {F : Double V} (L : IsOrdered F) {T : Type 0} where
  -- While a worker sleeps, no class has a job, or a thread is on its way to wake it: a call of
  -- `submit` that has queued its job and is about to advance the signal, or a thread that has
  -- advanced it and is about to notify. No wakeup is ever lost. The run has fewer than 2^64 steps.
  pub asleep_idle :
      (n m k i g : ℕ) (s : Pool V T)
      → Run F n m (initial F) k s
      → k < word
      → s.worker i ≡ sleeping g
      → ((id : ℕ) → (s.fair.classes id).runnable ≡ []) ⊎ IsPushing s ⊎ IsWaking n s
  asleep_idle n m k i g s r less at =
      let v = (run_sound L r less).0 in
      elim (Bool-cases (outdated s.gen (s.worker i))) [
        | inl old ↦ inr (inr (v.woken i old))
        | inr new ↦
            elim (v.empty i (
              ap (looked s.gen) at
              ∙ same_count s.gen g (current s.gen g (sym (ap (outdated s.gen) at) ∙ new)))) [
                | inl none_left ↦ inl (backlog-empty L s.fair v.sound none_left)
                | inr pushing ↦ inr (inl pushing)
              ]
      ]

  -- A worker that is not at rest has a next step.
  worker_moves :
      (i : ℕ) (s : Pool V T) (w : Worker T)
      → Fair.Inv F s.fair
      → IsAtRest w ⊎ ((t : Pool V T) × WorkerMove F s i w t)
  worker_moves i s outside v = inr (_, snapshots)
  worker_moves i s (looking g) v = elim (Dispatched-cases (dispatch F s.fair)) [
    | inl e ↦ inr (_, finds_nothing e)
    | inr (inl e) ↦ absurd (subst (IsDispatch L s.fair) e (dispatch-IsDispatch L s.fair v))
    | inr (inr (id, job, t, e)) ↦ inr (_, takes id job t e)
  ]
  worker_moves i s (running id job) v = inr (_, finishes)
  worker_moves i s (counted id) v = inr (_, rings)
  worker_moves i s (ringing id) v = inr (_, wakes_all)
  worker_moves i s (timing id) v = inr (_, accounts F.double_0 no_time)
    where
      no_time : F.le F.double_0 F.double_0 ≡ true
      no_time = ground (arith, L.le_lt F.double_0 F.double_0, L.lt_irrefl F.double_0)
  worker_moves i s (checking g) v = elim (Bool-cases s.shutdown_flag) [
    | inl e ↦ inr (_, sees_flag e)
    | inr e ↦ inr (_, sees_open e)
  ]
  worker_moves i s (flagged g) v = elim (ℕ_discrete s.pending 0) [
    | yes e ↦ inr (_, breaks e)
    | no ne ↦ inr (_, sees_pending ne)
  ]
  worker_moves i s (going_to_wait g) v = elim (ℕ_discrete g s.gen) [
    | yes e ↦ inr (_, sleeps e)
    | no ne ↦ inr (_, waits_not ne)
  ]
  worker_moves i s (sleeping g) v = inl (inl (g, refl))
  worker_moves i s exited v = inl (inr refl)

  module _ (n m k : ℕ) (s : Pool V T) (r : Run F n m (initial F) k s) (less : k < word)
      (gone : (c : ℕ) → s.client c ≡ away) (closed : s.closer ≡ notified)
      (rest : (i : ℕ) → i < n → IsAtRest (s.worker i)) where
    not_waking : IsWaking n s → ⊥
    not_waking (inl (c, e)) = let a = gone c in absurd (cc)
    not_waking (inr (inl (j, id, lt, e))) = (rest_quiet (s.worker j) (rest j lt)).2 id e
    not_waking (inr (inr e)) = absurd (cc)

    not_pushing : IsPushing s → ⊥
    not_pushing (c, e) = let a = gone c in absurd (cc)

    resting_pending : backlog s.fair ≡ 0 → s.pending ≡ 0
    resting_pending none_left = omega (
      arith,
      (run_sound L r less).1.exact,
      none_left,
      zero_sum n (λ j. busy (s.worker j)) (λ j lt. (rest_quiet (s.worker j) (rest j lt)).0),
      zero_sum m (λ c. held (s.client c)) (λ c lt. ap held (gone c)),
    )

    unfounded : s.pending ≡ 0 → Reason n s → ⊥
    unfounded z (inl e) = absurd (cc)
    unfounded z (inr (inl e)) = absurd (cc)
    unfounded z (inr (inr (inl ne))) = ne z
    unfounded z (inr (inr (inr (j, id, lt, e)))) = (rest_quiet (s.worker j) (rest j lt)).1 id e

    sleeps_not : (i g : ℕ) → s.worker i ≡ sleeping g → ⊥
    sleeps_not i g at =
        let v = (run_sound L r less).0 in
        elim (Bool-cases (outdated s.gen (s.worker i))) [
          | inl old ↦ not_waking (v.woken i old)
          | inr new ↦
              let same =
                same_count s.gen g (current s.gen g (sym (ap (outdated s.gen) at) ∙ new)) in
              elim (v.empty i (ap (looked s.gen) at ∙ same)) [
                | inl none_left ↦
                    unfounded (resting_pending none_left)
                      (v.reason i (ap (settled s.gen) at ∙ same))
                | inr pushing ↦ not_pushing pushing
              ]
        ]

    resting_exited : (i : ℕ) → i < n → s.worker i ≡ exited
    resting_exited i lt = elim (rest i lt) [ inr e ↦ e | inl (g, at) ↦ absurd (sleeps_not i g at) ]

  -- After `shutdown` has set its flag and rung, and with no `submit` under way, the pool is never
  -- stuck: every worker has left, so that the joins return, or some worker has a next step. The run
  -- that leads there has fewer than 2^64 steps.
  pub fair_shutdown_moves :
      (n m k : ℕ) (s : Pool V T)
      → Run F n m (initial F) k s
      → k < word
      → ((c : ℕ) → s.client c ≡ away)
      → s.closer ≡ notified
      → ((i : ℕ) → i < n → s.worker i ≡ exited)
        ⊎ ((i : ℕ) × (i < n) × ((t : Pool V T) × WorkerMove F s i (s.worker i) t))
  fair_shutdown_moves n m k s r less gone closed =
      let v = (run_sound L r less).0 in
      elim (all_or_one n (λ i. IsAtRest (s.worker i))
        (λ i. (t : Pool V T) × WorkerMove F s i (s.worker i) t)
        (λ i. worker_moves i s (s.worker i) v.sound)) [
          | inr some_move ↦ inr some_move
          | inl rest ↦ inl (resting_exited n m k s r less gone closed rest)
        ]
