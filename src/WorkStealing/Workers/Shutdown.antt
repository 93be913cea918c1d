-- ===== src/WorkStealing/Workers/Shutdown.antt =====
-- `shutdown` of the work-stealing scheduler does not hang.
use thread_pool_runtime.Prelude.{
  ℕ, all_or_one, first-cases, ◌<◌, ◌≡◌, ◌⊎◌, inl, inr, refl, [], ◌∷◌, last-cases, ℕ_discrete,
  Bool-cases,
}
use thread_pool_runtime.Deque.Words.{word}
use thread_pool_runtime.Priority.{rank}
use thread_pool_runtime.WorkStealing.Workers.{
  own, injected, peer, Worker, outside, searching, checking, flagged, going_to_wait, sleeping,
  running, counted, ringing, exited, away, notified, Pool, WorkerMove, snapshots, own_found,
  own_empty, injected_found, injected_empty, peer_missed, finds_nothing, sees_open, sees_flag,
  breaks, sees_pending, waits_not, sleeps, finishes, rings, wakes_all, Run, initial,
}
use thread_pool_runtime.WorkStealing.Workers.Rest.{IsAtRest, IsResting, resting_exited}

module _ {T : Type 0} where
  -- A worker that is not at rest has a next step.
  worker_moves :
      (n i : ℕ) (s : Pool T) (w : Worker T) → IsAtRest w ⊎ ((t : Pool T) × WorkerMove n s i w t)
  worker_moves n i s outside = inr (_, snapshots)
  worker_moves n i s (searching g []) = inr (_, finds_nothing)
  worker_moves n i s (searching g (own p ∷ ps)) = elim (last-cases (s.deques i (rank p))) [
    | inl e ↦ inr (_, own_empty e)
    | inr (rest, job, e) ↦ inr (_, own_found job rest e)
  ]
  worker_moves n i s (searching g (injected p ∷ ps)) = elim (first-cases (s.injectors (rank p))) [
    | inl e ↦ inr (_, injected_empty e)
    | inr (job, rest, e) ↦ inr (_, injected_found job rest e)
  ]
  worker_moves n i s (searching g (peer v p ∷ ps)) = inr (_, peer_missed)
  worker_moves n i s (checking g) = elim (Bool-cases s.shutdown_flag) [
    | inl e ↦ inr (_, sees_flag e)
    | inr e ↦ inr (_, sees_open e)
  ]
  worker_moves n i s (flagged g) = elim (ℕ_discrete s.pending 0) [
    | yes e ↦ inr (_, breaks e)
    | no ne ↦ inr (_, sees_pending ne)
  ]
  worker_moves n i s (going_to_wait g) = elim (ℕ_discrete g s.gen) [
    | yes e ↦ inr (_, sleeps e)
    | no ne ↦ inr (_, waits_not ne)
  ]
  worker_moves n i s (sleeping g) = inl (inl (g, refl))
  worker_moves n i s (running job) = inr (_, finishes)
  worker_moves n i s counted = inr (_, rings)
  worker_moves n i s ringing = inr (_, wakes_all)
  worker_moves n i s exited = inl (inr refl)

  -- After `shutdown` has set its flag and rung, and with no `submit` under way, the pool is never
  -- stuck: every worker has left, so that the joins return, or some worker has a next step. The run
  -- that leads there has fewer than 2^64 steps.
  pub shutdown_moves :
      (n m k : ℕ) (s : Pool T)
      → Run n m initial k s
      → k < word
      → ((c : ℕ) → s.client c ≡ away)
      → s.closer ≡ notified
      → ((i : ℕ) → i < n → s.worker i ≡ exited)
        ⊎ ((i : ℕ) × (i < n) × ((t : Pool T) × WorkerMove n s i (s.worker i) t))
  shutdown_moves n m k s r less gone closed =
      elim (all_or_one n (λ i. IsAtRest (s.worker i))
        (λ i. (t : Pool T) × WorkerMove n s i (s.worker i) t)
        (λ i. worker_moves n i s (s.worker i))) [
          | inr some_move ↦ inr some_move
          | inl rest ↦ inl (resting_exited n m k s r less (resting rest) gone closed)
        ]
    where
      resting : ((i : ℕ) → i < n → IsAtRest (s.worker i)) → IsResting n s
      resting rest = record {
        workers = rest;
        clients = λ c. (λ e. absurd (let a = gone c in cc), λ e. absurd (let a = gone c in cc));
        closer = λ e. absurd (cc);
      }
