-- ===== src/Scheduler/ThreadPerCore/Within.antt =====
-- Only the workers of cores that exist ever leave the place where they begin.
use thread_pool_runtime.Prelude.{ℕ, ◌<◌, ◌≡◌, ◌≢◌, refl, ap, ◌∙◌, List, subst, ℕ_discrete}
use thread_pool_runtime.Prelude.Family.{update, update_eq, update_ne}
use thread_pool_runtime.ThreadPerCore.Workers.{
  Pool, Worker, outside, looking, found_empty, going_to_wait, blocked, running, exited, wake,
  Action, Step, worker_locks, worker_takes, worker_finds_none, worker_returns, worker_stays,
  worker_waits, worker_wakes, worker_finishes, submit_chooses, submit_records, submit_pushes,
  submit_notifies, shutdown_stores, shutdown_notifies, shutdown_joins, Run, start, later, initial,
}
use thread_pool_runtime.ThreadPerCore.Workers.Range.{Run-Range}

module _ {T : Type 0} where
  abbrev pub IsWithin : ℕ → Pool T → Type 0
  IsWithin n s = (i : ℕ) → s.worker i ≢ outside → i < n

  -- Worker `i` moves on.
  moves-IsWithin :
      {n : ℕ} (f : ℕ → Worker T) (i : ℕ) (w : Worker T)
      → ((j : ℕ) → f j ≢ outside → j < n)
      → f i ≢ outside
      → (j : ℕ) → update f i w j ≢ outside
      → j < n
  moves-IsWithin {n = n} f i w v at j h = elim (ℕ_discrete i j) [
    | yes e ↦ subst (λ k. k < n) e (v i at)
    | no ne ↦ v j (λ x. h (update_ne f i j w ne ∙ x))
  ]

  -- A notification moves none that has not left.
  wake-IsWithin :
      {n : ℕ} (f : ℕ → Worker T) (i : ℕ)
      → ((j : ℕ) → f j ≢ outside → j < n)
      → (j : ℕ) → update f i (wake (f i)) j ≢ outside
      → j < n
  wake-IsWithin {n = n} f i v j h = elim (ℕ_discrete i j) [
    | yes e ↦ subst (λ k. k < n) e (v i (λ x. h (update_eq f i j (wake (f i)) e ∙ ap wake x)))
    | no ne ↦ v j (λ x. h (update_ne f i j (wake (f i)) ne ∙ x))
  ]

  Step-IsWithin :
      {n : ℕ} {s t : Pool T} {e : Action T}
      → s.cores.num_cores ≡ n
      → Step s e t
      → IsWithin n s
      → IsWithin n t
  Step-IsWithin {n} {s} size (worker_locks i lt at unheld) v = λ j h. elim (ℕ_discrete i j) [
    | yes e ↦ subst (λ k. k < n) e (subst (λ k. i < k) size lt)
    | no ne ↦ v j (λ x. h (update_ne s.worker i j looking ne ∙ x))
  ]
  Step-IsWithin {s = s} size (worker_takes i {job = job} at e) v =
      moves-IsWithin s.worker i (running job) v (λ x. cc)
  Step-IsWithin {s = s} size (worker_finds_none i at e) v =
      moves-IsWithin s.worker i found_empty v (λ x. cc)
  Step-IsWithin {s = s} size (worker_returns i at flag) v =
      moves-IsWithin s.worker i exited v (λ x. cc)
  Step-IsWithin {s = s} size (worker_stays i at flag) v =
      moves-IsWithin s.worker i going_to_wait v (λ x. cc)
  Step-IsWithin {s = s} size (worker_waits i at) v = moves-IsWithin s.worker i blocked v (λ x. cc)
  Step-IsWithin {s = s} size (worker_wakes i at) v = moves-IsWithin s.worker i outside v (λ x. cc)
  Step-IsWithin {s = s} size (worker_finishes i at) v =
      moves-IsWithin s.worker i outside v (λ x. cc)
  Step-IsWithin size (submit_chooses c job hint p at) v = v
  Step-IsWithin size (submit_records c at) v = v
  Step-IsWithin size (submit_pushes c at unheld) v = v
  Step-IsWithin {s = s} size (submit_notifies c {core} at) v = wake-IsWithin s.worker core v
  Step-IsWithin size (shutdown_stores at) v = v
  Step-IsWithin {s = s} size (shutdown_notifies {k} at lt) v = wake-IsWithin s.worker k v
  Step-IsWithin size (shutdown_joins at every) v = v

  pub Run-IsWithin :
      {n : ℕ} {s : Pool T} {es : List (Action T)} → 0 < n → Run (initial n) es s → IsWithin n s
  Run-IsWithin pos start = λ i h. absurd (h refl)
  Run-IsWithin pos (later r mv) = Step-IsWithin (Run-Range pos r).size mv (Run-IsWithin pos r)
