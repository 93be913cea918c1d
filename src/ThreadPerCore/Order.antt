-- ===== src/ThreadPerCore/Order.antt =====
-- Jobs stay on their core, and keep their order there.
use thread_pool_runtime.Prelude.{
  ℕ, ◌≡◌, refl, sym, ap, ap₂, subst, ◌∙◌, arith, List, [], ◌∷◌, ◌++◌, append_assoc, none, some,
  ◌==◌, ◌&&◌, if◌then◌else◌, ℕ_discrete, Bool-cases, inl, inr, true, false,
}
use mathlib.Core.List.{reverse, reverse-append, reverse-cons}
use thread_pool_runtime.Prelude.Family.{update, update_eq, update_ne}
use thread_pool_runtime.Priority.{Priority, rank}
use thread_pool_runtime.ThreadPerCore.{
  Cores, target, enqueue, submit, Event, accepts, starts, CoreStep, submits, takes, CoreRun, start,
  later,
}
use thread_pool_runtime.ThreadPerCore.Choice.{IsTaken, take_job-IsTaken}

module _ {T : Type 0} where
  -- The jobs queued at core `c` with rank `r`, and those that worker `c` took there, newest first.
  abbrev pub accepted_at : ℕ → ℕ → List (Event T) → List T
  accepted_at c r [] = []
  accepted_at c r (accepts d q job ∷ es) =
      if (d == c) && (q == r) then job ∷ accepted_at c r es else accepted_at c r es
  accepted_at c r (starts d q job ∷ es) = accepted_at c r es

  abbrev pub started_at : ℕ → ℕ → List (Event T) → List T
  started_at c r [] = []
  started_at c r (accepts d q job ∷ es) = started_at c r es
  started_at c r (starts d q job ∷ es) =
      if (d == c) && (q == r) then job ∷ started_at c r es else started_at c r es

  abbrev pub Kept : ℕ → ℕ → List (Event T) → List T → Type 0
  Kept c r es queue = accepted_at c r es ≡ reverse queue ++ started_at c r es

  queue-enqueue :
      (c r : ℕ) (s : Cores T) (job : T) (core : ℕ) (p : Priority)
      → (enqueue core p job s).queues c r
        ≡ (if (core == c) && (rank p == r) then s.queues c r ++ job ∷ [] else s.queues c r)
  unfolding enqueue
  queue-enqueue c r s job core p = ground arith

  pub submits-Kept :
      (c r : ℕ) (s : Cores T) (es : List (Event T)) (job : T) (core : ℕ) (p : Priority)
      → Kept c r es (s.queues c r)
      → Kept c r (accepts core (rank p) job ∷ es) ((enqueue core p job s).queues c r)
  submits-Kept c r s es job core p k = elim (Bool-cases ((core == c) && (rank p == r))) [
    | inr other ↦ rw (queue-enqueue c r s job core p, other) k
    | inl here ↦
        rw (queue-enqueue c r s job core p, here, reverse-append (s.queues c r) (job ∷ []))
          (ap (◌∷◌ job) k)
  ]

  pub takes-Kept :
      (c r i : ℕ) (s : Cores T) (es : List (Event T)) (job : T) (p : Priority) (q : ℕ → List T)
      → IsTaken (s.queues i) (some (p, job), q)
      → Kept c r es (s.queues c r)
      → Kept c r (starts i (rank p) job ∷ es) (update s.queues i q c r)
  takes-Kept c r i s es job p q (above, taken, others) k =
      elim (Bool-cases ((i == c) && (rank p == r))) [
        | inl here ↦ rw here (
            subst (λ x. accepted_at c r es ≡ reverse x ++ started_at c r es)
              (at_core (here_core here) (here_rank here)) k
            ∙ rw (reverse-cons job (update s.queues i q c r))
                (append_assoc (reverse (update s.queues i q c r)) (job ∷ []) (started_at c r es)))
        | inr other ↦
            rw other
              (subst (λ x. accepted_at c r es ≡ reverse x ++ started_at c r es) (elsewhere other) k)
      ]
    where
      here_core : (i == c) && (rank p == r) ≡ true → i ≡ c
      here_core e = ground arith

      here_rank : (i == c) && (rank p == r) ≡ true → rank p ≡ r
      here_rank e = ground arith

      at_core : i ≡ c → rank p ≡ r → s.queues c r ≡ job ∷ update s.queues i q c r
      at_core e e' =
          ap₂ s.queues (sym e) (sym e')
          ∙ taken
          ∙ ap (◌∷◌ job) (ap q e' ∙ sym (ap (λ f. f r) (update_eq s.queues i c q e)))

      elsewhere : (i == c) && (rank p == r) ≡ false → s.queues c r ≡ update s.queues i q c r
      elsewhere o = elim (ℕ_discrete i c) [
        | no ne ↦ sym (ap (λ f. f r) (update_ne s.queues i c q ne))
        | yes e ↦
            ap (λ x. s.queues x r) (sym e)
            ∙ sym (others r (λ same. absurd (ground arith)))
            ∙ sym (ap (λ f. f r) (update_eq s.queues i c q e))
      ]

  CoreStep-Kept :
      (c r : ℕ) {s t : Cores T} {e : Event T} (es : List (Event T))
      → CoreStep s e t
      → Kept c r es (s.queues c r)
      → Kept c r (e ∷ es) (t.queues c r)
  unfolding submit target
  CoreStep-Kept c r {s = s} es (submits job none p) k =
      submits-Kept c r (target none s).1 es job (target none s).0 p k
  CoreStep-Kept c r {s = s} es (submits job (some hint) p) k =
      submits-Kept c r (target (some hint) s).1 es job (target (some hint) s).0 p k
  CoreStep-Kept c r {s = s} es (takes i {p} {job} {q} lt e) k =
      takes-Kept c r i s es job p q (subst (IsTaken (s.queues i)) e (take_job-IsTaken (s.queues i)))
        k

  -- No job migrates, is lost or is taken twice: from empty queues, the jobs that were queued at a
  -- core with a priority are, newest first, those still in that queue and then those that the core's
  -- own worker took from it, so that each queue is served in its order.
  pub queues_kept :
      (c r : ℕ) (s t : Cores T) (es : List (Event T))
      → ((d q : ℕ) → s.queues d q ≡ [])
      → CoreRun s es t
      → accepted_at c r es ≡ reverse (t.queues c r) ++ started_at c r es
  queues_kept c r s _ _ empty start = rw (empty c r) refl
  queues_kept c r s t _ empty (later {es = es} run mv) =
      CoreStep-Kept c r es mv (queues_kept c r s _ es empty run)
