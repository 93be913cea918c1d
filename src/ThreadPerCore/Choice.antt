-- ===== src/ThreadPerCore/Choice.antt =====
-- Which job a worker takes from the queues of its core.
use thread_pool_runtime.Prelude.{
  ℕ, first-cases, ◌<◌, ◌≡◌, ◌≢◌, inl, inr, refl, sym, ap, ◌∙◌, arith, List, [], ◌∷◌, Option, none,
  some,
}
use thread_pool_runtime.Prelude.Family.{update, update_eq, update_ne}
use thread_pool_runtime.Priority.{Priority, high, normal, background, rank, priority_order}
use thread_pool_runtime.ThreadPerCore.{take_job}

module _ {T : Type 0} where
  -- What taking a job from the queues `q` may yield.
  abbrev pub IsTaken : (ℕ → List T) → Option (Priority × T) × (ℕ → List T) → Type 0
  IsTaken q (none, q') = ((p : Priority) → q (rank p) ≡ []) × (q' ≡ q)
  IsTaken q (some (p, job), q') =
      ((x : Priority) → rank x < rank p → q (rank x) ≡ [])
      × (q (rank p) ≡ job ∷ q' (rank p))
      × ((r : ℕ) → r ≢ rank p → q' r ≡ q r)

  take_job-found :
      (p : Priority) (ps : List Priority) (q : ℕ → List T) (job : T) (rest : List T)
      → q (rank p) ≡ job ∷ rest
      → take_job (p ∷ ps) q ≡ (some (p, job), update q (rank p) rest)
  unfolding take_job
  take_job-found p ps q job rest e = rw (take_job, e) refl

  take_job-skip :
      (p : Priority) (ps : List Priority) (q : ℕ → List T)
      → q (rank p) ≡ []
      → take_job (p ∷ ps) q ≡ take_job ps q
  unfolding take_job
  take_job-skip p ps q e = rw (take_job, e) refl

  found-IsTaken :
      (p : Priority) (q : ℕ → List T) (job : T) (rest : List T)
      → q (rank p) ≡ job ∷ rest
      → ((x : Priority) → rank x < rank p → q (rank x) ≡ [])
      → IsTaken q (some (p, job), update q (rank p) rest)
  found-IsTaken p q job rest e above = (
    above,
    e ∙ ap (◌∷◌ job) (sym (update_eq q (rank p) (rank p) rest refl)),
    λ r ne. update_ne q (rank p) r rest (λ same. ne (sym same)),
  )

  -- A worker takes the oldest job of the highest priority that its core has, leaves the other queues
  -- as they are, and finds nothing just when they are all empty.
  pub take_job-IsTaken : (q : ℕ → List T) → IsTaken q (take_job priority_order q)
  unfolding take_job
  take_job-IsTaken q = elim (first-cases (q 0)) [
    | inr (x, ys, e) ↦
        rw (take_job-found high (normal ∷ background ∷ []) q x ys e)
          (found-IsTaken high q x ys e (λ y lt. absurd (omega arith)))
    | inl none_high ↦
        rw (take_job-skip high (normal ∷ background ∷ []) q none_high) (elim (first-cases (q 1)) [
          | inr (x, ys, e) ↦
              rw (take_job-found normal (background ∷ []) q x ys e)
                (found-IsTaken normal q x ys e (below_normal none_high))
          | inl none_normal ↦
              rw (take_job-skip normal (background ∷ []) q none_normal) (elim (first-cases (q 2)) [
                | inr (x, ys, e) ↦
                    rw (take_job-found background [] q x ys e)
                      (found-IsTaken background q x ys e (below_background none_high none_normal))
                | inl none_background ↦
                    rw (take_job-skip background [] q none_background)
                      (nothing none_high none_normal none_background)
              ])
        ])
  ]
    where
      below_normal : q 0 ≡ [] → (y : Priority) → rank y < 1 → q (rank y) ≡ []
      below_normal a high lt = a
      below_normal a normal lt = absurd (omega arith)
      below_normal a background lt = absurd (omega arith)

      below_background : q 0 ≡ [] → q 1 ≡ [] → (y : Priority) → rank y < 2 → q (rank y) ≡ []
      below_background a b high lt = a
      below_background a b normal lt = b
      below_background a b background lt = absurd (omega arith)

      all : q 0 ≡ [] → q 1 ≡ [] → q 2 ≡ [] → (p : Priority) → q (rank p) ≡ []
      all a b c high = a
      all a b c normal = b
      all a b c background = c

      nothing : q 0 ≡ [] → q 1 ≡ [] → q 2 ≡ [] → IsTaken q (take_job [] q)
      nothing a b c = (λ p. all a b c p, refl)
