-- ===== src/WorkStealing/Workers/Ringing.antt =====
-- The steps that finish a job, advance the count or wake the sleepers.
use thread_pool_runtime.Prelude.{
  ℕ, true-≢-false, suc, ◌+◌, ◌-◌, ◌%◌, ◌<◌, ◌≡◌, ◌⊎◌, inl, inr, refl, sym, ap, subst, ◌∙◌, true,
  false, ◌==◌, [], arith, Bool-cases,
}
use thread_pool_runtime.Deque.Words.{word}
use thread_pool_runtime.WorkStealing.Workers.{
  Worker, outside, searching, checking, flagged, going_to_wait, sleeping, running, counted, ringing,
  exited, Client, Closer, open_for_work, Pool, advance, wake,
}
use thread_pool_runtime.WorkStealing.Workers.Inv.{
  looked_own, looked_injected, IsPast, settled, outdated, IsWaking, IsPushing, Reason, Inv,
}

module _ {T : Type 0} where
  IsPast-suc : (g : ℕ) (w : Worker T) → IsPast g w → IsPast (suc g) w
  IsPast-suc g outside p = tt
  IsPast-suc g (searching h ps) p = omega arith
  IsPast-suc g (checking h) p = omega arith
  IsPast-suc g (flagged h) p = omega arith
  IsPast-suc g (going_to_wait h) p = omega arith
  IsPast-suc g (sleeping h) p = omega arith
  IsPast-suc g (running job) p = tt
  IsPast-suc g counted p = tt
  IsPast-suc g ringing p = tt
  IsPast-suc g exited p = tt

  -- No snapshot is of a later count.
  looked_injected-suc : (r g : ℕ) (w : Worker T) → IsPast g w → looked_injected r (suc g) w ≡ false
  looked_injected-suc r g outside p = refl
  looked_injected-suc r g (searching h ps) p = ground arith
  looked_injected-suc r g (checking h) p = ground arith
  looked_injected-suc r g (flagged h) p = ground arith
  looked_injected-suc r g (going_to_wait h) p = ground arith
  looked_injected-suc r g (sleeping h) p = ground arith
  looked_injected-suc r g (running job) p = refl
  looked_injected-suc r g counted p = refl
  looked_injected-suc r g ringing p = refl
  looked_injected-suc r g exited p = refl

  settled-suc : (g : ℕ) (w : Worker T) → IsPast g w → settled (suc g) w ≡ false
  settled-suc g outside p = refl
  settled-suc g (searching h ps) p = refl
  settled-suc g (checking h) p = refl
  settled-suc g (flagged h) p = refl
  settled-suc g (going_to_wait h) p = ground arith
  settled-suc g (sleeping h) p = ground arith
  settled-suc g (running job) p = refl
  settled-suc g counted p = refl
  settled-suc g ringing p = refl
  settled-suc g exited p = refl

  -- A thread advances the count and is about to wake the sleepers.
  pub advance-Inv :
      {k : ℕ} {s : Pool T} (W : ℕ → Worker T) (C : ℕ → Client T) (X : Closer)
      → k < word - 1
      → ((j : ℕ) → (W j ≡ s.worker j) ⊎ (W j ≡ ringing))
      → IsWaking (record (advance s) { worker = W; client = C; closer = X })
      → (s.shutdown_flag ≡ false → X ≡ open_for_work)
      → Inv k s
      → Inv (suc k) (record (advance s) { worker = W; client = C; closer = X })
  advance-Inv {k} {s} W C X less same waking clear v = rw next (record {
    small = omega (arith, v.small);
    past = λ j. IsPast-suc s.gen (W j) (past_new j);
    own_empty = λ j r h lt. elim (same j) [
      | inl e ↦ v.own_empty j r (sym (ap (looked_own r) e) ∙ h) lt
      | inr e ↦ absurd (true-≢-false (sym h ∙ ap (looked_own r) e))
    ];
    injected_empty =
        λ j r h lt. absurd (true-≢-false (sym h ∙ looked_injected-suc r s.gen (W j) (past_new j)));
    woken = λ j h. waking;
    opened = clear;
    reason = λ j h. absurd (true-≢-false (sym h ∙ settled-suc s.gen (W j) (past_new j)));
  })
    where
      next : (s.gen + 1) % word ≡ suc s.gen
      next = omega (arith, v.small)

      past_new : (j : ℕ) → IsPast s.gen (W j)
      past_new j = elim (same j) [
        | inl e ↦ subst (IsPast s.gen) (sym e) (v.past j)
        | inr e ↦ subst (IsPast s.gen) (sym e) tt
      ]

  -- A woken worker has looked nowhere that it has not looked before, and none sleeps on an old count.
  wake-IsPast : (g : ℕ) (w : Worker T) → IsPast g w → IsPast g (wake g w)
  wake-IsPast g (sleeping h) p = elim (Bool-cases (h == g)) [ inl e ↦ rw e p | inr e ↦ rw e tt ]
  wake-IsPast g outside p = tt
  wake-IsPast g (searching h ps) p = p
  wake-IsPast g (checking h) p = p
  wake-IsPast g (flagged h) p = p
  wake-IsPast g (going_to_wait h) p = p
  wake-IsPast g (running job) p = tt
  wake-IsPast g counted p = tt
  wake-IsPast g ringing p = tt
  wake-IsPast g exited p = tt

  wake-own : (r g : ℕ) (w : Worker T) → looked_own r (wake g w) ≡ true → looked_own r w ≡ true
  wake-own r g w e = ground arith

  wake-injected :
      (r g : ℕ) (w : Worker T)
      → looked_injected r g (wake g w) ≡ true
      → looked_injected r g w ≡ true
  wake-injected r g w e = ground arith

  wake-outdated : (g : ℕ) (w : Worker T) → outdated g (wake g w) ≡ false
  wake-outdated g w = ground arith

  wake-settled : (g : ℕ) (w : Worker T) → settled g (wake g w) ≡ true → settled g w ≡ true
  wake-settled g w e = ground arith

  -- A thread wakes the sleepers.
  pub wake-Inv :
      {k : ℕ} {s : Pool T} (W : ℕ → Worker T) (C : ℕ → Client T) (X : Closer)
      → ((j : ℕ) → (W j ≡ wake s.gen (s.worker j)) ⊎ (W j ≡ outside))
      → (IsPushing s → IsPushing (record s { worker = W; client = C; closer = X }))
      → (s.shutdown_flag ≡ false → X ≡ open_for_work)
      → (Reason s → Reason (record s { worker = W; client = C; closer = X }))
      → Inv k s
      → Inv (suc k) (record s { worker = W; client = C; closer = X })
  wake-Inv {k} {s} W C X same pushing clear why v = record {
    small = omega (arith, v.small);
    past = λ j. elim (same j) [
      | inl e ↦ subst (IsPast s.gen) (sym e) (wake-IsPast s.gen (s.worker j) (v.past j))
      | inr e ↦ subst (IsPast s.gen) (sym e) tt
    ];
    own_empty = λ j r h lt. elim (same j) [
      | inl e ↦ v.own_empty j r (wake-own r s.gen (s.worker j) (sym (ap (looked_own r) e) ∙ h)) lt
      | inr e ↦ absurd (true-≢-false (sym h ∙ ap (looked_own r) e))
    ];
    injected_empty = λ j r h lt. elim (same j) [
      | inl e ↦ still (
          v.injected_empty j r
            (wake-injected r s.gen (s.worker j) (sym (ap (looked_injected r s.gen) e) ∙ h)) lt)
      | inr e ↦ absurd (true-≢-false (sym h ∙ ap (looked_injected r s.gen) e))
    ];
    woken = λ j h. elim (same j) [
      | inl e ↦
          absurd (true-≢-false (sym h ∙ ap (outdated s.gen) e ∙ wake-outdated s.gen (s.worker j)))
      | inr e ↦ absurd (true-≢-false (sym h ∙ ap (outdated s.gen) e))
    ];
    opened = clear;
    reason = λ j h. elim (same j) [
      | inl e ↦ why (v.reason j (wake-settled s.gen (s.worker j) (sym (ap (settled s.gen) e) ∙ h)))
      | inr e ↦ absurd (true-≢-false (sym h ∙ ap (settled s.gen) e))
    ];
  }
    where
      still :
          {r : ℕ}
          → (s.injectors r ≡ []) ⊎ IsPushing s
          → (s.injectors r ≡ []) ⊎ IsPushing (record s { worker = W; client = C; closer = X })
      still (inl e) = inl e
      still (inr e) = inr (pushing e)
