-- ===== src/FairScheduler/Workers/Inv/Ringing.antt =====
-- The steps that advance the signal or wake the sleepers keep the invariant.
use thread_pool_runtime.Prelude.{
  ℕ, suc, ◌+◌, ◌-◌, ◌%◌, ◌<◌, ◌≡◌, ◌⊎◌, inl, inr, sym, ap, ◌∙◌, Bool, true, false, true-≢-false,
  arith,
}
use thread_pool_runtime.Deque.Words.{word}
use thread_pool_runtime.FairScheduler.Doubles.{Double}
use thread_pool_runtime.FairScheduler.Workers.{
  Worker, Client, Closer, open_for_work, ringing, timing, Pool, advance, wake,
}
use thread_pool_runtime.FairScheduler.Workers.Inv.{
  looked, settled, outdated, is_past, IsWaking, IsPushing, Reason, Inv,
}

module _ {T : Type 0} where
  is_past-suc : (g : ℕ) (w : Worker T) → is_past g w ≡ true → is_past (suc g) w ≡ true
  is_past-suc g w p = ground arith

  -- No snapshot is of a later count.
  looked-suc : (g : ℕ) (w : Worker T) → is_past g w ≡ true → looked (suc g) w ≡ false
  looked-suc g w p = ground arith

  settled-suc : (g : ℕ) (w : Worker T) → is_past g w ≡ true → settled (suc g) w ≡ false
  settled-suc g w p = ground arith

  is_past-wake : (g h : ℕ) (w : Worker T) → is_past h w ≡ true → is_past h (wake g w) ≡ true
  is_past-wake g h w p = ground arith

  looked-wake : (g : ℕ) (w : Worker T) → looked g (wake g w) ≡ true → looked g w ≡ true
  looked-wake g w e = ground arith

  settled-wake : (g : ℕ) (w : Worker T) → settled g (wake g w) ≡ true → settled g w ≡ true
  settled-wake g w e = ground arith

  outdated-wake : (g : ℕ) (w : Worker T) → outdated g (wake g w) ≡ false
  outdated-wake g w = ground arith

  -- The worker has no snapshot.
  abbrev pub is_plain : Worker T → Bool
  is_plain (ringing id) = true
  is_plain (timing id) = true
  is_plain w = false

  plain_past : (g : ℕ) (w : Worker T) → is_plain w ≡ true → is_past g w ≡ true
  plain_past g w p = ground arith

  plain_unsettled : (g : ℕ) (w : Worker T) → is_plain w ≡ true → settled g w ≡ false
  plain_unsettled g w p = ground arith

  plain_unlooked : (g : ℕ) (w : Worker T) → is_plain w ≡ true → looked g w ≡ false
  plain_unlooked g w p = ground arith

  plain_current : (g : ℕ) (w : Worker T) → is_plain w ≡ true → outdated g w ≡ false
  plain_current g w p = ground arith

module _ {V : Type 0} {F : Double V} {T : Type 0} where
  -- A thread advances the signal and is about to wake the sleepers.
  pub advance-Inv :
      {n k : ℕ} {s : Pool V T} (W : ℕ → Worker T) (C : ℕ → Client V T) (X : Closer)
      → k < word - 1
      → ((j : ℕ) → (W j ≡ s.worker j) ⊎ (is_plain (W j) ≡ true))
      → IsWaking n (record (advance s) { worker = W; client = C; closer = X })
      → (s.shutdown_flag ≡ false → X ≡ open_for_work)
      → Inv F n k s
      → Inv F n (suc k) (record (advance s) { worker = W; client = C; closer = X })
  advance-Inv {s = s} W C X less same waking clear v = rw next (record {
    sound = v.sound;
    small = omega (arith, v.small);
    past = λ j. is_past-suc s.gen (W j) (before j);
    empty = λ j h. absurd (true-≢-false (sym h ∙ looked-suc s.gen (W j) (before j)));
    woken = λ j h. waking;
    opened = clear;
    reason = λ j h. absurd (true-≢-false (sym h ∙ settled-suc s.gen (W j) (before j)));
  })
    where
      next : (s.gen + 1) % word ≡ suc s.gen
      next = omega (arith, v.small)

      before : (j : ℕ) → is_past s.gen (W j) ≡ true
      before j = elim (same j) [
        | inl e ↦ ap (is_past s.gen) e ∙ v.past j
        | inr p ↦ plain_past s.gen (W j) p
      ]

  -- A thread wakes the sleepers.
  pub wake-Inv :
      {n k : ℕ} {s : Pool V T} (W : ℕ → Worker T) (C : ℕ → Client V T) (X : Closer)
      → ((j : ℕ) → (W j ≡ wake s.gen (s.worker j)) ⊎ (is_plain (W j) ≡ true))
      → (IsPushing s → IsPushing (record s { worker = W; client = C; closer = X }))
      → (s.shutdown_flag ≡ false → X ≡ open_for_work)
      → (Reason n s → Reason n (record s { worker = W; client = C; closer = X }))
      → Inv F n k s
      → Inv F n (suc k) (record s { worker = W; client = C; closer = X })
  wake-Inv {n = n} {s = s} W C X same pushing clear why v = record {
    sound = v.sound;
    small = omega (arith, v.small);
    past = λ j. elim (same j) [
      | inl e ↦ ap (is_past s.gen) e ∙ is_past-wake s.gen s.gen (s.worker j) (v.past j)
      | inr p ↦ plain_past s.gen (W j) p
    ];
    empty = λ j h. elim (same j) [
      | inl e ↦ elim (v.empty j (looked-wake s.gen (s.worker j) (sym (ap (looked s.gen) e) ∙ h))) [
        | inl none_left ↦ inl none_left
        | inr p ↦ inr (pushing p)
      ]
      | inr p ↦ absurd (true-≢-false (sym h ∙ plain_unlooked s.gen (W j) p))
    ];
    woken = λ j h. absurd (true-≢-false (sym h ∙ current j));
    opened = clear;
    reason = λ j h. elim (same j) [
      | inl e ↦ why (v.reason j (settled-wake s.gen (s.worker j) (sym (ap (settled s.gen) e) ∙ h)))
      | inr p ↦ absurd (true-≢-false (sym h ∙ plain_unsettled s.gen (W j) p))
    ];
  }
    where
      current : (j : ℕ) → outdated s.gen (W j) ≡ false
      current j = elim (same j) [
        | inl e ↦ ap (outdated s.gen) e ∙ outdated-wake s.gen (s.worker j)
        | inr p ↦ plain_current s.gen (W j) p
      ]
