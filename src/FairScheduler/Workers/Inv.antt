-- ===== src/FairScheduler/Workers/Inv.antt =====
-- What holds whenever the threads of the fair scheduler stop: what a worker that found nothing knows,
-- and who is about to wake the sleepers.
pub mod Moves
pub mod Ringing
pub mod Steps
use thread_pool_runtime.Prelude.{
  ℕ, suc, ◌<◌, ◌≤◌, ◌≡◌, ◌≢◌, ◌⊎◌, inl, inr, refl, sym, ap, ◌∙◌, Bool, true, false, not, ◌==◌,
  arith, ℕ_discrete, true-≢-false, subst, leb,
}
use thread_pool_runtime.Prelude.Family.{update, update_eq, update_ne}
use thread_pool_runtime.FairScheduler.{FairState}
use thread_pool_runtime.FairScheduler.Inv as Fair
use thread_pool_runtime.FairScheduler.Backlog.{backlog}
use thread_pool_runtime.FairScheduler.Doubles.{Double}
use thread_pool_runtime.FairScheduler.Workers.{
  Worker, outside, looking, running, counted, ringing, timing, checking, flagged, going_to_wait,
  sleeping, exited, pushed, calling, open_for_work, stored, shouting, Pool,
}

-- The worker took the snapshot `g`, and has found no class ready since.
abbrev pub looked : {T : Type 0} → ℕ → Worker T → Bool
looked g (checking h) = h == g
looked g (flagged h) = h == g
looked g (going_to_wait h) = h == g
looked g (sleeping h) = h == g
looked g w = false

-- The worker has decided to wait on the snapshot `g`.
abbrev pub settled : {T : Type 0} → ℕ → Worker T → Bool
settled g (going_to_wait h) = h == g
settled g (sleeping h) = h == g
settled g w = false

-- The worker sleeps on another value than `g`.
abbrev pub outdated : {T : Type 0} → ℕ → Worker T → Bool
outdated g (sleeping h) = not (h == g)
outdated g w = false

-- The worker's snapshot is at most `g`.
abbrev pub is_past : {T : Type 0} → ℕ → Worker T → Bool
is_past g (looking h) = leb h g
is_past g (checking h) = leb h g
is_past g (flagged h) = leb h g
is_past g (going_to_wait h) = leb h g
is_past g (sleeping h) = leb h g
is_past g w = true

module _ {V T : Type 0} where
  -- Some thread has advanced the signal and not yet woken the sleepers.
  abbrev pub IsWaking : ℕ → Pool V T → Type 0
  IsWaking n s =
      ((c : ℕ) × (s.client c ≡ calling))
      ⊎ ((j : ℕ) × (id : ℕ) × (j < n) × (s.worker j ≡ ringing id))
      ⊎ (s.closer ≡ shouting)

  abbrev pub IsPushing : Pool V T → Type 0
  IsPushing s = (c : ℕ) × (s.client c ≡ pushed)

  -- Why a worker may wait: no call of `shutdown` needs it to look again.
  abbrev pub Reason : ℕ → Pool V T → Type 0
  Reason n s =
      (s.closer ≡ open_for_work)
      ⊎ (s.closer ≡ stored)
      ⊎ (s.pending ≢ 0)
      ⊎ ((j : ℕ) × (id : ℕ) × (j < n) × (s.worker j ≡ counted id))

-- After `k` steps of `n` workers: where a worker has found nothing there is no job, or its submitter
-- will still advance the signal; sleepers on an old count will be woken; who waits has a reason.
pub record Inv {V : Type 0} (F : Double V) {T : Type 0} (n k : ℕ) (s : Pool V T) : Type 0 where
  pub sound : Fair.Inv F s.fair
  pub small : s.gen ≤ k
  pub past : (i : ℕ) → is_past s.gen (s.worker i) ≡ true
  pub empty : (i : ℕ) → looked s.gen (s.worker i) ≡ true → (backlog s.fair ≡ 0) ⊎ IsPushing s
  pub woken : (i : ℕ) → outdated s.gen (s.worker i) ≡ true → IsWaking n s
  pub opened : s.shutdown_flag ≡ false → s.closer ≡ open_for_work
  pub reason : (i : ℕ) → settled s.gen (s.worker i) ≡ true → Reason n s

module _ {V : Type 0} {F : Double V} {T : Type 0} where
  -- A step that leaves the signal: each worker stands where it stood, or where `past`, `empty`,
  -- `woken` and `reason` hold of it.
  pub still-Inv :
      {n k : ℕ} {s : Pool V T} (t : Pool V T)
      → Inv F n k s
      → t.gen ≡ s.gen
      → Fair.Inv F t.fair
      → ((j : ℕ)
          → (t.worker j ≡ s.worker j)
            ⊎ ((is_past s.gen (t.worker j) ≡ true)
                × (looked s.gen (t.worker j) ≡ true → (backlog t.fair ≡ 0) ⊎ IsPushing t)
                × (outdated s.gen (t.worker j) ≡ false)
                × (settled s.gen (t.worker j) ≡ true → Reason n t)))
      → (backlog s.fair ≡ 0 → (backlog t.fair ≡ 0) ⊎ IsPushing t)
      → (IsPushing s → IsPushing t)
      → (IsWaking n s → IsWaking n t)
      → (Reason n s → Reason n t)
      → (t.shutdown_flag ≡ false → t.closer ≡ open_for_work)
      → Inv F n (suc k) t
  still-Inv {n} {k} {s} t v gen sound stands empty pushing waking why opened = record {
    sound = sound;
    small = omega (arith, v.small, gen);
    past = λ j.
        rw gen (elim (stands j) [
          | inl e ↦ ap (is_past s.gen) e ∙ v.past j
          | inr (past, _, _, _) ↦ past
        ]);
    empty = λ j. rw gen (λ h. elim (stands j) [
      | inl e ↦ elim (v.empty j (sym (ap (looked s.gen) e) ∙ h)) [
        | inl none_left ↦ empty none_left
        | inr p ↦ inr (pushing p)
      ]
      | inr (_, found, _, _) ↦ found h
    ]);
    woken = λ j. rw gen (λ h. elim (stands j) [
      | inl e ↦ waking (v.woken j (sym (ap (outdated s.gen) e) ∙ h))
      | inr (_, _, fresh, _) ↦ absurd (true-≢-false (sym h ∙ fresh))
    ]);
    opened = opened;
    reason = λ j. rw gen (λ h. elim (stands j) [
      | inl e ↦ why (v.reason j (sym (ap (settled s.gen) e) ∙ h))
      | inr (_, _, _, waits) ↦ waits h
    ]);
  }
