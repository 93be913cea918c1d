-- ===== src/FairScheduler/Workers/Inv/Moves.antt =====
-- The steps of a worker that leave the signal keep the invariant.
use thread_pool_runtime.Prelude.{
  length, ℕ, suc, ◌<◌, ◌≡◌, ◌≢◌, ◌⊎◌, inl, inr, refl, sym, ap, ◌∙◌, subst, Bool, true, false, arith,
  ℕ_discrete,
}
use thread_pool_runtime.Prelude.Family.{update_eq, update_ne}
use thread_pool_runtime.FairScheduler.{FairState, account}
use thread_pool_runtime.FairScheduler.Inv as Fair
use thread_pool_runtime.FairScheduler.Inv.{account-Inv}
use thread_pool_runtime.FairScheduler.Dispatch.{IsDispatch, dispatch-IsDispatch}
use thread_pool_runtime.FairScheduler.Backlog.{
  backlog, dispatch-IsServed, nothing_ready-backlog, account-KeepsQueues, backlog-KeepsQueues,
}
use thread_pool_runtime.FairScheduler.Doubles.{Double, IsOrdered}
use thread_pool_runtime.FairScheduler.Workers.{
  Worker, outside, looking, running, counted, ringing, timing, checking, flagged, going_to_wait,
  sleeping, exited, Pool, moves, WorkerMove, snapshots, takes, finds_nothing, finishes, accounts,
  sees_open, sees_flag, breaks, sees_pending, waits_not, sleeps,
}
use thread_pool_runtime.FairScheduler.Workers.Inv.{
  looked, settled, outdated, is_past, IsWaking, IsPushing, Reason, Inv, still-Inv,
}

-- Neither `counted` nor `ringing`.
abbrev is_quiet : {T : Type 0} → Worker T → Bool
is_quiet (counted id) = false
is_quiet (ringing id) = false
is_quiet w = true

module _ {V : Type 0} {F : Double V} (L : IsOrdered F) {T : Type 0} where
  -- Worker `i` moves from a quiet place to `w`, and leaves the scheduler's state as `f`.
  quiet-Inv :
      {n k : ℕ} {s : Pool V T} (i : ℕ) (w : Worker T) (f : FairState V T)
      → is_quiet (s.worker i) ≡ true
      → Fair.Inv F f
      → (backlog s.fair ≡ 0 → backlog f ≡ 0)
      → is_past s.gen w ≡ true
      → (looked s.gen w ≡ true → (backlog f ≡ 0) ⊎ IsPushing s)
      → outdated s.gen w ≡ false
      → (settled s.gen w ≡ true → Reason n s)
      → Inv F n k s
      → Inv F n (suc k) (moves (record s { fair = f }) i w)
  quiet-Inv {n = n} {s = s} i w f quiet sound less past found fresh why v =
      still-Inv t v refl sound
        (λ j. elim (ℕ_discrete i j) [
          | no ne ↦ inl (update_ne s.worker i j w ne)
          | yes e ↦ inr (subst Stands (sym (update_eq s.worker i j w e)) here)
        ])
        (λ z. inl (less z)) (λ p. p) still_waking still_reason v.opened
    where
      t : Pool V T
      t = moves (record s { fair = f }) i w

      loud : (j : ℕ) (x : Worker T) → s.worker j ≡ x → is_quiet x ≡ false → i ≢ j
      loud j x e l same =
          let a : is_quiet (s.worker i) ≡ is_quiet x = ap is_quiet (ap s.worker same ∙ e) in
          absurd (cc)

      still_waking : IsWaking n s → IsWaking n t
      still_waking (inl x) = inl x
      still_waking (inr (inl (j, id, lt, e))) =
          inr (inl (j, id, lt, update_ne s.worker i j w (loud j (ringing id) e refl) ∙ e))
      still_waking (inr (inr e)) = inr (inr e)

      still_reason : Reason n s → Reason n t
      still_reason (inl e) = inl e
      still_reason (inr (inl e)) = inr (inl e)
      still_reason (inr (inr (inl e))) = inr (inr (inl e))
      still_reason (inr (inr (inr (j, id, lt, e)))) =
          inr (inr (inr (j, id, lt, update_ne s.worker i j w (loud j (counted id) e refl) ∙ e)))

      Stands : Worker T → Type 0
      Stands x =
          (is_past s.gen x ≡ true)
          × (looked s.gen x ≡ true → (backlog f ≡ 0) ⊎ IsPushing t)
          × (outdated s.gen x ≡ false)
          × (settled s.gen x ≡ true → Reason n t)

      here : Stands w
      here = (past, found, fresh, λ h. still_reason (why h))

  -- The scheduler's state stays.
  pub walk-Inv :
      {n k : ℕ} {s : Pool V T} (i : ℕ) (w : Worker T)
      → is_quiet (s.worker i) ≡ true
      → is_past s.gen w ≡ true
      → (looked s.gen w ≡ true → (backlog s.fair ≡ 0) ⊎ IsPushing s)
      → outdated s.gen w ≡ false
      → (settled s.gen w ≡ true → Reason n s)
      → Inv F n k s
      → Inv F n (suc k) (moves s i w)
  walk-Inv {s = s} i w quiet past found fresh why v =
      quiet-Inv i w s.fair quiet v.sound (λ z. z) past found fresh why v

  pub looking-Inv :
      {n k i g : ℕ} {s t : Pool V T}
      → s.worker i ≡ looking g
      → WorkerMove F s i (looking g) t
      → Inv F n k s
      → Inv F n (suc k) t
  looking-Inv {i = i} {s = s} at (takes id job f e) v =
      let (front, _, change) = dispatch-IsServed L s.fair f id job v.sound e in
      quiet-Inv i (running id job) f (ap is_quiet at)
        (subst (IsDispatch L s.fair) e (dispatch-IsDispatch L s.fair v.sound)).0
        (λ z. absurd (omega (arith, z, change length refl, ap length front))) refl
        (λ h. absurd (cc)) refl (λ h. absurd (cc)) v
  looking-Inv {i = i} {g = g} {s = s} at (finds_nothing e) v =
      walk-Inv i (checking g) (ap is_quiet at) (sym (ap (is_past s.gen) at) ∙ v.past i)
        (λ h. inl (nothing_ready-backlog L s.fair v.sound e)) refl (λ h. absurd (cc)) v

  pub checking-Inv :
      {n k i g : ℕ} {s t : Pool V T}
      → s.worker i ≡ checking g
      → WorkerMove F s i (checking g) t
      → Inv F n k s
      → Inv F n (suc k) t
  checking-Inv {i = i} {g = g} {s = s} at (sees_open e) v =
      walk-Inv i (going_to_wait g) (ap is_quiet at) (sym (ap (is_past s.gen) at) ∙ v.past i)
        (λ h. v.empty i (ap (looked s.gen) at ∙ h)) refl (λ h. inl (v.opened e)) v
  checking-Inv {i = i} {g = g} {s = s} at (sees_flag e) v =
      walk-Inv i (flagged g) (ap is_quiet at) (sym (ap (is_past s.gen) at) ∙ v.past i)
        (λ h. v.empty i (ap (looked s.gen) at ∙ h)) refl (λ h. absurd (cc)) v

  pub flagged-Inv :
      {n k i g : ℕ} {s t : Pool V T}
      → s.worker i ≡ flagged g
      → WorkerMove F s i (flagged g) t
      → Inv F n k s
      → Inv F n (suc k) t
  flagged-Inv {i = i} {g = g} at (breaks e) v =
      walk-Inv i exited (ap is_quiet at) refl (λ h. absurd (cc)) refl (λ h. absurd (cc)) v
  flagged-Inv {i = i} {g = g} {s = s} at (sees_pending e) v =
      walk-Inv i (going_to_wait g) (ap is_quiet at) (sym (ap (is_past s.gen) at) ∙ v.past i)
        (λ h. v.empty i (ap (looked s.gen) at ∙ h)) refl (λ h. inr (inr (inl e))) v

  pub going_to_wait-Inv :
      {n k i g : ℕ} {s t : Pool V T}
      → s.worker i ≡ going_to_wait g
      → WorkerMove F s i (going_to_wait g) t
      → Inv F n k s
      → Inv F n (suc k) t
  going_to_wait-Inv {i = i} {g = g} at (waits_not e) v =
      walk-Inv i outside (ap is_quiet at) refl (λ h. absurd (cc)) refl (λ h. absurd (cc)) v
  going_to_wait-Inv {i = i} {g = g} {s = s} at (sleeps e) v =
      walk-Inv i (sleeping g) (ap is_quiet at) (sym (ap (is_past s.gen) at) ∙ v.past i)
        (λ h. v.empty i (ap (looked s.gen) at ∙ h)) (ground arith)
        (λ h. v.reason i (ap (settled s.gen) at ∙ h)) v

  -- A job is accounted for.
  pub timing-Inv :
      {n k i id : ℕ} {s t : Pool V T}
      → s.worker i ≡ timing id
      → WorkerMove F s i (timing id) t
      → Inv F n k s
      → Inv F n (suc k) t
  timing-Inv {i = i} {id = id} {s = s} at (accounts elapsed pos) v =
      quiet-Inv i outside (account F id elapsed s.fair) (ap is_quiet at)
        (account-Inv L id elapsed s.fair pos v.sound)
        (λ z.
          backlog-KeepsQueues L length s.fair (account F id elapsed s.fair) refl v.sound
            (account-KeepsQueues L id elapsed s.fair)
          ∙ z)
        refl (λ h. absurd (cc)) refl (λ h. absurd (cc)) v

  -- A job has run: `pending` is one less, and its worker is about to ring.
  pub running-Inv :
      {n k i id : ℕ} {s t : Pool V T} {job : T}
      → i < n
      → s.worker i ≡ running id job
      → WorkerMove F s i (running id job) t
      → Inv F n k s
      → Inv F n (suc k) t
  running-Inv {n = n} {i = i} {id = id} {s = s} {t = t} {job = job} lt at finishes v =
      still-Inv t v refl v.sound
        (λ j. elim (ℕ_discrete i j) [
          | no ne ↦ inl (update_ne s.worker i j (counted id) ne)
          | yes e ↦
              inr
                (ground arith, λ h. absurd (ground arith), ground arith, λ h. absurd (ground arith))
        ])
        (λ z. inl z) (λ p. p) still_waking
        (λ r. inr (inr (inr (i, id, lt, update_eq s.worker i i (counted id) refl)))) v.opened
    where
      still_waking : IsWaking n s → IsWaking n t
      still_waking (inl x) = inl x
      still_waking (inr (inl (j, d, below, e))) = inr (inl (j, d, below, ground (arith, at)))
      still_waking (inr (inr e)) = inr (inr e)

  pub outside-Inv :
      {n k i : ℕ} {s t : Pool V T}
      → s.worker i ≡ outside
      → WorkerMove F s i outside t
      → Inv F n k s
      → Inv F n (suc k) t
  outside-Inv {i = i} {s = s} at snapshots v =
      walk-Inv i (looking s.gen) (ap is_quiet at) (ground arith) (λ h. absurd (cc)) refl
        (λ h. absurd (cc)) v
