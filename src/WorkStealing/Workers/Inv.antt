-- ===== src/WorkStealing/Workers/Inv.antt =====
-- What holds whenever the threads of the work-stealing scheduler stop: where a worker has looked in
-- vain, and who is about to wake the sleepers.
use thread_pool_runtime.Prelude.{
  ℕ, suc, ◌<◌, ◌≤◌, ◌≡◌, ◌≢◌, ◌⊎◌, inl, inr, refl, sym, ap, ◌∙◌, Bool, true, false, not, ◌&&◌,
  if◌then◌else◌, ◌==◌, List, [], ◌∷◌, arith, ℕ_discrete,
}
use thread_pool_runtime.Prelude.Family.{update, update_eq, update_ne}
use thread_pool_runtime.Metrics.{Metrics}
use thread_pool_runtime.Priority.{rank}
use thread_pool_runtime.WorkStealing.Workers.{
  Probe, own, injected, peer, Worker, outside, searching, checking, flagged, going_to_wait,
  sleeping, running, counted, ringing, exited, pushed, calling, open_for_work, stored, shouting,
  Pool,
}

-- The probes that are still to come look at the own deque, or the injector, of rank `r`.
abbrev pub has_own : ℕ → List Probe → Bool
has_own r [] = false
has_own r (own p ∷ ps) = if rank p == r then true else has_own r ps
has_own r (injected p ∷ ps) = has_own r ps
has_own r (peer v p ∷ ps) = has_own r ps

abbrev pub has_injected : ℕ → List Probe → Bool
has_injected r [] = false
has_injected r (own p ∷ ps) = has_injected r ps
has_injected r (injected p ∷ ps) = if rank p == r then true else has_injected r ps
has_injected r (peer v p ∷ ps) = has_injected r ps

-- The worker has found its own deque of rank `r` empty since it last ran a job.
abbrev pub looked_own : {T : Type 0} → ℕ → Worker T → Bool
looked_own r outside = false
looked_own r (searching g ps) = not (has_own r ps)
looked_own r (checking g) = true
looked_own r (flagged g) = true
looked_own r (going_to_wait g) = true
looked_own r (sleeping g) = true
looked_own r (running job) = false
looked_own r counted = false
looked_own r ringing = false
looked_own r exited = true

-- The worker took the snapshot `g`, and has since found the injector of rank `r` empty.
abbrev pub looked_injected : {T : Type 0} → ℕ → ℕ → Worker T → Bool
looked_injected r g outside = false
looked_injected r g (searching h ps) = (h == g) && not (has_injected r ps)
looked_injected r g (checking h) = h == g
looked_injected r g (flagged h) = h == g
looked_injected r g (going_to_wait h) = h == g
looked_injected r g (sleeping h) = h == g
looked_injected r g (running job) = false
looked_injected r g counted = false
looked_injected r g ringing = false
looked_injected r g exited = false

-- The worker's snapshot is at most `g`.
abbrev pub IsPast : {T : Type 0} → ℕ → Worker T → Type 0
IsPast g outside = Unit
IsPast g (searching h ps) = h ≤ g
IsPast g (checking h) = h ≤ g
IsPast g (flagged h) = h ≤ g
IsPast g (going_to_wait h) = h ≤ g
IsPast g (sleeping h) = h ≤ g
IsPast g (running job) = Unit
IsPast g counted = Unit
IsPast g ringing = Unit
IsPast g exited = Unit

-- The worker has decided to wait on the snapshot `g`.
abbrev pub settled : {T : Type 0} → ℕ → Worker T → Bool
settled g (going_to_wait h) = h == g
settled g (sleeping h) = h == g
settled g w = false

-- The worker sleeps on another value than `g`.
abbrev pub outdated : {T : Type 0} → ℕ → Worker T → Bool
outdated g (sleeping h) = not (h == g)
outdated g w = false

-- Some thread has advanced the count and not yet woken the sleepers.
abbrev pub IsWaking : {T : Type 0} → Pool T → Type 0
IsWaking s =
    ((c : ℕ) × (s.client c ≡ calling)) ⊎ ((i : ℕ) × (s.worker i ≡ ringing)) ⊎ (s.closer ≡ shouting)

abbrev pub IsPushing : {T : Type 0} → Pool T → Type 0
IsPushing s = (c : ℕ) × (s.client c ≡ pushed)

-- Why a worker may wait: no call of `shutdown` needs it to look again.
abbrev pub Reason : {T : Type 0} → Pool T → Type 0
Reason s =
    (s.closer ≡ open_for_work)
    ⊎ (s.closer ≡ stored)
    ⊎ (s.pending ≢ 0)
    ⊎ ((j : ℕ) × (s.worker j ≡ counted))

-- After `k` steps: where workers have found nothing there is nothing, or its submitter will still
-- advance the count; sleepers on an old count will be woken; and who waits has a reason.
pub record Inv {T : Type 0} (k : ℕ) (s : Pool T) : Type 0 where
  pub small : s.gen ≤ k
  pub past : (i : ℕ) → IsPast s.gen (s.worker i)
  pub own_empty : (i r : ℕ) → looked_own r (s.worker i) ≡ true → r < 3 → s.deques i r ≡ []
  pub injected_empty :
      (i r : ℕ)
      → looked_injected r s.gen (s.worker i) ≡ true
      → r < 3
      → (s.injectors r ≡ []) ⊎ IsPushing s
  pub woken : (i : ℕ) → outdated s.gen (s.worker i) ≡ true → IsWaking s
  pub opened : s.shutdown_flag ≡ false → s.closer ≡ open_for_work
  pub reason : (i : ℕ) → settled s.gen (s.worker i) ≡ true → Reason s

-- Neither `counted` nor `ringing`.
abbrev pub is_quiet : {T : Type 0} → Worker T → Bool
is_quiet counted = false
is_quiet ringing = false
is_quiet w = true

module _ {T : Type 0} where
  -- A step of worker `i` from a quiet place to `w`, on the deques, the injectors and the metrics.
  pub change-Inv :
      {k : ℕ} {s : Pool T} (i : ℕ) (w : Worker T) (D : ℕ → ℕ → List T) (I : ℕ → List T)
      (M : Metrics)
      → is_quiet (s.worker i) ≡ true
      → IsPast s.gen w
      → ((r : ℕ) → looked_own r w ≡ true → r < 3 → D i r ≡ [])
      → ((j r : ℕ) → j ≢ i → s.deques j r ≡ [] → D j r ≡ [])
      → ((r : ℕ) → looked_injected r s.gen w ≡ true → r < 3 → (I r ≡ []) ⊎ IsPushing s)
      → ((r : ℕ) → s.injectors r ≡ [] → I r ≡ [])
      → outdated s.gen w ≡ false
      → (settled s.gen w ≡ true → Reason s)
      → Inv k s
      → Inv
          (suc k)
          (record s { deques = D; injectors = I; metrics = M; worker = update s.worker i w })
  change-Inv {k} {s} i w D I M quiet past mine others inj pulled fresh why v = record {
    small = omega (arith, v.small);
    past = λ j. elim (ℕ_discrete i j) [
      | yes e ↦ rw (update_eq s.worker i j w e) past
      | no ne ↦ rw (update_ne s.worker i j w ne) (v.past j)
    ];
    own_empty = λ j r. elim (ℕ_discrete i j) [
      | yes e ↦ rw (update_eq s.worker i j w e, sym e) (mine r)
      | no ne ↦
          rw (update_ne s.worker i j w ne)
            (λ h lt. others j r (λ e. ne (sym e)) (v.own_empty j r h lt))
    ];
    injected_empty = λ j r. elim (ℕ_discrete i j) [
      | yes e ↦ rw (update_eq s.worker i j w e) (inj r)
      | no ne ↦ rw (update_ne s.worker i j w ne) (λ h lt. elim (v.injected_empty j r h lt) [
        | inl none_left ↦ inl (pulled r none_left)
        | inr pushing ↦ inr pushing
      ])
    ];
    woken = λ j. elim (ℕ_discrete i j) [
      | yes e ↦ rw (update_eq s.worker i j w e, fresh) (λ h. absurd (cc))
      | no ne ↦ rw (update_ne s.worker i j w ne) (λ h. still_waking (v.woken j h))
    ];
    opened = v.opened;
    reason = λ j. elim (ℕ_discrete i j) [
      | yes e ↦ rw (update_eq s.worker i j w e) (λ h. still_reason (why h))
      | no ne ↦ rw (update_ne s.worker i j w ne) (λ h. still_reason (v.reason j h))
    ];
  }
    where
      t : Pool T
      t = record s { deques = D; injectors = I; metrics = M; worker = update s.worker i w }

      loud : (j : ℕ) (x : Worker T) → s.worker j ≡ x → is_quiet x ≡ false → i ≢ j
      loud j x e l same =
          let a : is_quiet (s.worker i) ≡ is_quiet x = ap is_quiet (ap s.worker same ∙ e) in
          absurd (cc)

      still_waking : IsWaking s → IsWaking t
      still_waking (inl (c, e)) = inl (c, e)
      still_waking (inr (inl (j, e))) =
          inr (inl (j, update_ne s.worker i j w (loud j ringing e refl) ∙ e))
      still_waking (inr (inr e)) = inr (inr e)

      still_reason : Reason s → Reason t
      still_reason (inl e) = inl e
      still_reason (inr (inl e)) = inr (inl e)
      still_reason (inr (inr (inl e))) = inr (inr (inl e))
      still_reason (inr (inr (inr (j, e)))) =
          inr (inr (inr (j, update_ne s.worker i j w (loud j counted e refl) ∙ e)))
