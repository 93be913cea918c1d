-- ===== src/WorkStealing/Workers/Steps.antt =====
-- Every step keeps the invariant.
use thread_pool_runtime.Prelude.{
  ℕ, suc, ◌+◌, ◌-◌, ◌%◌, ◌<◌, ◌≡◌, ◌≢◌, ◌⊎◌, inl, inr, refl, sym, ap, ◌∙◌, Bool, true, false, List,
  [], ◌∷◌, ◌++◌, arith, ℕ_discrete,
}
use thread_pool_runtime.Prelude.Family.{update, update_eq, update_ne}
use thread_pool_runtime.Deque.Words.{word, sub64}
use thread_pool_runtime.Metrics.{Metrics, record_submitted}
use thread_pool_runtime.Priority.{rank}
use thread_pool_runtime.WorkStealing.Workers.{
  Worker, outside, searching, checking, flagged, going_to_wait, sleeping, running, counted, ringing,
  exited, Client, away, recorded, holding, pushed, calling, Closer, open_for_work, stored, shouting,
  notified, joined, Pool, wake, WorkerMove, snapshots, finishes, rings, wakes_all, ClientMove,
  records, counts, pushes, advances, calls, CloserMove, stores, shouts, notifies, joins, Step,
  by_worker, by_client, by_closer, initial,
}
use thread_pool_runtime.WorkStealing.Workers.Inv.{IsWaking, Reason, Inv, is_quiet}
use thread_pool_runtime.WorkStealing.Workers.Looking.{looking-Inv}
use thread_pool_runtime.WorkStealing.Workers.Waiting.{
  snapshots-Inv, checking-Inv, flagged-Inv, going_to_wait-Inv,
}
use thread_pool_runtime.WorkStealing.Workers.Ringing.{advance-Inv, wake-Inv}

-- Neither `pushed` nor `calling`.
abbrev is_silent : {T : Type 0} → Client T → Bool
is_silent pushed = false
is_silent calling = false
is_silent c = true

counted-≢-ringing : {T : Type 0} → ◌≢◌ {A = Worker T} counted ringing
counted-≢-ringing e = cc

pushed-≢-calling : {T : Type 0} → ◌≢◌ {A = Client T} pushed calling
pushed-≢-calling e = cc

-- Waking the sleepers leaves the reasons to wait.
woken-Reason :
    {T : Type 0} (s : Pool T) (C : ℕ → Client T) (X : Closer)
    → (s.closer ≡ open_for_work → X ≡ open_for_work)
    → (s.closer ≡ stored → X ≡ stored)
    → Reason s
    → Reason (record s { worker = λ j. wake s.gen (s.worker j); client = C; closer = X })
woken-Reason s C X f g (inl e) = inl (f e)
woken-Reason s C X f g (inr (inl e)) = inr (inl (g e))
woken-Reason s C X f g (inr (inr (inl e))) = inr (inr (inl e))
woken-Reason s C X f g (inr (inr (inr (j, e)))) = inr (inr (inr (j, ap (wake s.gen) e)))

module _ {T : Type 0} where
  -- A step of client `c` before its push is done.
  client-Inv :
      {k : ℕ} {s : Pool T} (c : ℕ) (w : Client T) (I : ℕ → List T) (P : ℕ) (M : Metrics)
      → is_silent (s.client c) ≡ true
      → ((r : ℕ) → s.injectors r ≡ [] → (I r ≡ []) ⊎ (w ≡ pushed))
      → (s.pending ≢ 0 → P ≢ 0)
      → Inv k s
      → Inv
          (suc k)
          (record s { client = update s.client c w; injectors = I; pending = P; metrics = M })
  client-Inv {k} {s} c w I P M silent inj some_left v = record {
    small = omega (arith, v.small);
    past = v.past;
    own_empty = v.own_empty;
    injected_empty = λ j r h lt. elim (v.injected_empty j r h lt) [
      | inl e ↦ elim (inj r e) [
        | inl e' ↦ inl e'
        | inr e' ↦ inr (c, update_eq s.client c c w refl ∙ e')
      ]
      | inr (x, e) ↦ inr (x, update_ne s.client c x w (other x pushed e refl) ∙ e)
    ];
    woken = λ j h. still_waking (v.woken j h);
    opened = v.opened;
    reason = λ j h. still_reason (v.reason j h);
  }
    where
      t : Pool T
      t = record s { client = update s.client c w; injectors = I; pending = P; metrics = M }

      other : (x : ℕ) (y : Client T) → s.client x ≡ y → is_silent y ≡ false → c ≢ x
      other x y e l same =
          let a : is_silent (s.client c) ≡ is_silent y = ap is_silent (ap s.client same ∙ e) in
          absurd (cc)

      still_waking : IsWaking s → IsWaking t
      still_waking (inl (x, e)) = inl (x, update_ne s.client c x w (other x calling e refl) ∙ e)
      still_waking (inr e) = inr e

      still_reason : Reason s → Reason t
      still_reason (inl e) = inl e
      still_reason (inr (inl e)) = inr (inl e)
      still_reason (inr (inr (inl e))) = inr (inr (inl (some_left e)))
      still_reason (inr (inr (inr e))) = inr (inr (inr e))

  finishes-Inv :
      {k : ℕ} {s : Pool T} (i : ℕ) {job : T} (P : ℕ)
      → s.worker i ≡ running job
      → Inv k s
      → Inv (suc k) (record s { pending = P; worker = update s.worker i counted })
  finishes-Inv {k} {s} i {job} P at v = record {
    small = omega (arith, v.small);
    past = λ j. elim (ℕ_discrete i j) [
      | yes e ↦ rw (update_eq s.worker i j counted e) tt
      | no ne ↦ rw (update_ne s.worker i j counted ne) (v.past j)
    ];
    own_empty = λ j r. elim (ℕ_discrete i j) [
      | yes e ↦ rw (update_eq s.worker i j counted e) (λ h. absurd (cc))
      | no ne ↦ rw (update_ne s.worker i j counted ne) (v.own_empty j r)
    ];
    injected_empty = λ j r. elim (ℕ_discrete i j) [
      | yes e ↦ rw (update_eq s.worker i j counted e) (λ h. absurd (cc))
      | no ne ↦ rw (update_ne s.worker i j counted ne) (v.injected_empty j r)
    ];
    woken = λ j. elim (ℕ_discrete i j) [
      | yes e ↦ rw (update_eq s.worker i j counted e) (λ h. absurd (cc))
      | no ne ↦ rw (update_ne s.worker i j counted ne) (λ h. still_waking (v.woken j h))
    ];
    opened = v.opened;
    reason = λ j h. inr (inr (inr (i, update_eq s.worker i i counted refl)));
  }
    where
      not_ringing : (j : ℕ) → s.worker j ≡ ringing → i ≢ j
      not_ringing j e same =
          let a : is_quiet (running job) ≡ is_quiet {T = T} ringing =
            ap is_quiet (sym at ∙ ap s.worker same ∙ e) in
          absurd (cc)

      still_waking :
          IsWaking s → IsWaking (record s { pending = P; worker = update s.worker i counted })
      still_waking (inl e) = inl e
      still_waking (inr (inl (j, e))) =
          inr (inl (j, update_ne s.worker i j counted (not_ringing j e) ∙ e))
      still_waking (inr (inr e)) = inr (inr e)

  WorkerMove-Inv :
      {n k i : ℕ} {s t : Pool T} (w : Worker T)
      → k < word - 1
      → s.worker i ≡ w
      → WorkerMove n s i w t
      → Inv k s
      → Inv (suc k) t
  WorkerMove-Inv {n = n} {i = i} {s = s} outside less at snapshots v = snapshots-Inv n i at v
  WorkerMove-Inv (searching g ps) less at mv v = looking-Inv at mv v
  WorkerMove-Inv (checking g) less at mv v = checking-Inv at mv v
  WorkerMove-Inv (flagged g) less at mv v = flagged-Inv at mv v
  WorkerMove-Inv (going_to_wait g) less at mv v = going_to_wait-Inv at mv v
  WorkerMove-Inv {n = n} {i = i} {s = s} (running job) less at finishes v =
      finishes-Inv i (sub64 s.pending 1) at v
  WorkerMove-Inv {n = n} {i = i} {s = s} counted less at rings v =
      advance-Inv (update s.worker i ringing) s.client s.closer less
        (λ j. elim (ℕ_discrete i j) [
          | yes e ↦ inr (update_eq s.worker i j ringing e)
          | no ne ↦ inl (update_ne s.worker i j ringing ne)
        ])
        (inr (inl (i, update_eq s.worker i i ringing refl))) v.opened v
  WorkerMove-Inv (sleeping g) less at mv v = elim mv [ ]
  WorkerMove-Inv exited less at mv v = elim mv [ ]
  WorkerMove-Inv {n = n} {i = i} {s = s} ringing less at wakes_all v =
      wake-Inv W s.client s.closer
        (λ j. elim (ℕ_discrete i j) [
          | yes e ↦ inr (update_eq woken i j outside e)
          | no ne ↦ inl (update_ne woken i j outside ne)
        ])
        (λ p. p) v.opened still_reason v
    where
      woken : ℕ → Worker T
      woken j = wake s.gen (s.worker j)

      W : ℕ → Worker T
      W = update woken i outside

      still_reason : Reason s → Reason (record s { worker = W })
      still_reason (inl e) = inl e
      still_reason (inr (inl e)) = inr (inl e)
      still_reason (inr (inr (inl e))) = inr (inr (inl e))
      still_reason (inr (inr (inr (j, e)))) = inr (
          inr (
            inr (
              j,
              update_ne woken i j outside
                    (λ same. counted-≢-ringing (sym e ∙ sym (ap s.worker same) ∙ at))
                  ∙ ap (wake s.gen) e,
            )))

  ClientMove-Inv :
      (w : Client T) {k c : ℕ} {s t : Pool T}
      → k < word - 1
      → s.pending < word - 1
      → s.client c ≡ w
      → ClientMove s c w t
      → Inv k s
      → Inv (suc k) t
  ClientMove-Inv away {c = c} {s = s} less few at (records job p) v =
      client-Inv c (recorded job p) s.injectors s.pending (record_submitted s.metrics) (rw at refl)
        (λ r e. inl e) (λ e. e) v
  ClientMove-Inv (recorded job p) {c = c} {s = s} less few at counts v =
      client-Inv c (holding job p) s.injectors ((s.pending + 1) % word) s.metrics (rw at refl)
        (λ r e. inl e) (λ ne e. omega arith) v
  ClientMove-Inv (holding job p) {c = c} {s = s} less few at pushes v =
      client-Inv c pushed (update s.injectors (rank p) (s.injectors (rank p) ++ job ∷ [])) s.pending
        s.metrics (rw at refl) (λ r e. inr refl) (λ e. e) v
  ClientMove-Inv pushed {c = c} {s = s} less few at advances v =
      advance-Inv s.worker (update s.client c calling) s.closer less (λ j. inl refl)
        (inl (c, update_eq s.client c c calling refl)) v.opened v
  ClientMove-Inv calling {c = c} {s = s} less few at calls v =
      wake-Inv (λ j. wake s.gen (s.worker j)) (update s.client c away) s.closer (λ j. inl refl)
        (λ p.
          let (x, e) = p in
          (
            x,
            update_ne s.client c x away
                  (λ same. pushed-≢-calling (sym e ∙ sym (ap s.client same) ∙ at))
                ∙ e,
          ))
        v.opened (λ r. woken-Reason s (update s.client c away) s.closer (λ e. e) (λ e. e) r) v

  CloserMove-Inv :
      {n k : ℕ} {s t : Pool T} (x : Closer)
      → k < word - 1
      → s.closer ≡ x
      → CloserMove n s x t
      → Inv k s
      → Inv (suc k) t
  CloserMove-Inv {s = s} open_for_work less at stores v = record {
    small = omega (arith, v.small);
    past = v.past;
    own_empty = v.own_empty;
    injected_empty = v.injected_empty;
    woken = λ j h. elim (v.woken j h) [
      | inl e ↦ inl e
      | inr (inl e) ↦ inr (inl e)
      | inr (inr e) ↦ absurd (cc)
    ];
    opened = λ e. absurd (cc);
    reason = λ j h. elim (v.reason j h) [
      | inl e ↦ inr (inl refl)
      | inr (inl e) ↦ inr (inl refl)
      | inr (inr e) ↦ inr (inr e)
    ];
  }
  CloserMove-Inv {s = s} stored less at shouts v =
      advance-Inv s.worker s.client shouting less (λ j. inl refl) (inr (inr refl))
        (λ e. absurd (let o = v.opened e in cc)) v
  CloserMove-Inv {s = s} shouting less at notifies v =
      wake-Inv (λ j. wake s.gen (s.worker j)) s.client notified (λ j. inl refl) (λ p. p)
        (λ e. absurd (let o = v.opened e in cc))
        (λ r. woken-Reason s s.client notified (λ e. absurd (cc)) (λ e. absurd (cc)) r) v
  CloserMove-Inv {s = s} notified less at (joins all) v = record {
    small = omega (arith, v.small);
    past = v.past;
    own_empty = v.own_empty;
    injected_empty = v.injected_empty;
    woken = λ j h. elim (v.woken j h) [
      | inl e ↦ inl e
      | inr (inl e) ↦ inr (inl e)
      | inr (inr e) ↦ absurd (cc)
    ];
    opened = λ e. absurd (let o = v.opened e in cc);
    reason = λ j h. elim (v.reason j h) [
      | inl e ↦ absurd (cc)
      | inr (inl e) ↦ absurd (cc)
      | inr (inr e) ↦ inr (inr e)
    ];
  }
  CloserMove-Inv joined less at mv v = elim mv [ ]

  pub Step-Inv :
      {n m k : ℕ} {s t : Pool T}
      → k < word - 1
      → s.pending < word - 1
      → Step n m s t
      → Inv k s
      → Inv (suc k) t
  Step-Inv {s = s} less few (by_worker i lt mv) v = WorkerMove-Inv (s.worker i) less refl mv v
  Step-Inv {s = s} less few (by_client c lt mv) v = ClientMove-Inv (s.client c) less few refl mv v
  Step-Inv {s = s} less few (by_closer mv) v = CloserMove-Inv s.closer less refl mv v

  pub initial-Inv : Inv 0 (initial {T = T})
  initial-Inv = record {
    small = omega arith;
    past = λ i. tt;
    own_empty = λ i r h lt. refl;
    injected_empty = λ i r h lt. inl refl;
    woken = λ i h. absurd (cc);
    opened = λ e. refl;
    reason = λ i h. inl refl;
  }
