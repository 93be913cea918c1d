-- ===== src/FairScheduler/Workers/Inv/Steps.antt =====
-- Every step of the fair scheduler's threads keeps the invariant.
use thread_pool_runtime.Prelude.{
  length, ℕ, suc, ◌+◌, ◌-◌, ◌%◌, ◌<◌, ◌≡◌, ◌≢◌, ◌⊎◌, inl, inr, refl, sym, ap, ◌∙◌, Bool, true,
  false, arith, ℕ_discrete,
}
use thread_pool_runtime.Prelude.Family.{update, update_eq, update_ne}
use thread_pool_runtime.Deque.Words.{word}
use thread_pool_runtime.Metrics.{Metrics, record_submitted}
use thread_pool_runtime.FairScheduler.{FairState}
use thread_pool_runtime.FairScheduler.Inv as Fair
use thread_pool_runtime.FairScheduler.Submit.{submit-Inv, register_class-Inv}
use thread_pool_runtime.FairScheduler.Run.{empty_state-Inv}
use thread_pool_runtime.FairScheduler.Backlog.{
  backlog, register_class-KeepsQueues, backlog-KeepsQueues,
}
use thread_pool_runtime.FairScheduler.Doubles.{Double, IsOrdered}
use thread_pool_runtime.FairScheduler.Workers.{
  Worker, outside, looking, running, counted, ringing, timing, checking, flagged, going_to_wait,
  sleeping, exited, Client, away, recorded, holding, pushed, calling, Closer, open_for_work, stored,
  shouting, notified, joined, Pool, wake, WorkerMove, rings, wakes_all, ClientMove, records, counts,
  pushes, advances, calls, CloserMove, stores, shouts, notifies, joins, Step, by_worker, by_client,
  by_closer, registers, initial,
}
use thread_pool_runtime.FairScheduler.Workers.Inv.{IsWaking, IsPushing, Reason, Inv, still-Inv}
use thread_pool_runtime.FairScheduler.Workers.Inv.Moves.{
  outside-Inv, looking-Inv, running-Inv, timing-Inv, checking-Inv, flagged-Inv, going_to_wait-Inv,
}
use thread_pool_runtime.FairScheduler.Workers.Inv.Ringing.{advance-Inv, wake-Inv}

-- Neither `pushed` nor `calling`.
abbrev is_silent : {V T : Type 0} → Client V T → Bool
is_silent pushed = false
is_silent calling = false
is_silent c = true

module _ {V T : Type 0} where
  pushed-≢-calling : ◌≢◌ {A = Client V T} pushed calling
  pushed-≢-calling e = cc

  -- Waking the sleepers leaves the reasons to wait.
  woken-Reason :
      (n : ℕ) (s : Pool V T) (C : ℕ → Client V T) (X : Closer)
      → (s.closer ≡ open_for_work → X ≡ open_for_work)
      → (s.closer ≡ stored → X ≡ stored)
      → Reason n s
      → Reason n (record s { worker = λ j. wake s.gen (s.worker j); client = C; closer = X })
  woken-Reason n s C X f g (inl e) = inl (f e)
  woken-Reason n s C X f g (inr (inl e)) = inr (inl (g e))
  woken-Reason n s C X f g (inr (inr (inl e))) = inr (inr (inl e))
  woken-Reason n s C X f g (inr (inr (inr (j, id, lt, e)))) =
      inr (inr (inr (j, id, lt, ap (wake s.gen) e)))

module _ {V : Type 0} {F : Double V} (L : IsOrdered F) {T : Type 0} where
  -- A step of client `c` before the push, and the push.
  client-Inv :
      {n k : ℕ} {s : Pool V T} (c : ℕ) (w : Client V T) (f : FairState V T) (P : ℕ) (M : Metrics)
      → is_silent (s.client c) ≡ true
      → Fair.Inv F f
      → (backlog s.fair ≡ 0 → (backlog f ≡ 0) ⊎ (w ≡ pushed))
      → (s.pending ≢ 0 → P ≢ 0)
      → Inv F n k s
      → Inv F n
          (suc k)
          (record s { client = update s.client c w; fair = f; pending = P; metrics = M })
  client-Inv {n = n} {s = s} c w f P M silent sound empty some_left v =
      still-Inv t v refl sound (λ j. inl refl) still_empty
        (λ p. let (x, e) = p in (x, update_ne s.client c x w (other x pushed e refl) ∙ e))
        still_waking still_reason v.opened
    where
      t : Pool V T
      t = record s { client = update s.client c w; fair = f; pending = P; metrics = M }

      other : (x : ℕ) (y : Client V T) → s.client x ≡ y → is_silent y ≡ false → c ≢ x
      other x y e l same =
          let a : is_silent (s.client c) ≡ is_silent y = ap is_silent (ap s.client same ∙ e) in
          absurd (cc)

      still_empty : backlog s.fair ≡ 0 → (backlog f ≡ 0) ⊎ IsPushing t
      still_empty z = elim (empty z) [
        | inl e ↦ inl e
        | inr e ↦ inr (c, update_eq s.client c c w refl ∙ e)
      ]

      still_waking : IsWaking n s → IsWaking n t
      still_waking (inl (x, e)) = inl (x, update_ne s.client c x w (other x calling e refl) ∙ e)
      still_waking (inr e) = inr e

      still_reason : Reason n s → Reason n t
      still_reason (inl e) = inl e
      still_reason (inr (inl e)) = inr (inl e)
      still_reason (inr (inr (inl e))) = inr (inr (inl (some_left e)))
      still_reason (inr (inr (inr e))) = inr (inr (inr e))

  WorkerMove-Inv :
      (w : Worker T) {n k i : ℕ} {s t : Pool V T}
      → k < word - 1
      → i < n
      → s.worker i ≡ w
      → WorkerMove F s i w t
      → Inv F n k s
      → Inv F n (suc k) t
  WorkerMove-Inv outside less lt at mv v = outside-Inv L at mv v
  WorkerMove-Inv (looking g) less lt at mv v = looking-Inv L at mv v
  WorkerMove-Inv (running id job) less lt at mv v = running-Inv L lt at mv v
  WorkerMove-Inv (counted id) {i = i} {s = s} less lt at rings v =
      advance-Inv (update s.worker i (ringing id)) s.client s.closer less
        (λ j. elim (ℕ_discrete i j) [
          | yes e ↦ inr (ground (arith, update_eq s.worker i j (ringing id) e))
          | no ne ↦ inl (update_ne s.worker i j (ringing id) ne)
        ])
        (inr (inl (i, id, lt, update_eq s.worker i i (ringing id) refl))) v.opened v
  WorkerMove-Inv (ringing id) {n = n} {i = i} {s = s} less lt at wakes_all v =
      wake-Inv W s.client s.closer
        (λ j. elim (ℕ_discrete i j) [
          | yes e ↦ inr (ground (arith, update_eq woken i j (timing id) e))
          | no ne ↦ inl (update_ne woken i j (timing id) ne)
        ])
        (λ p. p) v.opened still_reason v
    where
      woken : ℕ → Worker T
      woken j = wake s.gen (s.worker j)

      W : ℕ → Worker T
      W = update woken i (timing id)

      still_reason : Reason n s → Reason n (record s { worker = W })
      still_reason (inl e) = inl e
      still_reason (inr (inl e)) = inr (inl e)
      still_reason (inr (inr (inl e))) = inr (inr (inl e))
      still_reason (inr (inr (inr (j, d, below, e)))) = inr (
          inr (
            inr (
              j,
              d,
              below,
              update_ne woken i j (timing id)
                    (λ same. let a = sym e ∙ sym (ap s.worker same) ∙ at in absurd (cc))
                  ∙ ap (wake s.gen) e,
            )))
  WorkerMove-Inv (timing id) less lt at mv v = timing-Inv L at mv v
  WorkerMove-Inv (checking g) less lt at mv v = checking-Inv L at mv v
  WorkerMove-Inv (flagged g) less lt at mv v = flagged-Inv L at mv v
  WorkerMove-Inv (going_to_wait g) less lt at mv v = going_to_wait-Inv L at mv v
  WorkerMove-Inv (sleeping g) less lt at mv v = elim mv [ ]
  WorkerMove-Inv exited less lt at mv v = elim mv [ ]

  ClientMove-Inv :
      (w : Client V T) {n k c : ℕ} {s t : Pool V T}
      → k < word - 1
      → s.pending < word - 1
      → s.client c ≡ w
      → ClientMove F s c w t
      → Inv F n k s
      → Inv F n (suc k) t
  ClientMove-Inv away {c = c} {s = s} less few at (records o) v =
      client-Inv c (recorded o) s.fair s.pending (record_submitted s.metrics) (ap is_silent at)
        v.sound (λ z. inl z) (λ e. e) v
  ClientMove-Inv (recorded o) {c = c} {s = s} less few at counts v =
      client-Inv c (holding o) s.fair ((s.pending + 1) % word) s.metrics (ap is_silent at) v.sound
        (λ z. inl z) (λ ne e. omega arith) v
  ClientMove-Inv (holding o) {c = c} {s = s} less few at (pushes f e) v =
      client-Inv c pushed f s.pending s.metrics (ap is_silent at)
        (submit-Inv L o.name o.weight o.job s.fair f v.sound e) (λ z. inr refl) (λ e. e) v
  ClientMove-Inv pushed {c = c} {s = s} less few at advances v =
      advance-Inv s.worker (update s.client c calling) s.closer less (λ j. inl refl)
        (inl (c, update_eq s.client c c calling refl)) v.opened v
  ClientMove-Inv calling {n = n} {c = c} {s = s} less few at calls v =
      wake-Inv (λ j. wake s.gen (s.worker j)) (update s.client c away) s.closer (λ j. inl refl)
        (λ p.
          let (x, e) = p in
          (
            x,
            update_ne s.client c x away
                  (λ same. pushed-≢-calling (sym e ∙ sym (ap s.client same) ∙ at))
                ∙ e,
          ))
        v.opened (λ r. woken-Reason n s (update s.client c away) s.closer (λ e. e) (λ e. e) r) v

  CloserMove-Inv :
      {n k : ℕ} {s t : Pool V T} (x : Closer)
      → k < word - 1
      → s.closer ≡ x
      → CloserMove n s x t
      → Inv F n k s
      → Inv F n (suc k) t
  CloserMove-Inv {n = n} {s = s} {t = t} open_for_work less at stores v =
      still-Inv t v refl v.sound (λ j. inl refl) (λ z. inl z) (λ p. p) still_waking still_reason
        (λ e. absurd (cc))
    where
      still_waking : IsWaking n s → IsWaking n (record s { shutdown_flag = true; closer = stored })
      still_waking (inl e) = inl e
      still_waking (inr (inl e)) = inr (inl e)
      still_waking (inr (inr e)) = absurd (cc)

      still_reason : Reason n s → Reason n (record s { shutdown_flag = true; closer = stored })
      still_reason (inl e) = inr (inl refl)
      still_reason (inr (inl e)) = inr (inl refl)
      still_reason (inr (inr e)) = inr (inr e)
  CloserMove-Inv {s = s} stored less at shouts v =
      advance-Inv s.worker s.client shouting less (λ j. inl refl) (inr (inr refl))
        (λ e. absurd (let o = v.opened e in cc)) v
  CloserMove-Inv {n = n} {s = s} shouting less at notifies v =
      wake-Inv (λ j. wake s.gen (s.worker j)) s.client notified (λ j. inl refl) (λ p. p)
        (λ e. absurd (let o = v.opened e in cc))
        (λ r. woken-Reason n s s.client notified (λ e. absurd (cc)) (λ e. absurd (cc)) r) v
  CloserMove-Inv {n = n} {s = s} {t = t} notified less at (joins all) v =
      still-Inv t v refl v.sound (λ j. inl refl) (λ z. inl z) (λ p. p) still_waking still_reason
        (λ e. absurd (let o = v.opened e in cc))
    where
      still_waking : IsWaking n s → IsWaking n (record s { closer = joined })
      still_waking (inl e) = inl e
      still_waking (inr (inl e)) = inr (inl e)
      still_waking (inr (inr e)) = absurd (cc)

      still_reason : Reason n s → Reason n (record s { closer = joined })
      still_reason (inl e) = absurd (cc)
      still_reason (inr (inl e)) = absurd (cc)
      still_reason (inr (inr e)) = inr (inr e)
  CloserMove-Inv joined less at mv v = elim mv [ ]

  pub Step-Inv :
      {n m k : ℕ} {s t : Pool V T}
      → k < word - 1
      → s.pending < word - 1
      → Step F n m s t
      → Inv F n k s
      → Inv F n (suc k) t
  Step-Inv {s = s} less few (by_worker i lt mv) v = WorkerMove-Inv (s.worker i) less lt refl mv v
  Step-Inv {s = s} less few (by_client c lt mv) v = ClientMove-Inv (s.client c) less few refl mv v
  Step-Inv {s = s} less few (by_closer mv) v = CloserMove-Inv s.closer less refl mv v
  Step-Inv {s = s} {t = t} less few (registers name weight f e) v =
      still-Inv t v refl (register_class-Inv L name weight s.fair f v.sound e) (λ j. inl refl)
        (λ z. inl (
          backlog-KeepsQueues L length s.fair f refl v.sound
            (register_class-KeepsQueues L name weight s.fair f v.sound e)
          ∙ z))
        (λ p. p) (λ w. w) (λ r. r) v.opened

  pub initial-Inv : (n : ℕ) → Inv F n 0 (initial F {T = T})
  initial-Inv n = record {
    sound = empty_state-Inv L;
    small = omega arith;
    past = λ i. refl;
    empty = λ i h. absurd (cc);
    woken = λ i h. absurd (cc);
    opened = λ e. refl;
    reason = λ i h. inl refl;
  }
