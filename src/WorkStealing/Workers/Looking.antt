-- ===== src/WorkStealing/Workers/Looking.antt =====
-- Each step of a worker that wakes nobody keeps the invariant.
use thread_pool_runtime.Prelude.{
  ℕ, suc, ◌-◌, ◌<◌, ◌≡◌, ◌≢◌, ◌⊎◌, inl, inr, refl, sym, ap, subst, ◌∙◌, true, false, ◌==◌, List, [],
  ◌∷◌, ◌++◌, take, drop, arith, ℕ_discrete, Bool-cases,
}
use thread_pool_runtime.Prelude.Family.{update, update_ne}
use thread_pool_runtime.Metrics.{record_stolen}
use thread_pool_runtime.Priority.{rank}
use thread_pool_runtime.WorkStealing.{injector_batch_size}
use thread_pool_runtime.WorkStealing.Workers.{
  Probe, probes, Worker, searching, checking, running, Pool, moves, set_deque, WorkerMove,
  own_found, own_empty, injected_found, injected_empty, peer_found, peer_missed, finds_nothing,
}
use thread_pool_runtime.WorkStealing.Workers.Inv.{
  has_own, has_injected, looked_own, looked_injected, IsPast, settled, outdated, IsPushing, Reason,
  Inv, is_quiet, change-Inv,
}

pub has_own-probes : (n i r : ℕ) → r < 3 → has_own r (probes n i) ≡ true
unfolding probes
has_own-probes n i r lt = ground arith

pub has_injected-probes : (n i r : ℕ) → r < 3 → has_injected r (probes n i) ≡ true
unfolding probes
has_injected-probes n i r lt = ground arith

nonempty : {A : Type 0} (x : A) (xs : List A) → (x ∷ xs) ≢ []
nonempty x xs e = cc

module _ {T : Type 0} where
  -- A step of worker `i` that moves no job.
  pub look-Inv :
      {k : ℕ} {s : Pool T} (i : ℕ) (w : Worker T)
      → is_quiet (s.worker i) ≡ true
      → IsPast s.gen w
      → ((r : ℕ) → looked_own r w ≡ true → r < 3 → s.deques i r ≡ [])
      → ((r : ℕ) → looked_injected r s.gen w ≡ true → r < 3 → (s.injectors r ≡ []) ⊎ IsPushing s)
      → outdated s.gen w ≡ false
      → (settled s.gen w ≡ true → Reason s)
      → Inv k s
      → Inv (suc k) (moves s i w)
  look-Inv {s = s} i w quiet past mine inj fresh why v =
      change-Inv i w s.deques s.injectors s.metrics quiet past mine (λ j r ne e. e) inj (λ r e. e)
        fresh why v

  -- The facts about worker `i`, where it stands.
  pub here-IsPast :
      {k : ℕ} {s : Pool T} (i : ℕ) {w : Worker T} → s.worker i ≡ w → Inv k s → IsPast s.gen w
  here-IsPast {s = s} i at v = subst (IsPast s.gen) at (v.past i)

  pub here_own :
      {k : ℕ} {s : Pool T} (i : ℕ) {w : Worker T}
      → s.worker i ≡ w
      → Inv k s
      → (r : ℕ) → looked_own r w ≡ true
      → r < 3
      → s.deques i r ≡ []
  here_own i at v r h lt = v.own_empty i r (ap (looked_own r) at ∙ h) lt

  pub here_injected :
      {k : ℕ} {s : Pool T} (i : ℕ) {w : Worker T}
      → s.worker i ≡ w
      → Inv k s
      → (r : ℕ) → looked_injected r s.gen w ≡ true
      → r < 3
      → (s.injectors r ≡ []) ⊎ IsPushing s
  here_injected {s = s} i at v r h lt =
      v.injected_empty i r (ap (looked_injected r s.gen) at ∙ h) lt

  pub looking-Inv :
      {n k i g : ℕ} {ps : List Probe} {s t : Pool T}
      → s.worker i ≡ searching g ps
      → WorkerMove n s i (searching g ps) t
      → Inv k s
      → Inv (suc k) t
  looking-Inv {i = i} {g = g} {s = s} at (own_empty {p = p} {ps = ps} e) v =
      look-Inv i (searching g ps) (rw at refl) (here-IsPast i at v)
        (λ r h lt. elim (Bool-cases (rank p == r)) [
          | inl same ↦ subst (λ q. s.deques i q ≡ []) (ground arith) e
          | inr other ↦ here_own i at v r (rw other h) lt
        ])
        (here_injected i at v) refl (λ h. absurd (cc)) v
  looking-Inv {i = i} {g = g} {s = s} at (injected_empty {p = p} {ps = ps} e) v =
      look-Inv i (searching g ps) (rw at refl) (here-IsPast i at v) (here_own i at v)
        (λ r h lt. elim (Bool-cases (rank p == r)) [
          | inl same ↦ inl (subst (λ q. s.injectors q ≡ []) (ground arith) e)
          | inr other ↦ here_injected i at v r (rw other h) lt
        ])
        refl (λ h. absurd (cc)) v
  looking-Inv {i = i} {g = g} {s = s} at (peer_missed {ps = ps}) v =
      look-Inv i (searching g ps) (rw at refl) (here-IsPast i at v) (here_own i at v)
        (here_injected i at v) refl (λ h. absurd (cc)) v
  looking-Inv {i = i} {g = g} {s = s} at finds_nothing v =
      look-Inv i (checking g) (rw at refl) (here-IsPast i at v) (here_own i at v)
        (λ r h lt. here_injected i at v r (ground (arith, h)) lt) refl (λ h. absurd (cc)) v
  looking-Inv {i = i} {g = g} {s = s} at (own_found {p = p} job rest e) v =
      change-Inv i (running job) (set_deque s i (rank p) rest).deques s.injectors s.metrics
        (rw at refl) tt (λ r h lt. absurd (cc)) (λ j r ne none_left. ground arith)
        (λ r h lt. absurd (cc)) (λ r none_left. none_left) refl (λ h. absurd (cc)) v
  looking-Inv {i = i} {g = g} {s = s} at (injected_found {p = p} job rest e) v =
      change-Inv i (running job)
        (set_deque s i (rank p) (s.deques i (rank p) ++ take (injector_batch_size - 1) rest)).deques
        (update s.injectors (rank p) (drop (injector_batch_size - 1) rest)) s.metrics (rw at refl)
        tt (λ r h lt. absurd (cc)) (λ j r ne none_left. ground arith) (λ r h lt. absurd (cc))
        (λ r none_left. elim (ℕ_discrete (rank p) r) [
          | yes same ↦
              absurd
                (nonempty job rest (sym e ∙ subst (λ q. s.injectors q ≡ []) (sym same) none_left))
          | no ne ↦
              update_ne s.injectors (rank p) r (drop (injector_batch_size - 1) rest) ne ∙ none_left
        ])
        refl (λ h. absurd (cc)) v
  looking-Inv {i = i} {g = g} {s = s} at (peer_found {v = w} {p = p} job rest lt e) v =
      change-Inv i (running job) (set_deque s w (rank p) rest).deques s.injectors
        (record_stolen s.metrics) (rw at refl) tt (λ r h lt. absurd (cc))
        (λ j r ne none_left. stolen_left j r none_left) (λ r h lt. absurd (cc))
        (λ r none_left. none_left) refl (λ h. absurd (cc)) v
    where
      stolen_left : (j r : ℕ) → s.deques j r ≡ [] → (set_deque s w (rank p) rest).deques j r ≡ []
      stolen_left j r none_left = elim (ℕ_discrete w j) [
        | yes same ↦ elim (ℕ_discrete (rank p) r) [
          | yes same' ↦ absurd (
              nonempty job rest (
                sym e
                ∙ subst (λ x. s.deques x (rank p) ≡ []) (sym same)
                    (subst (λ q. s.deques j q ≡ []) (sym same') none_left)))
          | no ne ↦ ground arith
        ]
        | no ne ↦ ground arith
      ]
