-- ===== src/WorkStealing/Workers/Waiting.antt =====
-- A worker that settles to wait, or leaves, keeps the invariant.
use thread_pool_runtime.Prelude.{
  ℕ, true-≢-false, suc, ◌≡◌, ◌≢◌, inl, inr, refl, sym, ap, ◌∙◌, Bool, true, not, ◌&&◌, ◌==◌, arith,
}
use thread_pool_runtime.WorkStealing.Workers.{
  probes, outside, searching, checking, flagged, going_to_wait, sleeping, exited, Pool, moves,
  WorkerMove, sees_open, sees_flag, breaks, sees_pending, waits_not, sleeps,
}
use thread_pool_runtime.WorkStealing.Workers.Inv.{has_injected, settled, Inv}
use thread_pool_runtime.WorkStealing.Workers.Looking.{
  has_own-probes, has_injected-probes, look-Inv, here-IsPast, here_own, here_injected,
}

module _ {T : Type 0} where
  pub snapshots-Inv :
      {k : ℕ} {s : Pool T} (n i : ℕ)
      → s.worker i ≡ outside
      → Inv k s
      → Inv (suc k) (moves s i (searching s.gen (probes n i)))
  snapshots-Inv {s = s} n i at v =
      look-Inv i (searching s.gen (probes n i)) (rw at refl) (omega arith)
        (λ r h lt. absurd (true-≢-false (sym h ∙ ap not (has_own-probes n i r lt))))
        (λ r h lt.
          absurd (
            looked (s.gen == s.gen) (has_injected r (probes n i)) h (has_injected-probes n i r lt)))
        refl (λ h. absurd (cc)) v
    where
      looked : (a b : Bool) → a && not b ≡ true → b ≢ true
      looked a b e f = ground arith

  pub checking-Inv :
      {n k i g : ℕ} {s t : Pool T}
      → s.worker i ≡ checking g
      → WorkerMove n s i (checking g) t
      → Inv k s
      → Inv (suc k) t
  checking-Inv {i = i} {g = g} {s = s} at (sees_open clear) v =
      look-Inv i (going_to_wait g) (rw at refl) (here-IsPast i at v) (here_own i at v)
        (here_injected i at v) refl (λ h. inl (v.opened clear)) v
  checking-Inv {i = i} {g = g} {s = s} at (sees_flag flag) v =
      look-Inv i (flagged g) (rw at refl) (here-IsPast i at v) (here_own i at v)
        (here_injected i at v) refl (λ h. absurd (cc)) v

  pub flagged-Inv :
      {n k i g : ℕ} {s t : Pool T}
      → s.worker i ≡ flagged g
      → WorkerMove n s i (flagged g) t
      → Inv k s
      → Inv (suc k) t
  flagged-Inv {i = i} {g = g} {s = s} at (breaks none_left) v =
      look-Inv i exited (rw at refl) tt (here_own i at v) (λ r h lt. absurd (cc)) refl
        (λ h. absurd (cc)) v
  flagged-Inv {i = i} {g = g} {s = s} at (sees_pending some_left) v =
      look-Inv i (going_to_wait g) (rw at refl) (here-IsPast i at v) (here_own i at v)
        (here_injected i at v) refl (λ h. inr (inr (inl some_left))) v

  pub going_to_wait-Inv :
      {n k i g : ℕ} {s t : Pool T}
      → s.worker i ≡ going_to_wait g
      → WorkerMove n s i (going_to_wait g) t
      → Inv k s
      → Inv (suc k) t
  going_to_wait-Inv {i = i} {g = g} {s = s} at (waits_not old) v =
      look-Inv i outside (rw at refl) tt (λ r h lt. absurd (cc)) (λ r h lt. absurd (cc)) refl
        (λ h. absurd (cc)) v
  going_to_wait-Inv {i = i} {g = g} {s = s} at (sleeps same) v =
      look-Inv i (sleeping g) (rw at refl) (here-IsPast i at v) (here_own i at v)
        (here_injected i at v) (ground arith) (λ h. v.reason i (ap (settled s.gen) at ∙ h)) v
