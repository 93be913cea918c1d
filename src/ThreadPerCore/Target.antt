-- ===== src/ThreadPerCore/Target.antt =====
-- The choice of the core in `submit`.
use thread_pool_runtime.Prelude.{ℕ, ◌<◌, ◌≡◌, refl, Option, none, some}
use native.Mathlib.Nat.{mod-lt}
use thread_pool_runtime.ThreadPerCore.{Cores, target}

module _ {T : Type 0} where
  -- Choosing a core changes nothing but the turn.
  pub target-num_cores :
      (core_hint : Option ℕ) (s : Cores T) → (target core_hint s).1.num_cores ≡ s.num_cores
  unfolding target
  target-num_cores none s = refl
  target-num_cores (some h) s = refl

  pub target-queues :
      (core_hint : Option ℕ) (s : Cores T) → (target core_hint s).1.queues ≡ s.queues
  unfolding target
  target-queues none s = refl
  target-queues (some h) s = refl

  pub target-shutdown_flag :
      (core_hint : Option ℕ) (s : Cores T) → (target core_hint s).1.shutdown_flag ≡ s.shutdown_flag
  unfolding target
  target-shutdown_flag none s = refl
  target-shutdown_flag (some h) s = refl

  pub target_lt :
      (core_hint : Option ℕ) (s : Cores T) → 0 < s.num_cores → (target core_hint s).0 < s.num_cores
  unfolding target
  target_lt none s pos = mod-lt s.next pos
  target_lt (some h) s pos = mod-lt h pos
