-- ===== src/Prelude/Family.antt =====
-- Families indexed by numbers: update at one index.
use Prim.Native.Nat.{ℕ}
use mathlib.Core.Path.{◌≡◌}
use mathlib.Core.Logic.{◌≢◌, ite, if_pos, if_neg}
use native.Mathlib.Decide.{ℕ_discrete}

abbrev pub update {ℓ} : {A : Type ℓ} → (ℕ → A) → ℕ → A → ℕ → A
update f i a j = ite (ℕ_discrete i j) a (f j)

module _ {ℓ} {A : Type ℓ} (f : ℕ → A) where
  pub update_eq : (i j : ℕ) (a : A) → i ≡ j → update f i a j ≡ a
  update_eq i j a e = if_pos (ℕ_discrete i j) e a (f j)

  pub update_ne : (i j : ℕ) (a : A) → i ≢ j → update f i a j ≡ f j
  update_ne i j a e = if_neg (ℕ_discrete i j) e a (f j)
