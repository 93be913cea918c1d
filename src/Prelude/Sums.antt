-- ===== src/Prelude/Sums.antt =====
-- Indices below a bound: sums of a family over them. And the number of a list's members that pass a test.
use Prim.Native.Nat.{ℕ, zero, suc, ◌+◌, ◌<◌, ◌≤◌}
use mathlib.Core.Path.{◌≡◌, refl, sym, ap, ap₂, subst, ◌∙◌}
use mathlib.Core.Logic.{◌≢◌, ◌⊎◌, inl, inr}
use mathlib.Core.Bool.{Bool}
use mathlib.Core.List.{List, [], ◌∷◌, ◌++◌}
use native.Mathlib.Omega.{arith}
use native.Mathlib.Decide.{ℕ_discrete}
use thread_pool_runtime.Prelude.Tests.{if◌then◌else◌}
use thread_pool_runtime.Prelude.Lists.{length}
use thread_pool_runtime.Prelude.Family.{update, update_eq, update_ne}

unfoldable pub sum : ℕ → (ℕ → ℕ) → ℕ
sum zero f = 0
sum (suc n) f = f n + sum n f

pub sum_same : (n : ℕ) (f g : ℕ → ℕ) → ((j : ℕ) → j < n → g j ≡ f j) → sum n g ≡ sum n f
unfolding sum
sum_same zero f g e = refl
sum_same (suc n) f g e = ap₂ ◌+◌ (e n (omega arith)) (sum_same n f g (λ j lt. e j (omega arith)))

pub sum_zero : (n : ℕ) → sum n (λ j. 0) ≡ 0
unfolding sum
sum_zero zero = refl
sum_zero (suc n) = omega (arith, sum_zero n)

pub zero_sum : (n : ℕ) (f : ℕ → ℕ) → ((j : ℕ) → j < n → f j ≡ 0) → sum n f ≡ 0
zero_sum n f e = sum_same n (λ j. 0) f e ∙ sum_zero n

pub sum_le : (n : ℕ) (f g : ℕ → ℕ) → ((j : ℕ) → j < n → f j ≤ g j) → sum n f ≤ sum n g
unfolding sum
sum_le zero f g e = omega arith
sum_le (suc n) f g e = omega (arith, e n (omega arith), sum_le n f g (λ j lt. e j (omega arith)))

-- A sum of which one summand changes.
pub sum_change :
    (n i : ℕ) (f g : ℕ → ℕ) → i < n → ((j : ℕ) → j ≢ i → g j ≡ f j) → sum n g + f i ≡ sum n f + g i
unfolding sum
sum_change zero i f g lt e = absurd (omega arith)
sum_change (suc n) i f g lt e = elim (ℕ_discrete n i) [
  | yes same ↦
      subst (λ x. (g n + sum n g) + f x ≡ (f n + sum n f) + g x) same
        (omega (arith, sum_same n f g (λ j l. e j (λ q. absurd (omega arith)))))
  | no ne ↦ omega (arith, sum_change n i f g (omega arith) e, e n ne)
]

-- A measure of a family, summed, when the family is updated at one index.
pub update_total {ℓ} :
    {A : Type ℓ} (n i : ℕ) (f : A → ℕ) (g : ℕ → A) (a : A)
    → i < n
    → sum n (λ j. f (update g i a j)) + f (g i) ≡ sum n (λ j. f (g j)) + f a
update_total n i f g a lt =
    sum_change n i (λ j. f (g j)) (λ j. f (update g i a j)) lt
      (λ j ne. ap f (update_ne g i j a (λ e. ne (sym e))))
    ∙ ap (λ x. sum n (λ j. f (g j)) + f x) (update_eq g i i a refl)

-- The same, where the member that is replaced is known.
pub update_total_from {ℓ} :
    {A : Type ℓ} (n i : ℕ) (f : A → ℕ) (g : ℕ → A) (a b : A)
    → i < n
    → g i ≡ a
    → sum n (λ j. f (update g i b j)) + f a ≡ sum n (λ j. f (g j)) + f b
update_total_from n i f g a b lt at =
    ap (λ x. sum n (λ j. f (update g i b j)) + f x) (sym at) ∙ update_total n i f g b lt

-- Summands that are zero from `n` on.
pub sum_extend : (n m : ℕ) (f : ℕ → ℕ) → n ≤ m → ((j : ℕ) → n ≤ j → f j ≡ 0) → sum m f ≡ sum n f
unfolding sum
sum_extend n zero f le z = let e : zero ≡ n = omega arith in ap (λ k. sum k f) e
sum_extend n (suc m) f le z = elim (ℕ_discrete n (suc m)) [
  | yes e ↦ ap (λ k. sum k f) (sym e)
  | no ne ↦ omega (arith, z m (omega arith), sum_extend n m f (omega arith) z)
]

-- The first summand, which `sum` adds last.
pub sum_first : (n : ℕ) (f : ℕ → ℕ) → sum (suc n) f ≡ f 0 + sum n (λ j. f (suc j))
unfolding sum
sum_first zero f = refl
sum_first (suc n) f = omega (arith, sum_first n f)

pub sum_last : (n : ℕ) (f : ℕ → ℕ) → sum (suc n) f ≡ f n + sum n f
unfolding sum
sum_last n f = refl

-- One summand is no more than the sum.
pub summand_le : (n i : ℕ) (f : ℕ → ℕ) → i < n → f i ≤ sum n f
unfolding sum
summand_le zero i f lt = absurd (omega arith)
summand_le (suc n) i f lt = elim (ℕ_discrete n i) [
  | yes same ↦ subst (λ x. f x ≤ f n + sum n f) same (omega arith)
  | no ne ↦ omega (arith, summand_le n i f (omega arith))
]

-- All indices below `n` have the first, or one has the second.
pub all_or_one :
    (n : ℕ) (P Q : ℕ → Type 0)
    → ((i : ℕ) → P i ⊎ Q i)
    → ((i : ℕ) → i < n → P i) ⊎ ((i : ℕ) × (i < n) × Q i)
all_or_one zero P Q f = inl (λ i lt. absurd (omega arith))
all_or_one (suc n) P Q f = elim (all_or_one n P Q f) [
  | inr (i, lt, q) ↦ inr (i, omega arith, q)
  | inl all ↦ elim (f n) [
    | inr q ↦ inr (n, omega arith, q)
    | inl p ↦
        inl (λ i lt. elim (ℕ_discrete n i) [ yes e ↦ subst P e p | no ne ↦ all i (omega arith) ])
  ]
]

module _ {ℓ} {A : Type ℓ} where
  abbrev pub count_if : (A → Bool) → List A → ℕ
  count_if P [] = 0
  count_if P (x ∷ xs) = (if P x then 1 else 0) + count_if P xs

  pub count_if-append :
      (P : A → Bool) (xs ys : List A) → count_if P (xs ++ ys) ≡ count_if P xs + count_if P ys
  count_if-append P [] ys = omega arith
  count_if-append P (x ∷ xs) ys = omega (arith, count_if-append P xs ys)

  pub count_if_le : (P : A → Bool) (xs : List A) → count_if P xs ≤ length xs
  count_if_le P [] = omega arith
  count_if_le P (x ∷ xs) = ground (arith, count_if_le P xs)
