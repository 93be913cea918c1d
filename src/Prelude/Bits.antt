-- ===== src/Prelude/Bits.antt =====
-- A mask of k ones takes the k low binary digits: `x & (2^k - 1)` is `x % 2^k`.
use Prim.Native.Nat.{
  ℕ, zero, suc, ◌+◌, ◌-◌, ◌*◌, ◌/◌, ◌%◌, ◌^◌, ◌≤◌, ◌<◌, min, bit_and, digits, bit_and-bitwise,
}
use mathlib.Core.Path.{◌≡◌, refl, sym, ap, ap₂, ◌∙◌}
use native.Mathlib.Omega.{arith}
use native.Mathlib.Nat.{pow-suc, mod-eq_of_lt, mod-lt, div-add-mod, add-mul-mod_self_left}

-- What the native `bit_and` stands for, with the fuel shown.
abbrev meet : ℕ → ℕ → ℕ → ℕ
meet n a b = digits (λ b. zero) min n a b

-- Any fuel from `a` on gives the same digits.
meet_fuel : (n m a b : ℕ) → a ≤ n → a ≤ m → meet n a b ≡ meet m a b
meet_fuel zero zero a b p q = refl
meet_fuel zero (suc m) zero b p q = refl
meet_fuel zero (suc m) (suc a) b p q = absurd (omega arith)
meet_fuel (suc n) zero zero b p q = refl
meet_fuel (suc n) zero (suc a) b p q = absurd (omega arith)
meet_fuel (suc n) (suc m) zero b p q = refl
meet_fuel (suc n) (suc m) (suc a) b p q =
    omega (arith, meet_fuel n m (suc a / 2) (b / 2) (omega arith) (omega arith))

bit_and-halves : (a b : ℕ) → bit_and a b ≡ bit_and (a / 2) (b / 2) * 2 + min (a % 2) (b % 2)
bit_and-halves zero b = omega (arith, bit_and-bitwise 0 b, bit_and-bitwise 0 (b / 2))
bit_and-halves (suc a) b = omega (
  arith,
  bit_and-bitwise (suc a) b,
  bit_and-bitwise (suc a / 2) (b / 2),
  meet_fuel a (suc a / 2) (suc a / 2) (b / 2) (omega arith) (omega arith),
)

bit_and-nil : (n a : ℕ) → a ≤ n → bit_and a 0 ≡ 0
bit_and-nil n zero h = bit_and-bitwise 0 0
bit_and-nil zero (suc a) h = absurd (omega arith)
bit_and-nil (suc n) (suc a) h =
    omega (arith, bit_and-halves (suc a) 0, bit_and-nil n (suc a / 2) (omega arith))

pub pow_pos : (k : ℕ) → 0 < 2 ^ k
pow_pos zero = omega arith
pow_pos (suc k) = omega (arith, pow-suc 2 k, pow_pos k)

-- The digits below 2k of `a` are its lowest one and those below k of its half.
mod-double : (a n : ℕ) → 0 < n → a % (n * 2) ≡ a / 2 % n * 2 + a % 2
mod-double a n h =
    ap (λ t. t % (n * 2)) split
    ∙ add-mul-mod_self_left (a / 2 % n * 2 + a % 2) (n * 2) (a / 2 / n)
    ∙ mod-eq_of_lt (omega (arith, mod-lt (a / 2) h))
  where
    split : a ≡ (a / 2 % n * 2 + a % 2) + n * 2 * (a / 2 / n)
    split = omega (arith, div-add-mod (a / 2) n)

pub bit_and-mask : (k a : ℕ) → bit_and a (2 ^ k - 1) ≡ a % 2 ^ k
bit_and-mask zero a = omega (arith, bit_and-nil a a (omega arith))
bit_and-mask (suc k) a =
    bit_and-halves a (2 ^ suc k - 1)
    ∙ ap₂ (λ u v. bit_and (a / 2) u * 2 + min (a % 2) v) half odd
    ∙ ap₂ (λ u v. u * 2 + v) (bit_and-mask k (a / 2)) (omega arith)
    ∙ sym (mod-double a (2 ^ k) (pow_pos k))
    ∙ ap (λ t. a % t) (sym (pow-suc 2 k))
  where
    half : (2 ^ suc k - 1) / 2 ≡ 2 ^ k - 1
    half = omega (arith, pow-suc 2 k, pow_pos k)

    odd : (2 ^ suc k - 1) % 2 ≡ 1
    odd = omega (arith, pow-suc 2 k, pow_pos k)
