-- ===== src/Deque/Lifetime.antt =====
-- The constructor's rounding of the capacity, and what the destructor frees.
use thread_pool_runtime.Prelude.{
  ℕ, zero, suc, ◌+◌, ◌*◌, ◌%◌, ◌^◌, ◌≤◌, ◌<◌, ◌≡◌, ap, ap₂, ◌∙◌, List, [], ◌∷◌, map, some, arith,
  length, dec_lt, dec_le,
}
use mathlib.Core.Option
use native.Mathlib.Nat.{pow-suc, pow-le-pow_right}
use thread_pool_runtime.Deque.{
  Buffer, Deque, load, new_buffer, round_up, round_up_pow2, new_deque, make_deque, deletes, destroy,
}
use thread_pool_runtime.Deque.Words.{word, half_word}
use thread_pool_runtime.Deque.Contents.{Holds, Holds-tail, Holds-head}
use thread_pool_runtime.Deque.Represents.{max_index, Represents, new_deque-Represents}

-- `2^k` is the least power of two that is at least `v`.
pub record IsCeiling (v k : ℕ) : Type 0 where
  pub above : v ≤ 2 ^ k
  pub least : (j : ℕ) → v ≤ 2 ^ j → k ≤ j

round_up-step :
    (fuel k v : ℕ)
    → 2 ^ k < v
    → k < 63
    → round_up (suc fuel) (2 ^ k) v ≡ round_up fuel (2 ^ suc k) v
unfolding round_up
round_up-step fuel k v lt small = ground (arith, doubled)
  where
    doubled : (2 ^ k * 2) % word ≡ 2 ^ suc k
    doubled = omega (
      arith,
      pow-suc 2 k,
      pow-le-pow_right {n = 2} (omega arith) {i = suc k} {j = 63} (omega arith),
    )

round_up-IsCeiling :
    (fuel k v : ℕ)
    → 63 < k + fuel
    → v ≤ half_word
    → ((j : ℕ) → v ≤ 2 ^ j → k ≤ j)
    → (n : ℕ) × (round_up fuel (2 ^ k) v ≡ some (2 ^ n)) × IsCeiling v n
unfolding round_up
round_up-IsCeiling zero k v enough small least = absurd (omega (arith, least 63 small))
round_up-IsCeiling (suc fuel) k v enough small least = elim (dec_lt (2 ^ k) v) [
  | yes lt ↦
      let (n, found, c) = round_up-IsCeiling fuel (suc k) v (omega arith) small (above_k lt) in
      (n, round_up-step fuel k v lt (k_small lt) ∙ found, c)
  | no ge ↦ (k, ground arith, record { above = omega arith; least = least })
]
  where
    above_k : 2 ^ k < v → (j : ℕ) → v ≤ 2 ^ j → suc k ≤ j
    above_k lt j h = elim (dec_le (suc k) j) [
      | yes le ↦ le
      | no gt ↦
          absurd
            (omega (arith, pow-le-pow_right {n = 2} (omega arith) {i = j} {j = k} (omega arith)))
    ]

    k_small : 2 ^ k < v → k < 63
    k_small lt = above_k lt 63 small

-- For a request of at most 2^63 the loop ends within its fuel, at the least power of two above it.
pub round_up_pow2-IsCeiling :
    (v : ℕ) → v ≤ half_word → (k : ℕ) × (round_up_pow2 v ≡ some (2 ^ k)) × IsCeiling v k
unfolding round_up_pow2
round_up_pow2-IsCeiling v small = round_up-IsCeiling 65 0 v (omega arith) small (λ j h. omega arith)

module _ {ℓ} {A : Type ℓ} where
  deletes-step :
      (fuel : ℕ) (buf : Buffer A) (i b : ℕ)
      → i < b
      → b ≤ max_index
      → deletes (suc fuel) buf i b ≡ Option.map (◌∷◌ (load buf i)) (deletes fuel buf (suc i) b)
  unfolding deletes
  deletes-step fuel buf i b lt small = ground arith

  deletes-stop :
      (fuel : ℕ) (buf : Buffer A) (i b : ℕ)
      → i ≡ b
      → b ≤ max_index
      → deletes (suc fuel) buf i b ≡ some []
  unfolding deletes
  deletes-stop fuel buf i b e small = ground arith

  deletes-items :
      (fuel : ℕ) (buf : Buffer A) (i b : ℕ) (xs : List A)
      → length xs < fuel
      → i + length xs ≡ b
      → b ≤ max_index
      → Holds buf i xs
      → deletes fuel buf i b ≡ some (map some xs)
  deletes-items zero buf i b xs enough e small h = absurd (omega arith)
  deletes-items (suc fuel) buf i b [] enough e small h =
      deletes-stop fuel buf i b (omega arith) small
  deletes-items (suc fuel) buf i b (x ∷ xs) enough e small h =
      deletes-step fuel buf i b (omega arith) small
      ∙ ap₂ (λ y r. Option.map (◌∷◌ y) r) (Holds-head buf i x xs h)
          (deletes-items fuel buf (suc i) b xs (omega arith) (omega arith) small
            (Holds-tail buf i x xs h))

  -- The destructor's loop ends, and frees every item still in the deque once, the oldest first, and
  -- nothing else.
  pub destroy-items : (d : Deque A) (xs : List A) → Represents d xs → destroy d ≡ some (map some xs)
  unfolding destroy
  destroy-items d xs v =
      deletes-items word (d.heap d.buffer) d.top d.bottom xs (omega (arith, v.size, v.small)) v.size
        v.small v.items

  -- The constructor gives an empty deque for every request of at most 2^62 slots.
  pub make_deque-Represents :
      (v : ℕ)
      → v ≤ max_index
      → (d : Deque A) × (make_deque v ≡ some d) × Represents d [] × (v ≤ (d.heap d.buffer).capacity)
  unfolding make_deque new_deque new_buffer
  make_deque-Represents v small =
      let (k, e, c) = round_up_pow2-IsCeiling v (omega arith) in
      (
        new_deque (2 ^ k),
        ap (Option.map new_deque) e,
        new_deque-Represents k
            (pow-le-pow_right {n = 2} (omega arith) {i = k} {j = 62} (c.least 62 small)),
        c.above,
      )
