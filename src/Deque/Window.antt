-- ===== src/Deque/Window.antt =====
-- The circular array: which slot an index falls on, and what a write or a copy leaves alone.
use thread_pool_runtime.Prelude.{
  ℕ, zero, suc, ◌+◌, ◌-◌, ◌/◌, ◌%◌, ◌^◌, ◌≤◌, ◌<◌, ◌≡◌, refl, ◌∙◌, ap, Option, arith, dec_lt, ◌⊎◌,
  inl, inr, ◌==◌, true, false,
}
use thread_pool_runtime.Prelude.Bits.{bit_and-mask, pow_pos}
use native.Mathlib.Nat.{div-add-mod, pow-le-pow_right, mul-le-mul_left}
use thread_pool_runtime.Deque.{Buffer, index, load, store, new_buffer, copy}
use thread_pool_runtime.Deque.Words.{word, add64}

-- Fewer than `m` indices in a row fall on different slots.
mod-injective : (m i j : ℕ) → i ≤ j → j < i + m → i % m ≡ j % m → i ≡ j
mod-injective m i j le lt e = elim (dec_lt (i / m) (j / m)) [
  | yes p ↦ absurd (
      omega (
        arith,
        div-add-mod i m,
        div-add-mod j m,
        mul-le-mul_left {m = suc (i / m)} {n = j / m} m p,
      ))
  | no p ↦ omega (
    arith,
    div-add-mod i m,
    div-add-mod j m,
    mul-le-mul_left {m = j / m} {n = i / m} m (omega arith),
  )
]

-- A capacity below 2^62 can be doubled within 2^62.
pub pow_room : (k : ℕ) → 2 ^ k < 2 ^ 62 → 2 ^ suc k ≤ 2 ^ 62
pow_room k h = elim (dec_lt k 62) [
  | yes p ↦ pow-le-pow_right {n = 2} (omega arith) {i = suc k} {j = 62} p
  | no p ↦
      absurd (omega (arith, pow-le-pow_right {n = 2} (omega arith) {i = 62} {j = k} (omega arith)))
]

-- What the constructor of `Buffer` sets up for a power of two.
pub record IsBuffer {ℓ} {A : Type ℓ} (k : ℕ) (buf : Buffer A) : Type 0 where
  pub capacity : buf.capacity ≡ 2 ^ k
  pub mask : buf.mask ≡ 2 ^ k - 1

module _ {ℓ} {A : Type ℓ} where
  pub new_buffer-IsBuffer : (k : ℕ) → 2 ^ k < word → IsBuffer {A = A} k (new_buffer (2 ^ k))
  unfolding new_buffer
  new_buffer-IsBuffer k h = record { capacity = refl; mask = omega (arith, pow_pos k) }

  pub store-IsBuffer :
      {k : ℕ} {buf : Buffer A} (i : ℕ) (p : Option A) → IsBuffer k buf → IsBuffer k (store buf i p)
  unfolding store
  store-IsBuffer i p v = record { capacity = v.capacity; mask = v.mask }

  index-mod : {k : ℕ} {buf : Buffer A} (i : ℕ) → IsBuffer k buf → index buf i ≡ i % 2 ^ k
  unfolding index
  index-mod {k} i v = rw v.mask (bit_and-mask k i)

  pub load-store_self : (buf : Buffer A) (i : ℕ) (p : Option A) → load (store buf i p) i ≡ p
  unfolding load store
  load-store_self buf i p = ground arith

  -- A store is not seen at another index of the window.
  pub load-store_ne :
      {k : ℕ} {buf : Buffer A} (i j : ℕ) (p : Option A)
      → IsBuffer k buf
      → (i < j) × (j < i + 2 ^ k) ⊎ (j < i) × (i < j + 2 ^ k)
      → load (store buf i p) j ≡ load buf j
  unfolding load store
  load-store_ne {k} {buf} i j p v (inl (lt, near)) = ground (
    arith,
    index-mod {k = k} {buf = buf} i v,
    index-mod {k = k} {buf = buf} j v,
    mod-injective (2 ^ k) i j,
  )
  load-store_ne {k} {buf} i j p v (inr (lt, near)) = ground (
    arith,
    index-mod {k = k} {buf = buf} i v,
    index-mod {k = k} {buf = buf} j v,
    mod-injective (2 ^ k) j i,
  )

  copy-done :
      (rounds : ℕ) (old new : Buffer A) (i b : ℕ) → i ≡ b → copy (suc rounds) old new i b ≡ new
  unfolding copy
  copy-done rounds old new i b e = ground arith

  copy-step :
      (rounds : ℕ) (old new : Buffer A) (i b : ℕ)
      → i < b
      → b < word
      → copy (suc rounds) old new i b ≡ copy rounds old (store new i (load old i)) (suc i) b
  unfolding copy
  copy-step rounds old new i b lt small = ground arith

  pub copy-IsBuffer :
      {k : ℕ} (rounds : ℕ) (old new : Buffer A) (i b : ℕ)
      → IsBuffer k new
      → IsBuffer k (copy rounds old new i b)
  unfolding copy
  copy-IsBuffer zero old new i b v = v
  copy-IsBuffer {k} (suc rounds) old new i b v =
      elim (i == b)
        as (λ t. IsBuffer k (elim t [
          | true ↦ new
          | false ↦ copy rounds old (store new i (load old i)) (add64 i 1) b
        ])) [
          | true ↦ v
          | false ↦ copy-IsBuffer rounds old _ (add64 i 1) b (store-IsBuffer i (load old i) v)
        ]

  -- `grow`'s loop leaves alone what is already copied.
  load-copy_below :
      {k : ℕ} (rounds : ℕ) (old new : Buffer A) (i b j : ℕ)
      → IsBuffer k new
      → j < i
      → i ≤ b
      → b < i + rounds
      → b ≤ j + 2 ^ k
      → b < word
      → load (copy rounds old new i b) j ≡ load new j
  load-copy_below zero old new i b j v lt le enough near small = absurd (omega arith)
  load-copy_below (suc rounds) old new i b j v lt le enough near small = elim (dec_lt i b) [
    | yes more ↦
        ap (λ t. load t j) (copy-step rounds old new i b more small)
        ∙ load-copy_below rounds old (store new i (load old i)) (suc i) b j
            (store-IsBuffer i (load old i) v) (omega arith) more (omega arith) near small
        ∙ load-store_ne i j (load old i) v (inr (lt, omega arith))
    | no last ↦ ap (λ t. load t j) (copy-done rounds old new i b (omega arith))
  ]

  load-copy_first :
      {k : ℕ} (rounds : ℕ) (old new : Buffer A) (i b j : ℕ)
      → IsBuffer k new
      → i ≡ j
      → suc i ≤ b
      → b < suc i + rounds
      → b ≤ i + 2 ^ k
      → b < word
      → load (copy rounds old (store new i (load old i)) (suc i) b) j ≡ load old j
  load-copy_first rounds old new i b j v e le enough near small =
      load-copy_below rounds old (store new i (load old i)) (suc i) b j
        (store-IsBuffer i (load old i) v) (omega arith) le enough (omega arith) small
      ∙ rw (← e) (load-store_self new i (load old i))

  -- With fuel for its `b - t` rounds and the test that ends them, the loop has copied every index from
  -- `t` to `b`, in the new places.
  pub load-copy :
      {k : ℕ} (rounds : ℕ) (old new : Buffer A) (i b j : ℕ)
      → IsBuffer k new
      → i ≤ j
      → j < b
      → b < i + rounds
      → b ≤ i + 2 ^ k
      → b < word
      → load (copy rounds old new i b) j ≡ load old j
  load-copy zero old new i b j v le lt e near small = absurd (omega arith)
  load-copy (suc rounds) old new i b j v le lt e near small =
      ap (λ t. load t j) (copy-step rounds old new i b (omega arith) small) ∙ elim (dec_lt i j) [
        | yes later ↦
            load-copy rounds old (store new i (load old i)) (suc i) b j
              (store-IsBuffer i (load old i) v) later lt (omega arith) (omega arith) small
        | no first ↦
            load-copy_first rounds old new i b j v (omega arith) (omega arith) (omega arith)
              (omega arith) small
      ]
