-- ===== src/Deque.antt =====
-- include/wss/chase_lev_deque.hpp: the Chase-Lev deque, each operation run to its end alone.
-- An int64_t or size_t is its 64-bit pattern, a number below 2^64. An item is the T* of its box:
-- `none` is nullptr, and a slot keeps its old pointer after the box is freed, as in the code.
pub mod Words
pub mod Window
pub mod Contents
pub mod ListDeque
pub mod Represents
pub mod Refine
pub mod Lifetime
pub mod Threads
mod Tests
use thread_pool_runtime.Prelude.{
  ℕ, zero, suc, ◌+◌, ◌-◌, ◌*◌, ◌%◌, ◌^◌, Option, none, some, Bool, true, false, if◌then◌else◌, ltb,
  ◌==◌, List, [], ◌∷◌,
}
use mathlib.Core.Option
use thread_pool_runtime.Prelude.Family.{update}
use Prim.Native.Nat.{bit_and}
use Words.{word, add64, sub64, slt}

-- `Buffer`: the vector of slots is read and written below `capacity` only.
pub record Buffer {ℓ} (A : Type ℓ) : Type ℓ where
  pub capacity : ℕ
  pub mask : ℕ
  pub slots : ℕ → Option A

-- `buffer` is the pointer `buffer_`, and `heap` what pointers lead to. `retired_` owns the buffers
-- 0 to `retired - 1`.
pub record Deque {ℓ} (A : Type ℓ) : Type ℓ where
  pub top : ℕ
  pub bottom : ℕ
  pub buffer : ℕ
  pub retired : ℕ
  pub heap : ℕ → Buffer A

-- `while (p < v) p <<= 1`; `none` means that the fuel ran out.
unfoldable pub round_up : ℕ → ℕ → ℕ → Option ℕ
round_up zero p v = none
round_up (suc fuel) p v =
    let rest = round_up fuel ((p * 2) % word) v in if ltb p v then rest else some p

unfoldable pub round_up_pow2 : ℕ → Option ℕ
unfolding round_up
round_up_pow2 v = round_up 65 1 v

module _ {ℓ} {A : Type ℓ} where
  -- `Buffer(cap)`: the vector's pointers start as nullptr.
  unfoldable pub new_buffer : ℕ → Buffer A
  new_buffer cap = record { capacity = cap; mask = sub64 cap 1; slots = λ _. none }

  unfoldable pub index : Buffer A → ℕ → ℕ
  index buf i = bit_and i buf.mask

  -- `buf->slots[buf->index(i)].load()`
  unfoldable pub load : Buffer A → ℕ → Option A
  unfolding index
  load buf i = buf.slots (index buf i)

  -- `buf->slots[buf->index(i)].store(p)`
  unfoldable pub store : Buffer A → ℕ → Option A → Buffer A
  unfolding index
  store buf i p = record buf { slots = update buf.slots (index buf i) p }

  -- The constructor, with the capacity already rounded up.
  unfoldable pub new_deque : ℕ → Deque A
  new_deque cap = record {
    top = 0;
    bottom = 0;
    buffer = 0;
    retired = 1;
    heap = λ _. new_buffer cap;
  }

  -- The constructor. The code's default capacity is 256.
  unfoldable pub make_deque : ℕ → Option (Deque A)
  make_deque initial_capacity = Option.map new_deque (round_up_pow2 initial_capacity)

  -- The loop of the destructor, `for (i = t; i < b; ++i)`, on fuel: the pointers that it deletes, in
  -- order; `none` when the fuel does not suffice.
  unfoldable pub deletes : ℕ → Buffer A → ℕ → ℕ → Option (List (Option A))
  deletes zero buf i b = none
  deletes (suc fuel) buf i b = elim (slt i b) [
    | true ↦ Option.map (◌∷◌ (load buf i)) (deletes fuel buf (add64 i 1) b)
    | false ↦ some []
  ]

  -- The loop cannot take more rounds than there are indices.
  unfoldable pub destroy : Deque A → Option (List (Option A))
  destroy d = deletes word (d.heap d.buffer) d.top d.bottom

  -- The loop of `grow`, `for (i = t; i != b; ++i)`, on fuel.
  unfoldable pub copy : ℕ → Buffer A → Buffer A → ℕ → ℕ → Buffer A
  copy zero old new i b = new
  copy (suc rounds) old new i b = elim (i == b) [
    | true ↦ new
    | false ↦ copy rounds old (store new i (load old i)) (add64 i 1) b
  ]

  -- The copy loop cannot take more rounds than there are indices.
  unfoldable pub grow : Deque A → ℕ → ℕ → Deque A
  grow d t b = record d {
    buffer = d.retired;
    retired = suc d.retired;
    heap = update d.heap d.retired (copy word old (new_buffer ((old.capacity * 2) % word)) t b);
  }
    where
      old : Buffer A
      old = d.heap d.buffer

  -- The test of `push` that calls for a larger buffer.
  unfoldable pub is_full : Deque A → ℕ → Bool
  is_full d t = slt (sub64 (d.heap d.buffer).capacity 1) (sub64 d.bottom t)

  -- `buf->slots[buf->index(b)].store(boxed)` through the pointer `buffer_`.
  unfoldable pub store_slot : Deque A → ℕ → A → Deque A
  store_slot d b item = record d {
    heap = update d.heap d.buffer (store (d.heap d.buffer) b (some item));
  }

  unfoldable pub make_room : Deque A → ℕ → Deque A
  make_room d t = if is_full d t then grow d t d.bottom else d

  unfoldable pub push : Deque A → A → Deque A
  push d item =
      let d' = make_room d d.top in
      record (store_slot d' d.bottom item) { bottom = add64 d.bottom 1 }

  -- Alone, the exchange on `top_` succeeds: its expected value has just been read.
  unfoldable pub pop : Deque A → Option A × Deque A
  pop d =
      let b = sub64 d.bottom 1 in
      let ptr = load (d.heap d.buffer) b in
      if slt b d.top
      then (none, record d { bottom = add64 b 1 })
      else if d.top == b
      then (ptr, record d { bottom = add64 b 1; top = add64 d.top 1 })
      else (ptr, record d { bottom = b })

  unfoldable pub steal : Deque A → Option A × Deque A
  steal d =
      if slt d.top d.bottom
      then (load (d.heap d.buffer) d.top, record d { top = add64 d.top 1 })
      else (none, d)
