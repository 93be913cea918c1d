-- ===== src/Deque/Represents.antt =====
-- When a deque holds a list of items, oldest first, and that the parts of `push` keep it.
use thread_pool_runtime.Prelude.{
  ℕ, suc, ◌+◌, ◌-◌, ◌*◌, ◌%◌, ◌^◌, ◌≤◌, ◌<◌, ◌≡◌, refl, ap, ◌∙◌, List, [], ◌∷◌, ◌++◌, some, arith,
  length, length-append, inl, inr, Bool-cases, ltb,
}
use thread_pool_runtime.Prelude.Family.{update_eq}
use thread_pool_runtime.Prelude.Bits.{pow_pos}
use native.Mathlib.Nat.{pow-suc}
use thread_pool_runtime.Deque.{
  Buffer, Deque, load, store, copy, new_buffer, new_deque, grow, is_full, make_room, store_slot,
}
use thread_pool_runtime.Deque.Words.{word, add64}
use thread_pool_runtime.Deque.Window.{
  IsBuffer, load-store_self, new_buffer-IsBuffer, store-IsBuffer, copy-IsBuffer, pow_room,
}
use thread_pool_runtime.Deque.Contents.{Holds, Holds-store, Holds-snoc, Holds-copy}

-- More pushes than this cannot happen in practice; up to it no index or capacity overflows.
abbrev pub max_index : ℕ
max_index = 2 ^ 62

-- The deque holds exactly the items `xs`, the oldest at `top_`.
pub record Represents {ℓ} {A : Type ℓ} (d : Deque A) (xs : List A) : Type ℓ where
  pub exponent : ℕ
  pub shape : IsBuffer exponent (d.heap d.buffer)
  pub capacity_small : 2 ^ exponent ≤ max_index
  pub size : d.top + length xs ≡ d.bottom
  pub fits : length xs ≤ 2 ^ exponent
  pub small : d.bottom ≤ max_index
  pub owned : d.buffer < d.retired
  pub items : Holds (d.heap d.buffer) d.top xs

module _ {ℓ} {A : Type ℓ} where
  -- A new deque is empty.
  pub new_deque-Represents : (k : ℕ) → 2 ^ k ≤ max_index → Represents {A = A} (new_deque (2 ^ k)) []
  unfolding new_deque
  new_deque-Represents k h = record {
    exponent = k;
    shape = new_buffer-IsBuffer k (omega arith);
    capacity_small = h;
    size = omega arith;
    fits = omega arith;
    small = omega arith;
    owned = omega arith;
    items = λ i lt. absurd (omega arith);
  }

  module _ {d : Deque A} {xs : List A} (v : Represents d xs) where
    open v use {exponent, shape, capacity_small, size, fits, small, owned, items}

    -- The test of `push`, with `top_` read as `t`.
    is_full-ltb : (t : ℕ) → t ≤ d.bottom → is_full d t ≡ ltb (2 ^ exponent - 1) (d.bottom - t)
    unfolding is_full
    is_full-ltb t le = ground (arith, shape.capacity, pow_pos exponent)

    -- `grow` keeps the items and makes room for one more, also if `top_` has moved on since `t`.
    grow-Represents :
        (t : ℕ)
        → t ≤ d.top
        → 2 ^ exponent ≤ d.bottom - t
        → d.bottom ≤ t + 2 ^ exponent
        → d.bottom < max_index
        → (w : Represents (grow d t d.bottom) xs) × (length xs < 2 ^ w.exponent)
    unfolding grow
    grow-Represents t le full near room = (
      record {
        exponent = suc exponent;
        shape = rw (update_eq d.heap d.retired d.retired grown refl) grown-IsBuffer;
        capacity_small = pow_room exponent (omega arith);
        size = size;
        fits = omega (arith, pow-suc 2 exponent);
        small = small;
        owned = omega arith;
        items = rw (update_eq d.heap d.retired d.retired grown refl) (
            Holds-copy word (d.heap d.buffer) fresh t d.top d.bottom xs fresh-IsBuffer le
              (omega arith) size (omega (arith, pow-suc 2 exponent)) (omega arith) items);
      },
      omega (arith, pow-suc 2 exponent, pow_pos exponent),
    )
      where
        fresh : Buffer A
        fresh = new_buffer (((d.heap d.buffer).capacity * 2) % word)

        grown : Buffer A
        grown = copy word (d.heap d.buffer) fresh t d.bottom

        doubled : ((d.heap d.buffer).capacity * 2) % word ≡ 2 ^ suc exponent
        doubled = omega (arith, shape.capacity, pow-suc 2 exponent, pow_room exponent (omega arith))

        fresh-IsBuffer : IsBuffer (suc exponent) fresh
        fresh-IsBuffer =
            rw doubled
              (new_buffer-IsBuffer (suc exponent) (omega (arith, pow_room exponent (omega arith))))

        grown-IsBuffer : IsBuffer (suc exponent) grown
        grown-IsBuffer = copy-IsBuffer word (d.heap d.buffer) fresh t d.bottom fresh-IsBuffer

    -- After the test of `push` there is room for one more.
    pub make_room-Represents :
        (t : ℕ)
        → t ≤ d.top
        → d.bottom ≤ t + 2 ^ exponent
        → d.bottom < max_index
        → (w : Represents (make_room d t) xs) × (length xs < 2 ^ w.exponent)
    unfolding make_room
    make_room-Represents t le near room = elim (Bool-cases (is_full d t)) [
      | inl full ↦
          rw full (grow-Represents t le (ground (arith, is_full-ltb t (omega arith))) near room)
      | inr not_full ↦
          rw not_full (v, ground (arith, is_full-ltb t (omega arith), pow_pos exponent))
    ]

    -- The store of `push` lands past the items.
    pub store_slot-Represents :
        (item : A)
        → length xs < 2 ^ exponent
        → (w : Represents (store_slot d d.bottom item) xs) × (length xs < 2 ^ w.exponent)
    unfolding store_slot
    store_slot-Represents item room = (
      record {
        exponent = exponent;
        shape =
            rw (update_eq d.heap d.buffer d.buffer written refl)
              (store-IsBuffer d.bottom (some item) shape);
        capacity_small = capacity_small;
        size = size;
        fits = fits;
        small = small;
        owned = owned;
        items = rw (update_eq d.heap d.buffer d.buffer written refl) (
            Holds-store (d.heap d.buffer) d.top d.bottom xs (some item) shape (omega arith) room
              items);
      },
      room,
    )
      where
        written : Buffer A
        written = store (d.heap d.buffer) d.bottom (some item)

  pub load-store_slot :
      (d : Deque A) (b : ℕ) (item : A)
      → load ((store_slot d b item).heap (store_slot d b item).buffer) b ≡ some item
  unfolding store_slot
  load-store_slot d b item =
      rw (update_eq d.heap d.buffer d.buffer (store (d.heap d.buffer) b (some item)) refl)
        (load-store_self (d.heap d.buffer) b (some item))

  -- With the new item in its slot, `bottom_ + 1` publishes it.
  pub publish-Represents :
      (d : Deque A) (xs : List A) (item : A) (v : Represents d xs)
      → load (d.heap d.buffer) d.bottom ≡ some item
      → length xs < 2 ^ v.exponent
      → d.bottom < max_index
      → Represents (record d { bottom = add64 d.bottom 1 }) (xs ++ item ∷ [])
  publish-Represents d xs item v e room less = record {
    exponent = exponent;
    shape = shape;
    capacity_small = capacity_small;
    size = omega (arith, length-append xs (item ∷ []));
    fits = omega (arith, length-append xs (item ∷ []));
    small = omega arith;
    owned = owned;
    items = Holds-snoc (d.heap d.buffer) d.top xs item (ap (load (d.heap d.buffer)) size ∙ e) items;
  }
    where
      open v use {exponent, shape, capacity_small, size, fits, small, owned, items}

  pub make_room-bottom : (d : Deque A) (t : ℕ) → (make_room d t).bottom ≡ d.bottom
  unfolding make_room grow
  make_room-bottom d t = ground arith

  pub make_room-top : (d : Deque A) (t : ℕ) → (make_room d t).top ≡ d.top
  unfolding make_room grow
  make_room-top d t = ground arith
