-- ===== src/Deque/Threads/Pushing.antt =====
-- The owner's steps through `push`.
use thread_pool_runtime.Prelude.{
  ℕ, ◌≤◌, ◌<◌, ◌≡◌, ◌≢◌, refl, ap, ◌∙◌, some, List, [], ◌∷◌, ◌++◌, arith, length, inr, ℕ_discrete,
}
use thread_pool_runtime.Prelude.Family.{update_eq, update_ne}
use thread_pool_runtime.Deque.{Buffer, Deque, load, store, grow, make_room, store_slot}
use thread_pool_runtime.Deque.ListDeque
use thread_pool_runtime.Deque.Words.{add64}
use thread_pool_runtime.Deque.Window.{load-store_ne}
use thread_pool_runtime.Deque.Represents.{
  max_index, Represents, make_room-Represents, store_slot-Represents, load-store_slot,
  publish-Represents, make_room-bottom, make_room-top,
}
use thread_pool_runtime.Deque.Threads.{resting, growing, storing, publishing, silent, pushed}
use thread_pool_runtime.Deque.Threads.Inv.{OwnerOk}
use thread_pool_runtime.Deque.Threads.Evolve.{
  Evolves-same, Evolves-items, After, front-append, append-ne-nil, length_of_ne-nil,
}

module _ {A : Type 0} where
  make_room-retired : (d : Deque A) (t : ℕ) → d.retired ≤ (make_room d t).retired
  unfolding make_room grow
  make_room-retired d t = ground arith

  make_room-heap : (d : Deque A) (t p : ℕ) → p < d.retired → (make_room d t).heap p ≡ d.heap p
  unfolding make_room grow
  make_room-heap d t p lt = ground arith

  -- The step that reads `top_`.
  pub push_top-After :
      (d : Deque A) (xs : List A) (item : A)
      → Represents d xs
      → d.bottom < max_index
      → After xs d silent d (growing item d.top)
  push_top-After d xs item v less = record {
    left = xs;
    items = v;
    owner_ok = (less, omega arith, omega (arith, v.size, v.fits, v.shape.capacity));
    evolves = Evolves-same d.bottom;
    allowed = refl;
  }

  -- The step that publishes a larger buffer, if the array looked full.
  pub push_room-After :
      (d : Deque A) (xs : List A) (item : A) (t : ℕ)
      → Represents d xs
      → OwnerOk d xs (growing item t)
      → After xs d silent (make_room d t) (storing item)
  push_room-After d xs item t v (less, le, near) =
      let (w, room) = make_room-Represents v t le (omega (arith, v.shape.capacity)) less in
      record {
        left = xs;
        items = w;
        owner_ok = (omega (arith, make_room-bottom d t), omega (arith, w.shape.capacity));
        evolves = record {
          top_le = omega (arith, make_room-top d t);
          retired_le = make_room-retired d t;
          kept = λ e ne. ne;
          same_front = λ e ne. refl;
          same_slot = λ e ne p lt. ap (λ b. load b d.top) (make_room-heap d t p lt);
        };
        allowed = refl;
      }

  load-store_slot_front :
      (d : Deque A) (xs : List A) (item : A)
      → Represents d xs
      → length xs < (d.heap d.buffer).capacity
      → xs ≢ []
      → (p : ℕ) → load ((store_slot d d.bottom item).heap p) d.top ≡ load (d.heap p) d.top
  unfolding store_slot
  load-store_slot_front d xs item v room ne p = elim (ℕ_discrete d.buffer p) [
    | yes same ↦
        ap (λ b. load b d.top) (update_eq d.heap d.buffer p written same)
        ∙ load-store_ne d.bottom d.top (some item) v.shape (
            inr (
              omega (arith, v.size, length_of_ne-nil xs ne),
              omega (arith, v.size, v.shape.capacity),
            ))
        ∙ ap (λ q. load (d.heap q) d.top) same
    | no other ↦ ap (λ b. load b d.top) (update_ne d.heap d.buffer p written other)
  ]
    where
      written : Buffer A
      written = store (d.heap d.buffer) d.bottom (some item)

  -- The step that fills the slot.
  pub push_store-After :
      (d : Deque A) (xs : List A) (item : A)
      → Represents d xs
      → OwnerOk d xs (storing item)
      → After xs d silent (store_slot d d.bottom item) (publishing item)
  unfolding store_slot
  push_store-After d xs item v (less, room) =
      let (w, room') = store_slot-Represents v item (omega (arith, v.shape.capacity)) in
      record {
        left = xs;
        items = w;
        owner_ok = (less, omega (arith, w.shape.capacity), load-store_slot d d.bottom item);
        evolves = record {
          top_le = omega arith;
          retired_le = omega arith;
          kept = λ e ne. ne;
          same_front = λ e ne. refl;
          same_slot = λ e ne p lt. load-store_slot_front d xs item v room ne p;
        };
        allowed = refl;
      }

  -- The step that makes the item visible.
  pub push_bottom-After :
      (d : Deque A) (xs : List A) (item : A)
      → Represents d xs
      → OwnerOk d xs (publishing item)
      → After xs d (pushed item) (record d { bottom = add64 d.bottom 1 }) resting
  unfolding ListDeque.push
  push_bottom-After d xs item v (less, room, stored) = record {
    left = xs ++ item ∷ [];
    items = publish-Represents d xs item v stored (omega (arith, v.shape.capacity)) less;
    owner_ok = tt;
    evolves =
        Evolves-items (add64 d.bottom 1) (append-ne-nil xs (item ∷ []))
          (front-append xs (item ∷ []));
    allowed = refl;
  }
