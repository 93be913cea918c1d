-- ===== src/Injector/Refine.antt =====
-- What a batch moves, in terms of the items of the deque.
use thread_pool_runtime.Prelude.{
  ℕ, zero, suc, ◌+◌, ◌-◌, ◌≡◌, ◌≤◌, ◌<◌, refl, sym, subst, List, [], ◌∷◌, ◌++◌, append_assoc,
  append-nil, take, drop, get_elem?, true, false, length, arith, ltb,
}
use thread_pool_runtime.Deque
use thread_pool_runtime.Deque.{Deque, store_slot}
use thread_pool_runtime.Deque.ListDeque
use thread_pool_runtime.Deque.Represents.{max_index, Represents}
use thread_pool_runtime.Deque.Refine.{push_refines}
use thread_pool_runtime.Injector.{move_batch, pop_batch_into}

module _ {ℓ} {T : Type ℓ} where
  bottom-push-le :
      (d : Deque T) (job : T) → d.bottom < max_index → (Deque.push d job).bottom ≤ suc d.bottom
  unfolding Deque.push store_slot
  bottom-push-le d job less = omega arith

  -- What `pop_batch_into` leaves: the items of the deque, and the queue.
  abbrev pub Moved : List T → List T → ℕ → Deque T × List T → Type ℓ
  Moved xs queue n r = Represents r.0 (xs ++ take n queue) × (r.1 ≡ drop n queue)

  append-push : (xs : List T) (job : T) (ys : List T) → ListDeque.push xs job ++ ys ≡ xs ++ job ∷ ys
  unfolding ListDeque.push
  append-push xs job ys = append_assoc xs (job ∷ []) ys

  move_batch-Moved :
      (n moved max_batch : ℕ) (d : Deque T) (xs queue : List T)
      → max_batch - moved ≡ n
      → Represents d xs
      → d.bottom + length queue ≤ max_index
      → Moved xs queue n (move_batch moved max_batch d queue)
  unfolding move_batch
  move_batch-Moved zero moved max_batch d xs [] e v room =
      (subst (Represents d) (sym (append-nil xs)) v, refl)
  move_batch-Moved (suc n) moved max_batch d xs [] e v room =
      (subst (Represents d) (sym (append-nil xs)) v, refl)
  move_batch-Moved zero moved max_batch d xs (job ∷ rest) e v room =
      let stop : ltb moved max_batch ≡ false = ground arith in
      rw stop (subst (Represents d) (sym (append-nil xs)) v, refl)
  move_batch-Moved (suc n) moved max_batch d xs (job ∷ rest) e v room =
      let go : ltb moved max_batch ≡ true = ground arith in
      let rest_moved =
        move_batch-Moved n (suc moved) max_batch (Deque.push d job) (ListDeque.push xs job) rest
          (omega arith) (push_refines d xs job v (omega arith))
          (omega (arith, bottom-push-le d job (omega arith))) in
      rw go (
        subst (Represents (move_batch (suc moved) max_batch (Deque.push d job) rest).0)
            (append-push xs job (take n rest)) rest_moved.0,
        rest_moved.1,
      )

  -- A batch hands the oldest job to its caller and moves the next ones, up to `max_batch` jobs in
  -- all, to the end of the deque in their order; the others stay in the queue. Nothing is found just
  -- when the queue is empty.
  pub pop_batch_into-Moved :
      (d : Deque T) (xs queue : List T) (max_batch : ℕ)
      → Represents d xs
      → d.bottom + length queue ≤ max_index
      → ((pop_batch_into queue d max_batch).0 ≡ get_elem? queue 0)
        × Moved xs (drop 1 queue) (max_batch - 1) (pop_batch_into queue d max_batch).1
  unfolding pop_batch_into move_batch
  pop_batch_into-Moved d xs [] max_batch v room =
      (refl, move_batch-Moved (max_batch - 1) 1 max_batch d xs [] refl v room)
  pop_batch_into-Moved d xs (first ∷ rest) max_batch v room =
      (refl, move_batch-Moved (max_batch - 1) 1 max_batch d xs rest refl v (omega arith))
