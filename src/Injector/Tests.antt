-- ===== src/Injector/Tests.antt =====
-- A batch of three from a queue of five jobs into an empty deque.
use thread_pool_runtime.Prelude.{
  ℕ, ◌+◌, ◌-◌, ◌≡◌, ◌≤◌, refl, List, [], ◌∷◌, length, drop, arith, some,
}
use thread_pool_runtime.Deque.{Deque, new_deque}
use thread_pool_runtime.Deque.Represents.{max_index, new_deque-Represents}
use thread_pool_runtime.Injector.{pop_batch_into, move_batch}
use thread_pool_runtime.Injector.Refine.{Moved, pop_batch_into-Moved}

abbrev waiting : List ℕ
waiting = 1 ∷ 2 ∷ 3 ∷ 4 ∷ 5 ∷ []

abbrev small : Deque ℕ
small = new_deque 2

still_waiting : (pop_batch_into waiting small 3).1.1 ≡ 4 ∷ 5 ∷ []
unfolding pop_batch_into move_batch
still_waiting = refl

small_room : small.bottom + length waiting ≤ max_index
unfolding new_deque
small_room = omega arith

pop_batch_into-Moved_example :
    ((pop_batch_into waiting small 3).0 ≡ some 1)
    × Moved [] (drop 1 waiting) (3 - 1) (pop_batch_into waiting small 3).1
pop_batch_into-Moved_example =
    pop_batch_into-Moved small [] waiting 3 (new_deque-Represents 1 (omega arith)) small_room
