-- ===== src/Injector.antt =====
-- src/injector.cpp: the queue that callers submit into, and the batch that a worker moves from it to
-- its own deque. The mutex is held throughout each operation.
pub mod Refine
mod Tests
use thread_pool_runtime.Prelude.{
  ℕ, suc, ◌+◌, Bool, if◌then◌else◌, ltb, List, [], ◌∷◌, ◌++◌, Option, none, some,
}
use thread_pool_runtime.Deque
use thread_pool_runtime.Deque.{Deque}

module _ {ℓ} {T : Type ℓ} where
  unfoldable pub push : List T → T → List T
  push queue job = queue ++ job ∷ []

  -- `while (moved < max_batch && !queue_.empty())`: the deque and what is left of the queue.
  unfoldable pub move_batch : ℕ → ℕ → Deque T → List T → Deque T × List T
  move_batch moved max_batch dest [] = (dest, [])
  move_batch moved max_batch dest (job ∷ rest) =
      let further = move_batch (suc moved) max_batch (Deque.push dest job) rest in
      if ltb moved max_batch then further else (dest, job ∷ rest)

  -- The job for the caller, the worker's deque and what is left of the queue.
  unfoldable pub pop_batch_into : List T → Deque T → ℕ → Option T × (Deque T × List T)
  pop_batch_into [] dest max_batch = (none, (dest, []))
  pop_batch_into (first ∷ rest) dest max_batch = (some first, move_batch 1 max_batch dest rest)
