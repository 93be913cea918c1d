-- ===== src/Deque/Tests.antt =====
-- The deque at concrete inputs: a deque of two slots that grows at its third item.
use thread_pool_runtime.Prelude.{
  ℕ, ◌^◌, ◌≡◌, ◌≤◌, refl, List, [], ◌∷◌, map, Option, none, some, arith, ℕ_discrete,
}
use thread_pool_runtime.Deque.{
  Deque, new_buffer, load, store, index, copy, grow, is_full, store_slot, make_room, new_deque,
  round_up_pow2, make_deque, push, pop, steal, destroy, deletes,
}
use thread_pool_runtime.Deque.ListDeque
use thread_pool_runtime.Deque.Represents.{Represents, new_deque-Represents}
use thread_pool_runtime.Deque.Refine.{
  Op, pushes, pops, steals, run, run_list, push_refines, pop_refines, steal_refines, run_refines,
}
use thread_pool_runtime.Deque.Lifetime.{
  IsCeiling, round_up_pow2-IsCeiling, destroy-items, make_deque-Represents,
}

abbrev small : Deque ℕ
small = new_deque 2

abbrev script : List (Op ℕ)
script = pushes 1 ∷ pushes 2 ∷ pushes 3 ∷ steals ∷ pops ∷ pops ∷ pops ∷ steals ∷ []

abbrev replies : List (Option ℕ)
replies = none ∷ none ∷ none ∷ some 1 ∷ some 3 ∷ some 2 ∷ none ∷ none ∷ []

run-script : run small script ≡ replies
unfolding run push pop steal new_deque new_buffer make_room is_full grow copy store_slot load store
    index ℕ_discrete
run-script = refl

small-Represents : Represents small []
small-Represents = new_deque-Represents 1 (omega arith)

one-Represents : Represents (push small 7) (7 ∷ [])
unfolding ListDeque.push new_deque
one-Represents = push_refines small [] 7 small-Represents (omega arith)

push_refines_example : Represents (push small 7) (ListDeque.push [] 7)
unfolding new_deque
push_refines_example = push_refines small [] 7 small-Represents (omega arith)

pop_refines_example :
    ((pop (push small 7)).0 ≡ (ListDeque.pop (7 ∷ [])).0)
    × Represents (pop (push small 7)).1 (ListDeque.pop (7 ∷ [])).1
pop_refines_example = pop_refines (push small 7) (7 ∷ []) one-Represents

steal_refines_example :
    ((steal (push small 7)).0 ≡ (ListDeque.steal (7 ∷ [])).0)
    × Represents (steal (push small 7)).1 (ListDeque.steal (7 ∷ [])).1
steal_refines_example = steal_refines (push small 7) (7 ∷ []) one-Represents

run_refines_example : run small script ≡ run_list [] script
unfolding new_deque
run_refines_example = run_refines small [] script small-Represents (omega arith)

round_up_pow2-IsCeiling_example : (k : ℕ) × (round_up_pow2 5000 ≡ some (2 ^ k)) × IsCeiling 5000 k
round_up_pow2-IsCeiling_example = round_up_pow2-IsCeiling 5000 (omega arith)

deque_256 :
    (d : Deque ℕ) × (make_deque 256 ≡ some d) × Represents d [] × (256 ≤ (d.heap d.buffer).capacity)
deque_256 = make_deque-Represents 256 (omega arith)

destroy-items_example : destroy (push small 7) ≡ some (map some (7 ∷ []))
destroy-items_example = destroy-items (push small 7) (7 ∷ []) one-Represents

-- Two items are freed, the oldest first.
freed : destroy (push (push small 7) 8) ≡ some (map some (7 ∷ 8 ∷ []))
unfolding destroy deletes push new_deque new_buffer make_room is_full grow copy store_slot load
    store index ℕ_discrete
freed = refl
