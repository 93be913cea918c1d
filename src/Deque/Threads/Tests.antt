-- ===== src/Deque/Threads/Tests.antt =====
-- A run: the owner pushes one item while a thief waits, and the thief steals it.
use thread_pool_runtime.Prelude.{ℕ, refl, List, [], ◌∷◌, ◌++◌, arith, ℕ_discrete}
use mathlib.Core.List.{Perm}
use thread_pool_runtime.Deque.{
  new_deque, new_buffer, make_room, is_full, grow, copy, store_slot, load, store, index,
}
use thread_pool_runtime.Deque.Threads.{
  Owner, Event, silent, pushed, stole, System, push_top, push_room, push_store, push_bottom,
  steal_top, steal_some, steal_buffer, steal_slot, steal_win, owner_step, thief_step, Run, start,
  later,
}
use thread_pool_runtime.Deque.Threads.Inv.{Inv, Allowed}
use thread_pool_runtime.Deque.Threads.Safety.{Step-refines}
use thread_pool_runtime.Deque.Threads.Conserve.{puts, takes, initial, initial-Inv, run_conserves}

abbrev events : List (Event ℕ)
events = stole 7 ∷ silent ∷ silent ∷ silent ∷ silent ∷ pushed 7 ∷ silent ∷ silent ∷ silent ∷ []

-- The state after the steps of `push` and `steal`.
stolen_run : (t : System ℕ) × Run (initial 1) events t
unfolding new_deque new_buffer make_room is_full grow copy store_slot load store index ℕ_discrete
stolen_run = (
  _,
  later
      (later
        (later
          (later
            (later
              (later
                (later (later (later start (owner_step (push_top 7))) (owner_step push_room))
                  (owner_step push_store))
                (owner_step push_bottom))
              (thief_step 0 steal_top))
            (thief_step 0 (steal_some refl)))
          (thief_step 0 steal_buffer))
        (thief_step 0 steal_slot))
      (thief_step 0 (steal_win refl refl)),
)

run_conserves_example :
    (left : List ℕ) × Inv stolen_run.0 left × Perm (puts events) (takes events ++ left)
run_conserves_example = run_conserves 1 stolen_run.0 events (omega arith) stolen_run.1 (omega arith)

abbrev after_top : System ℕ
after_top = record (initial 1) { owner = Owner.growing 7 0 }

Step-refines_example : (ys : List ℕ) × Inv after_top ys × Allowed [] silent ys
unfolding new_deque
Step-refines_example =
    Step-refines (initial 1) after_top silent [] (owner_step (push_top 7))
      (initial-Inv 1 (omega arith)) (omega arith)
