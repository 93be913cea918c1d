-- ===== src/WorkStealing/Workers/Tests.antt =====
-- One worker that falls asleep, and `shutdown` of a pool that has not begun to look for work.
use thread_pool_runtime.Prelude.{ℕ, ◌≡◌, ◌<◌, refl, ◌⊎◌, inl, [], ◌∷◌, arith, ℕ_discrete, true}
use thread_pool_runtime.Priority.{high, normal, background}
use thread_pool_runtime.WorkStealing.Workers.{
  own, injected, probes, peer_probes, searching, checking, going_to_wait, sleeping, exited, stored,
  notified, Pool, advance, wake, moves, WorkerMove, snapshots, own_empty, injected_empty,
  finds_nothing, sees_open, sleeps, stores, shouts, notifies, by_worker, by_closer, Run, start,
  later, initial,
}
use thread_pool_runtime.WorkStealing.Workers.Rest.{IsResting, sleeping_drained}
use thread_pool_runtime.WorkStealing.Workers.Shutdown.{shutdown_moves}

abbrev asleep : Pool ℕ
asleep =
    moves
      (moves
        (moves
          (moves
            (moves
              (moves
                (moves
                  (moves
                    (moves (moves initial 0 (searching 0 (probes 1 0))) 0 (
                      searching 0 (
                        own normal
                        ∷ own background
                        ∷ injected high
                        ∷ injected normal
                        ∷ injected background
                        ∷ [])))
                    0
                    (searching 0 (
                      own background ∷ injected high ∷ injected normal ∷ injected background ∷ [])))
                  0 (searching 0 (injected high ∷ injected normal ∷ injected background ∷ [])))
                0 (searching 0 (injected normal ∷ injected background ∷ [])))
              0 (searching 0 (injected background ∷ [])))
            0 (searching 0 []))
          0 (checking 0))
        0 (going_to_wait 0))
      0 (sleeping 0)

falls_asleep : Run 1 0 initial 10 asleep
unfolding probes peer_probes ℕ_discrete
falls_asleep =
    later
      (later
        (later
          (later
            (later
              (later
                (later
                  (later
                    (later (later (start) (by_worker 0 (omega arith) (snapshots)))
                      (by_worker 0 (omega arith) (own_empty refl)))
                    (by_worker 0 (omega arith) (own_empty refl)))
                  (by_worker 0 (omega arith) (own_empty refl)))
                (by_worker 0 (omega arith) (injected_empty refl)))
              (by_worker 0 (omega arith) (injected_empty refl)))
            (by_worker 0 (omega arith) (injected_empty refl)))
          (by_worker 0 (omega arith) (finds_nothing)))
        (by_worker 0 (omega arith) (sees_open refl)))
      (by_worker 0 (omega arith) (sleeps refl))

asleep-IsResting : IsResting 1 asleep
unfolding ℕ_discrete
asleep-IsResting = record {
  workers = λ i lt. inl (0, ground arith);
  clients = λ c. (λ e. absurd (cc), λ e. absurd (cc));
  closer = λ e. absurd (cc);
}

sleeping_drained_example :
    ((r : ℕ) → r < 3 → asleep.injectors r ≡ [])
    × ((v r : ℕ) → v < 1 → r < 3 → asleep.deques v r ≡ [])
unfolding ℕ_discrete
sleeping_drained_example =
    sleeping_drained 1 0 10 0 0 asleep falls_asleep (omega arith) asleep-IsResting refl

-- `shutdown` has rung for the worker that slept.
abbrev rung : Pool ℕ
rung = record (advance (record asleep { shutdown_flag = true; closer = stored })) {
  worker = λ j. wake 1 (asleep.worker j);
  closer = notified;
}

rings_out : Run 1 0 initial 13 rung
unfolding ℕ_discrete
rings_out =
    later (later (later falls_asleep (by_closer stores)) (by_closer shouts)) (by_closer notifies)

shutdown_moves_example :
    ((i : ℕ) → i < 1 → rung.worker i ≡ exited)
    ⊎ ((i : ℕ) × (i < 1) × ((t : Pool ℕ) × WorkerMove 1 rung i (rung.worker i) t))
shutdown_moves_example = shutdown_moves 1 0 13 rung rings_out (omega arith) (λ c. refl) refl
