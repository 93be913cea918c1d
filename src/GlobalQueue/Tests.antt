-- ===== src/GlobalQueue/Tests.antt =====
-- One worker: a job is submitted, run, and the pool shut down.
use thread_pool_runtime.Prelude.{
  ℕ, zero, suc, ◌<◌, ◌≡◌, ◌≢◌, refl, true, List, [], ◌∷◌, ◌++◌, arith, none,
}
use mathlib.Core.List.{reverse}
use thread_pool_runtime.GlobalQueue.{
  Pool, Worker, exited, joined, Event, silent, accepts, starts, worker_locks, worker_takes,
  worker_finds_none, worker_returns, worker_finishes, submit_records, submit_pushes,
  submit_notifies_none, shutdown_stores, shutdown_notifies, shutdown_joins, Run, start, later,
  initial, make_pool,
}
use thread_pool_runtime.GlobalQueue.Fifo.{accepted, started, run_fifo}
use thread_pool_runtime.GlobalQueue.Mutex.{Inv, Run-Inv}
use thread_pool_runtime.GlobalQueue.Drain.{Timely, shutdown_drains}
use thread_pool_runtime.GlobalQueue.LostWakeup.{IsStuck, IsQuiet, shutdown_hangs}

abbrev events : List (Event ℕ)
events =
    silent
    ∷ silent
    ∷ silent
    ∷ silent
    ∷ silent
    ∷ silent
    ∷ silent
    ∷ starts 5
    ∷ silent
    ∷ silent
    ∷ accepts 5
    ∷ silent
    ∷ []

abbrev Lifetime : Type 0
Lifetime = (s : Pool ℕ) × (r : Run 1 initial events s) × Timely r × (s.closer ≡ joined)

all_exited : (w : ℕ → Worker ℕ) → w 0 ≡ exited → (i : ℕ) → i < 1 → w i ≡ exited
all_exited w e zero lt = e
all_exited w e (suc i) lt = absurd (omega arith)

lifetime : Lifetime
lifetime = (
  _,
  later
      (later
        (later
          (later
            (later
              (later
                (later
                  (later
                    (later
                      (later
                        (later (later start (submit_records 0 5 refl))
                          (submit_pushes 0 (ground arith) refl))
                        (submit_notifies_none 0 (ground arith) (λ i lt. cc)))
                      (worker_locks 0 (omega arith) refl refl))
                    (worker_takes 0 (omega arith) (ground arith) refl))
                  (worker_finishes 0 {job = 5} (omega arith) (ground arith)))
                (shutdown_stores refl))
              (shutdown_notifies refl))
            (worker_locks 0 (omega arith) (ground arith) refl))
          (worker_finds_none 0 (omega arith) (ground arith) refl))
        (worker_returns 0 (omega arith) (ground arith) refl))
      (shutdown_joins refl (all_exited _ (ground arith))),
  (
    (
      (
        (
          (
            (
              (
                (((((tt, λ job e. cc), λ job e. refl), λ job e. cc), λ job e. cc), λ job e. cc),
                λ job e. cc,
              ),
              λ job e. cc,
            ),
            λ job e. cc,
          ),
          λ job e. cc,
        ),
        λ job e. cc,
      ),
      λ job e. cc,
    ),
    λ job e. cc,
  ),
  refl,
)

run_fifo_example : accepted events ≡ reverse lifetime.0.queue ++ started events
run_fifo_example = run_fifo 1 lifetime.0 events lifetime.1

Run-Inv_example : Inv lifetime.0
Run-Inv_example = Run-Inv lifetime.1

shutdown_drains_example :
    ((i : ℕ) → i < 1 → lifetime.0.worker i ≡ exited) × (accepted events ≡ started events)
shutdown_drains_example =
    shutdown_drains 1 lifetime.0 events lifetime.1 (omega arith) lifetime.2 lifetime.3

shutdown_hangs_example :
    (t : Pool ℕ) × Run 3 initial (silent ∷ silent ∷ silent ∷ silent ∷ silent ∷ silent ∷ []) t
    × (t.shutdown_flag ≡ true)
    × IsStuck 1 t
    × ((u : Pool ℕ) (es : List (Event ℕ)) → Run 3 t es u → IsQuiet es → u.closer ≢ joined)
shutdown_hangs_example = shutdown_hangs ℕ 3 1 (omega arith)

no_workers : make_pool {T = ℕ} 0 ≡ none
unfolding make_pool
no_workers = refl
