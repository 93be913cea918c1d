-- ===== src/Task/Tests.antt =====
-- A task whose body throws, and a thread that blocks in `join` until then.
use thread_pool_runtime.Prelude.{ℕ, ◌≡◌, ◌≢◌, ◌⊎◌, refl, List, [], ◌∷◌, false, true, none, some}
use thread_pool_runtime.Metrics.{no_activity, record_completed, record_panicked}
use thread_pool_runtime.Task.{
  standard, Result, err, rethrow_if_error, Outcome, throws, done, blocked, joining, got, Task,
  join_error, body_throws, panics, completes_panic, sets, notifies, enters, blocks, takes, by_job,
  by_joiner, TaskRun, start, later, spawned,
}
use thread_pool_runtime.Task.Again.{is_finished, join_again, joined_once}
use thread_pool_runtime.Task.Cancellation.{CancellationToken, Use, makes, cancels, polls}
use thread_pool_runtime.Task.Cancellation
use thread_pool_runtime.Task.Join.{delivery, tally, thrown, join_result, join_woken}

abbrev failing : Outcome ℕ ℕ
failing = throws (standard (98 ∷ 97 ∷ 100 ∷ []) 0)

abbrev failure : Result ℕ ℕ
failure = err (join_error (standard (98 ∷ 97 ∷ 100 ∷ []) 0))

abbrev over : Task ℕ ℕ
over = record {
  result = some failure;
  metrics = record_completed (record_panicked no_activity);
  job = done;
  joiner = joining;
}

abbrev joined_task : Task ℕ ℕ
joined_task = record over { result = none; joiner = got failure }

runs_over : TaskRun failing (spawned no_activity) over
runs_over =
    later
      (later
        (later
          (later
            (later (later (later start (by_joiner enters)) (by_joiner (blocks refl)))
              (by_job (body_throws refl)))
            (by_job panics))
          (by_job completes_panic))
        (by_job sets))
      (by_job notifies)

join_result_example :
    (failure ≡ delivery failing)
    × (rethrow_if_error failure ≡ thrown failing)
    × (joined_task.metrics ≡ tally no_activity failing)
join_result_example =
    join_result failing no_activity joined_task failure
      (later runs_over (by_joiner (takes failure refl))) refl

join_woken_example :
    (over.joiner ≢ blocked)
    × ((over.result ≡ some (delivery failing)) ⊎ (over.joiner ≡ got (delivery failing)))
join_woken_example = join_woken failing no_activity over runs_over refl

-- The thread calls `join` once more, and blocks.
abbrev waiting_again : Task ℕ ℕ
waiting_again = record (join_again joined_task) { joiner = blocked }

joined_once_example :
    (is_finished waiting_again ≡ false) × ((q : Result ℕ ℕ) → waiting_again.joiner ≢ got q)
joined_once_example =
    joined_once failing no_activity joined_task waiting_again failure
      (later runs_over (by_joiner (takes failure refl))) refl
      (later start (by_joiner (blocks refl)))

-- Two tokens, of which the first is cancelled between two polls of the context of a task.
abbrev first : CancellationToken
first = record { flag = 0 }

abbrev second : CancellationToken
second = record { flag = 1 }

abbrev uses : List Use
uses =
    polls second false
    ∷ polls first true
    ∷ cancels first
    ∷ polls first false
    ∷ makes second
    ∷ makes first
    ∷ []
