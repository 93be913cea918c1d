-- ===== src/Lib.antt =====
-- The thread pool runtime (`include/wss`, `src`): schedulers that run jobs on a fixed set of worker
-- threads, and the structures below them.
--
-- Parts, and the file that models each:
--   * `include/wss/chase_lev_deque.hpp`, the lock-free deque of a worker: Deque.antt has its state
--     (`top_`, `bottom_`, the arrays that `grow` keeps, the current one) and `push`, `pop`, `steal`,
--     `grow`, constructor and destructor as functions of that state, for calls made one at a time.
--     Deque/Threads.antt has one owner and any number of thieves, one step for each access of a
--     shared word. Deque/ListDeque.antt is what both promise: a list.
--   * `src/global_queue_scheduler.cpp`: GlobalQueue.antt, a step relation on the queue, the mutex,
--     the condition variable, the flag, the workers, any number of callers of `submit` and the
--     caller of `shutdown`.
--   * `src/fair_scheduler.cpp`: FairScheduler.antt has the state under `mu_` and each critical section
--     as a function of it; FairScheduler/Run.antt any sequence of them, and FairScheduler/Workers.antt
--     all its threads, where a section is one step, as is each other access of shared state. Run times and weights are an
--     arithmetic with an order (FairScheduler/Doubles.antt), of which the finite `double`s are one.
--   * `src/injector.cpp`, `include/wss/priority.hpp`: Injector.antt, Priority.antt.
--   * `src/work_stealing_scheduler.cpp`: WorkStealing.antt, what its workers share, `find_task` and
--     `submit`, on the deques of Deque.antt. WorkStealing/Workers.antt has all its threads and
--     `include/wss/idle_signal.hpp`, one step for each access of shared state; there a deque is its
--     list, and an operation on it one step (Deque/Threads.antt has its accesses one by one), and so
--     is the batch that a worker pulls. A run of it has fewer than 2^64 steps, so that the count of the
--     signal does not come round.
--   * `src/thread_per_core_scheduler.cpp`: ThreadPerCore.antt, the queues of the cores and the sections
--     under the mutex of a core; ThreadPerCore/Workers.antt, all its threads, one step for each access
--     of shared state.
--   * `include/wss/scheduler.hpp`, `include/wss/join_handle.hpp`, `include/wss/result.hpp`: Task.antt,
--     a task made by `spawn`, its worker and the thread that joins it, once (Task/Join.antt) and again
--     (Task/Again.antt). What the body does is a parameter. `include/wss/cancellation.hpp`:
--     Task/Cancellation.antt, the flags that tokens and contexts share.
--     Scheduler.antt is the interface `Scheduler` as its clients see it, jobs put in, started and
--     finished, with the law of `shutdown`, which Scheduler/GlobalQueue.antt, WorkStealing.antt,
--     ThreadPerCore.antt and FairScheduler.antt beside it fill for the four schedulers.
--     Scheduler/Spawn.antt has the tasks that `spawn` makes on any scheduler.
--   * `include/wss/metrics.hpp`: Metrics.antt, the four counters and their snapshot; `src/metrics.cpp`:
--     Metrics/Output.antt, its text.
--
-- Choices and bounds. Indices and counters are 64-bit words, as `std::int64_t` and `std::uint64_t`
-- are, with their wrap written out in Deque/Words.antt; the theorems on the deque hold while fewer
-- than 2^62 items were pushed (`max_index`), where no comparison of two's complement indices can go
-- wrong. Memory is sequentially consistent: the memory orders of the source, which are meant to give
-- the same, are not modelled. `round_up_pow2` is recursion on fuel: 65 rounds, since after 64
-- doublings the word is 0. The copy loop of `grow` and the loop of the destructor have 2^64 rounds as
-- fuel, as many as there are indices. Virtual run times and weights are finite: `register_class` also
-- takes a weight that is not a number, after which `ready_` has no order. A job is a value of any
-- type of the lowest universe.
--
-- Not modelled: pinning of threads, the move-only wrapper of a job (`include/wss/job.hpp`), the bodies
-- of jobs, tests, benchmarks and examples.

pub mod Prelude
pub mod Deque
pub mod Metrics
pub mod GlobalQueue
pub mod FairScheduler
pub mod Priority
pub mod Injector
pub mod WorkStealing
pub mod ThreadPerCore
pub mod Task
pub mod Scheduler
