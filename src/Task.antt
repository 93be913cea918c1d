-- ===== src/Task.antt =====
-- include/wss/scheduler.hpp, join_handle.hpp, result.hpp: a task made by `spawn`, the worker that runs
-- it and the thread that joins its handle, a section or a call at a time. The body is the client's
-- code: what it does is a parameter.
pub mod Join
pub mod Cancellation
pub mod Again
mod Tests
use thread_pool_runtime.Prelude.{ℕ, ◌≡◌, Option, none, some, List, [], ◌∷◌}
use thread_pool_runtime.Metrics.{Metrics, record_completed, record_panicked}

-- What can be thrown: a `std::exception` with its `what()`, or anything else. `E` is what tells one
-- exception object from another.
pub data Exception (E : Type 0) : Type 0 where
  standard : List ℕ → E → Exception E
  nonstandard : E → Exception E

-- "non-standard exception"
abbrev pub nonstandard_message : List ℕ
nonstandard_message =
    110 ∷ 111 ∷ 110 ∷ 45 ∷ 115 ∷ 116 ∷ 97 ∷ 110 ∷ 100 ∷ 97 ∷ 114 ∷ 100 ∷ 32 ∷ 101 ∷ 120 ∷ 99 ∷ 101
    ∷ 112 ∷ 116 ∷ 105 ∷ 111 ∷ 110 ∷ []

unfoldable pub current_exception_message : {E : Type 0} → Exception E → List ℕ
current_exception_message (standard what e) = what
current_exception_message (nonstandard e) = nonstandard_message

-- `none` in `original` is the null `exception_ptr`.
pub record JoinError (E : Type 0) : Type 0 where
  pub message : List ℕ
  pub original : Option (Exception E)

pub data Result (V E : Type 0) : Type 0 where
  ok : V → Result V E
  err : JoinError E → Result V E

-- What leaves `rethrow_if_error`, if anything.
pub data Thrown (E : Type 0) : Type 0 where
  same : Exception E → Thrown E
  runtime_error : List ℕ → Thrown E

unfoldable pub rethrow_error : {E : Type 0} → List ℕ → Option (Exception E) → Thrown E
rethrow_error message (some e) = same e
rethrow_error message none = runtime_error message

unfoldable pub rethrow_if_error : {V E : Type 0} → Result V E → Option (Thrown E)
rethrow_if_error (ok v) = none
rethrow_if_error (err e) = some (rethrow_error e.message e.original)

-- What the body of the task does.
pub data Outcome (V E : Type 0) : Type 0 where
  returns : V → Outcome V E
  throws : Exception E → Outcome V E

-- Where the worker stands in the job.
pub data Job (V E : Type 0) : Type 0 where
  body : Job V E
  returned : V → Job V E  -- before `record_completed()`
  caught : Exception E → Job V E  -- before `record_panic()`
  panicked : Exception E → Job V E  -- before `record_completed()` of the handler
  setting : Result V E → Job V E  -- before the section of `set`
  notifying : Job V E  -- before `cv.notify_all()`
  done : Job V E

-- Where the thread with the handle stands in `join`.
pub data Joiner (V E : Type 0) : Type 0 where
  away : Joiner V E
  joining : Joiner V E  -- before it tests the predicate, with the mutex
  blocked : Joiner V E  -- in `cv.wait`
  got : Result V E → Joiner V E

-- `result` is that of `HandleShared`; `metrics` counts this task only.
pub record Task (V E : Type 0) : Type 0 where
  pub result : Option (Result V E)
  pub metrics : Metrics
  pub job : Job V E
  pub joiner : Joiner V E

-- `cv.notify_all()`
abbrev pub wake : {V E : Type 0} → Joiner V E → Joiner V E
wake blocked = joining
wake j = j

-- The error that the handler makes of an exception.
unfoldable pub join_error : {E : Type 0} → Exception E → JoinError E
join_error e = record { message = current_exception_message e; original = some e }

pub data JobStep {V E : Type 0} (f : Outcome V E) (s : Task V E) : Job V E → Task V E → Type 0 where
  body_returns : {v : V} → f ≡ returns v → JobStep f s body (record s { job = returned v })
  body_throws : {e : Exception E} → f ≡ throws e → JobStep f s body (record s { job = caught e })
  completes :
      {v : V}
      → JobStep f s
          (returned v)
          (record s { metrics = record_completed s.metrics; job = setting (ok v) })
  panics :
      {e : Exception E}
      → JobStep f s (caught e) (record s { metrics = record_panicked s.metrics; job = panicked e })
  completes_panic :
      {e : Exception E}
      → JobStep f s
          (panicked e)
          (record s { metrics = record_completed s.metrics; job = setting (err (join_error e)) })
  sets : {r : Result V E} → JobStep f s (setting r) (record s { result = some r; job = notifying })
  notifies : JobStep f s notifying (record s { job = done; joiner = wake s.joiner })

pub data JoinStep {V E : Type 0} (s : Task V E) : Joiner V E → Task V E → Type 0 where
  enters : JoinStep s away (record s { joiner = joining })
  blocks : s.result ≡ none → JoinStep s joining (record s { joiner = blocked })
  wakes : JoinStep s blocked (record s { joiner = joining })
  takes :
      (r : Result V E)
      → s.result ≡ some r
      → JoinStep s joining (record s { result = none; joiner = got r })

pub data TaskStep {V E : Type 0} (f : Outcome V E) (s : Task V E) : Task V E → Type 0 where
  by_job : {t : Task V E} → JobStep f s s.job t → TaskStep f s t
  by_joiner : {t : Task V E} → JoinStep s s.joiner t → TaskStep f s t

pub data TaskRun {V E : Type 0} (f : Outcome V E) (s : Task V E) : Task V E → Type 0 where
  start : TaskRun f s s
  later : {t u : Task V E} → TaskRun f s t → TaskStep f t u → TaskRun f s u

-- `spawn` has submitted the job; the counters are at `m`.
abbrev pub spawned : {V E : Type 0} → Metrics → Task V E
spawned m = record { result = none; metrics = m; job = body; joiner = away }
