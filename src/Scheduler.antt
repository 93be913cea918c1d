-- ===== src/Scheduler.antt =====
-- include/wss/scheduler.hpp: what the four schedulers have in common, as their clients see it, and
-- `spawn` on any of them.
pub mod GlobalQueue
pub mod WorkStealing
pub mod ThreadPerCore
pub mod FairScheduler
pub mod Balance
pub mod Spawn
mod Tests
use thread_pool_runtime.Prelude.{ℕ, ◌≡◌, ◌<◌, ◌++◌, refl, Bool, List, [], ◌∷◌, length, count_if}
use thread_pool_runtime.Deque.Words.{word}

-- What a step of a scheduler does to jobs: `submit` puts one into a queue, a worker takes one out and
-- calls it, and the call returns.
pub data Label (T : Type 0) : Type 0 where
  silent : Label T
  accepts starts finishes : T → Label T

module _ {T : Type 0} where
  abbrev pub accepted : List (Label T) → List T
  accepted [] = []
  accepted (accepts job ∷ es) = job ∷ accepted es
  accepted (silent ∷ es) = accepted es
  accepted (starts job ∷ es) = accepted es
  accepted (finishes job ∷ es) = accepted es

  abbrev pub started : List (Label T) → List T
  started [] = []
  started (starts job ∷ es) = job ∷ started es
  started (silent ∷ es) = started es
  started (accepts job ∷ es) = started es
  started (finishes job ∷ es) = started es

  abbrev pub finished : List (Label T) → List T
  finished [] = []
  finished (finishes job ∷ es) = job ∷ finished es
  finished (silent ∷ es) = finished es
  finished (accepts job ∷ es) = finished es
  finished (starts job ∷ es) = finished es

module _ {T : Type 0} where
  -- What one more step adds.
  pub accepted-cons :
      (e : Label T) (es : List (Label T)) → accepted (e ∷ es) ≡ accepted (e ∷ []) ++ accepted es
  accepted-cons silent es = refl
  accepted-cons (accepts job) es = refl
  accepted-cons (starts job) es = refl
  accepted-cons (finishes job) es = refl

  pub started-cons :
      (e : Label T) (es : List (Label T)) → started (e ∷ es) ≡ started (e ∷ []) ++ started es
  started-cons silent es = refl
  started-cons (accepts job) es = refl
  started-cons (starts job) es = refl
  started-cons (finishes job) es = refl

  pub finished-cons :
      (e : Label T) (es : List (Label T)) → finished (e ∷ es) ≡ finished (e ∷ []) ++ finished es
  finished-cons silent es = refl
  finished-cons (accepts job) es = refl
  finished-cons (starts job) es = refl
  finished-cons (finishes job) es = refl

-- Runs of labelled steps; the labels are newest first.
pub data LabelledRun {T S : Type 0} (Step : S → Label T → S → Type 0) (s : S)
    : List (Label T) → S → Type 0 where
  start : LabelledRun Step s [] s
  later :
      {es : List (Label T)} {t u : S} {e : Label T}
      → LabelledRun Step s es t
      → Step t e u
      → LabelledRun Step s (e ∷ es) u

-- A scheduler. Its steps are those of its threads in which no call of `submit` comes too late for
-- `shutdown`; once the joins have returned, every job that was queued has been run to its end.
pub record Scheduler (T : Type 0) : Type 1 where
  pub State : Type 0
  pub initial : State
  pub Step : State → Label T → State → Type 0
  pub HasShutDown : State → Type 0
  pub drains :
      {es : List (Label T)} {s : State}
      → LabelledRun Step initial es s
      → length es < word
      → HasShutDown s
      → (P : T → Bool) → count_if P (accepted es) ≡ count_if P (finished es)
