-- ===== src/GlobalQueue/Fifo.antt =====
-- Jobs start in the order in which they came in.
use thread_pool_runtime.Prelude.{ℕ, ◌≡◌, refl, ap, ◌∙◌, List, [], ◌∷◌, ◌++◌, append_assoc}
use mathlib.Core.List.{reverse, reverse-append, reverse-cons}
use thread_pool_runtime.GlobalQueue.{
  Pool, Event, accepts, starts, Step, worker_takes, submit_pushes, Run, start, later, initial,
}

module _ {T : Type 0} where
  -- The jobs that a run has accepted, and those that it has started, newest first.
  abbrev pub accepted : List (Event T) → List T
  accepted [] = []
  accepted (accepts job ∷ es) = job ∷ accepted es
  accepted (e ∷ es) = accepted es

  abbrev pub started : List (Event T) → List T
  started [] = []
  started (starts job ∷ es) = job ∷ started es
  started (e ∷ es) = started es

  abbrev Kept : List (Event T) → List T → Type 0
  Kept es queue = accepted es ≡ reverse queue ++ started es

  Step-Kept :
      {n : ℕ} {s t : Pool T} {e : Event T} (es : List (Event T))
      → Step n s e t
      → Kept es s.queue
      → Kept (e ∷ es) t.queue
  Step-Kept es (worker_takes i {job} {rest} lt at e) k =
      k ∙ rw (e, reverse-cons job rest) (append_assoc (reverse rest) (job ∷ []) (started es))
  Step-Kept {s = s} es (submit_pushes c {job} at free) k =
      rw (reverse-append s.queue (job ∷ [])) (ap (◌∷◌ job) k)
  Step-Kept es mv k = k

  -- The pool starts jobs in the order in which their `submit` got the mutex, none twice: the accepted
  -- jobs, newest first, are those still in the queue, then those started, newest first.
  pub run_fifo :
      (n : ℕ) (s : Pool T) (es : List (Event T))
      → Run n initial es s
      → accepted es ≡ reverse s.queue ++ started es
  run_fifo n s _ start = refl
  run_fifo n s _ (later {es} r mv) = Step-Kept es mv (run_fifo n _ es r)
