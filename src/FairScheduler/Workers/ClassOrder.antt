-- ===== src/FairScheduler/Workers/ClassOrder.antt =====
-- Each class of src/fair_scheduler.cpp is served in the order of its submissions.
use thread_pool_runtime.Prelude.{
  ℕ, ◌<◌, ◌≡◌, refl, sym, ap, subst, ◌∙◌, List, [], ◌∷◌, ◌++◌, append_assoc, arith, if◌then◌else◌,
  ◌==◌, Bool-cases, inl, inr,
}
use mathlib.Core.List.{reverse, reverse-append, reverse-cons}
use thread_pool_runtime.Deque.Words.{word}
use thread_pool_runtime.FairScheduler.{FairState}
use thread_pool_runtime.FairScheduler.Inv as Fair
use thread_pool_runtime.FairScheduler.Submit.{class_name}
use thread_pool_runtime.FairScheduler.Backlog.{
  queue, class_for, KeepsQueues, IsQueued, IsServed, account-KeepsQueues,
  register_class-KeepsQueues, dispatch-IsServed, submit-IsQueued,
}
use thread_pool_runtime.FairScheduler.Doubles.{Double, IsOrdered}
use thread_pool_runtime.FairScheduler.Workers.{
  Worker, Client, Closer, open_for_work, stored, shouting, notified, joined, Pool, WorkerMove,
  snapshots, takes, finds_nothing, finishes, rings, wakes_all, accounts, sees_open, sees_flag,
  breaks, sees_pending, waits_not, sleeps, ClientMove, records, counts, pushes, advances, calls,
  CloserMove, stores, shouts, notifies, joins, by_worker, by_client, by_closer, registers, Run,
  start, later, initial,
}
use thread_pool_runtime.FairScheduler.Workers.Count.{run_sound}

module _ {V : Type 0} {F : Double V} {T : Type 0} where
  -- The job that a move takes from class `id`, and the one that a move queues there.
  abbrev pub taken_by : ℕ → {i : ℕ} {s t : Pool V T} {w : Worker T} → WorkerMove F s i w t → List T
  taken_by id (takes j job f e) = if j == id then job ∷ [] else []
  taken_by id mv = []

  abbrev pub queued_by :
      ℕ → {c : ℕ} {s t : Pool V T} {w : Client V T} → ClientMove F s c w t → List T
  queued_by id {s = s} (pushes {o = o} f e) =
      if class_for (class_name o.name) s.fair == id then o.job ∷ [] else []
  queued_by id mv = []

  -- The jobs that a run has queued in class `id`, and those that it has taken from there, newest first.
  abbrev pub accepted_in :
      ℕ → {n m : ℕ} {s : Pool V T} {k : ℕ} {t : Pool V T} → Run F n m s k t → List T
  accepted_in id start = []
  accepted_in id (later r (by_worker i lt mv)) = accepted_in id r
  accepted_in id (later r (by_client c lt mv)) = queued_by id mv ++ accepted_in id r
  accepted_in id (later r (by_closer mv)) = accepted_in id r
  accepted_in id (later r (registers name weight f e)) = accepted_in id r

  abbrev pub started_in :
      ℕ → {n m : ℕ} {s : Pool V T} {k : ℕ} {t : Pool V T} → Run F n m s k t → List T
  started_in id start = []
  started_in id (later r (by_worker i lt mv)) = taken_by id mv ++ started_in id r
  started_in id (later r (by_client c lt mv)) = started_in id r
  started_in id (later r (by_closer mv)) = started_in id r
  started_in id (later r (registers name weight f e)) = started_in id r

module _ {T : Type 0} where
  -- What was put into a queue is still there or was taken, in order; newest first.
  abbrev IsKept : List T → List T → List T → Type 0
  IsKept put q gone = put ≡ reverse q ++ gone

  put-IsKept :
      (job : T) (put q gone : List T) → IsKept put q gone → IsKept (job ∷ put) (q ++ job ∷ []) gone
  put-IsKept job put q gone k = rw (reverse-append q (job ∷ [])) (ap (◌∷◌ job) k)

  take-IsKept :
      (job : T) (put q gone : List T) → IsKept put (job ∷ q) gone → IsKept put q (job ∷ gone)
  take-IsKept job put q gone k =
      k ∙ rw (reverse-cons job q) (append_assoc (reverse q) (job ∷ []) gone)

module _ {V : Type 0} {F : Double V} (L : IsOrdered F) {T : Type 0} where
  served-IsKept :
      (id j : ℕ) (job : T) (s t : FairState V T) (put gone : List T)
      → IsServed j job s t
      → IsKept put (queue s id) gone
      → IsKept put (queue t id) ((if j == id then job ∷ [] else []) ++ gone)
  served-IsKept id j job s t put gone (front, others, _) k = elim (Bool-cases (j == id)) [
    | inl here ↦ rw here (
        take-IsKept job put (queue t id) gone
          (subst (λ q. IsKept put q gone) (at_front (ground arith)) k))
    | inr elsewhere ↦
        rw elsewhere
          (subst (λ q. IsKept put q gone) (sym (others id (λ e. absurd (ground arith)))) k)
  ]
    where
      at_front : j ≡ id → queue s id ≡ job ∷ queue t id
      at_front e = subst (λ x. queue s x ≡ job ∷ queue t x) e front

  queued-IsKept :
      (id j : ℕ) (job : T) (s t : FairState V T) (put gone : List T)
      → IsQueued j job s t
      → IsKept put (queue s id) gone
      → IsKept ((if j == id then job ∷ [] else []) ++ put) (queue t id) gone
  queued-IsKept id j job s t put gone (back, others, _) k = elim (Bool-cases (j == id)) [
    | inl here ↦ rw here (
        subst (λ q. IsKept (job ∷ put) q gone) (sym (at_back (ground arith)))
          (put-IsKept job put (queue s id) gone k))
    | inr elsewhere ↦
        rw elsewhere
          (subst (λ q. IsKept put q gone) (sym (others id (λ e. absurd (ground arith)))) k)
  ]
    where
      at_back : j ≡ id → queue t id ≡ queue s id ++ job ∷ []
      at_back e = subst (λ x. queue t x ≡ queue s x ++ job ∷ []) e back

  same-IsKept :
      (id : ℕ) (s t : FairState V T) (put gone : List T)
      → KeepsQueues s t
      → IsKept put (queue s id) gone
      → IsKept put (queue t id) gone
  same-IsKept id s t put gone (same, _) k = subst (λ q. IsKept put q gone) (sym (same id)) k

  WorkerMove-IsKept :
      (id : ℕ) {i : ℕ} {s t : Pool V T} {w : Worker T} (put gone : List T)
      → (mv : WorkerMove F s i w t) → Fair.Inv F s.fair
      → IsKept put (queue s.fair id) gone
      → IsKept put (queue t.fair id) (taken_by id mv ++ gone)
  WorkerMove-IsKept id {s = s} put gone (takes j job f e) v k =
      served-IsKept id j job s.fair f put gone (dispatch-IsServed L s.fair f j job v e) k
  WorkerMove-IsKept id {s = s} {t = t} put gone (accounts {id = j} elapsed pos) v k =
      same-IsKept id s.fair t.fair put gone (account-KeepsQueues L j elapsed s.fair) k
  WorkerMove-IsKept id put gone snapshots v k = k
  WorkerMove-IsKept id put gone (finds_nothing e) v k = k
  WorkerMove-IsKept id put gone finishes v k = k
  WorkerMove-IsKept id put gone rings v k = k
  WorkerMove-IsKept id put gone wakes_all v k = k
  WorkerMove-IsKept id put gone (sees_open e) v k = k
  WorkerMove-IsKept id put gone (sees_flag e) v k = k
  WorkerMove-IsKept id put gone (breaks e) v k = k
  WorkerMove-IsKept id put gone (sees_pending e) v k = k
  WorkerMove-IsKept id put gone (waits_not e) v k = k
  WorkerMove-IsKept id put gone (sleeps e) v k = k

  ClientMove-IsKept :
      (id : ℕ) {c : ℕ} {s t : Pool V T} {w : Client V T} (put gone : List T)
      → (mv : ClientMove F s c w t) → Fair.Inv F s.fair
      → IsKept put (queue s.fair id) gone
      → IsKept (queued_by id mv ++ put) (queue t.fair id) gone
  ClientMove-IsKept id {s = s} put gone (pushes {o = o} f e) v k =
      queued-IsKept id (class_for (class_name o.name) s.fair) o.job s.fair f put gone
        (submit-IsQueued L o.name o.weight o.job s.fair f v e) k
  ClientMove-IsKept id put gone (records o) v k = k
  ClientMove-IsKept id put gone counts v k = k
  ClientMove-IsKept id put gone advances v k = k
  ClientMove-IsKept id put gone calls v k = k

  CloserMove-queue :
      (id : ℕ) (x : Closer) {n : ℕ} {s t : Pool V T}
      → CloserMove n s x t
      → queue t.fair id ≡ queue s.fair id
  CloserMove-queue id open_for_work stores = refl
  CloserMove-queue id stored shouts = refl
  CloserMove-queue id shouting notifies = refl
  CloserMove-queue id notified (joins all) = refl
  CloserMove-queue id joined mv = elim mv [ ]

  -- However the threads interleave, the jobs that were queued in a class are, newest first, those
  -- still in its queue and then those that workers took from it: the class is served in the order of
  -- its submissions, and none of its jobs is lost or taken twice. The run has fewer than 2^64 steps.
  pub class_order :
      (id n m k : ℕ) (s : Pool V T) (r : Run F n m (initial F) k s)
      → k < word
      → accepted_in id r ≡ reverse ((s.fair.classes id).runnable) ++ started_in id r
  class_order id n m _ _ start less = refl
  class_order id n m _ _ (later {t = t} r (by_worker i lt mv)) less =
      WorkerMove-IsKept id (accepted_in id r) (started_in id r) mv
        (run_sound L r (omega arith)).0.sound (class_order id n m _ t r (omega arith))
  class_order id n m _ _ (later {t = t} r (by_client c lt mv)) less =
      ClientMove-IsKept id (accepted_in id r) (started_in id r) mv
        (run_sound L r (omega arith)).0.sound (class_order id n m _ t r (omega arith))
  class_order id n m _ _ (later {t = t} r (by_closer mv)) less =
      subst (λ q. IsKept (accepted_in id r) q (started_in id r))
        (sym (CloserMove-queue id t.closer mv)) (class_order id n m _ t r (omega arith))
  class_order id n m _ _ (later {t = t} r (registers name weight f e)) less =
      same-IsKept id t.fair f (accepted_in id r) (started_in id r)
        (register_class-KeepsQueues L name weight t.fair f (run_sound L r (omega arith)).0.sound e)
        (class_order id n m _ t r (omega arith))
