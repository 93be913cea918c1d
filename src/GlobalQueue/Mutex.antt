-- ===== src/GlobalQueue/Mutex.antt =====
-- The mutex: one holder at a time, and what a holder has seen of the queue stays true.
use thread_pool_runtime.Prelude.{ℕ, ◌≡◌, refl, ap, Bool, true, false, List, [], arith}
use thread_pool_runtime.Prelude.Family.{update}
use thread_pool_runtime.GlobalQueue.{
  Pool, Worker, outside, looking, found_empty, going_to_wait, blocked, running, exited, Event, Step,
  worker_locks, worker_takes, worker_finds_none, worker_returns, worker_stays, worker_waits,
  worker_wakes, worker_finishes, submit_records, submit_pushes, submit_notifies,
  submit_notifies_none, shutdown_stores, shutdown_notifies, shutdown_joins, wake, Run, start, later,
  initial,
}

module _ {T : Type 0} where
  abbrev pub holds : Worker T → Bool
  holds looking = true
  holds found_empty = true
  holds going_to_wait = true
  holds w = false

  abbrev pub saw_empty : Worker T → Bool
  saw_empty found_empty = true
  saw_empty going_to_wait = true
  saw_empty w = false

  pub record Inv (s : Pool T) : Type 0 where
    pub locks : (i : ℕ) → holds (s.worker i) ≡ true → s.locked ≡ true
    pub unique : (i j : ℕ) → holds (s.worker i) ≡ true → holds (s.worker j) ≡ true → i ≡ j
    pub empty : (i : ℕ) → saw_empty (s.worker i) ≡ true → s.queue ≡ []

  saw_empty-holds : (w : Worker T) → saw_empty w ≡ true → holds w ≡ true
  saw_empty-holds found_empty h = refl
  saw_empty-holds w h = ground arith

  module _ {s : Pool T} (v : Inv s) where
    acquire-Inv :
        (i : ℕ)
        → s.locked ≡ false
        → Inv (record s { worker = update s.worker i looking; locked = true })
    acquire-Inv i free = record {
      locks = λ j h. refl;
      unique = λ j k h g. ground (arith, v.locks j, v.locks k);
      empty = λ j h. ground (arith, v.empty j);
    }

    keep-Inv :
        (i : ℕ) (w : Worker T)
        → holds (s.worker i) ≡ true
        → (saw_empty w ≡ true → s.queue ≡ [])
        → Inv (record s { worker = update s.worker i w })
    keep-Inv i w held seen = record {
      locks = λ j h. ground (arith, v.locks i held, v.locks j);
      unique = λ j k h g. ground (arith, v.unique i k, v.unique j i, v.unique j k);
      empty = λ j h. ground (arith, v.empty j, seen);
    }

    -- A thread that gives the mutex up may have changed the queue.
    release-Inv :
        (i : ℕ) (w : Worker T) (queue : List T)
        → holds (s.worker i) ≡ true
        → holds w ≡ false
        → Inv (record s { worker = update s.worker i w; queue = queue; locked = false })
    release-Inv i w queue held gone = record {
      locks = λ j h. absurd (nobody j h);
      unique = λ j k h g. absurd (nobody j h);
      empty = λ j h. absurd (nobody j (saw_empty-holds (update s.worker i w j) h));
    }
      where
        nobody : (j : ℕ) → holds (update s.worker i w j) ≡ true → ⊥
        nobody j h = ground (arith, v.unique i j)

    other-Inv :
        (i : ℕ) (w : Worker T) → holds w ≡ false → Inv (record s { worker = update s.worker i w })
    other-Inv i w gone = record {
      locks = λ j h. ground (arith, v.locks j);
      unique = λ j k h g. ground (arith, v.unique j k);
      empty = λ j h. ground (arith, v.empty j, saw_empty-holds w);
    }

    push-Inv : (queue : List T) → s.locked ≡ false → Inv (record s { queue = queue })
    push-Inv queue free = record {
      locks = v.locks;
      unique = v.unique;
      empty = λ j h. absurd (ground (arith, v.locks j, saw_empty-holds (s.worker j) h));
    }

    wake-Inv : Inv (record s { worker = λ i. wake (s.worker i) })
    wake-Inv = record {
      locks = λ j h. ground (arith, v.locks j);
      unique = λ j k h g. ground (arith, v.unique j k);
      empty = λ j h. ground (arith, v.empty j);
    }

    free-Inv : (t : Pool T) → t.worker ≡ s.worker → t.locked ≡ s.locked → t.queue ≡ s.queue → Inv t
    free-Inv t w l q = record {
      locks = λ j h. ground (arith, v.locks j, at j);
      unique = λ j k h g. ground (arith, v.unique j k, at j, at k);
      empty = λ j h. ground (arith, v.empty j, at j);
    }
      where
        at : (j : ℕ) → t.worker j ≡ s.worker j
        at j = ap (λ f. f j) w

  pub Step-Inv : {n : ℕ} {s t : Pool T} {e : Event T} → Step n s e t → Inv s → Inv t
  Step-Inv (worker_locks i lt at free) v = acquire-Inv v i free
  Step-Inv (worker_takes i {job} {rest} lt at e) v =
      release-Inv v i (running job) rest (ground arith) refl
  Step-Inv (worker_finds_none i lt at e) v = keep-Inv v i found_empty (ground arith) (λ _. e)
  Step-Inv {s = s} (worker_returns i lt at flag) v =
      release-Inv v i exited s.queue (ground arith) refl
  Step-Inv (worker_stays i lt at flag) v =
      keep-Inv v i going_to_wait (ground arith) (λ _. v.empty i (ground arith))
  Step-Inv {s = s} (worker_waits i lt at) v = release-Inv v i blocked s.queue (ground arith) refl
  Step-Inv (worker_wakes i lt at) v = other-Inv v i outside refl
  Step-Inv (worker_finishes i lt at) v = other-Inv v i outside refl
  Step-Inv {t = t} (submit_records c job at) v = free-Inv v t refl refl refl
  Step-Inv {s = s} {t = t} (submit_pushes c {job} at free) v =
      free-Inv (push-Inv v t.queue free) t refl refl refl
  Step-Inv {t = t} (submit_notifies c i at lt w) v =
      free-Inv (other-Inv v i outside refl) t refl refl refl
  Step-Inv {t = t} (submit_notifies_none c at h) v = free-Inv v t refl refl refl
  Step-Inv {t = t} (shutdown_stores at) v = free-Inv v t refl refl refl
  Step-Inv {t = t} (shutdown_notifies at) v = free-Inv (wake-Inv v) t refl refl refl
  Step-Inv {t = t} (shutdown_joins at h) v = free-Inv v t refl refl refl

  initial-Inv : Inv initial
  initial-Inv = record {
    locks = λ i h. cc;
    unique = λ i j h g. absurd (cc);
    empty = λ i h. absurd (cc);
  }

  -- Two threads never hold the mutex together, a holder finds it taken, and while a worker that saw
  -- the queue empty still holds the mutex the queue is empty.
  pub Run-Inv : {n : ℕ} {s : Pool T} {es : List (Event T)} → Run n initial es s → Inv s
  Run-Inv start = initial-Inv
  Run-Inv (later r mv) = Step-Inv mv (Run-Inv r)
