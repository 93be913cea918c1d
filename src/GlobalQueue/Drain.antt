-- ===== src/GlobalQueue/Drain.antt =====
-- `shutdown` drains the queue.
use thread_pool_runtime.Prelude.{
  ℕ, ◌<◌, ◌≡◌, ◌≢◌, refl, sym, ap, ◌∙◌, true, false, List, [], ◌++◌, arith,
}
use thread_pool_runtime.Prelude.Family.{update}
use mathlib.Core.List.{reverse}
use thread_pool_runtime.GlobalQueue.{
  Pool, Worker, outside, looking, found_empty, going_to_wait, blocked, running, exited, joined,
  Event, accepts, Step, worker_locks, worker_takes, worker_finds_none, worker_returns, worker_stays,
  worker_waits, worker_wakes, worker_finishes, submit_records, submit_pushes, submit_notifies,
  submit_notifies_none, shutdown_stores, shutdown_notifies, shutdown_joins, Run, start, later,
  initial,
}
use thread_pool_runtime.GlobalQueue.Fifo.{accepted, started, run_fifo}
use thread_pool_runtime.GlobalQueue.Mutex.{Inv, Run-Inv}

module _ {T : Type 0} where
  -- No job gets into the queue once the flag of `shutdown` is set.
  abbrev pub Timely : {n : ℕ} {s t : Pool T} {es : List (Event T)} → Run n s es t → Type 0
  Timely start = Unit
  Timely (later {t = t} {e = e} r mv) =
      Timely r × ((job : T) → e ≡ accepts job → t.shutdown_flag ≡ false)

  -- An exited worker has seen the flag, and left no job behind.
  record IsDrained (n : ℕ) (s : Pool T) : Type 0 where
    all : s.closer ≡ joined → (i : ℕ) → i < n → s.worker i ≡ exited
    flag : (i : ℕ) → s.worker i ≡ exited → s.shutdown_flag ≡ true
    queue : (i : ℕ) → s.worker i ≡ exited → s.queue ≡ []

  -- A worker that is not leaving moves on.
  moves-IsDrained :
      {n : ℕ} {s : Pool T} (t : Pool T) (i : ℕ) (w : Worker T)
      → IsDrained n s
      → s.worker i ≢ exited
      → w ≢ exited
      → t.worker ≡ update s.worker i w
      → t.shutdown_flag ≡ s.shutdown_flag
      → t.closer ≡ s.closer
      → (s.queue ≡ [] → t.queue ≡ [])
      → IsDrained n t
  moves-IsDrained {s = s} t i w d before after same flag closer queue = record {
    all = λ c j x. ground (arith, d.all (sym closer ∙ c) j, at j);
    flag = λ j x. ground (arith, d.flag j, at j);
    queue = λ j x. queue (ground (arith, d.queue j, at j));
  }
    where
      at : (j : ℕ) → t.worker j ≡ update s.worker i w j
      at j = ap (λ f. f j) same

  Step-IsDrained :
      {n : ℕ} {s t : Pool T} {e : Event T}
      → Step n s e t
      → ((job : T) → e ≡ accepts job → s.shutdown_flag ≡ false)
      → Inv s
      → IsDrained n s
      → IsDrained n t
  Step-IsDrained {t = t} (worker_locks i lt at free) h v d =
      moves-IsDrained t i looking d (λ x. cc) (λ x. cc) refl refl refl (λ q. q)
  Step-IsDrained {t = t} (worker_takes i {job} lt at e) h v d =
      moves-IsDrained t i (running job) d (λ x. cc) (λ x. cc) refl refl refl (λ q. absurd (cc))
  Step-IsDrained {t = t} (worker_finds_none i lt at e) h v d =
      moves-IsDrained t i found_empty d (λ x. cc) (λ x. cc) refl refl refl (λ q. q)
  Step-IsDrained (worker_returns i lt at e) h v d = record {
    all = λ c j x. ground (arith, d.all c j);
    flag = λ j x. ground (arith, d.flag j);
    queue = λ j x. ground (arith, v.empty i);
  }
  Step-IsDrained {t = t} (worker_stays i lt at flag) h v d =
      moves-IsDrained t i going_to_wait d (λ x. cc) (λ x. cc) refl refl refl (λ q. q)
  Step-IsDrained {t = t} (worker_waits i lt at) h v d =
      moves-IsDrained t i blocked d (λ x. cc) (λ x. cc) refl refl refl (λ q. q)
  Step-IsDrained {t = t} (worker_wakes i lt at) h v d =
      moves-IsDrained t i outside d (λ x. cc) (λ x. cc) refl refl refl (λ q. q)
  Step-IsDrained {t = t} (worker_finishes i lt at) h v d =
      moves-IsDrained t i outside d (λ x. cc) (λ x. cc) refl refl refl (λ q. q)
  Step-IsDrained (submit_records c job at) h v d = record {
    all = d.all;
    flag = d.flag;
    queue = d.queue;
  }
  Step-IsDrained (submit_pushes c {job} at free) h v d = record {
    all = d.all;
    flag = d.flag;
    queue = λ j x. ground (arith, d.flag j, h job refl);
  }
  Step-IsDrained {t = t} (submit_notifies c i at lt e) h v d =
      moves-IsDrained t i outside d (λ x. cc) (λ x. cc) refl refl refl (λ q. q)
  Step-IsDrained (submit_notifies_none c at none) h v d = record {
    all = d.all;
    flag = d.flag;
    queue = d.queue;
  }
  Step-IsDrained (shutdown_stores at) h v d = record {
    all = λ c. cc;
    flag = λ j x. refl;
    queue = d.queue;
  }
  Step-IsDrained (shutdown_notifies at) h v d = record {
    all = λ c. cc;
    flag = λ j x. ground (arith, d.flag j);
    queue = λ j x. ground (arith, d.queue j);
  }
  Step-IsDrained (shutdown_joins at every) h v d = record {
    all = λ c. every;
    flag = d.flag;
    queue = d.queue;
  }

  Run-IsDrained :
      {n : ℕ} {s : Pool T} {es : List (Event T)} (r : Run n initial es s) → Timely r → IsDrained n s
  Run-IsDrained start timely = record { all = λ c. cc; flag = λ i x. cc; queue = λ i x. refl }
  Run-IsDrained (later r mv) (timely, ok) =
      Step-IsDrained mv ok (Run-Inv r) (Run-IsDrained r timely)

  -- When the joins of `shutdown` have returned, and no job got into the queue after the flag was
  -- set, every worker has left its loop and the jobs that were accepted are exactly those that were
  -- started, in the same order.
  pub shutdown_drains :
      (n : ℕ) (s : Pool T) (es : List (Event T)) (r : Run n initial es s)
      → 0 < n
      → Timely r
      → s.closer ≡ joined
      → ((i : ℕ) → i < n → s.worker i ≡ exited) × (accepted es ≡ started es)
  shutdown_drains n s es r pos timely c =
      let d = Run-IsDrained r timely in
      (d.all c, run_fifo n s es r ∙ ap (λ q. reverse q ++ started es) (d.queue 0 (d.all c 0 pos)))
