-- ===== src/ThreadPerCore/Workers/Drain.antt =====
-- `shutdown` of the thread-per-core scheduler drains the queues of every core.
use thread_pool_runtime.Prelude.{
  ℕ, ◌<◌, ◌≡◌, ◌≢◌, refl, sym, ap, ◌∙◌, true, false, List, ◌∷◌, ◌++◌, arith, subst, true-≢-false,
  ℕ_discrete,
}
use mathlib.Core.List.{reverse}
use thread_pool_runtime.Prelude.Family.{update, update_ne}
use thread_pool_runtime.Priority.{Priority, rank}
use thread_pool_runtime.ThreadPerCore.{accepts, enqueue}
use thread_pool_runtime.ThreadPerCore.Choice.{IsTaken, take_job-IsTaken}
use thread_pool_runtime.ThreadPerCore.Order.{
  accepted_at, started_at, Kept, submits-Kept, takes-Kept,
}
use thread_pool_runtime.ThreadPerCore.Target.{target-num_cores, target-queues, target-shutdown_flag}
use thread_pool_runtime.ThreadPerCore.Workers.{
  Pool, Worker, outside, looking, found_empty, going_to_wait, blocked, running, exited, joined,
  Action, does, events, Step, worker_locks, worker_takes, worker_finds_none, worker_returns,
  worker_stays, worker_waits, worker_wakes, worker_finishes, submit_chooses, submit_records,
  submit_pushes, submit_notifies, shutdown_stores, shutdown_notifies, shutdown_joins, Run, start,
  later, initial,
}
use thread_pool_runtime.ThreadPerCore.Workers.Inv.{saw_empty, IsIdle, Inv, run_holds}

module _ {T : Type 0} where
  -- Every queue has what was accepted there and not yet started, in every interleaving.
  Step-Kept :
      (c r : ℕ) {s t : Pool T} {e : Action T} (es : List (Action T))
      → Step s e t
      → Kept c r (events es) (s.cores.queues c r)
      → Kept c r (events (e ∷ es)) (t.cores.queues c r)
  unfolding enqueue
  Step-Kept c r es (worker_locks i lt at unheld) k = k
  Step-Kept c r {s = s} es (worker_takes i {p} {job} {q} at e) k =
      takes-Kept c r i s.cores (events es) job p q
        (subst (IsTaken (s.cores.queues i)) e (take_job-IsTaken (s.cores.queues i))) k
  Step-Kept c r es (worker_finds_none i at e) k = k
  Step-Kept c r es (worker_returns i at flag) k = k
  Step-Kept c r es (worker_stays i at flag) k = k
  Step-Kept c r es (worker_waits i at) k = k
  Step-Kept c r es (worker_wakes i at) k = k
  Step-Kept c r es (worker_finishes i at) k = k
  Step-Kept c r {s = s} es (submit_chooses d job hint p at) k =
      subst (Kept c r (events es)) (sym (ap (λ q. q c r) (target-queues hint s.cores))) k
  Step-Kept c r es (submit_records d at) k = k
  Step-Kept c r {s = s} es (submit_pushes d {job} {core} {p} at unheld) k =
      submits-Kept c r s.cores (events es) job core p k
  Step-Kept c r es (submit_notifies d at) k = k
  Step-Kept c r es (shutdown_stores at) k = k
  Step-Kept c r es (shutdown_notifies at lt) k = k
  Step-Kept c r es (shutdown_joins at every) k = k

  -- However the workers and the callers of `submit` interleave, the jobs that were queued at a core
  -- with a priority are, newest first, those still in that queue and then those that the core's own
  -- worker took from it.
  pub threads_keep_order :
      (c r n : ℕ) (s : Pool T) (es : List (Action T))
      → Run (initial n) es s
      → accepted_at c r (events es) ≡ reverse (s.cores.queues c r) ++ started_at c r (events es)
  threads_keep_order c r n _ _ start = refl
  threads_keep_order c r n s _ (later {es = es} run mv) =
      Step-Kept c r es mv (threads_keep_order c r n _ es run)

  -- No job is queued once the flag of `shutdown` is set.
  abbrev pub Timely : {s : Pool T} {es : List (Action T)} {t : Pool T} → Run s es t → Type 0
  Timely start = Unit
  Timely (later {t = t} {e = e} r mv) =
      Timely r × ((c r : ℕ) (job : T) → e ≡ does (accepts c r job) → t.cores.shutdown_flag ≡ false)

  -- An exited worker has seen the flag, and left no job behind.
  pub record IsDrained (n : ℕ) (s : Pool T) : Type 0 where
    pub size : s.cores.num_cores ≡ n
    pub all : s.closer ≡ joined → (i : ℕ) → i < n → s.worker i ≡ exited
    pub flag : (i : ℕ) → s.worker i ≡ exited → s.cores.shutdown_flag ≡ true
    pub queue : (i : ℕ) → s.worker i ≡ exited → IsIdle i s

  -- A step in which no worker leaves.
  stay-IsDrained :
      {n : ℕ} {s : Pool T} (t : Pool T)
      → IsDrained n s
      → t.cores.num_cores ≡ s.cores.num_cores
      → (s.cores.shutdown_flag ≡ true → t.cores.shutdown_flag ≡ true)
      → (t.closer ≡ joined → s.closer ≡ joined)
      → ((j : ℕ) → t.worker j ≡ exited → s.worker j ≡ exited)
      → ((j : ℕ) → s.worker j ≡ exited → t.worker j ≡ exited)
      → ((j : ℕ) → s.worker j ≡ exited → IsIdle j t)
      → IsDrained n t
  stay-IsDrained t d size flag closer forth back queue = record {
    size = size ∙ d.size;
    all = λ c j lt. back j (d.all (closer c) j lt);
    flag = λ j x. flag (d.flag j (forth j x));
    queue = λ j x. queue j (forth j x);
  }

  -- Worker `i` moves on from `w` to `u`, and neither of them is the end.
  moves-IsDrained :
      {n : ℕ} {s : Pool T} (t : Pool T) (i : ℕ) (w u : Worker T)
      → IsDrained n s
      → s.worker i ≡ w
      → w ≢ exited
      → u ≢ exited
      → t.worker ≡ update s.worker i u
      → t.cores ≡ s.cores
      → t.closer ≡ s.closer
      → IsDrained n t
  moves-IsDrained {s = s} t i w u d from before after same cores closer =
      stay-IsDrained t d (ap (λ x. x.num_cores) cores) (λ f. ap (λ x. x.shutdown_flag) cores ∙ f)
        (λ c. sym closer ∙ c) (λ j x. ground (arith, at j)) (λ j x. ground (arith, at j))
        (λ j x p. ap (λ y. y.queues j (rank p)) cores ∙ d.queue j x p)
    where
      at : (j : ℕ) → t.worker j ≡ update s.worker i u j
      at j = ap (λ f. f j) same

  Step-IsDrained :
      {n : ℕ} {s t : Pool T} {e : Action T}
      → Step s e t
      → ((c r : ℕ) (job : T) → e ≡ does (accepts c r job) → s.cores.shutdown_flag ≡ false)
      → Inv s
      → IsDrained n s
      → IsDrained n t
  Step-IsDrained {t = t} (worker_locks i lt at unheld) h v d =
      moves-IsDrained t i outside looking d at (λ x. cc) (λ x. cc) refl refl refl
  Step-IsDrained {s = s} {t = t} (worker_takes i {job = job} {q = q} at e) h v d =
      stay-IsDrained t d refl (λ f. f) (λ c. c) (λ j x. ground arith) (λ j x. ground arith)
        (λ j x p. ap (λ y. y (rank p)) (update_ne s.cores.queues i j q (apart j x)) ∙ d.queue j x p)
    where
      apart : (j : ℕ) → s.worker j ≡ exited → i ≢ j
      apart j x same = let y : s.worker j ≡ looking = ap s.worker (sym same) ∙ at in absurd (cc)
  Step-IsDrained {t = t} (worker_finds_none i at e) h v d =
      moves-IsDrained t i looking found_empty d at (λ x. cc) (λ x. cc) refl refl refl
  Step-IsDrained {s = s} (worker_returns i at flag) h v d = record {
    size = d.size;
    all = λ c j lt. ground (arith, d.all c j lt);
    flag = λ j x. flag;
    queue = λ j x. elim (ℕ_discrete i j) [
      | yes e ↦ subst (λ k. IsIdle k s) e (v.empty i (ap saw_empty at))
      | no ne ↦ d.queue j (sym (update_ne s.worker i j exited ne) ∙ x)
    ];
  }
  Step-IsDrained {t = t} (worker_stays i at flag) h v d =
      moves-IsDrained t i found_empty going_to_wait d at (λ x. cc) (λ x. cc) refl refl refl
  Step-IsDrained {t = t} (worker_waits i at) h v d =
      moves-IsDrained t i going_to_wait blocked d at (λ x. cc) (λ x. cc) refl refl refl
  Step-IsDrained {t = t} (worker_wakes i at) h v d =
      moves-IsDrained t i blocked outside d at (λ x. cc) (λ x. cc) refl refl refl
  Step-IsDrained {t = t} (worker_finishes i {job} at) h v d =
      moves-IsDrained t i (running job) outside d at (λ x. cc) (λ x. cc) refl refl refl
  Step-IsDrained {s = s} {t = t} (submit_chooses c job hint p at) h v d =
      stay-IsDrained t d (target-num_cores hint s.cores)
        (λ f. target-shutdown_flag hint s.cores ∙ f) (λ c. c) (λ j x. x) (λ j x. x)
        (λ j x q. ap (λ y. y j (rank q)) (target-queues hint s.cores) ∙ d.queue j x q)
  Step-IsDrained {t = t} (submit_records c at) h v d =
      stay-IsDrained t d refl (λ f. f) (λ c. c) (λ j x. x) (λ j x. x) d.queue
  Step-IsDrained {t = t} (submit_pushes c {job} {core} {p} at unheld) h v d =
      stay-IsDrained t d refl (λ f. f) (λ c. c) (λ j x. x) (λ j x. x)
        (λ j x. absurd (true-≢-false (sym (d.flag j x) ∙ h core (rank p) job refl)))
  Step-IsDrained {t = t} (submit_notifies c at) h v d =
      stay-IsDrained t d refl (λ f. f) (λ c. c) (λ j x. ground arith) (λ j x. ground arith) d.queue
  Step-IsDrained {t = t} (shutdown_stores at) h v d =
      stay-IsDrained t d refl (λ f. refl) (λ c. absurd (cc)) (λ j x. x) (λ j x. x) d.queue
  Step-IsDrained {t = t} (shutdown_notifies at lt) h v d =
      stay-IsDrained t d refl (λ f. f) (λ c. absurd (cc)) (λ j x. ground arith)
        (λ j x. ground arith) d.queue
  Step-IsDrained (shutdown_joins at every) h v d = record {
    size = d.size;
    all = λ c j lt. every j (omega (arith, d.size));
    flag = d.flag;
    queue = d.queue;
  }

  pub Run-IsDrained :
      {n : ℕ} {s : Pool T} {es : List (Action T)} (r : Run (initial n) es s)
      → Timely r
      → IsDrained n s
  Run-IsDrained start timely = record {
    size = refl;
    all = λ c. absurd (cc);
    flag = λ i x. absurd (cc);
    queue = λ i x p. refl;
  }
  Run-IsDrained (later r mv) (timely, ok) =
      Step-IsDrained mv ok (run_holds r) (Run-IsDrained r timely)

  -- When the joins of `shutdown` have returned, and no job was queued after the flag was set, the
  -- worker of every core has left its loop, and the jobs that were queued at a core with a priority
  -- are exactly those that its worker started, in the same order.
  pub core_shutdown_drains :
      (n : ℕ) (s : Pool T) (es : List (Action T)) (r : Run (initial n) es s)
      → Timely r
      → s.closer ≡ joined
      → (c : ℕ) → c < n
      → (s.worker c ≡ exited)
        × ((p : Priority) → accepted_at c (rank p) (events es) ≡ started_at c (rank p) (events es))
  core_shutdown_drains n s es r timely closed c lt =
      let d = Run-IsDrained r timely in
      let gone = d.all closed c lt in
      (
        gone,
        λ p.
            threads_keep_order c (rank p) n s es r
            ∙ ap (λ q. reverse q ++ started_at c (rank p) (events es)) (d.queue c gone p),
      )
