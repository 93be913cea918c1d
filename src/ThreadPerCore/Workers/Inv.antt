-- ===== src/ThreadPerCore/Workers/Inv.antt =====
-- The mutex of each core, and why no worker of src/thread_per_core_scheduler.cpp sleeps on a job.
use thread_pool_runtime.Prelude.{
  ℕ, ◌≡◌, ◌≢◌, ◌⊎◌, inl, inr, refl, sym, ap, ◌∙◌, Bool, true, false, List, [], none, arith, subst,
  ℕ_discrete,
}
use thread_pool_runtime.Prelude.Family.{update, update_eq, update_ne}
use thread_pool_runtime.Priority.{Priority, rank, priority_order}
use thread_pool_runtime.ThreadPerCore.{take_job}
use thread_pool_runtime.ThreadPerCore.Choice.{IsTaken, take_job-IsTaken}
use thread_pool_runtime.ThreadPerCore.Target.{target-queues}
use thread_pool_runtime.ThreadPerCore.Workers.{
  Pool, Worker, outside, looking, found_empty, going_to_wait, blocked, running, exited, ringing,
  wake, Action, Step, worker_locks, worker_takes, worker_finds_none, worker_returns, worker_stays,
  worker_waits, worker_wakes, worker_finishes, submit_chooses, submit_records, submit_pushes,
  submit_notifies, shutdown_stores, shutdown_notifies, shutdown_joins, Run, start, later, initial,
}

module _ {T : Type 0} where
  abbrev pub holds : Worker T → Bool
  holds looking = true
  holds found_empty = true
  holds going_to_wait = true
  holds w = false

  abbrev pub saw_empty : Worker T → Bool
  saw_empty found_empty = true
  saw_empty going_to_wait = true
  saw_empty w = false

  -- No job is queued at core `i`.
  abbrev pub IsIdle : ℕ → Pool T → Type 0
  IsIdle i s = (p : Priority) → s.cores.queues i (rank p) ≡ []

  -- A worker that has the mutex finds it taken; what it saw of its queues is still true; and a job at
  -- the core of a worker that waits is about to be announced.
  pub record Inv (s : Pool T) : Type 0 where
    pub locks : (i : ℕ) → holds (s.worker i) ≡ true → s.locked i ≡ true
    pub empty : (i : ℕ) → saw_empty (s.worker i) ≡ true → IsIdle i s
    pub woken : (i : ℕ) → s.worker i ≡ blocked → IsIdle i s ⊎ ((c : ℕ) × (s.client c ≡ ringing i))

  -- Worker `i` goes on to `w`, and may have changed the mutex and the queues of its core.
  worker-Inv :
      {s : Pool T} (t : Pool T) (i : ℕ) (w : Worker T)
      → Inv s
      → t.worker ≡ update s.worker i w
      → ((j : ℕ) → i ≢ j → t.locked j ≡ s.locked j)
      → ((j : ℕ) → i ≢ j → t.cores.queues j ≡ s.cores.queues j)
      → t.client ≡ s.client
      → (holds w ≡ true → t.locked i ≡ true)
      → (saw_empty w ≡ true → IsIdle i t)
      → (w ≡ blocked → IsIdle i t)
      → Inv t
  worker-Inv {s = s} t i w v worker locked queues client held saw waits = record {
    locks = λ j h. elim (ℕ_discrete i j) [
      | yes e ↦ subst (λ x. t.locked x ≡ true) e (held (sym (ap holds (here j e)) ∙ h))
      | no ne ↦ locked j ne ∙ v.locks j (sym (ap holds (there j ne)) ∙ h)
    ];
    empty = λ j h. elim (ℕ_discrete i j) [
      | yes e ↦ subst (λ x. IsIdle x t) e (saw (sym (ap saw_empty (here j e)) ∙ h))
      | no ne ↦ λ p.
          ap (λ q. q (rank p)) (queues j ne) ∙ v.empty j (sym (ap saw_empty (there j ne)) ∙ h) p
    ];
    woken = λ j h. elim (ℕ_discrete i j) [
      | yes e ↦ inl (subst (λ x. IsIdle x t) e (waits (sym (here j e) ∙ h)))
      | no ne ↦ elim (v.woken j (sym (there j ne) ∙ h)) [
        | inl idle ↦ inl (λ p. ap (λ q. q (rank p)) (queues j ne) ∙ idle p)
        | inr (c, e) ↦ inr (c, ap (λ f. f c) client ∙ e)
      ]
    ];
  }
    where
      here : (j : ℕ) → i ≡ j → t.worker j ≡ w
      here j e = ap (λ f. f j) worker ∙ update_eq s.worker i j w e

      there : (j : ℕ) → i ≢ j → t.worker j ≡ s.worker j
      there j ne = ap (λ f. f j) worker ∙ update_ne s.worker i j w ne

  -- Worker `i` goes on to a place where it needs to know nothing.
  free-Inv :
      {s : Pool T} (t : Pool T) (i : ℕ) (w : Worker T)
      → Inv s
      → t.worker ≡ update s.worker i w
      → ((j : ℕ) → i ≢ j → t.locked j ≡ s.locked j)
      → ((j : ℕ) → i ≢ j → t.cores.queues j ≡ s.cores.queues j)
      → t.client ≡ s.client
      → holds w ≡ false
      → w ≢ blocked
      → Inv t
  free-Inv t i w v worker locked queues client held waits =
      worker-Inv t i w v worker locked queues client (λ h. absurd (cc)) (λ h. absurd (ground arith))
        (λ e. absurd (waits e))

  -- A step that leaves workers and queues alone.
  client-Inv :
      {s : Pool T} (t : Pool T)
      → Inv s
      → t.worker ≡ s.worker
      → t.locked ≡ s.locked
      → t.cores.queues ≡ s.cores.queues
      → ((c i : ℕ) → s.client c ≡ ringing i → t.client c ≡ ringing i)
      → Inv t
  client-Inv {s = s} t v worker locked queues client = record {
    locks = λ j h. ap (λ f. f j) locked ∙ v.locks j (sym (ap holds (at j)) ∙ h);
    empty = λ j h p. ap (λ f. f j (rank p)) queues ∙ v.empty j (sym (ap saw_empty (at j)) ∙ h) p;
    woken = λ j h. elim (v.woken j (sym (at j) ∙ h)) [
      | inl idle ↦ inl (λ p. ap (λ f. f j (rank p)) queues ∙ idle p)
      | inr (c, e) ↦ inr (c, client c j e)
    ];
  }
    where
      at : (j : ℕ) → t.worker j ≡ s.worker j
      at j = ap (λ f. f j) worker

  -- Worker `i` is notified.
  notify-Inv :
      {s : Pool T} (t : Pool T) (i : ℕ)
      → Inv s
      → t.worker ≡ update s.worker i (wake (s.worker i))
      → t.locked ≡ s.locked
      → t.cores.queues ≡ s.cores.queues
      → ((c j : ℕ) → i ≢ j → s.client c ≡ ringing j → t.client c ≡ ringing j)
      → Inv t
  notify-Inv {s = s} t i v worker locked queues client = record {
    locks = λ j h. ap (λ f. f j) locked ∙ v.locks j (ground (arith, at j));
    empty = λ j h p. ap (λ f. f j (rank p)) queues ∙ v.empty j (ground (arith, at j)) p;
    woken = λ j h. elim (v.woken j (ground (arith, at j))) [
      | inl idle ↦ inl (λ p. ap (λ f. f j (rank p)) queues ∙ idle p)
      | inr (c, e) ↦ inr (c, client c j (λ same. absurd (ground (arith, at j))) e)
    ];
  }
    where
      at : (j : ℕ) → t.worker j ≡ update s.worker i (wake (s.worker i)) j
      at j = ap (λ f. f j) worker

  -- A job is queued at a core whose mutex is free.
  push-Inv :
      {s : Pool T} (t : Pool T) (core c : ℕ)
      → Inv s
      → s.locked core ≡ false
      → t.worker ≡ s.worker
      → t.locked ≡ s.locked
      → ((j : ℕ) → core ≢ j → t.cores.queues j ≡ s.cores.queues j)
      → ((d i : ℕ) → s.client d ≡ ringing i → t.client d ≡ ringing i)
      → t.client c ≡ ringing core
      → Inv t
  push-Inv {s = s} t core c v unheld worker locked queues client rings = record {
    locks = λ j h. ap (λ f. f j) locked ∙ v.locks j (sym (ap holds (at j)) ∙ h);
    empty = λ j h p. elim (ℕ_discrete core j) [
      | yes e ↦ absurd (ground (arith, v.locks j, at j))
      | no ne ↦ ap (λ q. q (rank p)) (queues j ne) ∙ v.empty j (sym (ap saw_empty (at j)) ∙ h) p
    ];
    woken = λ j h. elim (ℕ_discrete core j) [
      | yes e ↦ inr (c, rings ∙ ap ringing e)
      | no ne ↦ elim (v.woken j (sym (at j) ∙ h)) [
        | inl idle ↦ inl (λ p. ap (λ q. q (rank p)) (queues j ne) ∙ idle p)
        | inr (d, e) ↦ inr (d, client d j e)
      ]
    ];
  }
    where
      at : (j : ℕ) → t.worker j ≡ s.worker j
      at j = ap (λ f. f j) worker

  -- What a worker that finds no job has seen.
  take_job-IsIdle :
      (q q' : ℕ → List T)
      → take_job priority_order q ≡ (none, q')
      → (p : Priority) → q (rank p) ≡ []
  take_job-IsIdle q q' e = (subst (IsTaken q) e (take_job-IsTaken q)).0

  pub Step-Inv : {s t : Pool T} {e : Action T} → Step s e t → Inv s → Inv t
  Step-Inv {s = s} {t = t} (worker_locks i lt at unheld) v =
      worker-Inv t i looking v refl (λ j ne. update_ne s.locked i j true ne) (λ j ne. refl) refl
        (λ h. update_eq s.locked i i true refl) (λ h. absurd (cc)) (λ e. absurd (cc))
  Step-Inv {s = s} {t = t} (worker_takes i {job = job} {q = q} at e) v =
      free-Inv t i (running job) v refl (λ j ne. update_ne s.locked i j false ne)
        (λ j ne. update_ne s.cores.queues i j q ne) refl refl (λ x. cc)
  Step-Inv {s = s} {t = t} (worker_finds_none i {q = q} at e) v =
      worker-Inv t i found_empty v refl (λ j ne. refl) (λ j ne. refl) refl
        (λ h. v.locks i (ap holds at)) (λ h. take_job-IsIdle (s.cores.queues i) q e)
        (λ x. absurd (cc))
  Step-Inv {s = s} {t = t} (worker_returns i at flag) v =
      free-Inv t i exited v refl (λ j ne. update_ne s.locked i j false ne) (λ j ne. refl) refl refl
        (λ x. cc)
  Step-Inv {t = t} (worker_stays i at flag) v =
      worker-Inv t i going_to_wait v refl (λ j ne. refl) (λ j ne. refl) refl
        (λ h. v.locks i (ap holds at)) (λ h. v.empty i (ap saw_empty at)) (λ x. absurd (cc))
  Step-Inv {s = s} {t = t} (worker_waits i at) v =
      worker-Inv t i blocked v refl (λ j ne. update_ne s.locked i j false ne) (λ j ne. refl) refl
        (λ h. absurd (cc)) (λ h. absurd (cc)) (λ x. v.empty i (ap saw_empty at))
  Step-Inv {t = t} (worker_wakes i at) v =
      free-Inv t i outside v refl (λ j ne. refl) (λ j ne. refl) refl refl (λ x. cc)
  Step-Inv {t = t} (worker_finishes i at) v =
      free-Inv t i outside v refl (λ j ne. refl) (λ j ne. refl) refl refl (λ x. cc)
  Step-Inv {s = s} {t = t} (submit_chooses c job hint p at) v =
      client-Inv t v refl refl (target-queues hint s.cores) (λ d i e. ground arith)
  Step-Inv {t = t} (submit_records c at) v = client-Inv t v refl refl refl (λ d i e. ground arith)
  Step-Inv {s = s} {t = t} (submit_pushes c {job} {core} {p} at unheld) v =
      push-Inv t core c v unheld refl refl (λ j ne. update_ne s.cores.queues core j _ ne)
        (λ d i e. ground arith) (ground arith)
  Step-Inv {t = t} (submit_notifies c {core} at) v =
      notify-Inv t core v refl refl refl (λ d j ne e. ground arith)
  Step-Inv {t = t} (shutdown_stores at) v = client-Inv t v refl refl refl (λ d i e. e)
  Step-Inv {t = t} (shutdown_notifies {k} at lt) v = notify-Inv t k v refl refl refl (λ d j ne e. e)
  Step-Inv {t = t} (shutdown_joins at every) v = client-Inv t v refl refl refl (λ d i e. e)

  pub run_holds : {n : ℕ} {s : Pool T} {es : List (Action T)} → Run (initial n) es s → Inv s
  run_holds start = record {
    locks = λ i h. absurd (cc);
    empty = λ i h p. refl;
    woken = λ i e. absurd (cc);
  }
  run_holds (later r mv) = Step-Inv mv (run_holds r)

  -- While the worker of a core waits, the queues of its core are empty, or a call of `submit` that
  -- has queued a job there is about to notify it: no notification of `submit` is lost.
  pub waits_idle :
      (n i : ℕ) (s : Pool T) (es : List (Action T))
      → Run (initial n) es s
      → s.worker i ≡ blocked
      → ((p : Priority) → s.cores.queues i (rank p) ≡ []) ⊎ ((c : ℕ) × (s.client c ≡ ringing i))
  waits_idle n i s es r = (run_holds r).woken i
