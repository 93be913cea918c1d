-- ===== src/ThreadPerCore/Workers/Stuck.antt =====
-- `shutdown` sets the flag and notifies each core without its mutex. A worker that has read the flag
-- before and has not yet begun to wait misses the notification, and its join never returns.
use thread_pool_runtime.Prelude.{
  ℕ, zero, suc, ◌<◌, ◌≤◌, ◌≡◌, ◌≢◌, refl, sym, ap, ◌∙◌, true, List, [], ◌∷◌, arith,
}
use thread_pool_runtime.ThreadPerCore.{accepts, starts, take_job}
use thread_pool_runtime.ThreadPerCore.Target.{target-num_cores}
use thread_pool_runtime.ThreadPerCore.Workers.{
  Pool, blocked, going_to_wait, ringing, notifying, joined, Action, silent, does, spurious, Step,
  worker_locks, worker_takes, worker_finds_none, worker_returns, worker_stays, worker_waits,
  worker_wakes, worker_finishes, submit_chooses, submit_records, submit_pushes, submit_notifies,
  shutdown_stores, shutdown_notifies, shutdown_joins, Run, start, later, initial,
}

module _ {T : Type 0} where
  -- The actions of a run in which no job is queued and no wait returns unnotified.
  abbrev pub IsQuiet : List (Action T) → Type 0
  IsQuiet [] = Unit
  IsQuiet (silent ∷ es) = IsQuiet es
  IsQuiet (does (starts c r job) ∷ es) = IsQuiet es
  IsQuiet (e ∷ es) = ⊥

  -- Worker `i` waits, `shutdown` has notified its core, and no submission is about to.
  pub record IsStuck (i : ℕ) (s : Pool T) : Type 0 where
    pub bound : i < s.cores.num_cores
    pub waits : s.worker i ≡ blocked
    pub told : (k : ℕ) × (i < k) × (s.closer ≡ notifying k)
    pub quiet : (c : ℕ) → s.client c ≢ ringing i

  -- A step that leaves worker `i` waiting and the callers where they are.
  still-IsStuck :
      {i : ℕ} {s : Pool T} (t : Pool T)
      → IsStuck i s
      → t.cores.num_cores ≡ s.cores.num_cores
      → t.worker i ≡ blocked
      → t.closer ≡ s.closer
      → t.client ≡ s.client
      → IsStuck i t
  still-IsStuck t v size waits closer client = record {
    bound = omega (arith, v.bound, size);
    waits = waits;
    told = let (k, lt, e) = v.told in (k, lt, closer ∙ e);
    quiet = λ c e. v.quiet c (sym (ap (λ f. f c) client) ∙ e);
  }

  Step-IsStuck :
      {s t : Pool T} {e : Action T} (i : ℕ)
      → Step s e t
      → IsQuiet (e ∷ [])
      → IsStuck i s
      → IsStuck i t
  Step-IsStuck {t = t} i (worker_locks k lt at free) q v =
      still-IsStuck t v refl (ground (arith, v.waits)) refl refl
  Step-IsStuck {t = t} i (worker_takes k at e) q v =
      still-IsStuck t v refl (ground (arith, v.waits)) refl refl
  Step-IsStuck {t = t} i (worker_finds_none k at e) q v =
      still-IsStuck t v refl (ground (arith, v.waits)) refl refl
  Step-IsStuck {t = t} i (worker_returns k at flag) q v =
      still-IsStuck t v refl (ground (arith, v.waits)) refl refl
  Step-IsStuck {t = t} i (worker_stays k at flag) q v =
      still-IsStuck t v refl (ground (arith, v.waits)) refl refl
  Step-IsStuck {t = t} i (worker_waits k at) q v =
      still-IsStuck t v refl (ground (arith, v.waits)) refl refl
  Step-IsStuck i (worker_wakes k at) q v = absurd q
  Step-IsStuck {t = t} i (worker_finishes k at) q v =
      still-IsStuck t v refl (ground (arith, v.waits)) refl refl
  Step-IsStuck {s = s} i (submit_chooses c job hint p at) q v = record {
    bound = omega (arith, v.bound, target-num_cores hint s.cores);
    waits = v.waits;
    told = v.told;
    quiet = λ k. ground (arith, v.quiet k);
  }
  Step-IsStuck i (submit_records c at) q v = record {
    bound = v.bound;
    waits = v.waits;
    told = v.told;
    quiet = λ k. ground (arith, v.quiet k);
  }
  Step-IsStuck i (submit_pushes c at free) q v = absurd q
  Step-IsStuck i (submit_notifies c {core} at) q v = record {
    bound = v.bound;
    waits = ground (arith, v.waits, v.quiet c);
    told = v.told;
    quiet = λ k. ground (arith, v.quiet k);
  }
  Step-IsStuck i (shutdown_stores at) q v = let (k, lt, e) = v.told in cc
  Step-IsStuck i (shutdown_notifies {k} at lt) q v =
      let (j, below, e) = v.told in
      let same : j ≡ k = cc in
      record {
        bound = v.bound;
        waits = ground (arith, v.waits);
        told = (suc k, omega arith, refl);
        quiet = v.quiet;
      }
  Step-IsStuck i (shutdown_joins at every) q v = cc (v.waits, every i v.bound)

  Run-IsStuck :
      {s t : Pool T} {es : List (Action T)} (i : ℕ)
      → Run s es t
      → IsQuiet es
      → IsStuck i s
      → IsStuck i t
  Run-IsStuck i start q v = v
  Run-IsStuck i (later {e = silent} r mv) q v = Step-IsStuck i mv tt (Run-IsStuck i r q v)
  Run-IsStuck i (later {e = does (starts c p job)} r mv) q v =
      Step-IsStuck i mv tt (Run-IsStuck i r q v)
  Run-IsStuck i (later {e = does (accepts c p job)} r mv) q v = absurd q
  Run-IsStuck i (later {e = spurious} r mv) q v = absurd q

  -- The actions of a run that queues and takes no job.
  abbrev pub IsSilent : List (Action T) → Type 0
  IsSilent [] = Unit
  IsSilent (silent ∷ es) = IsSilent es
  IsSilent (e ∷ es) = ⊥

  -- `shutdown` has the flag set and goes on to notify `k` cores, of which worker `i` hears nothing.
  notify_run :
      {s t : Pool T} {es : List (Action T)} (i k : ℕ)
      → Run s es t
      → IsSilent es
      → t.worker i ≡ going_to_wait
      → k ≤ t.cores.num_cores
      → t.closer ≡ notifying 0
      → (fs : List (Action T)) × (u : Pool T) × Run s fs u
        × IsSilent fs
        × (u.worker i ≡ going_to_wait)
        × (u.cores ≡ t.cores)
        × (u.closer ≡ notifying k)
        × (u.client ≡ t.client)
  notify_run {t = t} {es} i zero r q at le c = (es, t, r, q, at, refl, c, refl)
  notify_run i (suc k) r q at le c =
      let (fs, u, r', q', at', same, c', quiet) = notify_run i k r q at (omega arith) c in
      (
        silent ∷ fs,
        _,
        later r' (shutdown_notifies c' (omega (arith, ap (λ x. x.num_cores) same))),
        q',
        ground (arith, at'),
        same,
        refl,
        quiet,
      )

-- Worker `i` reads the flag, `shutdown` sets it and notifies all cores, and the worker begins to wait.
unheard_run :
    (T : Type 0) (n i : ℕ)
    → i < n
    → (es : List (Action T)) × (t : Pool T) × Run (initial n) es t
      × IsSilent es
      × (t.cores.shutdown_flag ≡ true)
      × IsStuck i t
unfolding take_job
unheard_run T n i lt =
    let r0 : Run (initial {T = T} n) [] (initial n) = start in
    let r1 = later r0 (worker_locks i lt refl refl) in
    let r2 = later r1 (worker_finds_none i (ground arith) refl) in
    let r3 = later r2 (worker_stays i (ground arith) refl) in
    let r4 = later r3 (shutdown_stores refl) in
    let (es, t, r, silence, at, same, told, quiet) =
      notify_run i n r4 tt (ground arith) (omega arith) refl in
    (
      silent ∷ es,
      _,
      later r (worker_waits i at),
      silence,
      ap (λ x. x.shutdown_flag) same,
      record {
        bound = omega (arith, lt, ap (λ x. x.num_cores) same);
        waits = ground arith;
        told = (n, lt, told);
        quiet = λ c e. let f = sym (ap (λ x. x c) quiet) ∙ e in absurd (cc);
      },
    )

-- For every number of cores and each of them there is a run from a new scheduler, in which no job is
-- queued, after which `shutdown` has set the flag and notified every core while the worker of that
-- core waits; from there, unless a job is queued or a wait returns with no notification, no run gets
-- past the joins.
pub core_shutdown_hangs :
    (T : Type 0) (n i : ℕ)
    → i < n
    → (es : List (Action T)) × (t : Pool T) × Run (initial n) es t
      × IsSilent es
      × (t.cores.shutdown_flag ≡ true)
      × IsStuck i t
      × ((u : Pool T) (fs : List (Action T)) → Run t fs u → IsQuiet fs → u.closer ≢ joined)
core_shutdown_hangs T n i lt =
    let (es, t, run, silence, flag, stuck) = unheard_run T n i lt in
    (es, t, run, silence, flag, stuck, λ u fs r q. never u (Run-IsStuck i r q stuck))
  where
    never : (u : Pool T) → IsStuck i u → u.closer ≢ joined
    never u v e = let (k, below, told) = v.told in cc
