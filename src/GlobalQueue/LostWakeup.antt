-- ===== src/GlobalQueue/LostWakeup.antt =====
-- `shutdown` sets the flag and notifies without the mutex. A worker that has read the flag before
-- and has not yet begun to wait misses the notification, and its join never returns.
use thread_pool_runtime.Prelude.{ℕ, ◌<◌, ◌≡◌, ◌≢◌, refl, sym, ap, ◌∙◌, true, List, [], ◌∷◌, arith}
use thread_pool_runtime.GlobalQueue.{
  Pool, blocked, ringing, notified, joined, Event, silent, accepts, starts, spurious, Step,
  worker_locks, worker_takes, worker_finds_none, worker_returns, worker_stays, worker_waits,
  worker_wakes, worker_finishes, submit_records, submit_pushes, submit_notifies,
  submit_notifies_none, shutdown_stores, shutdown_notifies, shutdown_joins, Run, start, later,
  initial,
}

module _ {T : Type 0} where
  -- The events of a run in which nothing more is submitted and no wait returns unnotified.
  abbrev pub IsQuiet : List (Event T) → Type 0
  IsQuiet [] = Unit
  IsQuiet (silent ∷ es) = IsQuiet es
  IsQuiet (starts job ∷ es) = IsQuiet es
  IsQuiet (e ∷ es) = ⊥

  -- Worker `i` waits, `shutdown` has notified, and no submission is about to.
  pub record IsStuck (i : ℕ) (s : Pool T) : Type 0 where
    pub waits : s.worker i ≡ blocked
    pub told : s.closer ≡ notified
    pub quiet : (c : ℕ) → s.client c ≢ ringing

  -- A step of a worker that leaves worker `i` waiting.
  still-IsStuck :
      {i : ℕ} {s : Pool T} (t : Pool T)
      → IsStuck i s
      → t.worker i ≡ blocked
      → t.closer ≡ s.closer
      → t.client ≡ s.client
      → IsStuck i t
  still-IsStuck t v waits closer client = record {
    waits = waits;
    told = closer ∙ v.told;
    quiet = λ c e. v.quiet c (sym (ap (λ f. f c) client) ∙ e);
  }

  Step-IsStuck :
      {n : ℕ} {s t : Pool T} {e : Event T} (i : ℕ)
      → i < n
      → Step n s e t
      → IsQuiet (e ∷ [])
      → IsStuck i s
      → IsStuck i t
  Step-IsStuck i lt (submit_records c job at) q v = record {
    waits = v.waits;
    told = v.told;
    quiet = λ k. ground (arith, v.quiet k);
  }
  Step-IsStuck i lt (submit_pushes c at free) q v = absurd q
  Step-IsStuck i lt (submit_notifies c k at lk w) q v = absurd (v.quiet c at)
  Step-IsStuck i lt (submit_notifies_none c at none) q v = absurd (v.quiet c at)
  Step-IsStuck i lt (shutdown_stores at) q v = cc (v.told)
  Step-IsStuck i lt (shutdown_notifies at) q v = cc (v.told)
  Step-IsStuck i lt (shutdown_joins at every) q v = cc (v.waits, every i lt)
  Step-IsStuck i lt (worker_wakes k lk at) q v = absurd q
  Step-IsStuck {t = t} i lt (worker_locks k lk at free) q v =
      still-IsStuck t v (ground (arith, v.waits)) refl refl
  Step-IsStuck {t = t} i lt (worker_takes k lk at e) q v =
      still-IsStuck t v (ground (arith, v.waits)) refl refl
  Step-IsStuck {t = t} i lt (worker_finds_none k lk at e) q v =
      still-IsStuck t v (ground (arith, v.waits)) refl refl
  Step-IsStuck {t = t} i lt (worker_returns k lk at flag) q v =
      still-IsStuck t v (ground (arith, v.waits)) refl refl
  Step-IsStuck {t = t} i lt (worker_stays k lk at flag) q v =
      still-IsStuck t v (ground (arith, v.waits)) refl refl
  Step-IsStuck {t = t} i lt (worker_waits k lk at) q v =
      still-IsStuck t v (ground (arith, v.waits)) refl refl
  Step-IsStuck {t = t} i lt (worker_finishes k lk at) q v =
      still-IsStuck t v (ground (arith, v.waits)) refl refl

  Run-IsStuck :
      {n : ℕ} {s t : Pool T} {es : List (Event T)} (i : ℕ)
      → i < n
      → Run n s es t
      → IsQuiet es
      → IsStuck i s
      → IsStuck i t
  Run-IsStuck i lt start q v = v
  Run-IsStuck i lt (later {es} {e = silent} r mv) q v =
      Step-IsStuck i lt mv tt (Run-IsStuck i lt r q v)
  Run-IsStuck i lt (later {es} {e = starts job} r mv) q v =
      Step-IsStuck i lt mv tt (Run-IsStuck i lt r q v)
  Run-IsStuck i lt (later {es} {e = accepts job} r mv) q v = absurd q
  Run-IsStuck i lt (later {es} {e = spurious} r mv) q v = absurd q

-- Worker `i` reads the flag, `shutdown` sets it and notifies, and the worker begins to wait.
unheard_run :
    (T : Type 0) (n i : ℕ)
    → i < n
    → (t : Pool T) × Run n initial (silent ∷ silent ∷ silent ∷ silent ∷ silent ∷ silent ∷ []) t
      × (t.shutdown_flag ≡ true)
      × IsStuck i t
unheard_run T n i lt = (
  _,
  later
      (later
        (later
          (later
            (later (later start (worker_locks i lt refl refl))
              (worker_finds_none i lt (ground arith) refl))
            (worker_stays i lt (ground arith) refl))
          (shutdown_stores refl))
        (shutdown_notifies refl))
      (worker_waits i lt (ground arith)),
  refl,
  record { waits = ground arith; told = refl; quiet = λ c. cc },
)

-- For every number of workers and each of them there is a run from a new pool, with no job at all,
-- after which `shutdown` has set the flag and notified while that worker waits; from there, unless a
-- job is submitted or a wait returns with no notification, no run gets past the joins.
pub shutdown_hangs :
    (T : Type 0) (n i : ℕ)
    → i < n
    → (t : Pool T) × Run n initial (silent ∷ silent ∷ silent ∷ silent ∷ silent ∷ silent ∷ []) t
      × (t.shutdown_flag ≡ true)
      × IsStuck i t
      × ((u : Pool T) (es : List (Event T)) → Run n t es u → IsQuiet es → u.closer ≢ joined)
shutdown_hangs T n i lt =
    let (t, run, flag, stuck) = unheard_run T n i lt in
    (t, run, flag, stuck, λ u es r q. never u (Run-IsStuck i lt r q stuck))
  where
    never : (u : Pool T) → IsStuck i u → u.closer ≢ joined
    never u v e = ground (arith, v.told)
