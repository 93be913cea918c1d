-- ===== src/ThreadPerCore/Workers/Range.antt =====
-- Jobs only go to cores that exist.
use thread_pool_runtime.Prelude.{
  ℕ, ◌<◌, ◌≡◌, refl, sym, ap, ◌∙◌, List, [], ◌∷◌, arith, subst, ℕ_discrete,
}
use thread_pool_runtime.Prelude.Family.{update, update_eq, update_ne}
use thread_pool_runtime.ThreadPerCore.{accepts, target}
use thread_pool_runtime.ThreadPerCore.Target.{target-num_cores, target_lt}
use thread_pool_runtime.ThreadPerCore.Workers.{
  Pool, Client, away, chosen, recorded, ringing, Action, does, Step, worker_locks, worker_takes,
  worker_finds_none, worker_returns, worker_stays, worker_waits, worker_wakes, worker_finishes,
  submit_chooses, submit_records, submit_pushes, submit_notifies, shutdown_stores,
  shutdown_notifies, shutdown_joins, Run, start, later, initial,
}

module _ {T : Type 0} where
  -- The core that a call of `submit` has chosen is below `n`.
  abbrev pub IsInRange : ℕ → Client T → Type 0
  IsInRange n away = Unit
  IsInRange n (chosen job core p) = core < n
  IsInRange n (recorded job core p) = core < n
  IsInRange n (ringing core) = core < n

  -- So are the cores at which the actions queue jobs.
  abbrev pub IsBelow : ℕ → List (Action T) → Type 0
  IsBelow n [] = Unit
  IsBelow n (does (accepts core r job) ∷ es) = (core < n) × IsBelow n es
  IsBelow n (e ∷ es) = IsBelow n es

  pub record Range (n : ℕ) (s : Pool T) : Type 0 where
    pub size : s.cores.num_cores ≡ n
    pub clients : (c : ℕ) → IsInRange n (s.client c)

  same-Range :
      {n : ℕ} {s : Pool T} (t : Pool T)
      → Range n s
      → t.cores.num_cores ≡ s.cores.num_cores
      → t.client ≡ s.client
      → Range n t
  same-Range {n = n} t v size client = record {
    size = size ∙ v.size;
    clients = λ c. subst (IsInRange n) (sym (ap (λ f. f c) client)) (v.clients c);
  }

  -- A call of `submit` moves on to `w`.
  client-Range :
      {n : ℕ} {s : Pool T} (t : Pool T) (c : ℕ) (w : Client T)
      → Range n s
      → t.cores.num_cores ≡ s.cores.num_cores
      → t.client ≡ update s.client c w
      → IsInRange n w
      → Range n t
  client-Range {n = n} {s = s} t c w v size client ok = record {
    size = size ∙ v.size;
    clients = λ d. elim (ℕ_discrete c d) [
      | yes e ↦ subst (IsInRange n) (sym (ap (λ f. f d) client ∙ update_eq s.client c d w e)) ok
      | no ne ↦
          subst (IsInRange n) (sym (ap (λ f. f d) client ∙ update_ne s.client c d w ne))
            (v.clients d)
    ];
  }

  Step-Range : {n : ℕ} {s t : Pool T} {e : Action T} → 0 < n → Step s e t → Range n s → Range n t
  Step-Range {t = t} pos (worker_locks i lt at unheld) v = same-Range t v refl refl
  Step-Range {t = t} pos (worker_takes i at e) v = same-Range t v refl refl
  Step-Range {t = t} pos (worker_finds_none i at e) v = same-Range t v refl refl
  Step-Range {t = t} pos (worker_returns i at flag) v = same-Range t v refl refl
  Step-Range {t = t} pos (worker_stays i at flag) v = same-Range t v refl refl
  Step-Range {t = t} pos (worker_waits i at) v = same-Range t v refl refl
  Step-Range {t = t} pos (worker_wakes i at) v = same-Range t v refl refl
  Step-Range {t = t} pos (worker_finishes i at) v = same-Range t v refl refl
  Step-Range {s = s} {t = t} pos (submit_chooses c job hint p at) v =
      client-Range t c _ v (target-num_cores hint s.cores) refl (
        subst (λ x. (target hint s.cores).0 < x) v.size
          (target_lt hint s.cores (omega (arith, v.size))))
  Step-Range {n = n} {t = t} pos (submit_records c {job} {core} {p} at) v =
      client-Range t c (recorded job core p) v refl refl (subst (IsInRange n) at (v.clients c))
  Step-Range {n = n} {t = t} pos (submit_pushes c {job} {core} {p} at unheld) v =
      client-Range t c (ringing core) v refl refl (subst (IsInRange n) at (v.clients c))
  Step-Range {t = t} pos (submit_notifies c {core} at) v = client-Range t c away v refl refl tt
  Step-Range {t = t} pos (shutdown_stores at) v = same-Range t v refl refl
  Step-Range {t = t} pos (shutdown_notifies at lt) v = same-Range t v refl refl
  Step-Range {t = t} pos (shutdown_joins at every) v = same-Range t v refl refl

  pub Run-Range :
      {n : ℕ} {s : Pool T} {es : List (Action T)} → 0 < n → Run (initial n) es s → Range n s
  Run-Range pos start = record { size = refl; clients = λ c. tt }
  Run-Range pos (later r mv) = Step-Range pos mv (Run-Range pos r)

  Step-IsBelow :
      {n : ℕ} {s t : Pool T} {e : Action T} (es : List (Action T))
      → Step s e t
      → Range n s
      → IsBelow n es
      → IsBelow n (e ∷ es)
  Step-IsBelow es (worker_locks i lt at unheld) v b = b
  Step-IsBelow es (worker_takes i at e) v b = b
  Step-IsBelow es (worker_finds_none i at e) v b = b
  Step-IsBelow es (worker_returns i at flag) v b = b
  Step-IsBelow es (worker_stays i at flag) v b = b
  Step-IsBelow es (worker_waits i at) v b = b
  Step-IsBelow es (worker_wakes i at) v b = b
  Step-IsBelow es (worker_finishes i at) v b = b
  Step-IsBelow es (submit_chooses c job hint p at) v b = b
  Step-IsBelow es (submit_records c at) v b = b
  Step-IsBelow {n = n} es (submit_pushes c at unheld) v b =
      (subst (IsInRange n) at (v.clients c), b)
  Step-IsBelow es (submit_notifies c at) v b = b
  Step-IsBelow es (shutdown_stores at) v b = b
  Step-IsBelow es (shutdown_notifies at lt) v b = b
  Step-IsBelow es (shutdown_joins at every) v b = b

  -- Whatever hints the callers of `submit` give, and however often the turn wraps around, every job
  -- is queued at a core below `num_cores`, so that a worker looks for it.
  pub queued_in_range :
      (n : ℕ) (s : Pool T) (es : List (Action T)) → 0 < n → Run (initial n) es s → IsBelow n es
  queued_in_range n _ _ pos start = tt
  queued_in_range n _ _ pos (later {es = es} r mv) =
      Step-IsBelow es mv (Run-Range pos r) (queued_in_range n _ es pos r)
