-- ===== src/Task/Join.antt =====
-- What `join` returns, when it returns, and that it is always woken.
use thread_pool_runtime.Prelude.{
  ◌≡◌, ◌≢◌, ◌⊎◌, inl, inr, refl, sym, ap, subst, ◌∙◌, Bool, true, false, Option, none, some, arith,
}
use mathlib.Core.Option.{some-injective}
use thread_pool_runtime.Metrics.{Metrics, record_completed, record_panicked}
use thread_pool_runtime.Task.{
  Result, ok, err, Thrown, same, rethrow_if_error, rethrow_error, Outcome, returns, throws, Job,
  body, returned, caught, panicked, setting, notifying, done, Joiner, away, joining, blocked, got,
  Task, wake, join_error, JobStep, body_returns, body_throws, completes, panics, completes_panic,
  sets, notifies, JoinStep, enters, blocks, wakes, takes, by_job, by_joiner, TaskRun, start, later,
  spawned,
}

-- The result that the handle is to deliver, and the counters once the task is over.
abbrev pub delivery : {V E : Type 0} → Outcome V E → Result V E
delivery (returns v) = ok v
delivery (throws e) = err (join_error e)

abbrev pub tally : {V E : Type 0} → Metrics → Outcome V E → Metrics
tally m (returns v) = record_completed m
tally m (throws e) = record_completed (record_panicked m)

-- What is thrown again: the exception of the body itself.
abbrev pub thrown : {V E : Type 0} → Outcome V E → Option (Thrown E)
thrown (returns v) = none
thrown (throws e) = some (same e)

abbrev pub has_got : {V E : Type 0} → Joiner V E → Bool
has_got (got r) = true
has_got j = false

abbrev pub is_blocked : {V E : Type 0} → Joiner V E → Bool
is_blocked blocked = true
is_blocked j = false

got_same : {V E : Type 0} (r q : Result V E) → got r ≡ got q → r ≡ q
got_same {V = V} {E = E} r q e = ap from e
  where
    from : Joiner V E → Result V E
    from (got x) = x
    from x = r

module _ {V E : Type 0} (f : Outcome V E) (m : Metrics) where
  abbrev pub Waiting : Task V E → Type 0
  Waiting s = (s.result ≡ none) × (has_got s.joiner ≡ false)

  abbrev pub Delivered : Task V E → Type 0
  Delivered s =
      ((s.result ≡ some (delivery f)) × (has_got s.joiner ≡ false))
      ⊎ ((s.result ≡ none) × (s.joiner ≡ got (delivery f)))

  -- By where the job stands.
  abbrev pub Stage : Task V E → Job V E → Type 0
  Stage s body = (s.metrics ≡ m) × Waiting s
  Stage s (returned v) = (f ≡ returns v) × (s.metrics ≡ m) × Waiting s
  Stage s (caught e) = (f ≡ throws e) × (s.metrics ≡ m) × Waiting s
  Stage s (panicked e) = (f ≡ throws e) × (s.metrics ≡ record_panicked m) × Waiting s
  Stage s (setting r) = (r ≡ delivery f) × (s.metrics ≡ tally m f) × Waiting s
  Stage s notifying = (s.metrics ≡ tally m f) × Delivered s
  Stage s done = (s.metrics ≡ tally m f) × Delivered s × (is_blocked s.joiner ≡ false)

  JobStep-Stage :
      (j : Job V E) {s t : Task V E} → s.job ≡ j → JobStep f s j t → Stage s j → Stage t t.job
  JobStep-Stage body at (body_returns e) (c, w) = (e, c, w)
  JobStep-Stage body at (body_throws e) (c, w) = (e, c, w)
  JobStep-Stage (returned v) at completes (e, c, w) =
      (ap delivery (sym e), ap record_completed c ∙ ap (tally m) (sym e), w)
  JobStep-Stage (caught x) at panics (e, c, w) = (e, ap record_panicked c, w)
  JobStep-Stage (panicked x) at completes_panic (e, c, w) =
      (ap delivery (sym e), ap record_completed c ∙ ap (tally m) (sym e), w)
  JobStep-Stage (setting r) at sets (e, c, (_, free)) = (c, inl (ap some e, free))
  JobStep-Stage notifying {s = s} at notifies (c, d) = (c, still d, awake s.joiner)
    where
      free_wake : (x : Joiner V E) → has_got x ≡ false → has_got (wake x) ≡ false
      free_wake x e = ground arith

      awake : (x : Joiner V E) → is_blocked (wake x) ≡ false
      awake x = ground arith

      still : Delivered s → Delivered (record s { job = done; joiner = wake s.joiner })
      still (inl (r, free)) = inl (r, free_wake s.joiner free)
      still (inr (r, g)) = inr (r, ap wake g)
  JobStep-Stage done at mv v = elim mv [ ]

  -- A step of the joiner leaves the job and the counters alone.
  pub joiner_only :
      (x : Joiner V E) {s t : Task V E} → JoinStep s x t → (t.job ≡ s.job) × (t.metrics ≡ s.metrics)
  joiner_only away enters = (refl, refl)
  joiner_only joining (blocks e) = (refl, refl)
  joiner_only joining (takes r e) = (refl, refl)
  joiner_only blocked wakes = (refl, refl)
  joiner_only (got r) mv = elim mv [ ]

  JoinStep-Waiting : (x : Joiner V E) {s t : Task V E} → JoinStep s x t → Waiting s → Waiting t
  JoinStep-Waiting away enters (r, w) = (r, refl)
  JoinStep-Waiting joining (blocks e) (r, w) = (r, refl)
  JoinStep-Waiting joining (takes x e) (r, w) = absurd (cc)
  JoinStep-Waiting blocked wakes (r, w) = (r, refl)
  JoinStep-Waiting (got r) mv v = elim mv [ ]

  -- After the result is set, the joiner takes it or goes on to look for it; it does not block.
  JoinStep-Delivered :
      (x : Joiner V E) {s t : Task V E}
      → s.joiner ≡ x
      → JoinStep s x t
      → Delivered s
      → Delivered t × (is_blocked t.joiner ≡ false)
  JoinStep-Delivered away at enters (inl (r, w)) = (inl (r, refl), refl)
  JoinStep-Delivered away at enters (inr (r, g)) = absurd (cc)
  JoinStep-Delivered joining at (blocks e) (inl (r, w)) = absurd (cc)
  JoinStep-Delivered joining at (blocks e) (inr (r, g)) = absurd (cc)
  JoinStep-Delivered joining at (takes x e) (inl (r, w)) =
      (inr (refl, ap got (some-injective x (delivery f) (sym e ∙ r))), refl)
  JoinStep-Delivered joining at (takes x e) (inr (r, g)) = absurd (cc)
  JoinStep-Delivered blocked at wakes (inl (r, w)) = (inl (r, refl), refl)
  JoinStep-Delivered blocked at wakes (inr (r, g)) = absurd (cc)
  JoinStep-Delivered (got r) at mv v = elim mv [ ]

  JoinStep-Stage : (j : Job V E) {s t : Task V E} → JoinStep s s.joiner t → Stage s j → Stage t j
  JoinStep-Stage body {s = s} mv (c, w) =
      ((joiner_only s.joiner mv).1 ∙ c, JoinStep-Waiting s.joiner mv w)
  JoinStep-Stage (returned v) {s = s} mv (e, c, w) =
      (e, (joiner_only s.joiner mv).1 ∙ c, JoinStep-Waiting s.joiner mv w)
  JoinStep-Stage (caught x) {s = s} mv (e, c, w) =
      (e, (joiner_only s.joiner mv).1 ∙ c, JoinStep-Waiting s.joiner mv w)
  JoinStep-Stage (panicked x) {s = s} mv (e, c, w) =
      (e, (joiner_only s.joiner mv).1 ∙ c, JoinStep-Waiting s.joiner mv w)
  JoinStep-Stage (setting r) {s = s} mv (e, c, w) =
      (e, (joiner_only s.joiner mv).1 ∙ c, JoinStep-Waiting s.joiner mv w)
  JoinStep-Stage notifying {s = s} mv (c, d) =
      ((joiner_only s.joiner mv).1 ∙ c, (JoinStep-Delivered s.joiner refl mv d).0)
  JoinStep-Stage done {s = s} mv (c, d, b) =
      let (d', b') = JoinStep-Delivered s.joiner refl mv d in
      ((joiner_only s.joiner mv).1 ∙ c, d', b')

  -- What holds at every point of a run.
  pub Run-Stage : {s : Task V E} → TaskRun f (spawned m) s → Stage s s.job
  Run-Stage start = (refl, (refl, refl))
  Run-Stage (later {t = t} r (by_job mv)) = JobStep-Stage t.job refl mv (Run-Stage r)
  Run-Stage {s = u} (later {t = t} r (by_joiner mv)) =
      subst (Stage u) (sym (joiner_only t.joiner mv).0) (JoinStep-Stage t.job mv (Run-Stage r))

  delivered_at :
      (s : Task V E) (r : Result V E) (j : Job V E)
      → s.joiner ≡ got r
      → Stage s j
      → (r ≡ delivery f) × (s.metrics ≡ tally m f)
  delivered_at s r body at (c, w) = absurd (cc)
  delivered_at s r (returned v) at (e, c, w) = absurd (cc)
  delivered_at s r (caught x) at (e, c, w) = absurd (cc)
  delivered_at s r (panicked x) at (e, c, w) = absurd (cc)
  delivered_at s r (setting x) at (e, c, w) = absurd (cc)
  delivered_at s r notifying at (c, inl w) = absurd (cc)
  delivered_at s r notifying at (c, inr (e, g)) = (got_same r (delivery f) (sym at ∙ g), c)
  delivered_at s r done at (c, inl w, b) = absurd (cc)
  delivered_at s r done at (c, inr (e, g), b) = (got_same r (delivery f) (sym at ∙ g), c)

-- What `join` returns is what the body returned, or its exception, which `rethrow_if_error` throws
-- again; and the task is in the counters by then, once as completed, and once as panicked if its body
-- threw.
pub join_result :
    {V E : Type 0} (f : Outcome V E) (m : Metrics) (s : Task V E) (r : Result V E)
    → TaskRun f (spawned m) s
    → s.joiner ≡ got r
    → (r ≡ delivery f) × (rethrow_if_error r ≡ thrown f) × (s.metrics ≡ tally m f)
unfolding rethrow_if_error rethrow_error join_error
join_result {V = V} {E = E} f m s r run at =
    let (e, c) = delivered_at f m s r s.job at (Run-Stage f m run) in
    (e, ap rethrow_if_error e ∙ rethrown f, c)
  where
    rethrown : (o : Outcome V E) → rethrow_if_error (delivery o) ≡ thrown o
    rethrown (returns v) = refl
    rethrown (throws x) = refl

-- A thread that blocks in `join` is woken: when the worker is through with the job, nobody is blocked,
-- and what was set is there to be taken or was taken.
pub join_woken :
    {V E : Type 0} (f : Outcome V E) (m : Metrics) (s : Task V E)
    → TaskRun f (spawned m) s
    → s.job ≡ done
    → (s.joiner ≢ blocked) × ((s.result ≡ some (delivery f)) ⊎ (s.joiner ≡ got (delivery f)))
join_woken f m s run at =
    let (c, d, b) = subst (Stage f m s) at (Run-Stage f m run) in
    (λ e. absurd (cc), elim d [ inl w ↦ inl w.0 | inr w ↦ inr w.1 ])
