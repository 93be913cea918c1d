-- ===== src/Task/Again.antt =====
-- `is_finished`, and a second `join` on a handle.
use thread_pool_runtime.Prelude.{
  ◌≡◌, ◌≢◌, inl, inr, refl, sym, ap, ◌∙◌, Bool, true, false, none, some, arith,
}
use thread_pool_runtime.Metrics.{Metrics}
use thread_pool_runtime.Task.{
  Result, Outcome, Job, body, returned, caught, panicked, setting, notifying, done, Joiner, away,
  joining, blocked, got, Task, wake, JobStep, notifies, JoinStep, enters, blocks, wakes, takes,
  by_job, by_joiner, TaskRun, start, later, spawned,
}
use thread_pool_runtime.Task.Join.{has_got, Stage, Run-Stage}

-- `JoinHandle::is_finished`
unfoldable pub is_finished : {V E : Type 0} → Task V E → Bool
is_finished s = elim s.result [ none ↦ false | some r ↦ true ]

-- The thread that holds the handle calls `join` once more.
abbrev pub join_again : {V E : Type 0} → Task V E → Task V E
join_again s = record s { joiner = joining }

-- The result has been set.
abbrev is_set : {V E : Type 0} → Job V E → Bool
is_set notifying = true
is_set done = true
is_set j = false

-- The task is over, its result is gone, and a call of `join` has not returned.
record IsSpent {V E : Type 0} (s : Task V E) : Type 0 where
  over : is_set s.job ≡ true
  taken : s.result ≡ none
  waits : has_got s.joiner ≡ false

module _ {V E : Type 0} where
  JoinStep-IsSpent : (x : Joiner V E) {s t : Task V E} → JoinStep s x t → IsSpent s → IsSpent t
  JoinStep-IsSpent away enters v = record { over = v.over; taken = v.taken; waits = refl }
  JoinStep-IsSpent joining (blocks e) v = record { over = v.over; taken = v.taken; waits = refl }
  JoinStep-IsSpent joining (takes r e) v = absurd (let a = v.taken in cc)
  JoinStep-IsSpent blocked wakes v = record { over = v.over; taken = v.taken; waits = refl }
  JoinStep-IsSpent (got r) mv v = elim mv [ ]

module _ {V E : Type 0} {f : Outcome V E} where
  JobStep-IsSpent :
      (j : Job V E) {s t : Task V E} → s.job ≡ j → JobStep f s j t → IsSpent s → IsSpent t
  JobStep-IsSpent notifying {s = s} at notifies v = record {
    over = refl;
    taken = v.taken;
    waits = still s.joiner v.waits;
  }
    where
      still : (x : Joiner V E) → has_got x ≡ false → has_got (wake x) ≡ false
      still x e = ground arith
  JobStep-IsSpent done at mv v = elim mv [ ]
  JobStep-IsSpent body at mv v = absurd (let e = sym (ap is_set at) ∙ v.over in cc)
  JobStep-IsSpent (returned x) at mv v = absurd (let e = sym (ap is_set at) ∙ v.over in cc)
  JobStep-IsSpent (caught x) at mv v = absurd (let e = sym (ap is_set at) ∙ v.over in cc)
  JobStep-IsSpent (panicked x) at mv v = absurd (let e = sym (ap is_set at) ∙ v.over in cc)
  JobStep-IsSpent (setting x) at mv v = absurd (let e = sym (ap is_set at) ∙ v.over in cc)

  Run-IsSpent : {s t : Task V E} → TaskRun f s t → IsSpent s → IsSpent t
  Run-IsSpent start v = v
  Run-IsSpent (later {t = t} r (by_job mv)) v = JobStep-IsSpent t.job refl mv (Run-IsSpent r v)
  Run-IsSpent (later {t = t} r (by_joiner mv)) v = JoinStep-IsSpent t.joiner mv (Run-IsSpent r v)

module _ {V E : Type 0} (f : Outcome V E) (m : Metrics) where
  got-IsSpent :
      (s : Task V E) (r : Result V E) (j : Job V E)
      → s.job ≡ j
      → s.joiner ≡ got r
      → Stage f m s j
      → IsSpent (join_again s)
  got-IsSpent s r notifying job at (c, inl w) = absurd (cc)
  got-IsSpent s r notifying job at (c, inr (e, g)) = record {
    over = ap is_set job;
    taken = e;
    waits = refl;
  }
  got-IsSpent s r done job at (c, inl w, b) = absurd (cc)
  got-IsSpent s r done job at (c, inr (e, g), b) = record {
    over = ap is_set job;
    taken = e;
    waits = refl;
  }
  got-IsSpent s r body job at (c, w) = absurd (cc)
  got-IsSpent s r (returned v) job at (e, c, w) = absurd (cc)
  got-IsSpent s r (caught x) job at (e, c, w) = absurd (cc)
  got-IsSpent s r (panicked x) job at (e, c, w) = absurd (cc)
  got-IsSpent s r (setting x) job at (e, c, w) = absurd (cc)

-- Once `join` has returned the result, a second call on the handle never returns, and `is_finished` says
-- that the task is not finished, whatever runs from there.
pub joined_once :
    {V E : Type 0} (f : Outcome V E) (m : Metrics) (s t : Task V E) (r : Result V E)
    → TaskRun f (spawned m) s
    → s.joiner ≡ got r
    → TaskRun f (join_again s) t
    → (is_finished t ≡ false) × ((q : Result V E) → t.joiner ≢ got q)
unfolding is_finished
joined_once {V = V} {E = E} f m s t r run at run' =
    let v = Run-IsSpent run' (got-IsSpent f m s r s.job refl at (Run-Stage f m run)) in
    (
      ap (λ x. elim x [ none ↦ false | some y ↦ true ]) v.taken,
      λ q e. absurd (let a = sym (ap has_got e) ∙ v.waits in cc),
    )
