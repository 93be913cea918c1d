-- ===== src/Scheduler/Balance.antt =====
-- Every job that was started has been finished or is being run: by induction on runs of labelled steps.
use thread_pool_runtime.Prelude.{
  ℕ, ◌+◌, ◌≡◌, ap, Bool, List, [], ◌∷◌, arith, count_if, count_if-append,
}
use thread_pool_runtime.Scheduler.{
  Label, started, started-cons, finished, finished-cons, LabelledRun, start, later,
}

module _ {T S : Type 0} {Step : S → Label T → S → Type 0} (P : T → Bool) (measure : S → ℕ) where
  -- When each step changes the measure by the jobs it starts and finishes, so does a run.
  pub started_balance :
      {s t : S} {es : List (Label T)}
      → ((s t : S) (e : Label T)
          → Step s e t
          → count_if P (started (e ∷ [])) + measure s ≡ count_if P (finished (e ∷ [])) + measure t)
      → measure s ≡ 0
      → LabelledRun Step s es t
      → count_if P (started es) ≡ count_if P (finished es) + measure t
  started_balance step none_yet start = omega (arith, none_yet)
  started_balance step none_yet (later {es = es} {e = e} r mv) = omega (
    arith,
    started_balance step none_yet r,
    step _ _ e mv,
    ap (count_if P) (started-cons e es),
    ap (count_if P) (finished-cons e es),
    count_if-append P (started (e ∷ [])) (started es),
    count_if-append P (finished (e ∷ [])) (finished es),
  )
