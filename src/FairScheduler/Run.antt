-- ===== src/FairScheduler/Run.antt =====
-- The fair scheduler as its callers and workers drive it: any sequence of the sections under `mu_`.
use thread_pool_runtime.Prelude.{ℕ, ◌≡◌, refl, subst, true, List, [], ◌∷◌, arith, some}
use thread_pool_runtime.FairScheduler.{
  Name, find, is_empty, FairState, took, empty_state, register_class, submit, dispatch, account,
}
use thread_pool_runtime.FairScheduler.Doubles.{Double, IsOrdered}
use thread_pool_runtime.FairScheduler.Inv.{Inv, account-Inv}
use thread_pool_runtime.FairScheduler.Submit.{register_class-Inv, submit-Inv}
use thread_pool_runtime.FairScheduler.Dispatch.{IsDispatch, dispatch-IsDispatch}

-- What a section does to the jobs.
pub data Event (T : Type 0) : Type 0 where
  silent : Event T
  submits : T → Event T
  dispatches : T → Event T

-- A section of the code, by whichever thread has the mutex.
pub data FairStep {V : Type 0} (F : Double V) {T : Type 0} (s : FairState V T)
    : Event T → FairState V T → Type 0 where
  registers :
      (name : Name) (weight : V) {t : FairState V T}
      → register_class F name weight s ≡ some t
      → FairStep F s silent t
  accepts :
      (name : Name) (weight : V) (job : T) {t : FairState V T}
      → submit F name weight job s ≡ some t
      → FairStep F s (submits job) t
  starts :
      {id : ℕ} {job : T} {t : FairState V T}
      → dispatch F s ≡ took id job t
      → FairStep F s (dispatches job) t
  finishes :
      (id : ℕ) (elapsed : V)
      → F.le F.double_0 elapsed ≡ true
      → FairStep F s silent (account F id elapsed s)

pub data FairRun {V : Type 0} (F : Double V) {T : Type 0} (s : FairState V T)
    : List (Event T) → FairState V T → Type 0 where
  start : FairRun F s [] s
  later :
      {es : List (Event T)} {t u : FairState V T} {e : Event T}
      → FairRun F s es t
      → FairStep F t e u
      → FairRun F s (e ∷ es) u

module _ {V : Type 0} {F : Double V} (L : IsOrdered F) {T : Type 0} where
  pub empty_state-Inv : Inv F (empty_state F {T = T})
  unfolding is_empty find
  empty_state-Inv = record {
    counted = λ id. refl;
    known = λ id h. refl;
    backlog = λ id. refl;
    sorted = tt;
    floor = tt;
    behind = tt;
    weighted = λ id. L.positive;
    named = λ id h. absurd (omega arith);
    indexed = λ name id e. absurd (cc);
  }

  FairStep-Inv : {s t : FairState V T} {e : Event T} → FairStep F s e t → Inv F s → Inv F t
  FairStep-Inv {s} {t} (registers name weight e) v = register_class-Inv L name weight s t v e
  FairStep-Inv {s} {t} (accepts name weight job e) v = submit-Inv L name weight job s t v e
  FairStep-Inv {s} {t} (starts {id} {job} e) v =
      (subst (IsDispatch L s) e (dispatch-IsDispatch L s v)).0
  FairStep-Inv {s} (finishes id elapsed pos) v = account-Inv L id elapsed s pos v

  -- In every sequence of sections from a new scheduler, each class has exactly one entry while it has
  -- jobs and none otherwise, the entries are in the order of their keys, no key is below
  -- `min_vruntime_` or above the virtual run time of its class, and names and ids agree.
  pub FairRun-Inv :
      {s : FairState V T} {es : List (Event T)} → FairRun F (empty_state F) es s → Inv F s
  FairRun-Inv start = empty_state-Inv
  FairRun-Inv (later r mv) = FairStep-Inv mv (FairRun-Inv r)
