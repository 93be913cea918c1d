-- ===== src/FairScheduler/Tests.antt =====
-- The fair scheduler with whole numbers for its run times, on a few jobs.
use thread_pool_runtime.Prelude.{ℕ, ◌≡◌, refl, false, List, [], ◌∷◌, some, none, ℕ_discrete}
use thread_pool_runtime.FairScheduler.{
  Name, default_class_name, find, same_name, is_empty, FairState, took, empty_state, create,
  find_or_create_class, register_class, enqueue, submit, insert, dispatch, dispatch_from, serve,
  requeue, account,
}
use thread_pool_runtime.FairScheduler.Doubles.{larger}
use thread_pool_runtime.FairScheduler.Whole.{whole, whole-IsOrdered}
use thread_pool_runtime.FairScheduler.Inv.{Inv}
use thread_pool_runtime.FairScheduler.Accept.{
  IsAccepted, submit-IsAccepted, IsSeeded, register_class-submit,
}
use thread_pool_runtime.FairScheduler.Run.{
  Event, silent, submits, dispatches, registers, accepts, starts, finishes, FairRun, start, later,
  FairRun-Inv,
}

abbrev web : Name
web = 119 ∷ 101 ∷ 98 ∷ []

-- A class of weight 4 with the jobs 10 and 11, and the default class with the job 20.
abbrev one : FairState ℕ ℕ
one = create whole web 4 (empty_state whole)

abbrev two : FairState ℕ ℕ
two = enqueue whole 0 10 one

abbrev three : FairState ℕ ℕ
three = enqueue whole 0 11 two

abbrev four : FairState ℕ ℕ
four = enqueue whole 1 20 (create whole default_class_name 1 three)

abbrev five : FairState ℕ ℕ
five = requeue whole 0 0 ((0, 1) ∷ []) (11 ∷ []) four

-- Job 10 of `web` is dispatched, and the class goes behind the default class.
first_job : dispatch whole four ≡ took 0 10 five
unfolding dispatch dispatch_from serve requeue enqueue create insert larger is_empty ℕ_discrete
first_job = refl

five_ready : five.ready ≡ (0, 1) ∷ (0, 0) ∷ []
unfolding requeue enqueue create insert larger is_empty ℕ_discrete
five_ready = refl

abbrev events : List (Event ℕ)
events = silent ∷ dispatches 10 ∷ submits 20 ∷ submits 11 ∷ submits 10 ∷ silent ∷ []

submissions :
    FairRun whole (empty_state whole) (submits 20 ∷ submits 11 ∷ submits 10 ∷ silent ∷ []) four
unfolding register_class submit find_or_create_class find same_name is_empty enqueue create
    ℕ_discrete
submissions =
    later
      (later
        (later (later start (registers web 4 {t = one} refl)) (accepts web 1 10 {t = two} refl))
        (accepts web 1 11 {t = three} refl))
      (accepts [] 1 20 {t = four} refl)

script : FairRun whole (empty_state whole) events (account whole 0 8 five)
script = later (later submissions (starts first_job)) (finishes 0 8 refl)

FairRun-Inv_example : Inv whole (account whole 0 8 five)
FairRun-Inv_example = FairRun-Inv whole-IsOrdered script

-- The job 12 of no weight for the class `web`, which has the job 11.
submit-IsAccepted_example :
    (t : FairState ℕ ℕ) × (submit whole web 0 12 five ≡ some t)
    × IsAccepted whole-IsOrdered web 0 12 five t
submit-IsAccepted_example =
    submit-IsAccepted whole-IsOrdered web 0 12 five
      (FairRun-Inv whole-IsOrdered (later submissions (starts first_job)))

abbrev mail : Name
mail = 109 ∷ 97 ∷ 105 ∷ 108 ∷ []

registered_mail : register_class whole mail 4 five ≡ some (create whole mail 4 five)
unfolding register_class find_or_create_class find same_name requeue enqueue create ℕ_discrete
registered_mail = refl

some_mail : is_empty mail ≡ false
unfolding is_empty
some_mail = refl

register_class-submit_example :
    (register_class whole mail 2 (create whole mail 4 five) ≡ none)
    × ((u : FairState ℕ ℕ) × (submit whole mail 2 30 (create whole mail 4 five) ≡ some u)
        × IsSeeded whole-IsOrdered 4 30 five u)
register_class-submit_example =
    register_class-submit whole-IsOrdered mail 4 2 30 five (create whole mail 4 five) some_mail
      registered_mail

-- An entry keeps the key it was put back with while its class is being charged. Job 10 of `web` has run
-- for 8, and the default class has had its job 20 taken and has a new one: `web` is dispatched, with the
-- virtual run time 2, before the default class with 0.
abbrev charged : FairState ℕ ℕ
charged = account whole 0 8 five

abbrev waiting : FairState ℕ ℕ
waiting = enqueue whole 1 21 (requeue whole 0 1 ((0, 0) ∷ []) [] charged)

stale_keys :
    (dispatch whole charged ≡ took 1 20 (requeue whole 0 1 ((0, 0) ∷ []) [] charged))
    × (dispatch whole waiting ≡ took 0 11 (requeue whole 0 0 ((0, 1) ∷ []) [] waiting))
    × ((waiting.classes 0).vruntime ≡ 2)
    × ((waiting.classes 1).vruntime ≡ 0)
unfolding dispatch dispatch_from serve requeue enqueue create insert larger is_empty account
    ℕ_discrete
stale_keys = (refl, refl, refl, refl)
