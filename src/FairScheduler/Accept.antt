-- ===== src/FairScheduler/Accept.antt =====
-- What a caller of the fair scheduler gets: `submit` accepts every job, and a registered class keeps the
-- weight that it was registered with.
use thread_pool_runtime.Prelude.{ℕ, ◌≡◌, ◌≢◌, refl, sym, ap, ◌∙◌, false, [], ◌∷◌, none, some, arith}
use thread_pool_runtime.Prelude.Family.{update_eq}
use thread_pool_runtime.FairScheduler.{
  Name, find, is_empty, FairState, create, find_or_create_class, register_class, enqueue, submit,
}
use thread_pool_runtime.FairScheduler.Doubles.{Double, IsOrdered, larger}
use thread_pool_runtime.FairScheduler.Inv.{Inv}
use thread_pool_runtime.FairScheduler.Names.{find-new}
use thread_pool_runtime.FairScheduler.Submit.{
  class_name, class_weight, find_or_create_class_old, find_or_create_class_elim,
  register_class-create, submit-enqueue, submit-Inv, submit-some,
}
use thread_pool_runtime.FairScheduler.Backlog.{
  class_for, IsQueued, submit-IsQueued, find_or_create_class-class_for,
}

-- The weight of the class of a name: its own, or `w` for a name that is new.
unfoldable pub weight_for : {V T : Type 0} → Name → V → FairState V T → V
weight_for name w s = elim (find name s.name_to_id) [ some id ↦ (s.classes id).weight | none ↦ w ]

module _ {V : Type 0} (F : Double V) {T : Type 0} where
  enqueue-name_to_id :
      (id : ℕ) (job : T) (s : FairState V T) → (enqueue F id job s).name_to_id ≡ s.name_to_id
  unfolding enqueue
  enqueue-name_to_id id job s = ground arith

  enqueue-weight :
      (id : ℕ) (job : T) (s : FairState V T) (j : ℕ)
      → ((enqueue F id job s).classes j).weight ≡ (s.classes j).weight
  unfolding enqueue
  enqueue-weight id job s j = ground arith

  enqueue_others :
      (id : ℕ) (job : T) (s : FairState V T) (j : ℕ)
      → j ≢ id
      → (enqueue F id job s).classes j ≡ s.classes j
  unfolding enqueue
  enqueue_others id job s j ne = ground arith

module _ {V : Type 0} {F : Double V} (L : IsOrdered F) {T : Type 0} where
  -- The class that `submit` looks up, or creates.
  abbrev Looked : Name → V → FairState V T → ℕ × FairState V T → Type 0
  Looked name w s r =
      (find name r.1.name_to_id ≡ some r.0) × ((r.1.classes r.0).weight ≡ weight_for name w s)

  find_or_create_class-Looked :
      (name : Name) (w : V) (s : FairState V T) (r : ℕ × FairState V T)
      → find_or_create_class F name w s ≡ some r
      → Looked name w s r
  unfolding create weight_for
  find_or_create_class-Looked name w s r e =
      find_or_create_class_elim L (Looked name w s) name w s r
        (λ j old. (old, rw (weight_for, old) refl))
        (λ new pos. (
          find-new name s.class_count s.name_to_id,
          ap (λ c. c.weight) (update_eq s.classes s.class_count s.class_count _ refl)
              ∙ rw (weight_for, new) refl,
        ))
        e

  -- What a call of `submit` has done: `id` is the class of the job.
  abbrev pub IsAccepted : Name → V → T → FairState V T → FairState V T → Type 0
  IsAccepted name weight job s t =
      let id = class_for (class_name name) s in
      Inv F t
      × IsQueued id job s t
      × (find (class_name name) t.name_to_id ≡ some id)
      × ((t.classes id).weight ≡ weight_for (class_name name) (class_weight F weight) s)

  -- In a well-formed state `submit` accepts every job, whatever its class and weight, and puts it behind
  -- those of its class: the one of its name, "default" for an empty name, which is created where the
  -- name is new. The class keeps its weight; a new one gets that of the call, or 1 where that is not
  -- positive. The state stays well formed.
  pub submit-IsAccepted :
      (name : Name) (weight : V) (job : T) (s : FairState V T)
      → Inv F s
      → (t : FairState V T) × (submit F name weight job s ≡ some t) × IsAccepted name weight job s t
  submit-IsAccepted name weight job s v =
      let (t, e) = submit-some L name weight job s in
      let (r, good, same) = submit-enqueue L name weight job s t e in
      let (place, _) =
        find_or_create_class-class_for L (class_name name) (class_weight F weight) s r v good in
      let (found, kept) =
        find_or_create_class-Looked (class_name name) (class_weight F weight) s r good in
      (
        t,
        e,
        (
          submit-Inv L name weight job s t v e,
          submit-IsQueued L name weight job s t v e,
          ap (λ x. find (class_name name) x.name_to_id) (sym same)
              ∙ ap (find (class_name name)) (enqueue-name_to_id F r.0 job r.1)
              ∙ found
              ∙ ap some place,
          ap (λ i. (t.classes i).weight) (sym place)
              ∙ ap (λ x. (x.classes r.0).weight) (sym same)
              ∙ enqueue-weight F r.0 job r.1 r.0
              ∙ kept,
        ),
      )

  -- What `submit` makes of a class that has just been registered.
  abbrev pub IsSeeded : V → T → FairState V T → FairState V T → Type 0
  IsSeeded weight job s u =
      ((u.classes s.class_count).runnable ≡ job ∷ [])
      × ((u.classes s.class_count).weight ≡ weight)
      × ((u.classes s.class_count).vruntime ≡ s.min_vruntime)
      × ((j : ℕ) → j ≢ s.class_count → u.classes j ≡ s.classes j)

  created-IsSeeded :
      (name : Name) (weight : V) (job : T) (s : FairState V T)
      → IsSeeded weight job s (enqueue F s.class_count job (create F name weight s))
  unfolding create enqueue larger
  created-IsSeeded name weight job s =
      (ground arith, ground arith, ground (arith, L.lt_irrefl s.min_vruntime), λ j ne. ground arith)

  register_created :
      (name : Name) (weight w : V) (job : T) (s : FairState V T)
      → is_empty name ≡ false
      → (register_class F name w (create F name weight s) ≡ none)
        × (submit F name w job (create F name weight s)
            ≡ some (enqueue F s.class_count job (create F name weight s)))
  unfolding create register_class submit
  register_created name weight w job s some_name =
      let found = find-new name s.class_count s.name_to_id in
      (
        rw (register_class, found) refl,
        rw
            (
              some_name,
              find_or_create_class_old L name (class_weight F w) (create F name weight s)
                  s.class_count found,
            )
            refl,
      )

  -- When `register_class` has accepted a name that is not empty, a second call for the name is refused
  -- whatever its weight, and a job submitted under the name goes to the new class alone, which has the
  -- weight that it was registered with, not that of the job, and starts at the floor of the run times;
  -- no other class is touched.
  pub register_class-submit :
      (name : Name) (weight w : V) (job : T) (s t : FairState V T)
      → is_empty name ≡ false
      → register_class F name weight s ≡ some t
      → (register_class F name w t ≡ none)
        × ((u : FairState V T) × (submit F name w job t ≡ some u) × IsSeeded weight job s u)
  register_class-submit name weight w job s t some_name e =
      let (new, pos, same) = register_class-create L name weight s t e in
      let (refused, accepted) = register_created name weight w job s some_name in
      (
        ap (register_class F name w) (sym same) ∙ refused,
        (
          enqueue F s.class_count job (create F name weight s),
          ap (submit F name w job) (sym same) ∙ accepted,
          created-IsSeeded name weight job s,
        ),
      )
