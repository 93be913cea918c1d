-- ===== src/FairScheduler/Submit.antt =====
-- The calls of the fair scheduler that add classes and jobs: what they refuse, and that they keep the
-- state well formed.
use thread_pool_runtime.Prelude.{
  ℕ, ◌≡◌, ◌<◌, refl, sym, subst, ◌∙◌, true, false, if◌then◌else◌, arith, Bool-cases, inl, inr, none,
  some, Option-cases,
}
use mathlib.Core.Option.{some-injective}
use thread_pool_runtime.FairScheduler.{
  Name, default_class_name, find, is_empty, FairState, create, find_or_create_class, register_class,
  enqueue, submit,
}
use thread_pool_runtime.FairScheduler.Doubles.{Double, IsOrdered}
use thread_pool_runtime.FairScheduler.Inv.{Inv, create-Inv, enqueue-Inv}

-- The class and the weight that `submit` looks up.
abbrev pub class_name : Name → Name
class_name name = if is_empty name then default_class_name else name

abbrev pub class_weight : {V : Type 0} → Double V → V → V
class_weight F weight = if F.lt F.double_0 weight then weight else F.double_1

module _ {V : Type 0} {F : Double V} (L : IsOrdered F) where
  class_weight-positive : (weight : V) → F.le (class_weight F weight) F.double_0 ≡ false
  class_weight-positive weight = elim (Bool-cases (F.lt F.double_0 weight)) [
    | inl e ↦ rw (e, L.le_lt weight F.double_0, e) refl
    | inr e ↦ rw (e, L.le_lt F.double_1 F.double_0, L.positive) refl
  ]

module _ {V : Type 0} {F : Double V} (L : IsOrdered F) {T : Type 0} where
  abbrev IsFound : ℕ × FairState V T → Type 0
  IsFound r = Inv F r.1 × r.0 < r.1.class_count

  create-IsFound :
      (name : Name) (weight : V) (s : FairState V T)
      → find name s.name_to_id ≡ none
      → F.le weight F.double_0 ≡ false
      → Inv F s
      → IsFound (s.class_count, create F name weight s)
  unfolding create
  create-IsFound name weight s new pos v = (create-Inv L name weight s new pos v, omega arith)

  pub find_or_create_class_old :
      (name : Name) (weight : V) (s : FairState V T) (id : ℕ)
      → find name s.name_to_id ≡ some id
      → find_or_create_class F name weight s ≡ some (id, s)
  unfolding find_or_create_class
  find_or_create_class_old name weight s id old = rw (find_or_create_class, old) refl

  find_or_create_class_new :
      (name : Name) (weight : V) (s : FairState V T)
      → find name s.name_to_id ≡ none
      → F.le weight F.double_0 ≡ false
      → find_or_create_class F name weight s ≡ some (s.class_count, create F name weight s)
  unfolding find_or_create_class
  find_or_create_class_new name weight s new pos = rw (find_or_create_class, new, pos) refl

  find_or_create_class_bad :
      (name : Name) (weight : V) (s : FairState V T)
      → find name s.name_to_id ≡ none
      → F.le weight F.double_0 ≡ true
      → find_or_create_class F name weight s ≡ none
  unfolding find_or_create_class
  find_or_create_class_bad name weight s new neg = rw (find_or_create_class, new, neg) refl

  -- What holds of both results holds of the one that is returned.
  pub find_or_create_class_elim :
      (P : ℕ × FairState V T → Type 0) (name : Name) (weight : V) (s : FairState V T)
      (r : ℕ × FairState V T)
      → ((j : ℕ) → find name s.name_to_id ≡ some j → P (j, s))
      → (find name s.name_to_id ≡ none
          → F.le weight F.double_0 ≡ false
          → P (s.class_count, create F name weight s))
      → find_or_create_class F name weight s ≡ some r
      → P r
  find_or_create_class_elim P name weight s r found made e =
      elim (Option-cases (find name s.name_to_id)) [
        | inl new ↦ elim (Bool-cases (F.le weight F.double_0)) [
          | inl neg ↦ let b = find_or_create_class_bad name weight s new neg in absurd (cc)
          | inr pos ↦
              subst P
                (some-injective (s.class_count, create F name weight s) r
                  (sym (find_or_create_class_new name weight s new pos) ∙ e))
                (made new pos)
        ]
        | inr (j, old) ↦
            subst P
              (some-injective (j, s) r (sym (find_or_create_class_old name weight s j old) ∙ e))
              (found j old)
      ]

  pub find_or_create_class-Inv :
      (name : Name) (weight : V) (s : FairState V T) (r : ℕ × FairState V T)
      → Inv F s
      → find_or_create_class F name weight s ≡ some r
      → Inv F r.1 × r.0 < r.1.class_count
  find_or_create_class-Inv name weight s r v e =
      find_or_create_class_elim IsFound name weight s r (λ j old. (v, v.indexed name j old))
        (λ new pos. create-IsFound name weight s new pos v) e

  -- A call of `register_class` that is not refused creates the class.
  pub register_class-create :
      (name : Name) (weight : V) (s t : FairState V T)
      → register_class F name weight s ≡ some t
      → (find name s.name_to_id ≡ none)
        × (F.le weight F.double_0 ≡ false)
        × (create F name weight s ≡ t)
  unfolding register_class
  register_class-create name weight s t e = elim (Option-cases (find name s.name_to_id)) [
    | inl new ↦ elim (Bool-cases (F.le weight F.double_0)) [
      | inl neg ↦
          let refused : register_class F name weight s ≡ none =
            rw (register_class, new, find_or_create_class_bad name weight s new neg) refl in
          absurd (cc)
      | inr pos ↦
          let made : register_class F name weight s ≡ some (create F name weight s) =
            rw (register_class, new, find_or_create_class_new name weight s new pos) refl in
          (new, pos, some-injective (create F name weight s) t (sym made ∙ e))
    ]
    | inr (j, old) ↦ absurd (register_class_known name weight s j t old e)
  ]
    where
      register_class_known :
          (name : Name) (weight : V) (s : FairState V T) (j : ℕ) (t : FairState V T)
          → find name s.name_to_id ≡ some j
          → register_class F name weight s ≡ some t
          → ⊥
      register_class_known name weight s j t old e =
          let refused : register_class F name weight s ≡ none = rw (register_class, old) refl in cc

  pub register_class-Inv :
      (name : Name) (weight : V) (s t : FairState V T)
      → Inv F s
      → register_class F name weight s ≡ some t
      → Inv F t
  register_class-Inv name weight s t v e =
      let (new, pos, same) = register_class-create name weight s t e in
      subst (Inv F) same (create-Inv L name weight s new pos v)

  -- `submit` queues the job at the class that it finds or creates.
  pub submit-enqueue :
      (name : Name) (weight : V) (job : T) (s t : FairState V T)
      → submit F name weight job s ≡ some t
      → (r : ℕ × FairState V T) × (find_or_create_class F
            (class_name name)
            (class_weight F weight)
            s
          ≡ some r)
        × (enqueue F r.0 job r.1 ≡ t)
  unfolding submit
  submit-enqueue name weight job s t e =
      elim (Option-cases (find_or_create_class F (class_name name) (class_weight F weight) s)) [
        | inl bad ↦ let none_left : submit F name weight job s ≡ none = rw bad refl in absurd (cc)
        | inr (r, good) ↦
            let done : submit F name weight job s ≡ some (enqueue F r.0 job r.1) = rw good refl in
            (r, good, some-injective (enqueue F r.0 job r.1) t (sym done ∙ e))
      ]

  pub submit-Inv :
      (name : Name) (weight : V) (job : T) (s t : FairState V T)
      → Inv F s
      → submit F name weight job s ≡ some t
      → Inv F t
  submit-Inv name weight job s t v e =
      let (r, good, same) = submit-enqueue name weight job s t e in
      let (u, small) =
        find_or_create_class-Inv (class_name name) (class_weight F weight) s r v good in
      subst (Inv F) same (enqueue-Inv L r.0 job r.1 small u)

  -- With the weight that `submit` passes on, no name is refused.
  pub submit-some :
      (name : Name) (weight : V) (job : T) (s : FairState V T)
      → (t : FairState V T) × (submit F name weight job s ≡ some t)
  unfolding submit
  submit-some name weight job s = elim (Option-cases (find (class_name name) s.name_to_id)) [
    | inl new ↦ (
      enqueue F s.class_count job (create F (class_name name) (class_weight F weight) s),
      rw
          (find_or_create_class_new (class_name name) (class_weight F weight) s new
            (class_weight-positive L weight))
          refl,
    )
    | inr (j, old) ↦ (
      enqueue F j job s,
      rw (find_or_create_class_old (class_name name) (class_weight F weight) s j old) refl,
    )
  ]
