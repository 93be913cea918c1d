-- ===== src/FairScheduler/Inv.antt =====
-- The well-formedness of the fair scheduler's state, and that new classes, new jobs and the
-- accounts of finished ones keep it.
use thread_pool_runtime.Prelude.{
  ℕ, ◌≡◌, ◌<◌, ◌≤◌, refl, ap, ◌∙◌, true, false, not, if◌then◌else◌, List, [], ◌∷◌, ◌++◌, arith,
  Bool-cases, inl, inr, none, some, ℕ_discrete,
}
use thread_pool_runtime.Prelude.Family.{update, update_eq, update_ne}
use thread_pool_runtime.FairScheduler.{
  Name, find, is_empty, ClassState, FairState, new_class, create, enqueue, account,
}
use thread_pool_runtime.FairScheduler.Doubles.{
  Double, IsOrdered, larger, AtMost-larger_left, AtMost-larger_right,
}
use thread_pool_runtime.FairScheduler.Ready.{
  entries, Least, IsSorted, Behind, entries-insert, Least-insert, Behind-insert, IsSorted-insert,
  Behind-grow,
}
use thread_pool_runtime.FairScheduler.Names.{find-new, find-old, find-cons}

-- Each class has one entry while it has jobs and none otherwise; the entries are in order, none below
-- `min_vruntime_`, none above the class's own run time; weights are positive; names and ids agree.
pub record Inv {V : Type 0} (F : Double V) {T : Type 0} (s : FairState V T) : Type 0 where
  pub counted : (id : ℕ) → entries id s.ready ≡ (if (s.classes id).has_entry then 1 else 0)
  pub known : (id : ℕ) → s.class_count ≤ id → (s.classes id).has_entry ≡ false
  pub backlog : (id : ℕ) → (s.classes id).has_entry ≡ not (is_empty (s.classes id).runnable)
  pub sorted : IsSorted F s.ready
  pub floor : Least F s.min_vruntime s.ready
  pub behind : Behind F s.classes s.ready
  pub weighted : (id : ℕ) → F.lt F.double_0 (s.classes id).weight ≡ true
  pub named : (id : ℕ) → id < s.class_count → find (s.classes id).name s.name_to_id ≡ some id
  pub indexed : (name : Name) (id : ℕ) → find name s.name_to_id ≡ some id → id < s.class_count

append_nonempty : {A : Type 0} (xs : List A) (x : A) → is_empty (xs ++ x ∷ []) ≡ false
unfolding is_empty
append_nonempty [] x = refl
append_nonempty (y ∷ xs) x = refl

module _ {V : Type 0} {F : Double V} (L : IsOrdered F) {T : Type 0} where
  pub create-Inv :
      (name : Name) (weight : V) (s : FairState V T)
      → find name s.name_to_id ≡ none
      → F.le weight F.double_0 ≡ false
      → Inv F s
      → Inv F (create F name weight s)
  unfolding create is_empty
  create-Inv name weight s new pos v = record {
    counted = λ id. ground (arith, v.counted id, v.known id);
    known = λ id h. ground (arith, v.known id);
    backlog = λ id. ground (arith, v.backlog id);
    sorted = v.sorted;
    floor = v.floor;
    behind =
        Behind-grow L s.classes (create F name weight s).classes s.ready
          (λ id h. ground (arith, L.lt_irrefl (s.classes id).vruntime, v.counted id, v.known id))
          v.behind;
    weighted = λ id. ground (arith, v.weighted id, L.le_lt weight F.double_0);
    named = λ id h. elim (ℕ_discrete s.class_count id) [
      | yes e ↦
          rw (update_eq s.classes s.class_count id made e)
            (find-new name s.class_count s.name_to_id ∙ ap some e)
      | no ne ↦ rw (update_ne s.classes s.class_count id made ne) (
          find-old (s.classes id).name name s.class_count id s.name_to_id new
            (v.named id (omega arith)))
    ];
    indexed = λ key id e. elim (find-cons key name s.class_count s.name_to_id id e) [
      | inl here ↦ omega arith
      | inr there ↦ omega (arith, v.indexed key id there)
    ];
  }
    where
      made : ClassState V T
      made = new_class F name weight s.min_vruntime

  -- The new entry of a class that had none.
  enqueue_first-Inv :
      (id : ℕ) (job : T) (s : FairState V T)
      → id < s.class_count
      → (s.classes id).has_entry ≡ false
      → Inv F s
      → Inv F (enqueue F id job s)
  unfolding enqueue is_empty
  enqueue_first-Inv id job s small idle v = rw idle (record {
    counted = λ j. ground (arith, v.counted j, idle, entries-insert F fresh id j s.ready);
    known = λ j h. ground (arith, v.known j);
    backlog = λ j. ground (arith, v.backlog j, append_nonempty (s.classes id).runnable job);
    sorted = IsSorted-insert L fresh id s.ready v.sorted;
    floor =
        Least-insert F s.min_vruntime fresh id s.ready
          (AtMost-larger_right L (s.classes id).vruntime s.min_vruntime) v.floor;
    behind = Behind-insert F made fresh id s.ready (ground (arith, L.lt_irrefl fresh)) (
        Behind-grow L s.classes made s.ready
          (λ j h. ground (
            arith,
            L.lt_irrefl (s.classes j).vruntime,
            AtMost-larger_left L (s.classes id).vruntime s.min_vruntime,
          ))
          v.behind);
    weighted = λ j. ground (arith, v.weighted j, v.weighted id);
    named = λ j h. ground (arith, v.named j h);
    indexed = v.indexed;
  })
    where
      fresh : V
      fresh = larger F (s.classes id).vruntime s.min_vruntime

      made : ℕ → ClassState V T
      made = update s.classes id (record (s.classes id) {
        runnable = (s.classes id).runnable ++ job ∷ [];
        vruntime = fresh;
        has_entry = true;
      })

  enqueue_more-Inv :
      (id : ℕ) (job : T) (s : FairState V T)
      → (s.classes id).has_entry ≡ true
      → Inv F s
      → Inv F (enqueue F id job s)
  unfolding enqueue is_empty
  enqueue_more-Inv id job s busy v = rw busy (record {
    counted = λ j. ground (arith, v.counted j, v.counted id);
    known = λ j h. ground (arith, v.known j);
    backlog = λ j. ground (arith, v.backlog j, append_nonempty (s.classes id).runnable job);
    sorted = v.sorted;
    floor = v.floor;
    behind =
        Behind-grow L s.classes
          (update s.classes id (record (s.classes id) {
            runnable = (s.classes id).runnable ++ job ∷ [];
            has_entry = true;
          }))
          s.ready (λ j h. ground (arith, L.lt_irrefl (s.classes j).vruntime)) v.behind;
    weighted = λ j. ground (arith, v.weighted j, v.weighted id);
    named = λ j h. ground (arith, v.named j h);
    indexed = v.indexed;
  })

  pub account-Inv :
      (id : ℕ) (elapsed : V) (s : FairState V T)
      → F.le F.double_0 elapsed ≡ true
      → Inv F s
      → Inv F (account F id elapsed s)
  unfolding account
  account-Inv id elapsed s pos v = record {
    counted = λ j. ground (arith, v.counted j);
    known = λ j h. ground (arith, v.known j);
    backlog = λ j. ground (arith, v.backlog j);
    sorted = v.sorted;
    floor = v.floor;
    behind =
        Behind-grow L s.classes (account F id elapsed s).classes s.ready
          (λ j h. ground (
            arith,
            L.lt_irrefl (s.classes j).vruntime,
            L.grows (s.classes id).vruntime elapsed (s.classes id).weight pos (v.weighted id),
          ))
          v.behind;
    weighted = λ j. ground (arith, v.weighted j, v.weighted id);
    named = λ j h. ground (arith, v.named j h);
    indexed = v.indexed;
  }

  pub enqueue-Inv :
      (id : ℕ) (job : T) (s : FairState V T)
      → id < s.class_count
      → Inv F s
      → Inv F (enqueue F id job s)
  enqueue-Inv id job s small v = elim (Bool-cases (s.classes id).has_entry) [
    | inl busy ↦ enqueue_more-Inv id job s busy v
    | inr idle ↦ enqueue_first-Inv id job s small idle v
  ]
