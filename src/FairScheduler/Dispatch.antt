-- ===== src/FairScheduler/Dispatch.antt =====
-- What a worker of the fair scheduler dispatches, and that this keeps the state well formed.
use thread_pool_runtime.Prelude.{
  ℕ, true-≢-false, ◌≡◌, ◌≢◌, ◌<◌, refl, sym, ap, subst, ◌∙◌, true, false, not, if◌then◌else◌, ltb,
  List, [], ◌∷◌, arith, Bool-cases, inl, inr,
}
use thread_pool_runtime.Prelude.Family.{update_eq, update_ne}
use thread_pool_runtime.FairScheduler.{
  is_empty, ClassState, FairState, Dispatched, nothing_ready, undefined, took, requeue, serve,
  dispatch_from, dispatch,
}
use thread_pool_runtime.FairScheduler.Doubles.{
  Double, IsOrdered, AtMost, larger, AtMost-larger_left, larger-AtMost,
}
use thread_pool_runtime.FairScheduler.Ready.{
  entries, Least, IsSorted, Behind, entries-insert, Least-insert, Behind-insert, IsSorted-insert,
  Behind-grow, Least-entry, keys, keys-none, keys-insert, keys-insert_other,
}
use thread_pool_runtime.FairScheduler.Inv.{Inv}

pub is_empty-nil : {A : Type 0} (xs : List A) → is_empty xs ≡ true → xs ≡ []
unfolding is_empty
is_empty-nil [] e = refl
is_empty-nil (x ∷ xs) e = cc

module _ {V : Type 0} {F : Double V} (L : IsOrdered F) where
  Least-larger : (a v : V) (r : List (V × ℕ)) → Least F a r → Least F v r → Least F (larger F a v) r
  Least-larger a v [] p q = tt
  Least-larger a v ((u, id) ∷ r) (p, ps) (q, qs) =
      (larger-AtMost L a v u p q, Least-larger a v r ps qs)

module _ {V : Type 0} {F : Double V} (L : IsOrdered F) {T : Type 0} where
  requeue_last-Inv :
      (v : V) (id : ℕ) (rest : List (V × ℕ)) (job : T) (s : FairState V T)
      → s.ready ≡ (v, id) ∷ rest
      → (s.classes id).runnable ≡ job ∷ []
      → Inv F s
      → Inv F (requeue F v id rest [] s)
  unfolding requeue is_empty
  requeue_last-Inv v id rest job s r jobs w = record {
    counted = λ j. ground (arith, count j, count id, w.backlog id, w.counted id);
    known = λ j h. ground (arith, w.known j);
    backlog = λ j. ground (arith, w.backlog j);
    sorted = order.1;
    floor =
        Least-larger L s.min_vruntime v rest (subst (Least F s.min_vruntime) r w.floor).1 order.0;
    behind =
        Behind-grow L s.classes (requeue F v id rest [] s).classes rest
          (λ j h. ground (arith, L.lt_irrefl (s.classes j).vruntime))
          (subst (Behind F s.classes) r w.behind).1;
    weighted = λ j. ground (arith, w.weighted j, w.weighted id);
    named = λ j h. ground (arith, w.named j h);
    indexed = w.indexed;
  }
    where
      order : Least F v rest × IsSorted F rest
      order = subst (IsSorted F) r w.sorted

      count : (j : ℕ) → entries j ((v, id) ∷ rest) ≡ (if (s.classes j).has_entry then 1 else 0)
      count j = sym (ap (entries j) r) ∙ w.counted j

  requeue_more-Inv :
      (v : V) (id : ℕ) (rest : List (V × ℕ)) (job next : T) (more : List T) (s : FairState V T)
      → s.ready ≡ (v, id) ∷ rest
      → (s.classes id).runnable ≡ job ∷ next ∷ more
      → Inv F s
      → Inv F (requeue F v id rest (next ∷ more) s)
  unfolding requeue is_empty
  requeue_more-Inv v id rest job next more s r jobs w = record {
    counted = λ j. ground (arith, count j, entries-insert F c id j rest);
    known = λ j h. ground (arith, w.known j, w.backlog id);
    backlog = λ j. ground (arith, w.backlog j);
    sorted = IsSorted-insert L c id rest order.1;
    floor =
        Least-insert F (larger F s.min_vruntime v) c id rest
          (larger-AtMost L s.min_vruntime v c (L.at_most_trans s.min_vruntime v c least.0 late.0)
            late.0)
          (Least-larger L s.min_vruntime v rest least.1 order.0);
    behind =
        Behind-insert F (requeue F v id rest (next ∷ more) s).classes c id rest
          (ground (arith, L.lt_irrefl c))
          (Behind-grow L s.classes (requeue F v id rest (next ∷ more) s).classes rest
            (λ j h. ground (arith, L.lt_irrefl (s.classes j).vruntime)) late.1);
    weighted = λ j. ground (arith, w.weighted j, w.weighted id);
    named = λ j h. ground (arith, w.named j h);
    indexed = w.indexed;
  }
    where
      c : V
      c = (s.classes id).vruntime

      order : Least F v rest × IsSorted F rest
      order = subst (IsSorted F) r w.sorted

      least : AtMost F s.min_vruntime v × Least F s.min_vruntime rest
      least = subst (Least F s.min_vruntime) r w.floor

      late : AtMost F v c × Behind F s.classes rest
      late = subst (Behind F s.classes) r w.behind

      count : (j : ℕ) → entries j ((v, id) ∷ rest) ≡ (if (s.classes j).has_entry then 1 else 0)
      count j = sym (ap (entries j) r) ∙ w.counted j

  requeue-Inv :
      (v : V) (id : ℕ) (rest : List (V × ℕ)) (job : T) (more : List T) (s : FairState V T)
      → s.ready ≡ (v, id) ∷ rest
      → (s.classes id).runnable ≡ job ∷ more
      → Inv F s
      → Inv F (requeue F v id rest more s)
  requeue-Inv v id rest job [] s r jobs w = requeue_last-Inv v id rest job s r jobs w
  requeue-Inv v id rest job (next ∷ more) s r jobs w =
      requeue_more-Inv v id rest job next more s r jobs w

  -- The class that is taken has the least key of `ready_`, to which the floor is raised. Its entry is
  -- gone, or put back under its virtual run time when it has jobs left; the other entries stay.
  abbrev pub TakesLeast : FairState V T → ℕ → FairState V T → Type 0
  TakesLeast s id t =
      (v : V) × (keys id s.ready ≡ v ∷ [])
      × Least F v s.ready
      × (t.min_vruntime ≡ larger F s.min_vruntime v)
      × (keys id t.ready
          ≡ (if is_empty (t.classes id).runnable then [] else (t.classes id).vruntime ∷ []))
      × ((j : ℕ) → j ≢ id → keys j t.ready ≡ keys j s.ready)

  requeue-TakesLeast :
      (v : V) (id : ℕ) (rest : List (V × ℕ)) (job : T) (more : List T) (s : FairState V T)
      → s.ready ≡ (v, id) ∷ rest
      → (s.classes id).runnable ≡ job ∷ more
      → Inv F s
      → TakesLeast s id (requeue F v id rest more s)
  unfolding requeue is_empty
  requeue-TakesLeast v id rest job more s r jobs w = (
    v,
    ap (keys id) r ∙ ground (arith, keys-none id rest single),
    subst (Least F v) (sym r) (L.lt_irrefl v, order.0),
    refl,
    ground (arith, keys-none id rest single, keys-insert F (s.classes id).vruntime id rest single),
    λ j ne. ground (arith, ap (keys j) r, keys-insert_other F (s.classes id).vruntime id j rest ne),
  )
    where
      order : Least F v rest × IsSorted F rest
      order = subst (IsSorted F) r w.sorted

      single : entries id rest ≡ 0
      single = ground (arith, sym (ap (entries id) r) ∙ w.counted id)

  -- What a call of `dispatch` may yield in state `s`.
  abbrev pub IsDispatch : FairState V T → Dispatched V T → Type 0
  IsDispatch s undefined = ⊥
  IsDispatch s nothing_ready = (id : ℕ) → (s.classes id).runnable ≡ []
  IsDispatch s (took id job t) =
      Inv F t
      × ((s.classes id).runnable ≡ job ∷ (t.classes id).runnable)
      × ((j : ℕ) → j ≢ id → t.classes j ≡ s.classes j)
      × ((j : ℕ) → (s.classes j).runnable ≢ [] → AtMost F t.min_vruntime (s.classes j).vruntime)
      × AtMost F s.min_vruntime t.min_vruntime
      × TakesLeast s id t

  requeue-IsDispatch :
      (v : V) (id : ℕ) (rest : List (V × ℕ)) (job : T) (more : List T) (s : FairState V T)
      → s.ready ≡ (v, id) ∷ rest
      → (s.classes id).runnable ≡ job ∷ more
      → Inv F s
      → IsDispatch s (took id job (requeue F v id rest more s))
  unfolding requeue is_empty
  requeue-IsDispatch v id rest job more s r jobs w = (
    requeue-Inv v id rest job more s r jobs w,
    jobs ∙ ap (λ c. job ∷ c.runnable) (sym (update_eq s.classes id id left refl)),
    λ j ne. update_ne s.classes id j left (λ e. ne (sym e)),
    λ j some_left.
        Least-entry L s.classes (larger F s.min_vruntime v) j s.ready least w.behind
          (has_jobs j some_left),
    AtMost-larger_left L s.min_vruntime v,
    requeue-TakesLeast v id rest job more s r jobs w,
  )
    where
      left : ClassState V T
      left = record (s.classes id) {
        runnable = more;
        has_entry = if is_empty more then false else (s.classes id).has_entry;
      }

      order : Least F v rest × IsSorted F rest
      order = subst (IsSorted F) r w.sorted

      least : Least F (larger F s.min_vruntime v) s.ready
      least =
          Least-larger L s.min_vruntime v s.ready w.floor
            (subst (Least F v) (sym r) (L.lt_irrefl v, order.0))

      has_jobs : (j : ℕ) → (s.classes j).runnable ≢ [] → 0 < entries j s.ready
      has_jobs j some_left = elim (Bool-cases (is_empty (s.classes j).runnable)) [
        | inl none_left ↦ absurd (some_left (is_empty-nil (s.classes j).runnable none_left))
        | inr jobs_left ↦ ground (arith, w.counted j, w.backlog j)
      ]

  served :
      (v : V) (id : ℕ) (rest : List (V × ℕ)) (jobs : List T) (s : FairState V T)
      → s.ready ≡ (v, id) ∷ rest
      → (s.classes id).runnable ≡ jobs
      → (s.classes id).has_entry ≡ true
      → Inv F s
      → IsDispatch s (serve F v id rest jobs s)
  unfolding serve is_empty
  served v id rest [] s r e busy w =
      absurd (true-≢-false (sym busy ∙ w.backlog id ∙ ap (λ l. not (is_empty l)) e))
  served v id rest (job ∷ more) s r e busy w = requeue-IsDispatch v id rest job more s r e w

  IsDispatch-entry :
      (v : V) (id : ℕ) (rest : List (V × ℕ)) (s : FairState V T)
      → s.ready ≡ (v, id) ∷ rest
      → Inv F s
      → IsDispatch s (dispatch_from F ((v, id) ∷ rest) s)
  unfolding dispatch_from
  IsDispatch-entry v id rest s r w =
      rw (dispatch_from, in_range) (served v id rest (s.classes id).runnable s r refl busy w)
    where
      busy : (s.classes id).has_entry ≡ true
      busy = ground (arith, sym (w.counted id) ∙ ap (entries id) r)

      in_range : ltb id s.class_count ≡ true
      in_range = ground (arith, w.known id, busy)

  pub dispatch-IsDispatch : (s : FairState V T) → Inv F s → IsDispatch s (dispatch F s)
  unfolding dispatch dispatch_from is_empty
  dispatch-IsDispatch s w = from s.ready refl
    where
      idle : s.ready ≡ [] → (id : ℕ) → (s.classes id).runnable ≡ []
      idle r id =
          is_empty-nil (s.classes id).runnable
            (ground (arith, w.backlog id, sym (w.counted id) ∙ ap (entries id) r))

      from : (r : List (V × ℕ)) → s.ready ≡ r → IsDispatch s (dispatch_from F r s)
      from [] r = idle r
      from ((v, id) ∷ rest) r = IsDispatch-entry v id rest s r w
