-- ===== src/FairScheduler/Backlog.antt =====
-- The jobs that wait in the classes of the fair scheduler, and what each section does to them.
use thread_pool_runtime.Prelude.{
  ℕ, suc, ◌+◌, ◌<◌, ◌≤◌, ◌≡◌, ◌≢◌, refl, sym, ap, subst, ◌∙◌, List, [], ◌∷◌, ◌++◌, arith, none,
  some, ℕ_discrete, dec_lt, zero_sum, summand_le, length, sum, sum_same, sum_change, sum_extend,
}
use thread_pool_runtime.Prelude.Family.{update, update_eq, update_ne}
use thread_pool_runtime.FairScheduler.{
  Name, find, FairState, create, find_or_create_class, register_class, enqueue, submit, took,
  nothing_ready, dispatch, dispatch_from, serve, requeue, account,
}
use thread_pool_runtime.FairScheduler.Doubles.{Double, IsOrdered}
use thread_pool_runtime.FairScheduler.Inv.{Inv}
use thread_pool_runtime.FairScheduler.Dispatch.{is_empty-nil, IsDispatch, dispatch-IsDispatch}
use thread_pool_runtime.FairScheduler.Submit.{
  class_name, class_weight, find_or_create_class_elim, find_or_create_class-Inv, submit-enqueue,
  register_class-create,
}

module _ {V T : Type 0} where
  -- The queue of a class.
  abbrev pub queue : FairState V T → ℕ → List T
  queue s id = (s.classes id).runnable

  -- The sum of a measure of the queues.
  abbrev pub backlog_by : (List T → ℕ) → FairState V T → ℕ
  backlog_by f s = sum s.class_count (λ id. f (queue s id))

  -- The number of all jobs that wait.
  abbrev pub backlog : FairState V T → ℕ
  backlog = backlog_by length

  -- A measure of the queues changes as that of the queue of class `id` does.
  abbrev pub Changes : ℕ → FairState V T → FairState V T → Type 0
  Changes id s t =
      (f : List T → ℕ)
      → f [] ≡ 0
      → backlog_by f t + f (queue s id) ≡ backlog_by f s + f (queue t id)

  -- The class that `find_or_create_class` gives for a name.
  unfoldable pub class_for : Name → FairState V T → ℕ
  class_for name s = elim (find name s.name_to_id) [ some id ↦ id | none ↦ s.class_count ]

  -- Every queue is as before.
  abbrev pub KeepsQueues : FairState V T → FairState V T → Type 0
  KeepsQueues s t = ((id : ℕ) → queue t id ≡ queue s id) × (s.class_count ≤ t.class_count)

  -- The job is put behind those of class `id`.
  abbrev pub IsQueued : ℕ → T → FairState V T → FairState V T → Type 0
  IsQueued id job s t =
      (queue t id ≡ queue s id ++ job ∷ [])
      × ((j : ℕ) → j ≢ id → queue t j ≡ queue s j)
      × Changes id s t

  -- The front job of class `id` is taken.
  abbrev pub IsServed : ℕ → T → FairState V T → FairState V T → Type 0
  IsServed id job s t =
      (queue s id ≡ job ∷ queue t id) × ((j : ℕ) → j ≢ id → queue t j ≡ queue s j) × Changes id s t

module _ {V : Type 0} {F : Double V} (L : IsOrdered F) {T : Type 0} where
  pub queue-beyond : (s : FairState V T) (id : ℕ) → Inv F s → s.class_count ≤ id → queue s id ≡ []
  queue-beyond s id v le = is_empty-nil (queue s id) (ground (arith, v.known id, v.backlog id))

  -- A state in which one queue differs.
  queues-Changes :
      (s t : FairState V T) (id : ℕ)
      → Inv F s
      → id < t.class_count
      → s.class_count ≤ t.class_count
      → ((j : ℕ) → j ≢ id → queue t j ≡ queue s j)
      → Changes id s t
  queues-Changes s t id v lt le same f zero_nil = omega (
    arith,
    sum_change t.class_count id (λ j. f (queue s j)) (λ j. f (queue t j)) lt
        (λ j ne. ap f (same j ne)),
    sum_extend s.class_count t.class_count (λ j. f (queue s j)) le
        (λ j out. ap f (queue-beyond s j v out) ∙ zero_nil),
  )

  create-KeepsQueues :
      (name : Name) (weight : V) (s : FairState V T)
      → Inv F s
      → KeepsQueues s (create F name weight s)
  unfolding create
  create-KeepsQueues name weight s v = (
    λ id. elim (ℕ_discrete s.class_count id) [
      | yes e ↦
          ap (λ c. c.runnable) (update_eq s.classes s.class_count id _ e)
          ∙ sym (queue-beyond s id v (omega arith))
      | no ne ↦ ap (λ c. c.runnable) (update_ne s.classes s.class_count id _ ne)
    ],
    omega arith,
  )

  queue-enqueue :
      (id : ℕ) (job : T) (s : FairState V T) (j : ℕ)
      → queue (enqueue F id job s) j ≡ update (queue s) id (queue s id ++ job ∷ []) j
  unfolding enqueue
  queue-enqueue id job s j = ground arith

  class_count-enqueue :
      (id : ℕ) (job : T) (s : FairState V T) → (enqueue F id job s).class_count ≡ s.class_count
  unfolding enqueue
  class_count-enqueue id job s = ground arith

  pub find_or_create_class-class_for :
      (name : Name) (weight : V) (s : FairState V T) (r : ℕ × FairState V T)
      → Inv F s
      → find_or_create_class F name weight s ≡ some r
      → (r.0 ≡ class_for name s) × KeepsQueues s r.1
  unfolding class_for
  find_or_create_class-class_for name weight s r v e =
      find_or_create_class_elim L (λ x. (x.0 ≡ class_for name s) × KeepsQueues s x.1) name weight s
        r (λ j old. (rw (class_for, old) refl, (λ id. refl, omega arith)))
        (λ new pos. (rw (class_for, new) refl, create-KeepsQueues name weight s v)) e

  enqueue-IsQueued :
      (id : ℕ) (job : T) (s t : FairState V T)
      → Inv F s
      → KeepsQueues s t
      → id < t.class_count
      → IsQueued id job s (enqueue F id job t)
  enqueue-IsQueued id job s t v (keeps, grows) lt =
      let here : queue (enqueue F id job t) id ≡ queue s id ++ job ∷ [] =
        queue-enqueue id job t id
        ∙ update_eq (queue t) id id (queue t id ++ job ∷ []) refl
        ∙ ap (λ q. q ++ job ∷ []) (keeps id) in
      let there : (j : ℕ) → j ≢ id → queue (enqueue F id job t) j ≡ queue s j = λ j ne.
        queue-enqueue id job t j
        ∙ update_ne (queue t) id j (queue t id ++ job ∷ []) (λ e. ne (sym e))
        ∙ keeps j in
      (
        here,
        there,
        queues-Changes s (enqueue F id job t) id v
            (subst (λ n. id < n) (sym (class_count-enqueue id job t)) lt)
            (subst (λ n. s.class_count ≤ n) (sym (class_count-enqueue id job t)) grows) there,
      )

  -- `submit` puts the job behind those of its class.
  pub submit-IsQueued :
      (name : Name) (weight : V) (job : T) (s t : FairState V T)
      → Inv F s
      → submit F name weight job s ≡ some t
      → IsQueued (class_for (class_name name) s) job s t
  submit-IsQueued name weight job s t v e =
      let (r, good, same) = submit-enqueue L name weight job s t e in
      let (place, keeps) =
        find_or_create_class-class_for (class_name name) (class_weight F weight) s r v good in
      let (u, lt) =
        find_or_create_class-Inv L (class_name name) (class_weight F weight) s r v good in
      subst (λ id. IsQueued id job s t) place
        (subst (IsQueued r.0 job s) same (enqueue-IsQueued r.0 job s r.1 v keeps lt))

  -- A new class has no job.
  pub register_class-KeepsQueues :
      (name : Name) (weight : V) (s t : FairState V T)
      → Inv F s
      → register_class F name weight s ≡ some t
      → KeepsQueues s t
  register_class-KeepsQueues name weight s t v e =
      let (new, pos, same) = register_class-create L name weight s t e in
      subst (KeepsQueues s) same (create-KeepsQueues name weight s v)

  dispatch-class_count :
      (s t : FairState V T) (id : ℕ) (job : T)
      → dispatch F s ≡ took id job t
      → t.class_count ≡ s.class_count
  unfolding dispatch dispatch_from serve requeue
  dispatch-class_count s t id job e = ground arith

  pub dispatch-IsServed :
      (s t : FairState V T) (id : ℕ) (job : T)
      → Inv F s
      → dispatch F s ≡ took id job t
      → IsServed id job s t
  dispatch-IsServed s t id job v e =
      let (u, front, others, _, _, _) = subst (IsDispatch L s) e (dispatch-IsDispatch L s v) in
      let count = dispatch-class_count s t id job e in
      let there : (j : ℕ) → j ≢ id → queue t j ≡ queue s j =
        λ j ne. ap (λ c. c.runnable) (others j ne) in
      (
        front,
        there,
        queues-Changes s t id v (subst (λ n. id < n) (sym count) (known id (ap length front)))
            (omega (arith, count)) there,
      )
    where
      known : (id : ℕ) {k : ℕ} → length (queue s id) ≡ suc k → id < s.class_count
      known id e = elim (dec_lt id s.class_count) [
        | yes lt ↦ lt
        | no ge ↦ absurd (omega (arith, ap length (queue-beyond s id v (omega arith))))
      ]

  account-queue :
      (id : ℕ) (elapsed : V) (s : FairState V T) (j : ℕ)
      → queue (account F id elapsed s) j ≡ queue s j
  unfolding account
  account-queue id elapsed s j = ground arith

  -- The account of a finished job leaves the queues.
  pub account-KeepsQueues :
      (id : ℕ) (elapsed : V) (s : FairState V T) → KeepsQueues s (account F id elapsed s)
  unfolding account
  account-KeepsQueues id elapsed s = (λ j. account-queue id elapsed s j, omega arith)

  pub backlog-KeepsQueues :
      (f : List T → ℕ) (s t : FairState V T)
      → f [] ≡ 0
      → Inv F s
      → KeepsQueues s t
      → backlog_by f t ≡ backlog_by f s
  backlog-KeepsQueues f s t zero_nil v (keeps, grows) =
      sum_same t.class_count (λ j. f (queue s j)) (λ j. f (queue t j)) (λ j lt. ap f (keeps j))
      ∙ sum_extend s.class_count t.class_count (λ j. f (queue s j)) grows
          (λ j out. ap f (queue-beyond s j v out) ∙ zero_nil)

  -- With no job in any class, none is ready; with none ready, there is no job.
  pub backlog-empty : (s : FairState V T) → Inv F s → backlog s ≡ 0 → (id : ℕ) → queue s id ≡ []
  backlog-empty s v none_left id = elim (dec_lt id s.class_count) [
    | yes lt ↦
        length-nil (queue s id)
          (omega (arith, summand_le s.class_count id (λ j. length (queue s j)) lt))
    | no ge ↦ queue-beyond s id v (omega arith)
  ]
    where
      length-nil : (xs : List T) → length xs ≡ 0 → xs ≡ []
      length-nil [] e = refl
      length-nil (x ∷ xs) e = absurd (omega arith)

  pub nothing_ready-backlog :
      (s : FairState V T) → Inv F s → dispatch F s ≡ nothing_ready → backlog s ≡ 0
  nothing_ready-backlog s v e =
      let idle = subst (IsDispatch L s) e (dispatch-IsDispatch L s v) in
      zero_sum s.class_count (λ j. length (queue s j)) (λ j lt. ap length (idle j))
