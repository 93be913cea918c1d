-- ===== src/WorkStealing/Task.antt =====
-- What `find_task` finds, and when it finds nothing.
use thread_pool_runtime.Prelude.{
  ℕ, zero, suc, ◌+◌, ◌≡◌, ◌≢◌, ◌<◌, ◌≤◌, ◌==◌, refl, sym, ap, subst, ◌∙◌, List, [], ◌∷◌, get_elem?,
  last-cases, arith, inl, inr, Option, none, some, if◌then◌else◌, ℕ_discrete,
}
use thread_pool_runtime.Deque
use thread_pool_runtime.Deque.{Deque}
use thread_pool_runtime.Deque.ListDeque
use thread_pool_runtime.Deque.Refine.{pop_refines}
use thread_pool_runtime.Priority.{Priority, high, normal, background, rank, priority_order}
use thread_pool_runtime.WorkStealing.{
  Shared, FoundKind, local, stolen, Found, at_deque, pull, for_each, steal_peers, found_as,
  find_task,
}
use thread_pool_runtime.WorkStealing.Search.{
  Jobs, Holds, Tries, first_some, first_of, first_peer, at_deque-Tries, pop_unmoved, pull-Tries,
  for_each-Tries, steal_peers-Tries,
}

module _ {T : Type 0} where
  -- A job with the kind of its stage, or else what the later stages yield.
  abbrev pub tag : FoundKind → Option T → Found T → Found T
  tag kind (some job) later = some (job, kind)
  tag kind none later = later

  -- The job that worker `w` of `n` is to find: the newest of its own deques, by priority; else the
  -- oldest of the injectors, by priority; else the oldest of its peers, by priority and then by peer.
  abbrev pub wanted : ℕ → Jobs T → ℕ → Found T
  wanted n a w =
      tag local (first_of (λ p. (ListDeque.pop (a.in_deque w (rank p))).0) priority_order) (
        tag local (first_of (λ p. get_elem? (a.in_injector (rank p)) 0) priority_order)
          (tag stolen (first_of (λ p. first_peer a n 0 w (rank p)) priority_order) none))

  abbrev Seeks : ℕ → Jobs T → (Shared T → Found T × Shared T) → Found T → Type 0
  Seeks n a f o = (s : Shared T) → Holds s n a → ((f s).0 ≡ o) × (o ≡ none → Holds (f s).1 n a)

  found_as-found :
      (kind : FoundKind) (r : Option T × Shared T) (g : Shared T → Found T × Shared T) (x : T)
      → r.0 ≡ some x
      → (found_as kind r g).0 ≡ some (x, kind)
  unfolding found_as
  found_as-found kind (some y, s) g x e = ap (λ o. tag kind o none) e
  found_as-found kind (none, s) g x e = cc

  found_as-none :
      (kind : FoundKind) (r : Option T × Shared T) (g : Shared T → Found T × Shared T)
      → r.0 ≡ none
      → found_as kind r g ≡ g r.1
  unfolding found_as
  found_as-none kind (some y, s) g e = cc
  found_as-none kind (none, s) g e = refl

  found_as-Seeks :
      (n : ℕ) (a : Jobs T) (kind : FoundKind) (f : Shared T → Option T × Shared T)
      (g : Shared T → Found T × Shared T) (o : Option T) (p : Found T)
      → Tries n a f o
      → Seeks n a g p
      → Seeks n a (λ s. found_as kind (f s) g) (tag kind o p)
  found_as-Seeks n a kind f g (some x) p tf tg s h =
      (found_as-found kind (f s) g x (tf s h).0, λ bad. absurd (cc))
  found_as-Seeks n a kind f g none p tf tg s h =
      rw (found_as-none kind (f s) g (tf s h).0) (tg (f s).1 ((tf s h).1 refl))

  steal_stage-Tries :
      (n : ℕ) (a : Jobs T) (w : ℕ)
      → Tries n a
          (λ s. for_each (λ p. steal_peers s.worker_count 0 w (rank p)) priority_order s)
          (first_of (λ p. first_peer a n 0 w (rank p)) priority_order)
  steal_stage-Tries n a w s h =
      subst
        (λ m.
          ((for_each (λ p. steal_peers m 0 w (rank p)) priority_order s).0 ≡ stolen_one)
          × (stolen_one ≡ none
              → Holds (for_each (λ p. steal_peers m 0 w (rank p)) priority_order s).1 n a))
        (sym h.count)
        (for_each-Tries n a (λ p. steal_peers n 0 w (rank p)) (λ p. first_peer a n 0 w (rank p))
          (λ p. steal_peers-Tries n a n 0 w (rank p)) priority_order s h)
    where
      stolen_one : Option T
      stolen_one = first_of (λ p. first_peer a n 0 w (rank p)) priority_order

  -- A worker that searches with no other interfering finds the job that the order of the stages asks
  -- for: the newest of its own deques, by priority; else the oldest of the injectors, by priority;
  -- else the oldest of its peers, by priority and then by peer. A search that finds nothing moves no
  -- job.
  pub find_task-wanted :
      (n : ℕ) (a : Jobs T) (w : ℕ) (s : Shared T)
      → Holds s n a
      → ((find_task w s).0 ≡ wanted n a w) × (wanted n a w ≡ none → Holds (find_task w s).1 n a)
  unfolding find_task
  find_task-wanted n a w =
      found_as-Seeks n a local (for_each (λ p. at_deque Deque.pop w (rank p)) priority_order) _
        (first_of (λ p. (ListDeque.pop (a.in_deque w (rank p))).0) priority_order) _
        (for_each-Tries n a (λ p. at_deque Deque.pop w (rank p))
          (λ p. (ListDeque.pop (a.in_deque w (rank p))).0)
          (λ p. at_deque-Tries Deque.pop ListDeque.pop pop_refines pop_unmoved n a w (rank p))
          priority_order)
        (found_as-Seeks n a local (for_each (λ p. pull w (rank p)) priority_order) _
          (first_of (λ p. get_elem? (a.in_injector (rank p)) 0) priority_order) _
          (for_each-Tries n a (λ p. pull w (rank p)) (λ p. get_elem? (a.in_injector (rank p)) 0)
            (λ p. pull-Tries n a w (rank p)) priority_order)
          (found_as-Seeks n a stolen
            (λ s. for_each (λ p. steal_peers s.worker_count 0 w (rank p)) priority_order s)
            (λ s. (none, s)) (first_of (λ p. first_peer a n 0 w (rank p)) priority_order) none
            (steal_stage-Tries n a w) (λ s h. (refl, λ _. h))))

  first_some-none : (o p : Option T) → first_some o p ≡ none → (o ≡ none) × (p ≡ none)
  first_some-none (some x) p e = cc
  first_some-none none p e = (refl, e)

  first_of-none :
      (o : Priority → Option T) → first_of o priority_order ≡ none → (p : Priority) → o p ≡ none
  first_of-none o e high = (first_some-none (o high) _ e).0
  first_of-none o e normal = (first_some-none (o normal) _ (first_some-none (o high) _ e).1).0
  first_of-none o e background =
      (first_some-none (o background) none
        (first_some-none (o normal) _ (first_some-none (o high) _ e).1).1).0

  pop-none : (xs : List T) → (ListDeque.pop xs).0 ≡ none → xs ≡ []
  unfolding ListDeque.pop
  pop-none xs e = elim (last-cases xs) [
    | inl empty ↦ empty
    | inr (ys, x, some_x) ↦
        let found = sym (ap (λ p. p.0) (ap ListDeque.pop some_x ∙ ListDeque.pop-append ys x)) ∙ e in
        absurd (cc)
  ]

  get_elem?-none : (xs : List T) → get_elem? xs 0 ≡ none → xs ≡ []
  get_elem?-none [] e = refl
  get_elem?-none (x ∷ xs) e = cc

  first_peer-none :
      (a : Jobs T) (left peer w r : ℕ)
      → first_peer a left peer w r ≡ none
      → (v : ℕ) → peer ≤ v
      → v < peer + left
      → v ≢ w
      → a.in_deque v r ≡ []
  first_peer-none a zero peer w r e v lo hi ne = absurd (omega arith)
  first_peer-none a (suc left) peer w r e v lo hi ne =
      let (here, there) =
        first_some-none (if peer == w then none else get_elem? (a.in_deque peer r) 0)
          (first_peer a left (suc peer) w r) e in
      elim (ℕ_discrete peer v) [
        | yes same ↦
            get_elem?-none (a.in_deque v r)
              (subst (λ u. get_elem? (a.in_deque u r) 0 ≡ none) same (ground (arith, here)))
        | no other ↦ first_peer-none a left (suc peer) w r there v (omega arith) (omega arith) ne
      ]

  tag-none :
      (kind : FoundKind) (o : Option T) (p : Found T)
      → tag kind o p ≡ none
      → (o ≡ none) × (p ≡ none)
  tag-none kind (some x) p e = cc
  tag-none kind none p e = (refl, e)

  -- No job is left in any deque or injector.
  abbrev pub IsDrained : ℕ → Jobs T → Type 0
  IsDrained n a =
      (p : Priority)
      → (a.in_injector (rank p) ≡ []) × ((v : ℕ) → v < n → a.in_deque v (rank p) ≡ [])

  -- A worker that searches with no other interfering finds nothing only when every deque and every
  -- injector is empty.
  pub find_task-IsDrained :
      (n : ℕ) (a : Jobs T) (w : ℕ) (s : Shared T)
      → Holds s n a
      → (find_task w s).0 ≡ none
      → IsDrained n a
  find_task-IsDrained n a w s h e p =
      let (own, later) =
        tag-none local (first_of own_job priority_order) _
          (sym (find_task-wanted n a w s h).0 ∙ e) in
      let (pulled, last_stage) = tag-none local (first_of pulled_job priority_order) _ later in
      let (stolen_none, end) =
        tag-none stolen (first_of stolen_job priority_order) none last_stage in
      (
        get_elem?-none (a.in_injector (rank p)) (first_of-none pulled_job pulled p),
        λ v lt. elim (ℕ_discrete v w) [
          | yes mine ↦
              subst (λ u. a.in_deque u (rank p) ≡ []) (sym mine)
                (pop-none (a.in_deque w (rank p)) (first_of-none own_job own p))
          | no ne ↦
              first_peer-none a n 0 w (rank p) (first_of-none stolen_job stolen_none p) v
                (omega arith) (omega arith) ne
        ],
      )
    where
      own_job : Priority → Option T
      own_job q = (ListDeque.pop (a.in_deque w (rank q))).0

      pulled_job : Priority → Option T
      pulled_job q = get_elem? (a.in_injector (rank q)) 0

      stolen_job : Priority → Option T
      stolen_job q = first_peer a n 0 w (rank q)
