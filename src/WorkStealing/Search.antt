-- ===== src/WorkStealing/Search.antt =====
-- What each stage of `find_task` finds, in terms of the lists that the deques and the injectors hold.
use thread_pool_runtime.Prelude.{
  ℕ, zero, suc, ◌≡◌, ◌≢◌, ◌==◌, refl, sym, ap, subst, ◌∙◌, List, [], ◌∷◌, get_elem?, last-cases,
  Bool-cases, inl, inr, Option, none, some, if◌then◌else◌, ℕ_discrete,
}
use thread_pool_runtime.Prelude.Family.{update, update_eq, update_ne}
use thread_pool_runtime.Deque
use thread_pool_runtime.Deque.{Deque}
use thread_pool_runtime.Deque.ListDeque
use thread_pool_runtime.Deque.Represents.{Represents}
use thread_pool_runtime.Deque.Refine.{steal_refines}
use thread_pool_runtime.Priority.{Priority}
use thread_pool_runtime.Injector.{pop_batch_into}
use thread_pool_runtime.WorkStealing.{Shared, at_deque, pull, or_else, for_each, steal_peers}

-- The jobs of each deque and each injector, oldest first.
pub record Jobs (T : Type 0) : Type 0 where
  pub in_deque : ℕ → ℕ → List T
  pub in_injector : ℕ → List T

pub record Holds {T : Type 0} (s : Shared T) (n : ℕ) (a : Jobs T) : Type 0 where
  pub deques : (w r : ℕ) → Represents (s.local_deques w r) (a.in_deque w r)
  pub injected : (r : ℕ) → s.injectors r ≡ a.in_injector r
  pub count : s.worker_count ≡ n

-- The first of two that is there.
abbrev pub first_some {ℓ} : {A : Type ℓ} → Option A → Option A → Option A
first_some (some x) o = some x
first_some none o = o

module _ {T : Type 0} where
  -- A stage that yields `o`, and leaves the jobs where they are if it finds none.
  abbrev pub Tries : ℕ → Jobs T → (Shared T → Option T × Shared T) → Option T → Type 0
  Tries n a f o = (s : Shared T) → Holds s n a → ((f s).0 ≡ o) × (o ≡ none → Holds (f s).1 n a)

  same_deque :
      (s : Shared T) (n : ℕ) (a : Jobs T) (w r : ℕ) (d : Deque T)
      → Holds s n a
      → Represents d (a.in_deque w r)
      → Holds
          (record s { local_deques = update s.local_deques w (update (s.local_deques w) r d) })
          n
          a
  same_deque s n a w r d h v = record {
    deques = λ x y. elim (ℕ_discrete w x) [
      | yes e ↦ rw (update_eq s.local_deques w x (update (s.local_deques w) r d) e) (row x y e)
      | no ne ↦ rw (update_ne s.local_deques w x (update (s.local_deques w) r d) ne) (h.deques x y)
    ];
    injected = h.injected;
    count = h.count;
  }
    where
      row : (x y : ℕ) → w ≡ x → Represents (update (s.local_deques w) r d y) (a.in_deque x y)
      row x y e = elim (ℕ_discrete r y) [
        | yes e' ↦ rw (update_eq (s.local_deques w) r y d e', sym e, sym e') v
        | no ne ↦ rw (update_ne (s.local_deques w) r y d ne, sym e) (h.deques w y)
      ]

  pub at_deque-Tries :
      (f : Deque T → Option T × Deque T) (g : List T → Option T × List T)
      → ((d : Deque T) (xs : List T)
          → Represents d xs
          → ((f d).0 ≡ (g xs).0) × Represents (f d).1 (g xs).1)
      → ((xs : List T) → (g xs).0 ≡ none → (g xs).1 ≡ xs)
      → (n : ℕ) (a : Jobs T) (w r : ℕ) → Tries n a (at_deque f w r) (g (a.in_deque w r)).0
  unfolding at_deque
  at_deque-Tries f g agrees unmoved n a w r s h =
      let (same, rep) = agrees (s.local_deques w r) (a.in_deque w r) (h.deques w r) in
      (
        same,
        λ e.
            same_deque s n a w r (f (s.local_deques w r)).1 h
              (subst (Represents (f (s.local_deques w r)).1) (unmoved (a.in_deque w r) e) rep),
      )

  pub pop_unmoved : (xs : List T) → (ListDeque.pop xs).0 ≡ none → (ListDeque.pop xs).1 ≡ xs
  unfolding ListDeque.pop
  pop_unmoved xs e = elim (last-cases xs) [
    | inl empty ↦ rw empty refl
    | inr (ys, x, some_x) ↦ absurd (
        some-≢-none x
          (sym (ap (λ p. p.0) (ap ListDeque.pop some_x ∙ ListDeque.pop-append ys x)) ∙ e))
  ]
    where
      some-≢-none : (x : T) → some x ≢ none
      some-≢-none x e = cc

  steal_unmoved : (xs : List T) → (ListDeque.steal xs).0 ≡ none → (ListDeque.steal xs).1 ≡ xs
  unfolding ListDeque.steal
  steal_unmoved [] e = refl
  steal_unmoved (x ∷ xs) e = cc

  pull-some :
      (w r : ℕ) (s : Shared T) (job : T) (rest : List T)
      → s.injectors r ≡ job ∷ rest
      → (pull w r s).0 ≡ some job
  unfolding pull pop_batch_into
  pull-some w r s job rest e = rw (pull, e) refl

  pull-none :
      (n : ℕ) (a : Jobs T) (w r : ℕ) (s : Shared T)
      → Holds s n a
      → s.injectors r ≡ []
      → ((pull w r s).0 ≡ none) × Holds (pull w r s).1 n a
  unfolding pull pop_batch_into
  pull-none n a w r s h e =
      rw (pull, e)
        (
          refl,
          let moved = same_deque s n a w r (s.local_deques w r) h (h.deques w r) in
              record {
                deques = moved.deques;
                injected = λ q. elim (ℕ_discrete r q) [
                  | yes same ↦ rw (update_eq s.injectors r q [] same, sym e, same) (h.injected q)
                  | no ne ↦ rw (update_ne s.injectors r q [] ne) (h.injected q)
                ];
                count = h.count;
              },
        )

  pub pull-Tries :
      (n : ℕ) (a : Jobs T) (w r : ℕ) → Tries n a (pull w r) (get_elem? (a.in_injector r) 0)
  pull-Tries n a w r s h = from (a.in_injector r) (h.injected r)
    where
      from :
          (q : List T)
          → s.injectors r ≡ q
          → ((pull w r s).0 ≡ get_elem? q 0) × (get_elem? q 0 ≡ none → Holds (pull w r s).1 n a)
      from [] e = let (same, after) = pull-none n a w r s h e in (same, λ _. after)
      from (job ∷ rest) e = (pull-some w r s job rest e, λ bad. absurd (cc))

  or_else-found :
      (r : Option T × Shared T) (g : Shared T → Option T × Shared T) (x : T)
      → r.0 ≡ some x
      → (or_else r g).0 ≡ some x
  unfolding or_else
  or_else-found (some y, s) g x e = e
  or_else-found (none, s) g x e = cc

  or_else-none :
      (r : Option T × Shared T) (g : Shared T → Option T × Shared T)
      → r.0 ≡ none
      → or_else r g ≡ g r.1
  unfolding or_else
  or_else-none (some y, s) g e = cc
  or_else-none (none, s) g e = refl

  or_else-Tries :
      (n : ℕ) (a : Jobs T) (f g : Shared T → Option T × Shared T) (o p : Option T)
      → Tries n a f o
      → Tries n a g p
      → Tries n a (λ s. or_else (f s) g) (first_some o p)
  or_else-Tries n a f g (some x) p tf tg s h =
      (or_else-found (f s) g x (tf s h).0, λ bad. absurd (cc))
  or_else-Tries n a f g none p tf tg s h =
      rw (or_else-none (f s) g (tf s h).0) (tg (f s).1 ((tf s h).1 refl))

  -- The first job that the priorities, in this order, have under `o`.
  abbrev pub first_of : (Priority → Option T) → List Priority → Option T
  first_of o [] = none
  first_of o (p ∷ ps) = first_some (o p) (first_of o ps)

  pub for_each-Tries :
      (n : ℕ) (a : Jobs T) (f : Priority → Shared T → Option T × Shared T) (o : Priority → Option T)
      → ((p : Priority) → Tries n a (f p) (o p))
      → (ps : List Priority) → Tries n a (for_each f ps) (first_of o ps)
  unfolding for_each
  for_each-Tries n a f o t [] s h = (refl, λ _. h)
  for_each-Tries n a f o t (p ∷ ps) s h =
      or_else-Tries n a (f p) (for_each f ps) (o p) (first_of o ps) (t p)
        (for_each-Tries n a f o t ps) s h

  -- The oldest job of the first peer of `w` that has one, among the `left` workers from `peer` on.
  abbrev pub first_peer : Jobs T → ℕ → ℕ → ℕ → ℕ → Option T
  first_peer a zero peer w r = none
  first_peer a (suc left) peer w r =
      first_some (if peer == w then none else get_elem? (a.in_deque peer r) 0)
        (first_peer a left (suc peer) w r)

  pub steal_peers-Tries :
      (n : ℕ) (a : Jobs T) (left peer w r : ℕ)
      → Tries n a (steal_peers left peer w r) (first_peer a left peer w r)
  unfolding steal_peers ListDeque.steal
  steal_peers-Tries n a zero peer w r s h = (refl, λ _. h)
  steal_peers-Tries n a (suc left) peer w r s h = elim (Bool-cases (peer == w)) [
    | inl same ↦ rw same (steal_peers-Tries n a left (suc peer) w r s h)
    | inr other ↦ rw other (
        or_else-Tries n a (at_deque Deque.steal peer r) (steal_peers left (suc peer) w r)
          (get_elem? (a.in_deque peer r) 0) (first_peer a left (suc peer) w r)
          (λ s h.
            rw (sym (steal-get (a.in_deque peer r))) (
              at_deque-Tries Deque.steal ListDeque.steal steal_refines steal_unmoved n a peer r s
                h))
          (steal_peers-Tries n a left (suc peer) w r) s h)
  ]
    where
      steal-get : (xs : List T) → (ListDeque.steal xs).0 ≡ get_elem? xs 0
      steal-get [] = refl
      steal-get (x ∷ xs) = refl
