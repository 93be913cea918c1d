-- ===== src/Deque/Threads/Evolve.antt =====
-- What a step of one thread leaves of the facts that the thieves rest on.
use thread_pool_runtime.Prelude.{
  ℕ, suc, ◌≤◌, ◌<◌, ◌≡◌, ◌≢◌, refl, sym, ap, ◌∙◌, List, [], ◌∷◌, ◌++◌, arith, length,
}
use thread_pool_runtime.Deque.{Deque, load}
use thread_pool_runtime.Deque.Represents.{Represents}
use thread_pool_runtime.Deque.Threads.{
  Owner, Thief, away, saw_top, saw_work, has_buffer, has_item, Event,
}
use thread_pool_runtime.Deque.Threads.Inv.{front, settled, OwnerOk, ThiefOk, Allowed}

module _ {A : Type 0} where
  -- The oldest item, and its slot in every buffer so far, stay until `top_` moves.
  pub record Evolves (d : Deque A) (xs : List A) (d' : Deque A) (ys : List A) : Type 0 where
    pub top_le : d.top ≤ d'.top
    pub retired_le : d.retired ≤ d'.retired
    pub kept : d.top ≡ d'.top → xs ≢ [] → ys ≢ []
    pub same_front : d.top ≡ d'.top → xs ≢ [] → front ys ≡ front xs
    pub same_slot :
        d.top ≡ d'.top
        → xs ≢ []
        → (p : ℕ) → p < d.retired
        → load (d'.heap p) d.top ≡ load (d.heap p) d.top

  pub Evolves-ThiefOk :
      {d d' : Deque A} {xs ys : List A} (th : Thief A)
      → Evolves d xs d' ys
      → ThiefOk d xs th
      → ThiefOk d' ys th
  Evolves-ThiefOk away v h = tt
  Evolves-ThiefOk (saw_top t) v h = omega arith
  Evolves-ThiefOk (saw_work t) v (le, ne) =
      (omega arith, λ e. v.kept (omega arith) (ne (omega arith)))
  Evolves-ThiefOk {d} {d'} (has_buffer t p) v (le, ne, lt, slot) = (
    omega arith,
    λ e. v.kept (omega arith) (ne (omega arith)),
    omega arith,
    λ e.
        let here : t ≡ d.top = omega arith in
        ap (load (d'.heap p)) here
        ∙ v.same_slot (omega arith) (ne here) p lt
        ∙ ap (load (d.heap p)) (sym here)
        ∙ slot here
        ∙ sym (v.same_front (omega arith) (ne here)),
  )
  Evolves-ThiefOk {d} (has_item t ptr) v (le, ne, item) = (
    omega arith,
    λ e. v.kept (omega arith) (ne (omega arith)),
    λ e.
        let here : t ≡ d.top = omega arith in
        item here ∙ sym (v.same_front (omega arith) (ne here)),
  )

  -- A step that changes `bottom_` alone, or nothing.
  pub Evolves-same : {d : Deque A} {xs : List A} (b : ℕ) → Evolves d xs (record d { bottom = b }) xs
  Evolves-same b = record {
    top_le = omega arith;
    retired_le = omega arith;
    kept = λ e ne. ne;
    same_front = λ e ne. refl;
    same_slot = λ e ne p lt. refl;
  }

  -- A step that moves `top_` on.
  pub Evolves-top :
      {d : Deque A} {xs ys : List A} (t : ℕ)
      → t ≡ suc d.top
      → Evolves d xs (record d { top = t }) ys
  Evolves-top t e = record {
    top_le = omega arith;
    retired_le = omega arith;
    kept = λ same ne. absurd (omega arith);
    same_front = λ same ne. absurd (omega arith);
    same_slot = λ same ne p lt. absurd (omega arith);
  }

  -- A step at which the items grow or shrink at their end.
  pub Evolves-items :
      {d : Deque A} {xs ys : List A} (b : ℕ)
      → (xs ≢ [] → ys ≢ [])
      → (xs ≢ [] → front ys ≡ front xs)
      → Evolves d xs (record d { bottom = b }) ys
  Evolves-items b kept same = record {
    top_le = omega arith;
    retired_le = omega arith;
    kept = λ e ne. kept ne;
    same_front = λ e ne. same ne;
    same_slot = λ e ne p lt. refl;
  }

  -- What a step of the owner leads to.
  pub record After (xs : List A) (d : Deque A) (e : Event A) (d' : Deque A) (o : Owner A)
      : Type 0 where
    pub left : List A
    pub items : Represents (settled o d') left
    pub owner_ok : OwnerOk d' left o
    pub evolves : Evolves d xs d' left
    pub allowed : Allowed xs e left

  pub front-append : (xs ys : List A) → xs ≢ [] → front (xs ++ ys) ≡ front xs
  front-append [] ys ne = absurd (ne refl)
  front-append (x ∷ xs) ys ne = refl

  pub append-ne-nil : (xs ys : List A) → xs ≢ [] → xs ++ ys ≢ []
  append-ne-nil [] ys ne e = absurd (ne refl)
  append-ne-nil (x ∷ xs) ys ne e = cc

  pub ne-nil_of_length : (xs : List A) → 0 < length xs → xs ≢ []
  ne-nil_of_length [] h e = absurd (omega arith)
  ne-nil_of_length (x ∷ xs) h e = cc

  pub length_of_ne-nil : (xs : List A) → xs ≢ [] → 0 < length xs
  length_of_ne-nil [] ne = absurd (ne refl)
  length_of_ne-nil (x ∷ xs) ne = omega arith

  pub nil_of_length : (xs : List A) → length xs ≡ 0 → xs ≡ []
  nil_of_length [] h = refl
  nil_of_length (x ∷ xs) h = absurd (omega arith)
