-- ===== src/Deque/Refine.antt =====
-- Each operation, run alone, does to the deque's items what the list deque does.
use thread_pool_runtime.Prelude.{
  suc, ◌+◌, ◌-◌, ◌≤◌, ◌<◌, ◌≡◌, refl, sym, ap, ap₂, ◌∙◌, subst, List, [], ◌∷◌, ◌++◌, Option, none,
  some, arith, length, length-append, inl, inr, last-cases,
}
use thread_pool_runtime.Deque.{Deque, load, make_room, store_slot, push, pop, steal}
use thread_pool_runtime.Deque.ListDeque
use thread_pool_runtime.Deque.Words.{add64}
use thread_pool_runtime.Deque.Contents.{Holds-last, Holds-front, Holds-tail, Holds-head}
use thread_pool_runtime.Deque.Represents.{
  max_index, Represents, make_room-Represents, store_slot-Represents, load-store_slot,
  publish-Represents, make_room-bottom,
}

module _ {ℓ} {A : Type ℓ} where
  -- Alone, `push` appends the item, growing the array when it is full.
  pub push_refines :
      (d : Deque A) (xs : List A) (item : A)
      → Represents d xs
      → d.bottom < max_index
      → Represents (push d item) (ListDeque.push xs item)
  unfolding push store_slot ListDeque.push
  push_refines d xs item v less =
      let (w, room) = make_room-Represents v d.top (omega arith) (omega arith) less in
      let (u, room') = store_slot-Represents w item room in
      subst
        (λ b. Represents (record (store_slot r b item) { bottom = add64 b 1 }) (xs ++ item ∷ []))
        (make_room-bottom d d.top)
        (publish-Represents (store_slot r r.bottom item) xs item u (load-store_slot r r.bottom item)
          room' (rw (make_room-bottom d d.top) less))
    where
      r : Deque A
      r = make_room d d.top

  pop_empty : (d : Deque A) → d.top ≡ d.bottom → d.bottom ≤ max_index → pop d ≡ (none, d)
  unfolding pop
  pop_empty d e small = ground arith

  pop_single :
      (d : Deque A)
      → d.top + 1 ≡ d.bottom
      → d.bottom ≤ max_index
      → pop d ≡ (load (d.heap d.buffer) d.top, record d { top = suc d.top })
  unfolding pop
  pop_single d e small = ground arith

  pop_many :
      (d : Deque A)
      → d.top + 1 < d.bottom
      → d.bottom ≤ max_index
      → pop d ≡ (load (d.heap d.buffer) (d.bottom - 1), record d { bottom = d.bottom - 1 })
  unfolding pop
  pop_many d e small = ground arith

  steal_empty : (d : Deque A) → d.top ≡ d.bottom → d.bottom ≤ max_index → steal d ≡ (none, d)
  unfolding steal
  steal_empty d e small = ground arith

  steal_first :
      (d : Deque A)
      → d.top < d.bottom
      → d.bottom ≤ max_index
      → steal d ≡ (load (d.heap d.buffer) d.top, record d { top = suc d.top })
  unfolding steal
  steal_first d lt small = ground arith

  -- Taking one item from either end of the array.
  pub drop_last-Represents :
      {d : Deque A} (xs : List A) (x : A)
      → Represents d (xs ++ x ∷ [])
      → Represents (record d { bottom = d.bottom - 1 }) xs
  drop_last-Represents {d} xs x v = record {
    exponent = exponent;
    shape = shape;
    capacity_small = capacity_small;
    size = omega (arith, length-append xs (x ∷ []));
    fits = omega (arith, length-append xs (x ∷ []));
    small = omega arith;
    owned = owned;
    items = Holds-front (d.heap d.buffer) d.top xs x items;
  }
    where
      open v use {exponent, shape, capacity_small, size, fits, small, owned, items}

  pub drop_first-Represents :
      {d : Deque A} {x : A} {xs : List A}
      → Represents d (x ∷ xs)
      → Represents (record d { top = suc d.top }) xs
  drop_first-Represents {d} {x} {xs} v = record {
    exponent = exponent;
    shape = shape;
    capacity_small = capacity_small;
    size = omega arith;
    fits = omega arith;
    small = small;
    owned = owned;
    items = Holds-tail (d.heap d.buffer) d.top x xs items;
  }
    where
      open v use {exponent, shape, capacity_small, size, fits, small, owned, items}

  abbrev Agrees : Option A × Deque A → Option A × List A → Type ℓ
  Agrees r s = (r.0 ≡ s.0) × Represents r.1 s.1

  pop_last :
      (d : Deque A) (ys : List A) (x : A)
      → Represents d (ys ++ x ∷ [])
      → Agrees (pop d) (some x, ys)
  pop_last d [] x v =
      rw (pop_single d (omega (arith, v.size)) v.small)
        (Holds-head (d.heap d.buffer) d.top x [] v.items, drop_first-Represents v)
  pop_last d (y ∷ ys) x v = rw (pop_many d (omega (arith, v.size, size)) v.small) (
    ap (load (d.heap d.buffer)) (omega (arith, v.size, size))
        ∙ Holds-last (d.heap d.buffer) d.top (y ∷ ys) x v.items,
    drop_last-Represents (y ∷ ys) x v,
  )
    where
      size : length (ys ++ x ∷ []) ≡ length ys + 1
      size = length-append ys (x ∷ [])

  pop_none :
      (d : Deque A) (xs : List A) → xs ≡ [] → Represents d xs → Agrees (pop d) (ListDeque.pop xs)
  unfolding ListDeque.pop
  pop_none d [] e v = rw (pop_empty d (omega (arith, v.size)) v.small) (refl, v)
  pop_none d (x ∷ xs) e v = cc

  -- Alone, `pop` takes the newest item, or finds none exactly when the list is empty.
  pub pop_refines :
      (d : Deque A) (xs : List A) → Represents d xs → Agrees (pop d) (ListDeque.pop xs)
  pop_refines d xs v = elim (last-cases xs) [
    | inl e ↦ pop_none d xs e v
    | inr (ys, x, e) ↦
        subst (λ zs. Agrees (pop d) (ListDeque.pop zs)) (sym e)
          (rw (ListDeque.pop-append ys x) (pop_last d ys x (subst (Represents d) e v)))
  ]

  -- Alone, `steal` takes the oldest item, or finds none exactly when the list is empty.
  pub steal_refines :
      (d : Deque A) (xs : List A) → Represents d xs → Agrees (steal d) (ListDeque.steal xs)
  unfolding ListDeque.steal
  steal_refines d [] v = rw (steal_empty d (omega (arith, v.size)) v.small) (refl, v)
  steal_refines d (x ∷ xs) v =
      rw (steal_first d (omega (arith, v.size)) v.small)
        (Holds-head (d.heap d.buffer) d.top x xs v.items, drop_first-Represents v)

-- What a client may call, one call at a time.
pub data Op {ℓ} (A : Type ℓ) : Type ℓ where
  pushes : A → Op A
  pops steals : Op A

module _ {ℓ} {A : Type ℓ} where
  abbrev pub apply : Deque A → Op A → Option A × Deque A
  apply d (pushes item) = (none, push d item)
  apply d pops = pop d
  apply d steals = steal d

  abbrev pub apply_list : List A → Op A → Option A × List A
  apply_list xs (pushes item) = (none, ListDeque.push xs item)
  apply_list xs pops = ListDeque.pop xs
  apply_list xs steals = ListDeque.steal xs

  unfoldable pub run : Deque A → List (Op A) → List (Option A)
  run d [] = []
  run d (op ∷ ops) = (apply d op).0 ∷ run (apply d op).1 ops

  unfoldable pub run_list : List A → List (Op A) → List (Option A)
  run_list xs [] = []
  run_list xs (op ∷ ops) = (apply_list xs op).0 ∷ run_list (apply_list xs op).1 ops

  apply_refines :
      (d : Deque A) (xs : List A) (op : Op A)
      → Represents d xs
      → d.bottom < max_index
      → Agrees (apply d op) (apply_list xs op)
  apply_refines d xs (pushes item) v less = (refl, push_refines d xs item v less)
  apply_refines d xs pops v less = pop_refines d xs v
  apply_refines d xs steals v less = steal_refines d xs v

  bottom-apply-le :
      (d : Deque A) (op : Op A)
      → d.top ≤ d.bottom
      → d.bottom < max_index
      → (apply d op).1.bottom ≤ suc d.bottom
  unfolding push pop steal store_slot
  bottom-apply-le d (pushes item) le less = omega arith
  bottom-apply-le d pops le less = ground arith
  bottom-apply-le d steals le less = ground arith

  -- One call at a time, no sequence of calls tells the deque from the list deque of its items.
  pub run_refines :
      (d : Deque A) (xs : List A) (ops : List (Op A))
      → Represents d xs
      → d.bottom + length ops ≤ max_index
      → run d ops ≡ run_list xs ops
  unfolding run run_list
  run_refines d xs [] v room = refl
  run_refines d xs (op ∷ ops) v room =
      let (same, w) = apply_refines d xs op v (omega arith) in
      ap₂ ◌∷◌ same (
        run_refines (apply d op).1 (apply_list xs op).1 ops w
          (omega (arith, bottom-apply-le d op (omega (arith, v.size)))))
