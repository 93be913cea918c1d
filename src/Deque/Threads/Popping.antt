-- ===== src/Deque/Threads/Popping.antt =====
-- The owner's steps through `pop`.
use thread_pool_runtime.Prelude.{
  ℕ, suc, ◌+◌, ◌<◌, ◌≡◌, ◌≢◌, refl, sym, ap, ◌∙◌, subst, true, false, ◌==◌, Option, none, some,
  List, [], ◌∷◌, ◌++◌, arith, length, length-append, inl, inr, last-cases,
}
use thread_pool_runtime.Deque.{Deque, load}
use thread_pool_runtime.Deque.ListDeque
use thread_pool_runtime.Deque.Words.{word, add64, sub64, slt}
use thread_pool_runtime.Deque.Contents.{Holds-last}
use thread_pool_runtime.Deque.Represents.{Represents}
use thread_pool_runtime.Deque.Refine.{drop_last-Represents, drop_first-Represents}
use thread_pool_runtime.Deque.Threads.{
  resting, popping, restoring, last, racing, silent, popped, popped_none,
}
use thread_pool_runtime.Deque.Threads.Inv.{OwnerOk}
use thread_pool_runtime.Deque.Threads.Evolve.{
  Evolves-same, Evolves-top, Evolves-items, After, front-append, nil_of_length, ne-nil_of_length,
}

module _ {A : Type 0} where
  -- `d` holds `xs` once `bottom_` is taken to be `b`.
  abbrev Up : Deque A → ℕ → List A → Type 0
  Up d b xs = Represents (record d { bottom = b }) xs

  pub pop_bottom-After :
      (d : Deque A) (xs : List A)
      → Represents d xs
      → After xs d silent (record d { bottom = sub64 d.bottom 1 }) popping
  pop_bottom-After d xs v = record {
    left = xs;
    items = subst (λ b. Up d b xs) (omega (arith, v.small)) v;
    owner_ok = omega arith;
    evolves = Evolves-same (sub64 d.bottom 1);
    allowed = refl;
  }

  pub pop_above-After :
      (d : Deque A) (xs : List A)
      → Up d (add64 d.bottom 1) xs
      → d.bottom < word
      → slt d.bottom d.top ≡ true
      → After xs d silent d restoring
  pop_above-After d xs v small above = record {
    left = xs;
    items = v;
    owner_ok = (small, nil_of_length xs (ground (arith, v.size, v.small)));
    evolves = Evolves-same d.bottom;
    allowed = refl;
  }

  pub pop_restore-After :
      (d : Deque A) (xs : List A)
      → Up d (add64 d.bottom 1) xs
      → xs ≡ []
      → After xs d popped_none (record d { bottom = add64 d.bottom 1 }) resting
  pop_restore-After d xs v e = record {
    left = xs;
    items = v;
    owner_ok = tt;
    evolves = Evolves-same (add64 d.bottom 1);
    allowed = (e, e);
  }

  -- With `t < b` there are at least two items, and the last stands at `b`.
  popped-After :
      (d : Deque A) (ys : List A) (x item : A)
      → Up d (add64 d.bottom 1) (ys ++ x ∷ [])
      → d.bottom < word
      → slt d.bottom d.top ≡ false
      → (d.top == d.bottom) ≡ false
      → load (d.heap d.buffer) d.bottom ≡ some item
      → After (ys ++ x ∷ []) d (popped item) d resting
  popped-After d ys x item v small above ne found = record {
    left = ys;
    items =
        subst (λ b. Up d b ys) (omega (arith, at_bottom, length-append ys (x ∷ [])))
          (drop_last-Represents ys x v);
    owner_ok = tt;
    evolves = Evolves-items d.bottom (λ _. two) (λ _. sym (front-append ys (x ∷ []) two));
    allowed = ListDeque.pop-append ys x ∙ ap (λ p. (p, ys)) same;
  }
    where
      at_bottom : d.bottom ≡ d.top + length ys
      at_bottom = omega (arith, length-append ys (x ∷ []), v.size)

      two : ys ≢ []
      two = ne-nil_of_length ys (ground (arith, at_bottom, v.small))

      same : some x ≡ some item
      same =
          sym (Holds-last (d.heap d.buffer) d.top ys x v.items)
          ∙ ap (load (d.heap d.buffer)) (sym at_bottom)
          ∙ found

  pub pop_below-After :
      (d : Deque A) (xs : List A) (item : A)
      → Up d (add64 d.bottom 1) xs
      → d.bottom < word
      → slt d.bottom d.top ≡ false
      → (d.top == d.bottom) ≡ false
      → load (d.heap d.buffer) d.bottom ≡ some item
      → After xs d (popped item) d resting
  pop_below-After d xs item v small above ne found = elim (last-cases xs) [
    | inl e ↦ absurd (ground (arith, v.size, v.small, ap length e))
    | inr (ys, x, e) ↦
        subst (λ zs. After zs d (popped item) d resting) (sym e)
          (popped-After d ys x item (subst (Up d (add64 d.bottom 1)) e v) small above ne found)
  ]

  -- The slot below `bottom_` of a deque with two items is not null.
  pub pop_null-absurd :
      (d : Deque A) (xs : List A)
      → Up d (add64 d.bottom 1) xs
      → d.bottom < word
      → slt d.bottom d.top ≡ false
      → load (d.heap d.buffer) d.bottom ≡ none
      → ⊥
  pop_null-absurd d xs v small above found = elim (last-cases xs) [
    | inl e ↦ ground (arith, v.size, v.small, ap length e)
    | inr (ys, x, e) ↦ filled ys x (subst (Up d (add64 d.bottom 1)) e v)
  ]
    where
      filled : (ys : List A) (x : A) → Up d (add64 d.bottom 1) (ys ++ x ∷ []) → ⊥
      filled ys x w =
          let at : d.bottom ≡ d.top + length ys =
            omega (arith, length-append ys (x ∷ []), w.size) in
          let full : none ≡ some x =
            sym found
            ∙ ap (load (d.heap d.buffer)) at
            ∙ Holds-last (d.heap d.buffer) d.top ys x w.items in
          cc

  pub pop_equal-After :
      (d : Deque A) (xs : List A)
      → Up d (add64 d.bottom 1) xs
      → d.bottom < word
      → (d.top == d.bottom) ≡ true
      → After xs d silent d (last d.top (load (d.heap d.buffer) d.bottom))
  pop_equal-After d xs v small e = record {
    left = xs;
    items = v;
    owner_ok = (
      ground arith,
      omega arith,
      ground arith,
      λ _. ap (load (d.heap d.buffer)) (ground arith) ∙ v.items 0 (ground (arith, v.size, v.small)),
    );
    evolves = Evolves-same d.bottom;
    allowed = refl;
  }

  pub pop_refill-After :
      (d : Deque A) (xs : List A) (t : ℕ) (ptr : Option A)
      → Up d (add64 d.bottom 1) xs
      → OwnerOk d xs (last t ptr)
      → After xs d silent (record d { bottom = add64 d.bottom 1 }) (racing t ptr)
  pop_refill-After d xs t ptr v (b, le, small, item) = record {
    left = xs;
    items = v;
    owner_ok = (omega (arith, v.size, v.small), le, item);
    evolves = Evolves-same (add64 d.bottom 1);
    allowed = refl;
  }

  pub pop_win-After :
      (d : Deque A) (xs : List A) (t : ℕ) (item : A) (ptr : Option A)
      → Represents d xs
      → OwnerOk d xs (racing t ptr)
      → d.top ≡ t
      → ptr ≡ some item
      → After xs d (popped item) (record d { top = add64 t 1 }) resting
  unfolding ListDeque.pop
  pop_win-After d [] t item ptr v (b, le, same) e found = absurd (omega (arith, v.size))
  pop_win-After d (x ∷ []) t item ptr v (b, le, same) e found = record {
    left = [];
    items = subst (λ n. Represents (record d { top = n }) []) moved (drop_first-Represents v);
    owner_ok = tt;
    evolves = Evolves-top (add64 t 1) (sym moved);
    allowed = ap (λ p. (p, [])) (sym (same (sym e)) ∙ found);
  }
    where
      moved : suc d.top ≡ add64 t 1
      moved = omega (arith, v.size, v.small)
  pop_win-After d (x ∷ y ∷ xs) t item ptr v (b, le, same) e found = absurd (omega (arith, v.size))

  -- The pointer behind a successful exchange is not null.
  pub pop_win_null-absurd :
      (d : Deque A) (xs : List A) (t : ℕ) (ptr : Option A)
      → Represents d xs
      → OwnerOk d xs (racing t ptr)
      → d.top ≡ t
      → ptr ≡ none
      → ⊥
  pop_win_null-absurd d [] t ptr v (b, le, same) e found = omega (arith, v.size)
  pop_win_null-absurd d (x ∷ xs) t ptr v (b, le, same) e found = ground (arith, same (sym e))

  pub pop_lose-After :
      (d : Deque A) (xs : List A) (t : ℕ) (ptr : Option A)
      → Represents d xs
      → OwnerOk d xs (racing t ptr)
      → d.top ≢ t
      → After xs d popped_none d resting
  pop_lose-After d xs t ptr v (b, le, item) ne =
      let empty : xs ≡ [] = nil_of_length xs (omega (arith, v.size)) in
      record {
        left = xs;
        items = v;
        owner_ok = tt;
        evolves = Evolves-same d.bottom;
        allowed = (empty, empty);
      }
