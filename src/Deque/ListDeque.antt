-- ===== src/Deque/ListDeque.antt =====
-- What a work-stealing deque promises: a list, oldest item first, with both ends open to takers.
use thread_pool_runtime.Prelude.{◌≡◌, refl, List, [], ◌∷◌, ◌++◌, Option, none, some}

module _ {ℓ} {A : Type ℓ} where
  unfoldable pub push : List A → A → List A
  push xs item = xs ++ item ∷ []

  pop_from : A → List A → Option A × List A
  pop_from x [] = (some x, [])
  pop_from x (y ∷ ys) = let (r, rest) = pop_from y ys in (r, x ∷ rest)

  -- The owner takes the newest item.
  unfoldable pub pop : List A → Option A × List A
  unfolding pop_from
  pop [] = (none, [])
  pop (x ∷ xs) = pop_from x xs

  -- A thief takes the oldest.
  unfoldable pub steal : List A → Option A × List A
  steal [] = (none, [])
  steal (x ∷ xs) = (some x, xs)

  pop_from-append : (x : A) (ys : List A) (y : A) → pop_from x (ys ++ y ∷ []) ≡ (some y, x ∷ ys)
  unfolding pop_from
  pop_from-append x [] y = refl
  pop_from-append x (z ∷ ys) y = rw (pop_from-append z ys y)

  pub pop-append : (ys : List A) (y : A) → pop (ys ++ y ∷ []) ≡ (some y, ys)
  unfolding pop
  pop-append [] y = refl
  pop-append (x ∷ ys) y = pop_from-append x ys y
