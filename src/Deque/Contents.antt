-- ===== src/Deque/Contents.antt =====
-- A buffer as the list of items that stand in it from an index on.
use thread_pool_runtime.Prelude.{
  ℕ, suc, ◌+◌, ◌^◌, ◌≤◌, ◌<◌, ◌≡◌, ◌∙◌, sym, ap, List, [], ◌∷◌, ◌++◌, Option, some, arith, inr,
  dec_lt, length, length-append, get_elem?, get_elem?-append, get_elem?-append_last,
}
use thread_pool_runtime.Deque.{Buffer, load, store, copy}
use thread_pool_runtime.Deque.Words.{word}
use thread_pool_runtime.Deque.Window.{IsBuffer, load-store_ne, load-copy}

-- The items `xs` stand at the indices from `t` on.
abbrev pub Holds {ℓ} : {A : Type ℓ} → Buffer A → ℕ → List A → Type ℓ
Holds buf t xs = (i : ℕ) → i < length xs → load buf (t + i) ≡ get_elem? xs i

module _ {ℓ} {A : Type ℓ} where
  pub Holds-last :
      (buf : Buffer A) (t : ℕ) (xs : List A) (x : A)
      → Holds buf t (xs ++ x ∷ [])
      → load buf (t + length xs) ≡ some x
  Holds-last buf t xs x h =
      h (length xs) (omega (arith, length-append xs (x ∷ []))) ∙ get_elem?-append_last xs x

  pub Holds-front :
      (buf : Buffer A) (t : ℕ) (xs : List A) (x : A) → Holds buf t (xs ++ x ∷ []) → Holds buf t xs
  Holds-front buf t xs x h i lt =
      h i (omega (arith, length-append xs (x ∷ []))) ∙ get_elem?-append xs (x ∷ []) i lt

  pub Holds-tail :
      (buf : Buffer A) (t : ℕ) (x : A) (xs : List A) → Holds buf t (x ∷ xs) → Holds buf (suc t) xs
  Holds-tail buf t x xs h i lt = ap (load buf) (omega arith) ∙ h (suc i) (omega arith)

  pub Holds-head :
      (buf : Buffer A) (t : ℕ) (x : A) (xs : List A) → Holds buf t (x ∷ xs) → load buf t ≡ some x
  Holds-head buf t x xs h = ap (load buf) (omega arith) ∙ h 0 (omega arith)

  -- A write past the items leaves them alone, while there is room.
  pub Holds-store :
      {k : ℕ} (buf : Buffer A) (t b : ℕ) (xs : List A) (p : Option A)
      → IsBuffer k buf
      → b ≡ t + length xs
      → length xs < 2 ^ k
      → Holds buf t xs
      → Holds (store buf b p) t xs
  Holds-store buf t b xs p v e room h i lt =
      load-store_ne b (t + i) p v (inr (omega arith)) ∙ h i lt

  -- The item behind the last one makes the list longer.
  pub Holds-snoc :
      (buf : Buffer A) (t : ℕ) (xs : List A) (x : A)
      → load buf (t + length xs) ≡ some x
      → Holds buf t xs
      → Holds buf t (xs ++ x ∷ [])
  Holds-snoc buf t xs x e h i lt = elim (dec_lt i (length xs)) [
    | yes old ↦ h i old ∙ sym (get_elem?-append xs (x ∷ []) i old)
    | no new ↦
        let last : i ≡ length xs = omega (arith, length-append xs (x ∷ [])) in
        ap (λ n. load buf (t + n)) last
        ∙ e
        ∙ sym (get_elem?-append_last xs x)
        ∙ ap (get_elem? (xs ++ x ∷ [])) (sym last)
  ]

  -- `grow`'s copy, started at or before `t`, holds the same items.
  pub Holds-copy :
      {k : ℕ} (rounds : ℕ) (old new : Buffer A) (s t b : ℕ) (xs : List A)
      → IsBuffer k new
      → s ≤ t
      → b < s + rounds
      → t + length xs ≡ b
      → b ≤ s + 2 ^ k
      → b < word
      → Holds old t xs
      → Holds (copy rounds old new s b) t xs
  Holds-copy rounds old new s t b xs v le e size room small h i lt =
      load-copy rounds old new s b (t + i) v (omega arith) (omega arith) e room small ∙ h i lt
