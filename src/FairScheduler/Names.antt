-- ===== src/FairScheduler/Names.antt =====
-- The table `name_to_id_` of the fair scheduler.
use thread_pool_runtime.Prelude.{
  ℕ, ◌≡◌, ◌≢◌, ◌⊎◌, refl, sym, ap, ap₂, ◌∙◌, true, List, [], ◌∷◌, arith, Bool-cases, inl, inr, none,
  some,
}
use thread_pool_runtime.FairScheduler.{Name, same_name, find}

pub same_name_refl : (name : Name) → same_name name name ≡ true
unfolding same_name
same_name_refl [] = refl
same_name_refl (x ∷ xs) = ground (arith, same_name_refl xs)

-- The test of equal names is right.
pub same_name_eq : (a b : Name) → same_name a b ≡ true → a ≡ b
unfolding same_name
same_name_eq [] [] e = refl
same_name_eq [] (y ∷ ys) e = cc
same_name_eq (x ∷ xs) [] e = cc
same_name_eq (x ∷ xs) (y ∷ ys) e = ap₂ ◌∷◌ (ground arith) (same_name_eq xs ys (ground arith))

-- What is found after an insertion was put in by it, or was there.
pub find-cons :
    (name key : Name) (id : ℕ) (r : List (Name × ℕ)) (j : ℕ)
    → find name ((key, id) ∷ r) ≡ some j
    → (j ≡ id) ⊎ (find name r ≡ some j)
unfolding find
find-cons name key id r j = ground arith

pub find-new : (name : Name) (id : ℕ) (r : List (Name × ℕ)) → find name ((name, id) ∷ r) ≡ some id
unfolding find
find-new name id r = rw (same_name_refl name) refl

-- An insertion under a new name hides no other.
pub find-old :
    (name key : Name) (id j : ℕ) (r : List (Name × ℕ))
    → find key r ≡ none
    → find name r ≡ some j
    → find name ((key, id) ∷ r) ≡ some j
unfolding find
find-old name key id j r new old = elim (Bool-cases (same_name name key)) [
  | inl e ↦
      let same : name ≡ key = same_name_eq name key e in
      absurd (none-≢-some (sym new ∙ ap (λ n. find n r) (sym same) ∙ old))
  | inr e ↦ rw e old
]
  where
    none-≢-some : none ≢ some j
    none-≢-some e = cc
