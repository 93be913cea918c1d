-- ===== src/FairScheduler/Ready.antt =====
-- The multimap `ready_` of the fair scheduler: its order, and how many entries a class has.
use thread_pool_runtime.Prelude.{
  ℕ, ◌+◌, ◌≡◌, ◌≢◌, ◌<◌, refl, subst, if◌then◌else◌, ◌==◌, List, [], ◌∷◌, arith, Bool-cases, inl,
  inr,
}
use thread_pool_runtime.FairScheduler.{ClassState, insert}
use thread_pool_runtime.FairScheduler.Doubles.{Double, IsOrdered, AtMost}

-- The number of entries of class `j`.
abbrev pub entries : {V : Type 0} → ℕ → List (V × ℕ) → ℕ
entries j [] = 0
entries j ((v, id) ∷ rest) = (if j == id then 1 else 0) + entries j rest

-- The keys of class `j`, in the order of the entries.
abbrev pub keys : {V : Type 0} → ℕ → List (V × ℕ) → List V
keys j [] = []
keys j ((v, id) ∷ rest) = if j == id then v ∷ keys j rest else keys j rest

pub keys-none : {V : Type 0} (j : ℕ) (r : List (V × ℕ)) → entries j r ≡ 0 → keys j r ≡ []
keys-none j [] e = refl
keys-none j ((v, id) ∷ r) e = elim (Bool-cases (j == id)) [
  | inl here ↦ absurd (ground arith)
  | inr there ↦ rw there (keys-none j r (ground arith))
]

-- No key is below `v`.
abbrev pub Least : {V : Type 0} → Double V → V → List (V × ℕ) → Type 0
Least F v [] = Unit
Least F v ((u, id) ∷ rest) = AtMost F v u × Least F v rest

abbrev pub IsSorted : {V : Type 0} → Double V → List (V × ℕ) → Type 0
IsSorted F [] = Unit
IsSorted F ((v, id) ∷ rest) = Least F v rest × IsSorted F rest

-- No key is above the virtual run time of its class.
abbrev pub Behind : {V T : Type 0} → Double V → (ℕ → ClassState V T) → List (V × ℕ) → Type 0
Behind F classes [] = Unit
Behind F classes ((v, id) ∷ rest) = AtMost F v (classes id).vruntime × Behind F classes rest

module _ {V : Type 0} (F : Double V) where
  pub entries-insert :
      (v : V) (id j : ℕ) (r : List (V × ℕ))
      → entries j (insert F v id r) ≡ (if j == id then 1 else 0) + entries j r
  unfolding insert
  entries-insert v id j [] = refl
  entries-insert v id j ((u, k) ∷ r) = ground (arith, entries-insert v id j r)

  -- An insertion touches the keys of its class only.
  pub keys-insert_other :
      (v : V) (id j : ℕ) (r : List (V × ℕ)) → j ≢ id → keys j (insert F v id r) ≡ keys j r
  unfolding insert
  keys-insert_other v id j [] ne = ground arith
  keys-insert_other v id j ((u, k) ∷ r) ne = ground (arith, keys-insert_other v id j r ne)

  pub keys-insert :
      (v : V) (id : ℕ) (r : List (V × ℕ)) → entries id r ≡ 0 → keys id (insert F v id r) ≡ v ∷ []
  unfolding insert
  keys-insert v id [] e = ground arith
  keys-insert v id ((u, k) ∷ r) e = ground (arith, keys-insert v id r, keys-none id r)

  pub Least-insert :
      (w v : V) (id : ℕ) (r : List (V × ℕ))
      → AtMost F w v
      → Least F w r
      → Least F w (insert F v id r)
  unfolding insert
  Least-insert w v id [] p l = (p, tt)
  Least-insert w v id ((u, k) ∷ r) p (q, l) = elim (Bool-cases (F.lt v u)) [
    | inl e ↦ rw e (p, (q, l))
    | inr e ↦ rw e (q, Least-insert w v id r p l)
  ]

  pub Behind-insert :
      {T : Type 0} (classes : ℕ → ClassState V T) (v : V) (id : ℕ) (r : List (V × ℕ))
      → AtMost F v (classes id).vruntime
      → Behind F classes r
      → Behind F classes (insert F v id r)
  unfolding insert
  Behind-insert classes v id [] p l = (p, tt)
  Behind-insert classes v id ((u, k) ∷ r) p (q, l) = elim (Bool-cases (F.lt v u)) [
    | inl e ↦ rw e (p, (q, l))
    | inr e ↦ rw e (q, Behind-insert classes v id r p l)
  ]

module _ {V : Type 0} {F : Double V} (L : IsOrdered F) where
  pub Least-lower : (w v : V) (r : List (V × ℕ)) → AtMost F w v → Least F v r → Least F w r
  Least-lower w v [] p l = tt
  Least-lower w v ((u, k) ∷ r) p (q, l) = (L.at_most_trans w v u p q, Least-lower w v r p l)

  pub IsSorted-insert :
      (v : V) (id : ℕ) (r : List (V × ℕ)) → IsSorted F r → IsSorted F (insert F v id r)
  unfolding insert
  IsSorted-insert v id [] s = (tt, tt)
  IsSorted-insert v id ((u, k) ∷ r) (l, s) = elim (Bool-cases (F.lt v u)) [
    | inl e ↦ rw e ((L.lt_asym v u e, Least-lower v u r (L.lt_asym v u e) l), (l, s))
    | inr e ↦ rw e (Least-insert F u v id r e l, IsSorted-insert v id r s)
  ]

  -- The virtual run times of classes with entries only grow.
  pub Behind-grow :
      {T : Type 0} (c d : ℕ → ClassState V T) (r : List (V × ℕ))
      → ((id : ℕ) → 0 < entries id r → AtMost F (c id).vruntime (d id).vruntime)
      → Behind F c r
      → Behind F d r
  Behind-grow c d [] g b = tt
  Behind-grow c d ((v, id) ∷ r) g (p, b) = (
    L.at_most_trans v (c id).vruntime (d id).vruntime p (g id (ground arith)),
    Behind-grow c d r (λ j h. g j (omega arith)) b,
  )

  -- A class with an entry has run at least as long as the least key.
  pub Least-entry :
      {T : Type 0} (c : ℕ → ClassState V T) (w : V) (j : ℕ) (r : List (V × ℕ))
      → Least F w r
      → Behind F c r
      → 0 < entries j r
      → AtMost F w (c j).vruntime
  Least-entry c w j [] l b h = absurd (omega arith)
  Least-entry c w j ((u, id) ∷ r) (q, l) (p, b) h = elim (Bool-cases (j == id)) [
    | inl e ↦
        L.at_most_trans w u (c j).vruntime q
          (subst (λ i. AtMost F u (c i).vruntime) (ground arith) p)
    | inr e ↦ Least-entry c w j r l b (ground arith)
  ]
