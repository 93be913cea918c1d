-- ===== src/Deque/Threads/Conserve.antt =====
-- Over a whole run: what was pushed, and who has it now.
use thread_pool_runtime.Prelude.{
  ℕ, suc, ◌+◌, ◌^◌, ◌≤◌, ◌≡◌, refl, sym, ap, ◌∙◌, Option, some, List, [], ◌∷◌, ◌++◌, append-nil,
  append_assoc, arith, length, inl, inr, last-cases,
}
use mathlib.Core.List.{Perm, perm_append_singleton, perm_middle}
use mathlib.Core.List.Perm
use mathlib.Core.Option.{some-injective}
use thread_pool_runtime.Deque.{Deque, store_slot, new_deque}
use thread_pool_runtime.Deque.ListDeque
use thread_pool_runtime.Deque.Represents.{
  max_index, Represents, make_room-bottom, new_deque-Represents,
}
use thread_pool_runtime.Deque.Threads.{
  Owner, resting, Thief, away, Event, silent, pushed, popped, stole, popped_none, missed,
  null_taken, System, OwnerMove, push_top, push_room, pop_bottom, pop_below, pop_null, ThiefMove,
  steal_win, Step, owner_step, thief_step, Run, start, later,
}
use thread_pool_runtime.Deque.Threads.Inv.{settled, OwnerOk, Inv, Allowed}
use thread_pool_runtime.Deque.Threads.Safety.{Step-refines}

module _ {A : Type 0} where
  bottom-OwnerMove-le :
      {d d' : Deque A} {o o' : Owner A} {e : Event A} (xs : List A)
      → OwnerMove d o e d' o'
      → Represents (settled o d) xs
      → OwnerOk d xs o
      → (settled o' d').bottom ≤ suc (settled o d).bottom
  unfolding store_slot
  bottom-OwnerMove-le xs (push_top item) v ok = omega arith
  bottom-OwnerMove-le {d} xs (push_room {item} {t}) v ok = omega (arith, make_room-bottom d t)
  bottom-OwnerMove-le xs pop_bottom v ok = omega (arith, v.small)
  bottom-OwnerMove-le xs (pop_below h ne found) v ok = ground (arith, v.size, v.small)
  bottom-OwnerMove-le xs (pop_null h ne found) v ok = ground (arith, v.size, v.small)
  bottom-OwnerMove-le xs mv v ok = omega arith

  bottom-keep :
      {d d' : Deque A} {th th' : Thief A} {e : Event A}
      → ThiefMove d th e d' th'
      → d'.bottom ≡ d.bottom
  bottom-keep (steal_win e found) = refl
  bottom-keep mv = refl

  bottom-ThiefMove :
      {d d' : Deque A} {th th' : Thief A} {e : Event A} (o : Owner A)
      → ThiefMove d th e d' th'
      → (settled o d').bottom ≡ (settled o d).bottom
  bottom-ThiefMove resting mv = omega (arith, bottom-keep mv)
  bottom-ThiefMove o mv = omega (arith, bottom-keep mv)

  -- The items that a run's events put in and take out.
  abbrev pub puts : List (Event A) → List A
  puts [] = []
  puts (pushed x ∷ es) = x ∷ puts es
  puts (e ∷ es) = puts es

  abbrev pub takes : List (Event A) → List A
  takes [] = []
  takes (popped x ∷ es) = x ∷ takes es
  takes (stole x ∷ es) = x ∷ takes es
  takes (e ∷ es) = takes es

  -- `xs` becomes `ys` by the events, each doing to the list what it may.
  abbrev pub Replays : List A → List (Event A) → List A → Type 0
  Replays xs [] ys = ys ≡ xs
  Replays xs (e ∷ es) ys = (zs : List A) × Replays xs es zs × Allowed zs e ys

  bottom-Step-le :
      (s t : System A) (e : Event A) (xs : List A)
      → Step s e t
      → Inv s xs
      → (settled t.owner t.deque).bottom ≤ suc (settled s.owner s.deque).bottom
  bottom-Step-le s t e xs (owner_step mv) v = bottom-OwnerMove-le xs mv v.items v.owner_ok
  bottom-Step-le s t e xs (thief_step i mv) v = omega (arith, bottom-ThiefMove s.owner mv)

  -- What a run of at most 2^62 steps leads to.
  record Reached (s : System A) (xs : List A) (es : List (Event A)) (t : System A) : Type 0 where
    left : List A
    inv : Inv t left
    replays : Replays xs es left
    bound : (settled t.owner t.deque).bottom ≤ (settled s.owner s.deque).bottom + length es

  Run-Reached :
      {s t : System A} {es : List (Event A)} (xs : List A)
      → Inv s xs
      → Run s es t
      → (settled s.owner s.deque).bottom + length es ≤ max_index
      → Reached s xs es t
  Run-Reached xs v start room = record { left = xs; inv = v; replays = refl; bound = omega arith }
  Run-Reached xs v (later {t = t} {u = u} {e = e} r step) room =
      let a = Run-Reached xs v r (omega arith) in
      let (ys, w, ok) = Step-refines t u e a.left step a.inv (omega (arith, a.bound)) in
      record {
        left = ys;
        inv = w;
        replays = (a.left, a.replays, ok);
        bound = omega (arith, a.bound, bottom-Step-le t u e a.left step a.inv);
      }

  pop-nil : (zs : List A) {ys : List A} {x : A} → zs ≡ [] → ListDeque.pop zs ≡ (some x, ys) → ⊥
  unfolding ListDeque.pop
  pop-nil [] f e = cc (ap (λ p. p.0) e)
  pop-nil (z ∷ zs) f e = cc

  pop-perm : (zs ys : List A) (x : A) → ListDeque.pop zs ≡ (some x, ys) → Perm zs (x ∷ ys)
  unfolding ListDeque.pop
  pop-perm zs ys x e = elim (last-cases zs) [
    | inl empty ↦ absurd (pop-nil zs empty e)
    | inr (ws, w, f) ↦
        let same : ◌≡◌ {A = Option A × List A} (some w, ws) (some x, ys) =
          sym (ListDeque.pop-append ws w) ∙ ap ListDeque.pop (sym f) ∙ e in
        let item : w ≡ x = some-injective w x (ap (λ p. p.0) same) in
        let rest : ws ≡ ys = ap (λ p. p.1) same in
        rw (f, ← item, ← rest) (perm_append_singleton w ws)
  ]

  steal-perm : (zs ys : List A) (x : A) → ListDeque.steal zs ≡ (some x, ys) → Perm zs (x ∷ ys)
  unfolding ListDeque.steal
  steal-perm [] ys x e = absurd (cc (ap (λ p. p.0) e))
  steal-perm (z ∷ zs) ys x e =
      let item : z ≡ x = some-injective z x (ap (λ p. p.0) e) in
      let rest : zs ≡ ys = ap (λ p. p.1) e in rw (← item, ← rest) (Perm.refl (z ∷ zs))

  Replays-perm :
      (xs : List A) (es : List (Event A)) (ys : List A)
      → Replays xs es ys
      → Perm (xs ++ puts es) (takes es ++ ys)
  unfolding ListDeque.push
  Replays-perm xs [] ys e = rw (e, append-nil) (Perm.refl xs)
  Replays-perm xs (pushed x ∷ es) ys (zs, r, e) = Perm.trans (perm_middle xs (puts es)) (
      Perm.trans (Perm.cons x (Replays-perm xs es zs r))
        (Perm.symm (rw (e, ← append_assoc) (perm_append_singleton x (takes es ++ zs)))))
  Replays-perm xs (popped x ∷ es) ys (zs, r, e) =
      Perm.trans (Replays-perm xs es zs r)
        (Perm.trans (Perm.append_left (takes es) (pop-perm zs ys x e)) (perm_middle (takes es) ys))
  Replays-perm xs (stole x ∷ es) ys (zs, r, e) =
      Perm.trans (Replays-perm xs es zs r) (
        Perm.trans (Perm.append_left (takes es) (steal-perm zs ys x e)) (perm_middle (takes es) ys))
  Replays-perm xs (silent ∷ es) ys (zs, r, e) = rw e (Replays-perm xs es zs r)
  Replays-perm xs (popped_none ∷ es) ys (zs, r, (e, f)) = rw (f, ← e) (Replays-perm xs es zs r)
  Replays-perm xs (missed ∷ es) ys (zs, r, e) = rw e (Replays-perm xs es zs r)
  Replays-perm xs (null_taken ∷ es) ys (zs, r, e) = absurd e

  -- A deque made with `2^k` slots, its owner and its thieves all at rest.
  abbrev pub initial : ℕ → System A
  initial k = record { deque = new_deque (2 ^ k); owner = resting; thief = λ _. away }

  pub initial-Inv : (k : ℕ) → 2 ^ k ≤ max_index → Inv (initial k) []
  initial-Inv k small = record {
    items = new_deque-Represents k small;
    owner_ok = tt;
    thief_ok = λ i. tt;
  }

  -- No interleaving of the owner and the thieves loses an item or hands one out twice: after at most
  -- 2^62 steps from a new deque, what was pushed is what was popped or stolen, with what is still in
  -- the deque, each as often.
  pub run_conserves :
      (k : ℕ) (t : System A) (es : List (Event A))
      → 2 ^ k ≤ max_index
      → Run (initial k) es t
      → length es ≤ max_index
      → (left : List A) × Inv t left × Perm (puts es) (takes es ++ left)
  unfolding new_deque
  run_conserves k t es small r room =
      let a = Run-Reached [] (initial-Inv k small) r (omega arith) in
      (a.left, a.inv, Replays-perm [] es a.left a.replays)
