-- ===== src/Deque/Threads/Stealing.antt =====
-- The thieves' steps through `steal`, and what they leave of the owner's facts.
use thread_pool_runtime.Prelude.{
  ℕ, suc, ◌<◌, ◌≡◌, ◌≢◌, refl, sym, ap, ◌∙◌, subst, true, Option, none, some, List, [], ◌∷◌, arith,
}
use thread_pool_runtime.Deque.{Deque, load}
use thread_pool_runtime.Deque.ListDeque
use thread_pool_runtime.Deque.Words.{add64, slt}
use thread_pool_runtime.Deque.Represents.{Represents}
use thread_pool_runtime.Deque.Refine.{drop_first-Represents}
use thread_pool_runtime.Deque.Threads.{
  Owner, resting, growing, storing, publishing, popping, restoring, last, racing, has_item, stole,
}
use thread_pool_runtime.Deque.Threads.Inv.{front, settled, OwnerOk, ThiefOk, Allowed}
use thread_pool_runtime.Deque.Threads.Evolve.{
  Evolves, Evolves-top, length_of_ne-nil, ne-nil_of_length,
}

module _ {A : Type 0} where
  -- A thief that sees `t < b` with `top_` still at `t` sees an item, also while the owner pops.
  pub saw_work_lem :
      (d : Deque A) (xs : List A) (o : Owner A) (t : ℕ)
      → Represents (settled o d) xs
      → OwnerOk d xs o
      → slt t d.bottom ≡ true
      → t ≡ d.top
      → xs ≢ []
  saw_work_lem d xs resting t v ok h e = ne-nil_of_length xs (ground (arith, v.size, v.small))
  saw_work_lem d xs _ t v ok h e = ne-nil_of_length xs (ground (arith, v.size, v.small))

  -- The current buffer holds the oldest item at `top_`.
  pub front_slot :
      (d : Deque A) (xs : List A) (o : Owner A)
      → Represents (settled o d) xs
      → xs ≢ []
      → (d.buffer < d.retired) × (load (d.heap d.buffer) d.top ≡ front xs)
  front_slot d xs resting v ne =
      (v.owned, ap (load (d.heap d.buffer)) (omega arith) ∙ v.items 0 (length_of_ne-nil xs ne))
  front_slot d xs _ v ne =
      (v.owned, ap (load (d.heap d.buffer)) (omega arith) ∙ v.items 0 (length_of_ne-nil xs ne))

  pub owned_buffer :
      (d : Deque A) (xs : List A) (o : Owner A) → Represents (settled o d) xs → d.buffer < d.retired
  owned_buffer d xs resting v = v.owned
  owned_buffer d xs _ v = v.owned

  stolen-Represents :
      (d : Deque A) (x : A) (xs : List A) (o : Owner A) (t : ℕ)
      → t ≡ suc d.top
      → Represents (settled o d) (x ∷ xs)
      → Represents (settled o (record d { top = t })) xs
  stolen-Represents d x xs resting t e v =
      subst (λ n. Represents (record d { top = n }) xs) (sym e) (drop_first-Represents v)
  stolen-Represents d x xs (growing i n) t e v =
      subst (λ n. Represents (record d { top = n }) xs) (sym e) (drop_first-Represents v)
  stolen-Represents d x xs (storing i) t e v =
      subst (λ n. Represents (record d { top = n }) xs) (sym e) (drop_first-Represents v)
  stolen-Represents d x xs (publishing i) t e v =
      subst (λ n. Represents (record d { top = n }) xs) (sym e) (drop_first-Represents v)
  stolen-Represents d x xs (racing n p) t e v =
      subst (λ n. Represents (record d { top = n }) xs) (sym e) (drop_first-Represents v)
  stolen-Represents d x xs _ t e v =
      subst (λ n. Represents (record d { top = n; bottom = add64 d.bottom 1 }) xs) (sym e)
        (drop_first-Represents v)

  stolen-OwnerOk :
      (d : Deque A) (x : A) (xs : List A) (o : Owner A) (t : ℕ)
      → t ≡ suc d.top
      → OwnerOk d (x ∷ xs) o
      → OwnerOk (record d { top = t }) xs o
  stolen-OwnerOk d x xs resting t e ok = tt
  stolen-OwnerOk d x xs (growing i n) t e (less, le, near) = (less, omega arith, near)
  stolen-OwnerOk d x xs (storing i) t e (less, room) = (less, omega arith)
  stolen-OwnerOk d x xs (publishing i) t e (less, room, stored) = (less, omega arith, stored)
  stolen-OwnerOk d x xs popping t e small = small
  stolen-OwnerOk d x xs restoring t e (small, empty) = cc
  stolen-OwnerOk d x xs (last n p) t e (b, le, small, item) =
      (b, omega arith, small, λ h. absurd (omega arith))
  stolen-OwnerOk d x xs (racing n p) t e (b, le, item) = (b, omega arith, λ h. absurd (omega arith))

  top-small :
      (d : Deque A) (xs : List A) (o : Owner A)
      → Represents (settled o d) xs
      → add64 d.top 1 ≡ suc d.top
  top-small d xs resting v = omega (arith, v.size, v.small)
  top-small d xs _ v = omega (arith, v.size, v.small)

  -- What a successful exchange of a thief leads to, for the deque and for the owner.
  pub record Stolen (d : Deque A) (xs : List A) (o : Owner A) (item : A) (t : ℕ) : Type 0 where
    pub left : List A
    pub items : Represents (settled o (record d { top = add64 t 1 })) left
    pub owner_ok : OwnerOk (record d { top = add64 t 1 }) left o
    pub evolves : Evolves d xs (record d { top = add64 t 1 }) left
    pub allowed : Allowed xs (stole item) left

  pub steal_win-Stolen :
      (d : Deque A) (xs : List A) (o : Owner A) (t : ℕ) (item : A) (ptr : Option A)
      → Represents (settled o d) xs
      → OwnerOk d xs o
      → ThiefOk d xs (has_item t ptr)
      → d.top ≡ t
      → ptr ≡ some item
      → Stolen d xs o item t
  unfolding ListDeque.steal
  steal_win-Stolen d [] o t item ptr v ok (le, ne, same) e found = absurd (ne (sym e) refl)
  steal_win-Stolen d (x ∷ xs) o t item ptr v ok (le, ne, same) e found = record {
    left = xs;
    items = stolen-Represents d x xs o (add64 t 1) moved v;
    owner_ok = stolen-OwnerOk d x xs o (add64 t 1) moved ok;
    evolves = Evolves-top (add64 t 1) moved;
    allowed = ap (λ p. (p, xs)) (sym (same (sym e)) ∙ found);
  }
    where
      moved : add64 t 1 ≡ suc d.top
      moved = ap (λ n. add64 n 1) (sym e) ∙ top-small d (x ∷ xs) o v

  -- The pointer behind a thief's successful exchange is not null.
  pub steal_null-absurd :
      (d : Deque A) (xs : List A) (t : ℕ) (ptr : Option A)
      → ThiefOk d xs (has_item t ptr)
      → d.top ≡ t
      → ptr ≡ none
      → ⊥
  steal_null-absurd d [] t ptr (le, ne, same) e found = ne (sym e) refl
  steal_null-absurd d (x ∷ xs) t ptr (le, ne, same) e found = ground (arith, same (sym e))
