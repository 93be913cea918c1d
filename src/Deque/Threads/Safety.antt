-- ===== src/Deque/Threads/Safety.antt =====
-- Every interleaving of the owner and the thieves refines the list deque.
use thread_pool_runtime.Prelude.{◌<◌, refl, ap, ◌∙◌, List, arith, ℕ_discrete}
use thread_pool_runtime.Prelude.Family.{update_eq, update_ne}
use thread_pool_runtime.Deque.{Deque, load}
use thread_pool_runtime.Deque.Represents.{max_index, Represents}
use thread_pool_runtime.Deque.Threads.{
  Owner, Thief, Event, System, OwnerMove, push_top, push_room, push_store, push_bottom, pop_bottom,
  pop_above, pop_restore, pop_below, pop_null, pop_equal, pop_refill, pop_win, pop_win_null,
  pop_lose, ThiefMove, steal_top, steal_none, steal_some, steal_buffer, steal_slot, steal_win,
  steal_win_null, steal_lose, Step, owner_step, thief_step,
}
use thread_pool_runtime.Deque.Threads.Inv.{settled, OwnerOk, ThiefOk, Inv, Allowed}
use thread_pool_runtime.Deque.Threads.Evolve.{Evolves, Evolves-same, Evolves-ThiefOk, After}
use thread_pool_runtime.Deque.Threads.Pushing.{
  push_top-After, push_room-After, push_store-After, push_bottom-After,
}
use thread_pool_runtime.Deque.Threads.Popping.{
  pop_bottom-After, pop_above-After, pop_restore-After, pop_below-After, pop_null-absurd,
  pop_equal-After, pop_refill-After, pop_win-After, pop_win_null-absurd, pop_lose-After,
}
use thread_pool_runtime.Deque.Threads.Stealing.{
  saw_work_lem, front_slot, owned_buffer, steal_win-Stolen, steal_null-absurd,
}

module _ {A : Type 0} where
  OwnerMove-After :
      {d d' : Deque A} {o o' : Owner A} {e : Event A} (xs : List A)
      → OwnerMove d o e d' o'
      → Represents (settled o d) xs
      → OwnerOk d xs o
      → (settled o d).bottom < max_index
      → After xs d e d' o'
  OwnerMove-After {d} xs (push_top item) v ok less = push_top-After d xs item v less
  OwnerMove-After {d} xs (push_room {item} {t}) v ok less = push_room-After d xs item t v ok
  OwnerMove-After {d} xs (push_store {item}) v ok less = push_store-After d xs item v ok
  OwnerMove-After {d} xs (push_bottom {item}) v ok less = push_bottom-After d xs item v ok
  OwnerMove-After {d} xs pop_bottom v ok less = pop_bottom-After d xs v
  OwnerMove-After {d} xs (pop_above h) v ok less = pop_above-After d xs v ok h
  OwnerMove-After {d} xs pop_restore v ok less = pop_restore-After d xs v ok.1
  OwnerMove-After {d} xs (pop_below {item} h ne found) v ok less =
      pop_below-After d xs item v ok h ne found
  OwnerMove-After {d} xs (pop_null h ne found) v ok less =
      absurd (pop_null-absurd d xs v ok h found)
  OwnerMove-After {d} xs (pop_equal h e) v ok less = pop_equal-After d xs v ok e
  OwnerMove-After {d} xs (pop_refill {t} {ptr}) v ok less = pop_refill-After d xs t ptr v ok
  OwnerMove-After {d} xs (pop_win {t} {item} {ptr} e found) v ok less =
      pop_win-After d xs t item ptr v ok e found
  OwnerMove-After {d} xs (pop_win_null {t} {ptr} e found) v ok less =
      absurd (pop_win_null-absurd d xs t ptr v ok e found)
  OwnerMove-After {d} xs (pop_lose {t} {ptr} ne) v ok less = pop_lose-After d xs t ptr v ok ne

  -- What a step of a thief leads to.
  record AfterThief (xs : List A) (d : Deque A) (o : Owner A) (e : Event A) (d' : Deque A)
      (th : Thief A) : Type 0 where
    left : List A
    items : Represents (settled o d') left
    owner_ok : OwnerOk d' left o
    thief_ok : ThiefOk d' left th
    evolves : Evolves d xs d' left
    allowed : Allowed xs e left

  idle-AfterThief :
      {xs : List A} {d : Deque A} {o : Owner A} {e : Event A} {th : Thief A}
      → Represents (settled o d) xs
      → OwnerOk d xs o
      → ThiefOk d xs th
      → Allowed xs e xs
      → AfterThief xs d o e d th
  idle-AfterThief {xs} {d} v ok h allowed = record {
    left = xs;
    items = v;
    owner_ok = ok;
    thief_ok = h;
    evolves = Evolves-same d.bottom;
    allowed = allowed;
  }

  ThiefMove-After :
      {d d' : Deque A} {th th' : Thief A} {e : Event A} (xs : List A) (o : Owner A)
      → ThiefMove d th e d' th'
      → Represents (settled o d) xs
      → OwnerOk d xs o
      → ThiefOk d xs th
      → AfterThief xs d o e d' th'
  ThiefMove-After {d} xs o steal_top v ok h = idle-AfterThief v ok (omega arith) refl
  ThiefMove-After {d} xs o (steal_none full) v ok h = idle-AfterThief v ok tt refl
  ThiefMove-After {d} xs o (steal_some {t} work) v ok h =
      idle-AfterThief v ok (h, saw_work_lem d xs o t v ok work) refl
  ThiefMove-After {d} xs o (steal_buffer {t}) v ok (le, ne) =
      idle-AfterThief v ok
        (
          le,
          ne,
          owned_buffer d xs o v,
          λ e. ap (load (d.heap d.buffer)) e ∙ (front_slot d xs o v (ne e)).1,
        )
        refl
  ThiefMove-After {d} xs o steal_slot v ok (le, ne, lt, slot) =
      idle-AfterThief v ok (le, ne, slot) refl
  ThiefMove-After {d} xs o (steal_win {t} {item} {ptr} e found) v ok h =
      let w = steal_win-Stolen d xs o t item ptr v ok h e found in
      record {
        left = w.left;
        items = w.items;
        owner_ok = w.owner_ok;
        thief_ok = tt;
        evolves = w.evolves;
        allowed = w.allowed;
      }
  ThiefMove-After {d} xs o (steal_win_null {t} {ptr} e found) v ok h =
      absurd (steal_null-absurd d xs t ptr h e found)
  ThiefMove-After {d} xs o (steal_lose ne) v ok h = idle-AfterThief v ok tt refl

  -- In every interleaving, each step of the deque does to its items what the event says of the list
  -- deque: a push appends, the owner takes the newest item, a thief takes the oldest, `pop` fails
  -- only if the deque is empty, other steps change nothing, and a successful exchange never yields a
  -- null pointer. The invariant is kept, while fewer than 2^62 indices have been used.
  pub Step-refines :
      (s t : System A) (e : Event A) (xs : List A)
      → Step s e t
      → Inv s xs
      → (settled s.owner s.deque).bottom < max_index
      → (ys : List A) × Inv t ys × Allowed xs e ys
  Step-refines s t e xs (owner_step mv) v less =
      let a = OwnerMove-After xs mv v.items v.owner_ok less in
      (
        a.left,
        record {
          items = a.items;
          owner_ok = a.owner_ok;
          thief_ok = λ i. Evolves-ThiefOk (s.thief i) a.evolves (v.thief_ok i);
        },
        a.allowed,
      )
  Step-refines s t e xs (thief_step i {d = d} {th = th} mv) v less =
      let a = ThiefMove-After xs s.owner mv v.items v.owner_ok (v.thief_ok i) in
      (
        a.left,
        record {
          items = a.items;
          owner_ok = a.owner_ok;
          thief_ok = λ j. elim (ℕ_discrete i j) [
            | yes same ↦ rw (update_eq s.thief i j th same) a.thief_ok
            | no other ↦
                rw (update_ne s.thief i j th other)
                  (Evolves-ThiefOk (s.thief j) a.evolves (v.thief_ok j))
          ];
        },
        a.allowed,
      )
