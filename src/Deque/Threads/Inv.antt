-- ===== src/Deque/Threads/Inv.antt =====
-- What ties the shared deque, the owner and the thieves to the list of items in the deque.
use thread_pool_runtime.Prelude.{
  ℕ, ◌+◌, ◌≤◌, ◌<◌, ◌≡◌, ◌≢◌, Option, some, List, [], length, get_elem?,
}
use thread_pool_runtime.Deque.{Deque, load}
use thread_pool_runtime.Deque.ListDeque
use thread_pool_runtime.Deque.Words.{word, add64}
use thread_pool_runtime.Deque.Represents.{max_index, Represents}
use thread_pool_runtime.Deque.Threads.{
  Owner, resting, growing, storing, publishing, popping, restoring, last, racing, Thief, away,
  saw_top, saw_work, has_buffer, has_item, Event, silent, pushed, popped, stole, popped_none,
  missed, null_taken, System,
}

module _ {A : Type 0} where
  abbrev pub front : List A → Option A
  front xs = get_elem? xs 0

  -- `pop` takes `bottom_` down before it knows that it may: until it decides, the item is still in.
  abbrev pub settled : Owner A → Deque A → Deque A
  settled popping d = record d { bottom = add64 d.bottom 1 }
  settled restoring d = record d { bottom = add64 d.bottom 1 }
  settled (last _ _) d = record d { bottom = add64 d.bottom 1 }
  settled _ d = d

  abbrev pub OwnerOk : Deque A → List A → Owner A → Type 0
  OwnerOk d xs resting = Unit
  OwnerOk d xs (growing item t) =
      (d.bottom < max_index) × (t ≤ d.top) × (d.bottom ≤ t + (d.heap d.buffer).capacity)
  OwnerOk d xs (storing item) = (d.bottom < max_index) × (length xs < (d.heap d.buffer).capacity)
  OwnerOk d xs (publishing item) =
      (d.bottom < max_index)
      × (length xs < (d.heap d.buffer).capacity)
      × (load (d.heap d.buffer) d.bottom ≡ some item)
  OwnerOk d xs popping = d.bottom < word
  OwnerOk d xs restoring = (d.bottom < word) × (xs ≡ [])
  OwnerOk d xs (last t ptr) =
      (d.bottom ≡ t) × (t ≤ d.top) × (t < word) × (t ≡ d.top → ptr ≡ front xs)
  OwnerOk d xs (racing t ptr) = (d.bottom ≡ t + 1) × (t ≤ d.top) × (t ≡ d.top → ptr ≡ front xs)

  abbrev pub ThiefOk : Deque A → List A → Thief A → Type 0
  ThiefOk d xs away = Unit
  ThiefOk d xs (saw_top t) = t ≤ d.top
  ThiefOk d xs (saw_work t) = (t ≤ d.top) × (t ≡ d.top → xs ≢ [])
  ThiefOk d xs (has_buffer t p) =
      (t ≤ d.top)
      × (t ≡ d.top → xs ≢ [])
      × (p < d.retired)
      × (t ≡ d.top → load (d.heap p) t ≡ front xs)
  ThiefOk d xs (has_item t ptr) = (t ≤ d.top) × (t ≡ d.top → xs ≢ []) × (t ≡ d.top → ptr ≡ front xs)

  pub record Inv (s : System A) (xs : List A) : Type 0 where
    pub items : Represents (settled s.owner s.deque) xs
    pub owner_ok : OwnerOk s.deque xs s.owner
    pub thief_ok : (i : ℕ) → ThiefOk s.deque xs (s.thief i)

  -- What an event does to the list of items. A null pointer is never taken.
  abbrev pub Allowed : List A → Event A → List A → Type 0
  Allowed xs silent ys = ys ≡ xs
  Allowed xs (pushed item) ys = ys ≡ ListDeque.push xs item
  Allowed xs (popped item) ys = ListDeque.pop xs ≡ (some item, ys)
  Allowed xs (stole item) ys = ListDeque.steal xs ≡ (some item, ys)
  Allowed xs popped_none ys = (xs ≡ []) × (ys ≡ [])
  Allowed xs missed ys = ys ≡ xs
  Allowed xs null_taken ys = ⊥
