-- ===== src/Deque/Threads.antt =====
-- include/wss/chase_lev_deque.hpp with its owner and any number of thieves, a shared access at a
-- time, under sequential consistency. Only the owner writes `bottom_`, `buffer_` and the slots, so
-- its own reads of these take no step of their own.
pub mod Inv
pub mod Evolve
pub mod Pushing
pub mod Popping
pub mod Stealing
pub mod Safety
pub mod Conserve
mod Tests
use thread_pool_runtime.Prelude.{
  ℕ, ◌≡◌, ◌≢◌, Bool, true, false, ◌==◌, Option, none, some, List, [], ◌∷◌,
}
use thread_pool_runtime.Prelude.Family.{update}
use thread_pool_runtime.Deque.{Deque, load, make_room, store_slot}
use thread_pool_runtime.Deque.Words.{add64, sub64, slt}

-- Where the owner stands in `push` or `pop`, with the locals that are live there.
pub data Owner (A : Type 0) : Type 0 where
  resting : Owner A
  growing : A → ℕ → Owner A  -- `push` has read `top_`
  storing : A → Owner A  -- before the store of the slot
  publishing : A → Owner A  -- before `bottom_.store(b + 1)` of `push`
  popping : Owner A  -- `pop` has stored `bottom_ - 1`
  restoring : Owner A  -- `t > b`, before `bottom_.store(b + 1)`
  last : ℕ → Option A → Owner A  -- `t == b`, before `bottom_.store(b + 1)`
  racing : ℕ → Option A → Owner A  -- before the exchange of `pop`

-- Where a thief stands in `steal`.
pub data Thief (A : Type 0) : Type 0 where
  away : Thief A
  saw_top : ℕ → Thief A
  saw_work : ℕ → Thief A  -- `t < b`
  has_buffer : ℕ → ℕ → Thief A
  has_item : ℕ → Option A → Thief A  -- before the exchange of `steal`

-- What a step completes. A null pointer behind a successful exchange would be an item lost.
pub data Event (A : Type 0) : Type 0 where
  silent : Event A
  pushed popped stole : A → Event A
  popped_none missed null_taken : Event A

-- A step of the owner on the shared deque.
pub data OwnerMove {A : Type 0} (d : Deque A) : Owner A → Event A → Deque A → Owner A → Type 0 where
  push_top : (item : A) → OwnerMove d resting silent d (growing item d.top)
  push_room :
      {item : A} {t : ℕ} → OwnerMove d (growing item t) silent (make_room d t) (storing item)
  push_store :
      {item : A} → OwnerMove d (storing item) silent (store_slot d d.bottom item) (publishing item)
  push_bottom :
      {item : A}
      → OwnerMove d (publishing item) (pushed item) (record d { bottom = add64 d.bottom 1 }) resting
  pop_bottom : OwnerMove d resting silent (record d { bottom = sub64 d.bottom 1 }) popping
  pop_above : slt d.bottom d.top ≡ true → OwnerMove d popping silent d restoring
  pop_restore : OwnerMove d restoring popped_none (record d { bottom = add64 d.bottom 1 }) resting
  pop_below :
      {item : A}
      → slt d.bottom d.top ≡ false
      → (d.top == d.bottom) ≡ false
      → load (d.heap d.buffer) d.bottom ≡ some item
      → OwnerMove d popping (popped item) d resting
  pop_null :
      slt d.bottom d.top ≡ false
      → (d.top == d.bottom) ≡ false
      → load (d.heap d.buffer) d.bottom ≡ none
      → OwnerMove d popping null_taken d resting
  pop_equal :
      slt d.bottom d.top ≡ false
      → (d.top == d.bottom) ≡ true
      → OwnerMove d popping silent d (last d.top (load (d.heap d.buffer) d.bottom))
  pop_refill :
      {t : ℕ} {ptr : Option A}
      → OwnerMove d (last t ptr) silent (record d { bottom = add64 d.bottom 1 }) (racing t ptr)
  pop_win :
      {t : ℕ} {item : A} {ptr : Option A}
      → d.top ≡ t
      → ptr ≡ some item
      → OwnerMove d (racing t ptr) (popped item) (record d { top = add64 t 1 }) resting
  pop_win_null :
      {t : ℕ} {ptr : Option A}
      → d.top ≡ t
      → ptr ≡ none
      → OwnerMove d (racing t ptr) null_taken (record d { top = add64 t 1 }) resting
  pop_lose : {t : ℕ} {ptr : Option A} → d.top ≢ t → OwnerMove d (racing t ptr) popped_none d resting

-- A step of one thief.
pub data ThiefMove {A : Type 0} (d : Deque A) : Thief A → Event A → Deque A → Thief A → Type 0 where
  steal_top : ThiefMove d away silent d (saw_top d.top)
  steal_none : {t : ℕ} → slt t d.bottom ≡ false → ThiefMove d (saw_top t) missed d away
  steal_some : {t : ℕ} → slt t d.bottom ≡ true → ThiefMove d (saw_top t) silent d (saw_work t)
  steal_buffer : {t : ℕ} → ThiefMove d (saw_work t) silent d (has_buffer t d.buffer)
  steal_slot : {t p : ℕ} → ThiefMove d (has_buffer t p) silent d (has_item t (load (d.heap p) t))
  steal_win :
      {t : ℕ} {item : A} {ptr : Option A}
      → d.top ≡ t
      → ptr ≡ some item
      → ThiefMove d (has_item t ptr) (stole item) (record d { top = add64 t 1 }) away
  steal_win_null :
      {t : ℕ} {ptr : Option A}
      → d.top ≡ t
      → ptr ≡ none
      → ThiefMove d (has_item t ptr) null_taken (record d { top = add64 t 1 }) away
  steal_lose : {t : ℕ} {ptr : Option A} → d.top ≢ t → ThiefMove d (has_item t ptr) missed d away

pub record System (A : Type 0) : Type 0 where
  pub deque : Deque A
  pub owner : Owner A
  pub thief : ℕ → Thief A

-- The scheduler lets any thread take its next step.
pub data Step {A : Type 0} (s : System A) : Event A → System A → Type 0 where
  owner_step :
      {e : Event A} {d : Deque A} {o : Owner A}
      → OwnerMove s.deque s.owner e d o
      → Step s e (record s { deque = d; owner = o })
  thief_step :
      (i : ℕ) {e : Event A} {d : Deque A} {th : Thief A}
      → ThiefMove s.deque (s.thief i) e d th
      → Step s e (record s { deque = d; thief = update s.thief i th })

-- The steps of a run, oldest last.
pub data Run {A : Type 0} (s : System A) : List (Event A) → System A → Type 0 where
  start : Run s [] s
  later :
      {es : List (Event A)} {t u : System A} {e : Event A}
      → Run s es t
      → Step t e u
      → Run s (e ∷ es) u
