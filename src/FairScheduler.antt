-- ===== src/FairScheduler.antt =====
-- src/fair_scheduler.cpp, include/wss/fair_scheduler.hpp: the state under `mu_` and each of its
-- critical sections, run to its end. A job is any value; its measured time is an argument.
pub mod Doubles
pub mod Whole
pub mod Ready
pub mod Names
pub mod Inv
pub mod Submit
pub mod Dispatch
pub mod Run
pub mod Backlog
pub mod Accept
pub mod Workers
mod Tests
use thread_pool_runtime.Prelude.{
  ℕ, zero, suc, ◌+◌, ◌%◌, Bool, true, false, not, if◌then◌else◌, ltb, ◌==◌, ◌&&◌, Option, none,
  some, List, [], ◌∷◌, ◌++◌,
}
use mathlib.Core.Option
use thread_pool_runtime.Prelude.Family.{update}
use thread_pool_runtime.Deque.Words.{word}
use Doubles.{Double, larger}

-- A `std::string` is the sequence of its bytes.
abbrev pub Name : Type 0
Name = List ℕ

-- `kDefaultClassName`, "default".
abbrev pub default_class_name : Name
default_class_name = 100 ∷ 101 ∷ 102 ∷ 97 ∷ 117 ∷ 108 ∷ 116 ∷ []

unfoldable pub same_name : Name → Name → Bool
same_name [] [] = true
same_name [] (y ∷ ys) = false
same_name (x ∷ xs) [] = false
same_name (x ∷ xs) (y ∷ ys) = (x == y) && same_name xs ys

unfoldable pub is_empty {ℓ} : {A : Type ℓ} → List A → Bool
is_empty [] = true
is_empty (x ∷ xs) = false

pub record ClassState (V T : Type 0) : Type 0 where
  pub name : Name
  pub weight : V
  pub vruntime : V
  pub runnable : List T
  pub has_entry : Bool
  pub completed : ℕ
  pub total_busy_seconds : V

-- `classes` is read and written below `class_count`, the length of the vector, only. `ready` is the
-- multimap in its order.
pub record FairState (V T : Type 0) : Type 0 where
  pub name_to_id : List (Name × ℕ)
  pub class_count : ℕ
  pub classes : ℕ → ClassState V T
  pub ready : List (V × ℕ)
  pub min_vruntime : V

pub record ClassSnapshot (V : Type 0) : Type 0 where
  pub name : Name
  pub weight : V
  pub vruntime : V
  pub completed : ℕ
  pub total_busy_seconds : V

-- What the first section of `worker_loop` finds; `undefined` is an access out of range.
pub data Dispatched (V T : Type 0) : Type 0 where
  nothing_ready : Dispatched V T
  undefined : Dispatched V T
  took : ℕ → T → FairState V T → Dispatched V T

-- `name_to_id_.find(name)`
unfoldable pub find : Name → List (Name × ℕ) → Option ℕ
find name [] = none
find name ((key, id) ∷ rest) =
    let later = find name rest in if same_name name key then some id else later

-- `classes_[id]`
abbrev pub class_of : {V T : Type 0} → FairState V T → ℕ → ClassState V T
class_of s id = s.classes id

module _ {V : Type 0} (F : Double V) where
  -- `ready_.insert({v, id})`: behind the entries whose key is not greater.
  unfoldable pub insert : V → ℕ → List (V × ℕ) → List (V × ℕ)
  insert v id [] = (v, id) ∷ []
  insert v id ((u, j) ∷ rest) =
      let later = insert v id rest in if F.lt v u then (v, id) ∷ (u, j) ∷ rest else (u, j) ∷ later

module _ {V : Type 0} (F : Double V) {T : Type 0} where
  abbrev pub new_class : Name → V → V → ClassState V T
  new_class name weight vruntime = record {
    name = name;
    weight = weight;
    vruntime = vruntime;
    runnable = [];
    has_entry = false;
    completed = 0;
    total_busy_seconds = F.double_0;
  }

  abbrev pub empty_state : FairState V T
  empty_state = record {
    name_to_id = [];
    class_count = 0;
    classes = λ _. new_class [] F.double_1 F.double_0;
    ready = [];
    min_vruntime = F.double_0;
  }

  -- The part of `find_or_create_class_locked` behind its guards.
  unfoldable pub create : Name → V → FairState V T → FairState V T
  create name weight s = record s {
    name_to_id = (name, s.class_count) ∷ s.name_to_id;
    class_count = suc s.class_count;
    classes = update s.classes s.class_count (new_class name weight s.min_vruntime);
  }

  -- `none` is `std::invalid_argument`.
  unfoldable pub find_or_create_class : Name → V → FairState V T → Option (ℕ × FairState V T)
  find_or_create_class name weight s = elim (find name s.name_to_id) [
    | some id ↦ some (id, s)
    | none ↦ if F.le weight F.double_0 then none else some (s.class_count, create name weight s)
  ]

  unfoldable pub register_class : Name → V → FairState V T → Option (FairState V T)
  register_class name weight s = elim (find name s.name_to_id) [
    | some id ↦ none
    | none ↦ Option.map (λ r. r.1) (find_or_create_class name weight s)
  ]

  -- The rest of the section of `submit`.
  unfoldable pub enqueue : ℕ → T → FairState V T → FairState V T
  enqueue id job s =
      let c = class_of s id in
      let v = larger F c.vruntime s.min_vruntime in
      if c.has_entry
      then record s {
        classes = update s.classes id (record c { runnable = c.runnable ++ job ∷ [] });
      }
      else record s {
        classes =
            update s.classes id
              (record c { runnable = c.runnable ++ job ∷ []; vruntime = v; has_entry = true });
        ready = insert F v id s.ready;
      }

  unfoldable pub submit : Name → V → T → FairState V T → Option (FairState V T)
  submit name weight job s =
      Option.map (λ r. enqueue r.0 job r.1)
        (find_or_create_class (if is_empty name then default_class_name else name)
          (if F.lt F.double_0 weight then weight else F.double_1) s)

  -- The entry is erased, and the class keeps the jobs `more`.
  unfoldable pub requeue : V → ℕ → List (V × ℕ) → List T → FairState V T → FairState V T
  requeue v id rest more s = record s {
    classes =
        update s.classes id
          (record c { runnable = more; has_entry = if is_empty more then false else c.has_entry });
    ready = if is_empty more then rest else insert F c.vruntime id rest;
    min_vruntime = larger F s.min_vruntime v;
  }
    where
      c : ClassState V T
      c = class_of s id

  -- `state.runnable.front()` and what follows.
  unfoldable pub serve : V → ℕ → List (V × ℕ) → List T → FairState V T → Dispatched V T
  serve v id rest [] s = undefined
  serve v id rest (job ∷ more) s = took id job (requeue v id rest more s)

  unfoldable pub dispatch_from : List (V × ℕ) → FairState V T → Dispatched V T
  dispatch_from [] s = nothing_ready
  dispatch_from ((v, id) ∷ rest) s =
      if ltb id s.class_count then serve v id rest (class_of s id).runnable s else undefined

  unfoldable pub dispatch : FairState V T → Dispatched V T
  dispatch s = dispatch_from s.ready s

  -- The second section of `worker_loop`, after the job has run.
  unfoldable pub account : ℕ → V → FairState V T → FairState V T
  account id elapsed s = record s {
    classes = update s.classes id (record c {
      vruntime = F.plus c.vruntime (F.over elapsed c.weight);
      completed = (c.completed + 1) % word;
      total_busy_seconds = F.plus c.total_busy_seconds elapsed;
    });
  }
    where
      c : ClassState V T
      c = class_of s id

  unfoldable pub snapshot_from : ℕ → ℕ → FairState V T → List (ClassSnapshot V)
  snapshot_from zero id s = []
  snapshot_from (suc left) id s =
      record {
        name = (class_of s id).name;
        weight = (class_of s id).weight;
        vruntime = (class_of s id).vruntime;
        completed = (class_of s id).completed;
        total_busy_seconds = (class_of s id).total_busy_seconds;
      }
      ∷ snapshot_from left (suc id) s

  unfoldable pub fairness_snapshot : FairState V T → List (ClassSnapshot V)
  fairness_snapshot s = snapshot_from s.class_count 0 s
