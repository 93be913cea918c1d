-- ===== src/FairScheduler/Workers/Drain.antt =====
-- `shutdown` of the fair scheduler drains every class.
use thread_pool_runtime.Prelude.{
  ℕ, ◌<◌, ◌≡◌, refl, sym, ap, ◌∙◌, Bool, true, false, ◌++◌, arith, true-≢-false,
}
use mathlib.Core.List.{reverse}
use thread_pool_runtime.Prelude.Family.{update}
use thread_pool_runtime.Deque.Words.{word}
use thread_pool_runtime.FairScheduler.Backlog.{backlog-empty}
use thread_pool_runtime.FairScheduler.Doubles.{Double, IsOrdered}
use thread_pool_runtime.FairScheduler.Workers.{
  Order, Worker, outside, looking, running, counted, ringing, timing, checking, flagged,
  going_to_wait, sleeping, exited, Client, away, recorded, holding, pushed, calling, Closer,
  open_for_work, stored, shouting, notified, joined, Pool, WorkerMove, snapshots, takes,
  finds_nothing, finishes, rings, wakes_all, accounts, sees_open, sees_flag, breaks, sees_pending,
  waits_not, sleeps, ClientMove, records, counts, pushes, advances, calls, CloserMove, stores,
  shouts, notifies, joins, by_worker, by_client, by_closer, registers, Run, start, later, initial,
}
use thread_pool_runtime.FairScheduler.Workers.ClassOrder.{accepted_in, started_in, class_order}
use thread_pool_runtime.FairScheduler.Workers.Count.{Count, busy_some, run_sound}

-- The worker has seen the flag.
abbrev pub knows : {T : Type 0} → Worker T → Bool
knows (flagged g) = true
knows exited = true
knows w = false

-- It has left.
abbrev pub is_gone : {T : Type 0} → Worker T → Bool
is_gone exited = true
is_gone w = false

pub is_gone-exited : {T : Type 0} (w : Worker T) → is_gone w ≡ true → w ≡ exited
is_gone-exited exited e = refl
is_gone-exited w e = ground arith

module _ {V : Type 0} {F : Double V} {T : Type 0} where
  -- Once the flag of `shutdown` is set, no call of `submit` increments `pending_`: calls that have done
  -- so before may still be under way.
  abbrev pub Timely : {n m : ℕ} {s : Pool V T} {k : ℕ} {t : Pool V T} → Run F n m s k t → Type 0
  Timely start = Unit
  Timely (later r (by_worker i lt mv)) = Timely r
  Timely (later {t = t} r (by_client c lt mv)) =
      Timely r × ((o : Order V T) → t.client c ≡ recorded o → t.shutdown_flag ≡ false)
  Timely (later r (by_closer mv)) = Timely r
  Timely (later r (registers name weight f e)) = Timely r

module _ {V T : Type 0} where
  -- A worker that has left saw the flag, and nothing pending.
  pub record IsDrained (n : ℕ) (s : Pool V T) : Type 0 where
    pub all : s.closer ≡ joined → (i : ℕ) → i < n → is_gone (s.worker i) ≡ true
    pub flag : (i : ℕ) → knows (s.worker i) ≡ true → s.shutdown_flag ≡ true
    pub pending : (i : ℕ) → is_gone (s.worker i) ≡ true → s.pending ≡ 0

  -- A step in which no worker leaves.
  stay-IsDrained :
      {n : ℕ} {s : Pool V T} (t : Pool V T)
      → IsDrained n s
      → ((j : ℕ) → is_gone (t.worker j) ≡ is_gone (s.worker j))
      → ((j : ℕ) → knows (t.worker j) ≡ true → s.shutdown_flag ≡ true)
      → (t.closer ≡ joined → s.closer ≡ joined)
      → (s.shutdown_flag ≡ true → t.shutdown_flag ≡ true)
      → ((j : ℕ) → is_gone (s.worker j) ≡ true → s.pending ≡ 0 → t.pending ≡ 0)
      → IsDrained n t
  stay-IsDrained t d same told closer flag pending = record {
    all = λ c j lt. same j ∙ d.all (closer c) j lt;
    flag = λ j x. flag (told j x);
    pending = λ j x. pending j (sym (same j) ∙ x) (d.pending j (sym (same j) ∙ x));
  }

  -- Worker `i` goes on to `u`, and neither place is the end.
  moves-IsDrained :
      {n : ℕ} {s : Pool V T} (t : Pool V T) (i : ℕ) (u : Worker T)
      → IsDrained n s
      → is_gone (s.worker i) ≡ false
      → is_gone u ≡ false
      → (knows u ≡ true → s.shutdown_flag ≡ true)
      → t.worker ≡ update s.worker i u
      → t.closer ≡ s.closer
      → t.shutdown_flag ≡ s.shutdown_flag
      → (s.pending ≡ 0 → t.pending ≡ 0)
      → IsDrained n t
  moves-IsDrained {s = s} t i u d from into told worker closer flag pending =
      stay-IsDrained t d (λ j. ground (arith, at j)) (λ j x. ground (arith, at j, d.flag j))
        (λ c. sym closer ∙ c) (λ f. flag ∙ f) (λ j x. pending)
    where
      at : (j : ℕ) → t.worker j ≡ update s.worker i u j
      at j = ap (λ f. f j) worker

  CloserMove-IsDrained :
      (x : Closer) {n : ℕ} {s t : Pool V T} → CloserMove n s x t → IsDrained n s → IsDrained n t
  CloserMove-IsDrained open_for_work {t = t} stores d =
      stay-IsDrained t d (λ j. refl) d.flag (λ c. absurd (cc)) (λ f. refl) (λ j x z. z)
  CloserMove-IsDrained stored {t = t} shouts d =
      stay-IsDrained t d (λ j. refl) d.flag (λ c. absurd (cc)) (λ f. f) (λ j x z. z)
  CloserMove-IsDrained shouting {t = t} notifies d =
      stay-IsDrained t d (λ j. ground arith) (λ j x. ground (arith, d.flag j)) (λ c. absurd (cc))
        (λ f. f) (λ j x z. z)
  CloserMove-IsDrained notified (joins every) d = record {
    all = λ c j lt. ap is_gone (every j lt);
    flag = d.flag;
    pending = d.pending;
  }
  CloserMove-IsDrained joined mv d = elim mv [ ]

module _ {V : Type 0} {F : Double V} {T : Type 0} where
  WorkerMove-IsDrained :
      (w : Worker T) {n m k i : ℕ} {s t : Pool V T}
      → i < n
      → s.worker i ≡ w
      → WorkerMove F s i w t
      → Count n m k s
      → IsDrained n s
      → IsDrained n t
  WorkerMove-IsDrained outside {i = i} {s = s} {t = t} lt at snapshots v d =
      moves-IsDrained t i (looking s.gen) d (ap is_gone at) refl (λ x. absurd (cc)) refl refl refl
        (λ z. z)
  WorkerMove-IsDrained (looking g) {i = i} {t = t} lt at (takes id job f e) v d =
      moves-IsDrained t i (running id job) d (ap is_gone at) refl (λ x. absurd (cc)) refl refl refl
        (λ z. z)
  WorkerMove-IsDrained (looking g) {i = i} {t = t} lt at (finds_nothing e) v d =
      moves-IsDrained t i (checking g) d (ap is_gone at) refl (λ x. absurd (cc)) refl refl refl
        (λ z. z)
  WorkerMove-IsDrained (running id job) {n = n} {i = i} {s = s} {t = t} lt at finishes v d =
      moves-IsDrained t i (counted id) d (ap is_gone at) refl (λ x. absurd (cc)) refl refl refl
        (λ z. absurd (omega (arith, v.exact, busy_some n i s lt at)))
  WorkerMove-IsDrained (counted id) {i = i} {t = t} lt at rings v d =
      moves-IsDrained t i (ringing id) d (ap is_gone at) refl (λ x. absurd (cc)) refl refl refl
        (λ z. z)
  WorkerMove-IsDrained (ringing id) {i = i} {s = s} {t = t} lt at wakes_all v d =
      stay-IsDrained t d (λ j. ground (arith, at)) (λ j x. ground (arith, d.flag j)) (λ c. c)
        (λ f. f) (λ j x z. z)
  WorkerMove-IsDrained (timing id) {i = i} {t = t} lt at (accounts elapsed pos) v d =
      moves-IsDrained t i outside d (ap is_gone at) refl (λ x. absurd (cc)) refl refl refl (λ z. z)
  WorkerMove-IsDrained (checking g) {i = i} {t = t} lt at (sees_open e) v d =
      moves-IsDrained t i (going_to_wait g) d (ap is_gone at) refl (λ x. absurd (cc)) refl refl refl
        (λ z. z)
  WorkerMove-IsDrained (checking g) {i = i} {t = t} lt at (sees_flag e) v d =
      moves-IsDrained t i (flagged g) d (ap is_gone at) refl (λ x. e) refl refl refl (λ z. z)
  WorkerMove-IsDrained (flagged g) {i = i} {s = s} lt at (breaks e) v d = record {
    all = λ c j below. ground (arith, d.all c j below);
    flag = λ j x. d.flag i (ap knows at);
    pending = λ j x. e;
  }
  WorkerMove-IsDrained (flagged g) {i = i} {t = t} lt at (sees_pending e) v d =
      moves-IsDrained t i (going_to_wait g) d (ap is_gone at) refl (λ x. absurd (cc)) refl refl refl
        (λ z. z)
  WorkerMove-IsDrained (going_to_wait g) {i = i} {t = t} lt at (waits_not e) v d =
      moves-IsDrained t i outside d (ap is_gone at) refl (λ x. absurd (cc)) refl refl refl (λ z. z)
  WorkerMove-IsDrained (going_to_wait g) {i = i} {t = t} lt at (sleeps e) v d =
      moves-IsDrained t i (sleeping g) d (ap is_gone at) refl (λ x. absurd (cc)) refl refl refl
        (λ z. z)
  WorkerMove-IsDrained (sleeping g) lt at mv v d = elim mv [ ]
  WorkerMove-IsDrained exited lt at mv v d = elim mv [ ]

  ClientMove-IsDrained :
      (w : Client V T) {n c : ℕ} {s t : Pool V T}
      → ((o : Order V T) → w ≡ recorded o → s.shutdown_flag ≡ false)
      → ClientMove F s c w t
      → IsDrained n s
      → IsDrained n t
  ClientMove-IsDrained away {t = t} h (records o) d =
      stay-IsDrained t d (λ j. refl) d.flag (λ c. c) (λ f. f) (λ j x z. z)
  ClientMove-IsDrained (recorded o) {s = s} {t = t} h counts d =
      stay-IsDrained t d (λ j. refl) d.flag (λ c. c) (λ f. f)
        (λ j x z. absurd (true-≢-false (sym (d.flag j (gone_knows (s.worker j) x)) ∙ h o refl)))
    where
      gone_knows : (w : Worker T) → is_gone w ≡ true → knows w ≡ true
      gone_knows w e = ground arith
  ClientMove-IsDrained (holding o) {t = t} h (pushes f e) d =
      stay-IsDrained t d (λ j. refl) d.flag (λ c. c) (λ f. f) (λ j x z. z)
  ClientMove-IsDrained pushed {t = t} h advances d =
      stay-IsDrained t d (λ j. refl) d.flag (λ c. c) (λ f. f) (λ j x z. z)
  ClientMove-IsDrained calling {s = s} {t = t} h calls d =
      stay-IsDrained t d (λ j. ground arith) (λ j x. ground (arith, d.flag j)) (λ c. c) (λ f. f)
        (λ j x z. z)

module _ {V : Type 0} {F : Double V} (L : IsOrdered F) {T : Type 0} where
  pub Run-IsDrained :
      {n m k : ℕ} {s : Pool V T} (r : Run F n m (initial F) k s)
      → k < word
      → Timely r
      → IsDrained n s
  Run-IsDrained start less timely = record {
    all = λ c. absurd (cc);
    flag = λ i x. absurd (cc);
    pending = λ i x. absurd (cc);
  }
  Run-IsDrained (later {t = t} r (by_worker i lt mv)) less timely =
      WorkerMove-IsDrained (t.worker i) lt refl mv (run_sound L r (omega arith)).1
        (Run-IsDrained r (omega arith) timely)
  Run-IsDrained (later {t = t} r (by_client c lt mv)) less (timely, ok) =
      ClientMove-IsDrained (t.client c) ok mv (Run-IsDrained r (omega arith) timely)
  Run-IsDrained (later {t = t} r (by_closer mv)) less timely =
      CloserMove-IsDrained t.closer mv (Run-IsDrained r (omega arith) timely)
  Run-IsDrained (later {u = u} r (registers name weight f e)) less timely =
      let d = Run-IsDrained r (omega arith) timely in
      stay-IsDrained u d (λ j. refl) d.flag (λ c. c) (λ f. f) (λ j x z. z)

  -- When the joins of `shutdown` have returned, and no call of `submit` incremented `pending_` after
  -- the flag was set, every worker has left its loop, and for every class the jobs that were queued
  -- are exactly those that were started, in the same order. The run has fewer than 2^64 steps.
  pub fair_shutdown_completes :
      (n m k : ℕ) (s : Pool V T) (r : Run F n m (initial F) k s)
      → 0 < n
      → k < word
      → Timely r
      → s.closer ≡ joined
      → ((i : ℕ) → i < n → s.worker i ≡ exited) × ((id : ℕ) → accepted_in id r ≡ started_in id r)
  fair_shutdown_completes n m k s r pos less timely closed =
      let d = Run-IsDrained r less timely in
      let (v, count) = run_sound L r less in
      let idle =
        backlog-empty L s.fair v.sound
          (omega (arith, count.exact, d.pending 0 (d.all closed 0 pos))) in
      (
        λ i lt. is_gone-exited (s.worker i) (d.all closed i lt),
        λ id. class_order L id n m k s r less ∙ ap (λ q. reverse q ++ started_in id r) (idle id),
      )
