-- ===== src/WorkStealing/Workers/Drain.antt =====
-- `shutdown` of the work-stealing scheduler drains the deques and the injectors.
use thread_pool_runtime.Prelude.{
  ℕ, ◌<◌, ◌≤◌, ◌≡◌, ◌≢◌, refl, sym, ap, ◌∙◌, Bool, true, false, List, arith, sum_le, count_if,
  count_if_le, true-≢-false,
}
use thread_pool_runtime.Prelude.Family.{update}
use thread_pool_runtime.Deque.Words.{word}
use thread_pool_runtime.Priority.{Priority}
use thread_pool_runtime.WorkStealing.Workers.{
  Worker, outside, searching, checking, flagged, going_to_wait, sleeping, running, counted, ringing,
  exited, Client, away, recorded, holding, pushed, calling, Closer, open_for_work, stored, shouting,
  notified, joined, Pool, wake, WorkerMove, snapshots, own_found, own_empty, injected_found,
  injected_empty, peer_found, peer_missed, finds_nothing, sees_open, sees_flag, breaks,
  sees_pending, waits_not, sleeps, finishes, rings, wakes_all, ClientMove, records, counts, pushes,
  advances, calls, CloserMove, stores, shouts, notifies, joins, by_worker, by_client, by_closer,
  Run, start, later, initial,
}
use thread_pool_runtime.WorkStealing.Workers.Count.{stock_by, stock, Count}
use thread_pool_runtime.WorkStealing.Workers.Counting.{busy_some}
use thread_pool_runtime.WorkStealing.Workers.Conserve.{accepted, started, waiting, jobs_conserved}
use thread_pool_runtime.WorkStealing.Workers.Rest.{Run-holds}

module _ {T : Type 0} where
  -- Once the flag of `shutdown` is set, no call of `submit` increments `pending`: calls that have done
  -- so before may still be under way.
  abbrev pub Timely : {n m : ℕ} {s : Pool T} {k : ℕ} {t : Pool T} → Run n m s k t → Type 0
  Timely start = Unit
  Timely (later r (by_worker i lt mv)) = Timely r
  Timely (later {t = t} r (by_client c lt mv)) =
      Timely r × ((job : T) (p : Priority) → t.client c ≡ recorded job p → t.shutdown_flag ≡ false)
  Timely (later r (by_closer mv)) = Timely r

  -- The worker has seen the flag.
  abbrev knows : Worker T → Bool
  knows (flagged g) = true
  knows exited = true
  knows w = false

  -- A worker that has left saw the flag, and nothing pending.
  record IsDrained (n : ℕ) (s : Pool T) : Type 0 where
    all : s.closer ≡ joined → (i : ℕ) → i < n → s.worker i ≡ exited
    flag : (i : ℕ) → knows (s.worker i) ≡ true → s.shutdown_flag ≡ true
    pending : (i : ℕ) → s.worker i ≡ exited → s.pending ≡ 0

  -- A step in which no worker leaves.
  stay-IsDrained :
      {n : ℕ} {s : Pool T} (t : Pool T)
      → IsDrained n s
      → ((j : ℕ) → knows (t.worker j) ≡ true → s.shutdown_flag ≡ true)
      → ((j : ℕ) → t.worker j ≡ exited → s.worker j ≡ exited)
      → ((j : ℕ) → s.worker j ≡ exited → t.worker j ≡ exited)
      → (t.closer ≡ joined → s.closer ≡ joined)
      → (s.shutdown_flag ≡ true → t.shutdown_flag ≡ true)
      → ((j : ℕ) → s.worker j ≡ exited → s.pending ≡ 0 → t.pending ≡ 0)
      → IsDrained n t
  stay-IsDrained t d told forth back closer flag pending = record {
    all = λ c j lt. back j (d.all (closer c) j lt);
    flag = λ j x. flag (told j x);
    pending = λ j x. pending j (forth j x) (d.pending j (forth j x));
  }

  -- Worker `i` goes from `w` on to `v`, and the others stand where they stood or are woken.
  moves-IsDrained :
      {n : ℕ} {s : Pool T} (t : Pool T) (i : ℕ) (w v : Worker T)
      → IsDrained n s
      → s.worker i ≡ w
      → w ≢ exited
      → v ≢ exited
      → (knows v ≡ true → s.shutdown_flag ≡ true)
      → t.worker ≡ update s.worker i v
      → t.closer ≡ s.closer
      → t.shutdown_flag ≡ s.shutdown_flag
      → (s.pending ≡ 0 → t.pending ≡ 0)
      → IsDrained n t
  moves-IsDrained {s = s} t i w v d from before after told same closer flag pending =
      stay-IsDrained t d (λ j x. ground (arith, at j, d.flag j, told)) (λ j x. ground (arith, at j))
        (λ j x. ground (arith, at j)) (λ c. sym closer ∙ c) (λ f. flag ∙ f) (λ j x. pending)
    where
      at : (j : ℕ) → t.worker j ≡ update s.worker i v j
      at j = ap (λ f. f j) same

  wake-exited : (g : ℕ) (w : Worker T) → wake g w ≡ exited → w ≡ exited
  wake-exited g w e = ground arith

  WorkerMove-IsDrained :
      (w : Worker T) {n m k i : ℕ} {s t : Pool T}
      → i < n
      → s.worker i ≡ w
      → WorkerMove n s i w t
      → Count n m k s
      → IsDrained n s
      → IsDrained n t
  WorkerMove-IsDrained outside {n = n} {i = i} {t = t} lt at snapshots v d =
      moves-IsDrained t i outside _ d at (λ x. cc) (λ x. cc) (λ x. absurd (cc)) refl refl refl
        (λ z. z)
  WorkerMove-IsDrained (searching g ps) {i = i} {t = t} lt at (own_found job rest e) v d =
      moves-IsDrained t i _ (running job) d at (λ x. cc) (λ x. cc) (λ x. absurd (cc)) refl refl refl
        (λ z. z)
  WorkerMove-IsDrained (searching g ps) {i = i} {t = t} lt at (own_empty {ps = qs} e) v d =
      moves-IsDrained t i _ (searching g qs) d at (λ x. cc) (λ x. cc) (λ x. absurd (cc)) refl refl
        refl (λ z. z)
  WorkerMove-IsDrained (searching g ps) {i = i} {t = t} lt at (injected_found job rest e) v d =
      moves-IsDrained t i _ (running job) d at (λ x. cc) (λ x. cc) (λ x. absurd (cc)) refl refl refl
        (λ z. z)
  WorkerMove-IsDrained (searching g ps) {i = i} {t = t} lt at (injected_empty {ps = qs} e) v d =
      moves-IsDrained t i _ (searching g qs) d at (λ x. cc) (λ x. cc) (λ x. absurd (cc)) refl refl
        refl (λ z. z)
  WorkerMove-IsDrained (searching g ps) {i = i} {t = t} lt at (peer_found job rest lt' e) v d =
      moves-IsDrained t i _ (running job) d at (λ x. cc) (λ x. cc) (λ x. absurd (cc)) refl refl refl
        (λ z. z)
  WorkerMove-IsDrained (searching g ps) {i = i} {t = t} lt at (peer_missed {ps = qs}) v d =
      moves-IsDrained t i _ (searching g qs) d at (λ x. cc) (λ x. cc) (λ x. absurd (cc)) refl refl
        refl (λ z. z)
  WorkerMove-IsDrained (searching g ps) {i = i} {t = t} lt at finds_nothing v d =
      moves-IsDrained t i _ (checking g) d at (λ x. cc) (λ x. cc) (λ x. absurd (cc)) refl refl refl
        (λ z. z)
  WorkerMove-IsDrained (checking g) {i = i} {t = t} lt at (sees_open e) v d =
      moves-IsDrained t i (checking g) (going_to_wait g) d at (λ x. cc) (λ x. cc) (λ x. absurd (cc))
        refl refl refl (λ z. z)
  WorkerMove-IsDrained (checking g) {i = i} {t = t} lt at (sees_flag e) v d =
      moves-IsDrained t i (checking g) (flagged g) d at (λ x. cc) (λ x. cc) (λ x. e) refl refl refl
        (λ z. z)
  WorkerMove-IsDrained (flagged g) {i = i} {s = s} lt at (breaks e) v d = record {
    all = λ c j lt'. ground (arith, d.all c j lt');
    flag = λ j x. d.flag i (ap knows at);
    pending = λ j x. e;
  }
  WorkerMove-IsDrained (flagged g) {i = i} {t = t} lt at (sees_pending e) v d =
      moves-IsDrained t i (flagged g) (going_to_wait g) d at (λ x. cc) (λ x. cc) (λ x. absurd (cc))
        refl refl refl (λ z. z)
  WorkerMove-IsDrained (going_to_wait g) {i = i} {t = t} lt at (waits_not e) v d =
      moves-IsDrained t i (going_to_wait g) outside d at (λ x. cc) (λ x. cc) (λ x. absurd (cc)) refl
        refl refl (λ z. z)
  WorkerMove-IsDrained (going_to_wait g) {i = i} {t = t} lt at (sleeps e) v d =
      moves-IsDrained t i (going_to_wait g) (sleeping g) d at (λ x. cc) (λ x. cc) (λ x. absurd (cc))
        refl refl refl (λ z. z)
  WorkerMove-IsDrained (sleeping g) lt at mv v d = elim mv [ ]
  WorkerMove-IsDrained (running job) {n = n} {i = i} {s = s} {t = t} lt at finishes v d =
      moves-IsDrained t i (running job) counted d at (λ x. cc) (λ x. cc) (λ x. absurd (cc)) refl
        refl refl (λ z. absurd (omega (arith, v.exact, busy_some n i s lt at)))
  WorkerMove-IsDrained counted {i = i} {t = t} lt at rings v d =
      moves-IsDrained t i counted ringing d at (λ x. cc) (λ x. cc) (λ x. absurd (cc)) refl refl refl
        (λ z. z)
  WorkerMove-IsDrained ringing {i = i} {s = s} {t = t} lt at wakes_all v d =
      stay-IsDrained t d (λ j x. ground (arith, d.flag j))
        (λ j x. ground (arith, wake-exited s.gen (s.worker j))) (λ j x. ground arith) (λ c. c)
        (λ f. f) (λ j x z. z)
  WorkerMove-IsDrained exited lt at mv v d = elim mv [ ]

  -- A call of `submit` moves, and may wake sleepers.
  clients-IsDrained :
      {n : ℕ} {s : Pool T} (t : Pool T)
      → IsDrained n s
      → t.worker ≡ s.worker
      → t.closer ≡ s.closer
      → t.shutdown_flag ≡ s.shutdown_flag
      → t.pending ≡ s.pending
      → IsDrained n t
  clients-IsDrained {s = s} t d same closer flag pending =
      stay-IsDrained t d (λ j x. d.flag j (sym (ap knows (at j)) ∙ x)) (λ j x. sym (at j) ∙ x)
        (λ j x. at j ∙ x) (λ c. sym closer ∙ c) (λ f. flag ∙ f) (λ j x z. pending ∙ z)
    where
      at : (j : ℕ) → t.worker j ≡ s.worker j
      at j = ap (λ f. f j) same

  woken-IsDrained :
      {n : ℕ} {s : Pool T} (t : Pool T)
      → IsDrained n s
      → t.worker ≡ (λ j. wake s.gen (s.worker j))
      → (t.closer ≡ joined → s.closer ≡ joined)
      → t.shutdown_flag ≡ s.shutdown_flag
      → t.pending ≡ s.pending
      → IsDrained n t
  woken-IsDrained {s = s} t d same closer flag pending =
      stay-IsDrained t d (λ j x. ground (arith, at j, d.flag j))
        (λ j x. wake-exited s.gen (s.worker j) (sym (at j) ∙ x)) (λ j x. at j ∙ ap (wake s.gen) x)
        closer (λ f. flag ∙ f) (λ j x z. pending ∙ z)
    where
      at : (j : ℕ) → t.worker j ≡ wake s.gen (s.worker j)
      at j = ap (λ f. f j) same

  ClientMove-IsDrained :
      (w : Client T) {n c : ℕ} {s t : Pool T}
      → ((job : T) (p : Priority) → w ≡ recorded job p → s.shutdown_flag ≡ false)
      → ClientMove s c w t
      → IsDrained n s
      → IsDrained n t
  ClientMove-IsDrained away {t = t} h (records job p) d = clients-IsDrained t d refl refl refl refl
  ClientMove-IsDrained (recorded job p) {t = t} h counts d =
      stay-IsDrained t d d.flag (λ j x. x) (λ j x. x) (λ c. c) (λ f. f)
        (λ j x z. absurd (true-≢-false (sym (d.flag j (ap knows x)) ∙ h job p refl)))
  ClientMove-IsDrained (holding job p) {t = t} h pushes d =
      clients-IsDrained t d refl refl refl refl
  ClientMove-IsDrained pushed {t = t} h advances d = clients-IsDrained t d refl refl refl refl
  ClientMove-IsDrained calling {t = t} h calls d = woken-IsDrained t d refl (λ c. c) refl refl

  CloserMove-IsDrained :
      (x : Closer) {n : ℕ} {s t : Pool T} → CloserMove n s x t → IsDrained n s → IsDrained n t
  CloserMove-IsDrained open_for_work {t = t} stores d =
      stay-IsDrained t d d.flag (λ j x. x) (λ j x. x) (λ c. absurd (cc)) (λ f. refl) (λ j x z. z)
  CloserMove-IsDrained stored {t = t} shouts d =
      stay-IsDrained t d d.flag (λ j x. x) (λ j x. x) (λ c. absurd (cc)) (λ f. f) (λ j x z. z)
  CloserMove-IsDrained shouting {t = t} notifies d =
      woken-IsDrained t d refl (λ c. absurd (cc)) refl refl
  CloserMove-IsDrained notified (joins every) d = record {
    all = λ c. every;
    flag = d.flag;
    pending = d.pending;
  }
  CloserMove-IsDrained joined mv d = elim mv [ ]

  Run-IsDrained :
      {n m k : ℕ} {s : Pool T} (r : Run n m initial k s) → k < word → Timely r → IsDrained n s
  Run-IsDrained start less timely = record {
    all = λ c. absurd (cc);
    flag = λ i x. absurd (cc);
    pending = λ i x. absurd (cc);
  }
  Run-IsDrained (later {t = t} r (by_worker i lt mv)) less timely =
      WorkerMove-IsDrained (t.worker i) lt refl mv (Run-holds r (omega arith)).1
        (Run-IsDrained r (omega arith) timely)
  Run-IsDrained (later {t = t} r (by_client c lt mv)) less (timely, ok) =
      ClientMove-IsDrained (t.client c) ok mv (Run-IsDrained r (omega arith) timely)
  Run-IsDrained (later {t = t} r (by_closer mv)) less timely =
      CloserMove-IsDrained t.closer mv (Run-IsDrained r (omega arith) timely)

  waiting_none :
      (P : T → Bool) {n m k : ℕ} {s : Pool T} → Count n m k s → s.pending ≡ 0 → waiting P n s ≡ 0
  waiting_none P {n = n} {s = s} v none_left = omega (
    arith,
    v.exact,
    sum_le n (λ j. stock_by (count_if P) (s.deques j)) (λ j. stock (s.deques j))
        (λ j lt. few (s.deques j)),
    few s.injectors,
  )
    where
      few : (q : ℕ → List T) → stock_by (count_if P) q ≤ stock q
      few q = omega (arith, count_if_le P (q 0), count_if_le P (q 1), count_if_le P (q 2))

  -- When the joins of `shutdown` have returned, and no call of `submit` incremented `pending` after
  -- the flag was set, every worker has left its loop, nothing is pending, and whatever test picks the
  -- jobs, as many were started as were queued. The run has fewer than 2^64 steps.
  pub shutdown_completes :
      (n m k : ℕ) (s : Pool T) (r : Run n m initial k s)
      → 0 < n
      → k < word
      → Timely r
      → s.closer ≡ joined
      → ((i : ℕ) → i < n → s.worker i ≡ exited)
        × (s.pending ≡ 0)
        × ((P : T → Bool) → count_if P (started r) ≡ count_if P (accepted r))
  shutdown_completes n m k s r pos less timely closed =
      let d = Run-IsDrained r less timely in
      let none_left = d.pending 0 (d.all closed 0 pos) in
      (
        d.all closed,
        none_left,
        λ P. omega (arith, jobs_conserved P r, waiting_none P (Run-holds r less).1 none_left),
      )
