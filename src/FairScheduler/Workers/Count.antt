-- ===== src/FairScheduler/Workers/Count.antt =====
-- `pending_` is the number of the jobs that are queued, running or about to be queued.
use thread_pool_runtime.Prelude.{
  ℕ, suc, ◌+◌, ◌-◌, ◌<◌, ◌≤◌, ◌≡◌, refl, sym, ap, ◌∙◌, [], ◌∷◌, length, length-append, arith, sum,
  sum_same, sum_zero, update_total, ℕ_discrete,
}
use thread_pool_runtime.Prelude.Family.{update, update_eq, update_ne}
use thread_pool_runtime.Deque.Words.{word, sub64}
use thread_pool_runtime.FairScheduler.{FairState, account}
use thread_pool_runtime.FairScheduler.Inv as Fair
use thread_pool_runtime.FairScheduler.Backlog.{
  backlog, queue, class_for, account-KeepsQueues, register_class-KeepsQueues, backlog-KeepsQueues,
  dispatch-IsServed, submit-IsQueued,
}
use thread_pool_runtime.FairScheduler.Submit.{class_name}
use thread_pool_runtime.FairScheduler.Doubles.{Double, IsOrdered}
use thread_pool_runtime.FairScheduler.Workers.{
  Worker, outside, looking, running, counted, ringing, timing, checking, flagged, going_to_wait,
  sleeping, exited, Client, away, recorded, holding, pushed, calling, Closer, open_for_work, stored,
  shouting, notified, joined, Pool, wake, moves, WorkerMove, snapshots, takes, finds_nothing,
  finishes, rings, wakes_all, accounts, sees_open, sees_flag, breaks, sees_pending, waits_not,
  sleeps, ClientMove, records, counts, pushes, advances, calls, CloserMove, stores, shouts,
  notifies, joins, Step, by_worker, by_client, by_closer, registers, Run, start, later, initial,
}
use thread_pool_runtime.FairScheduler.Workers.Inv.{Inv}
use thread_pool_runtime.FairScheduler.Workers.Inv.Steps.{Step-Inv, initial-Inv}

abbrev pub busy : {T : Type 0} → Worker T → ℕ
busy (running id job) = 1
busy w = 0

abbrev pub held : {V T : Type 0} → Client V T → ℕ
held (holding o) = 1
held c = 0

-- The jobs of `n` workers and `m` callers that have not been run to their end.
abbrev pub total : {V T : Type 0} → ℕ → ℕ → Pool V T → ℕ
total n m s = sum n (λ j. busy (s.worker j)) + sum m (λ c. held (s.client c)) + backlog s.fair

pub record Count {V T : Type 0} (n m k : ℕ) (s : Pool V T) : Type 0 where
  pub exact : s.pending ≡ total n m s
  pub few : s.pending ≤ k

busy-wake : {T : Type 0} (g : ℕ) (w : Worker T) → busy (wake g w) ≡ busy w
busy-wake g w = ground arith

module _ {V T : Type 0} where
  -- Worker `i` moves, with the queues as `f` has them.
  move-Count :
      {n m k i : ℕ} {s : Pool V T} (w : Worker T) (f : FairState V T)
      → i < n
      → busy w + backlog f ≡ busy (s.worker i) + backlog s.fair
      → Count n m k s
      → Count n m (suc k) (moves (record s { fair = f }) i w)
  move-Count {n = n} {i = i} {s = s} w f lt same v = record {
    exact = omega (arith, v.exact, update_total n i busy s.worker w lt, same);
    few = omega (arith, v.few);
  }

  -- A caller of `submit` moves, with the queues as `f` has them.
  client-Count :
      {n m k c : ℕ} {s : Pool V T} (w : Client V T) (f : FairState V T)
      → c < m
      → held w + backlog f ≡ held (s.client c) + backlog s.fair
      → Count n m k s
      → Count n m (suc k) (record s { client = update s.client c w; fair = f })
  client-Count {m = m} {c = c} {s = s} w f lt same v = record {
    exact = omega (arith, v.exact, update_total m c held s.client w lt, same);
    few = omega (arith, v.few);
  }

  -- Waking the sleepers changes no total.
  woken-Count :
      {n m k : ℕ} {s : Pool V T} (W : ℕ → Worker T)
      → ((j : ℕ) → busy (W j) ≡ busy (s.worker j))
      → Count n m k s
      → Count n m (suc k) (record s { worker = W })
  woken-Count {n = n} {s = s} W same v = record {
    exact =
        omega
          (arith, v.exact, sum_same n (λ j. busy (s.worker j)) (λ j. busy (W j)) (λ j lt. same j));
    few = omega (arith, v.few);
  }

  -- A worker that runs a job counts.
  pub busy_some :
      (n i : ℕ) (s : Pool V T) {id : ℕ} {job : T}
      → i < n
      → s.worker i ≡ running id job
      → 0 < sum n (λ j. busy (s.worker j))
  busy_some n i s lt at = omega (arith, update_total n i busy s.worker outside lt, ap busy at)

module _ {V : Type 0} {F : Double V} (L : IsOrdered F) {T : Type 0} where
  WorkerMove-Count :
      (w : Worker T) {n m k i : ℕ} {s t : Pool V T}
      → k < word
      → i < n
      → s.worker i ≡ w
      → WorkerMove F s i w t
      → Fair.Inv F s.fair
      → Count n m k s
      → Count n m (suc k) t
  WorkerMove-Count outside {s = s} less lt at snapshots u v =
      move-Count (looking s.gen) s.fair lt (omega (arith, ap busy at)) v
  WorkerMove-Count (looking g) {s = s} less lt at (takes id job f e) u v =
      let (front, _, change) = dispatch-IsServed L s.fair f id job u e in
      move-Count (running id job) f lt
        (omega (arith, ap busy at, change length refl, ap length front)) v
  WorkerMove-Count (looking g) {s = s} less lt at (finds_nothing e) u v =
      move-Count (checking g) s.fair lt (omega (arith, ap busy at)) v
  WorkerMove-Count (running id job) {n = n} {i = i} {s = s} less lt at finishes u v =
      let some_left = busy_some n i s lt at in
      let one_less : sub64 s.pending 1 ≡ s.pending - 1 = omega (arith, v.exact, v.few) in
      record {
        exact =
            omega (
              arith,
              v.exact,
              one_less,
              update_total n i busy s.worker (counted id) lt,
              ap busy at,
            );
        few = omega (arith, one_less, v.few);
      }
  WorkerMove-Count (counted id) {s = s} less lt at rings u v =
      let w = move-Count (ringing id) s.fair lt (omega (arith, ap busy at)) v in
      record { exact = w.exact; few = w.few }
  WorkerMove-Count (ringing id) {i = i} {s = s} less lt at wakes_all u v =
      woken-Count (update (λ j. wake s.gen (s.worker j)) i (timing id))
        (λ j. elim (ℕ_discrete i j) [
          | yes e ↦
              ap busy (update_eq (λ j. wake s.gen (s.worker j)) i j (timing id) e)
              ∙ sym (ap busy (ap s.worker (sym e) ∙ at))
          | no ne ↦
              ap busy (update_ne (λ j. wake s.gen (s.worker j)) i j (timing id) ne)
              ∙ busy-wake s.gen (s.worker j)
        ])
        v
  WorkerMove-Count (timing id) {s = s} less lt at (accounts elapsed pos) u v =
      move-Count outside (account F id elapsed s.fair) lt
        (omega (
          arith,
          ap busy at,
          backlog-KeepsQueues L length s.fair (account F id elapsed s.fair) refl u
              (account-KeepsQueues L id elapsed s.fair),
        ))
        v
  WorkerMove-Count (checking g) {s = s} less lt at (sees_open e) u v =
      move-Count (going_to_wait g) s.fair lt (omega (arith, ap busy at)) v
  WorkerMove-Count (checking g) {s = s} less lt at (sees_flag e) u v =
      move-Count (flagged g) s.fair lt (omega (arith, ap busy at)) v
  WorkerMove-Count (flagged g) {s = s} less lt at (breaks e) u v =
      move-Count exited s.fair lt (omega (arith, ap busy at)) v
  WorkerMove-Count (flagged g) {s = s} less lt at (sees_pending e) u v =
      move-Count (going_to_wait g) s.fair lt (omega (arith, ap busy at)) v
  WorkerMove-Count (going_to_wait g) {s = s} less lt at (waits_not e) u v =
      move-Count outside s.fair lt (omega (arith, ap busy at)) v
  WorkerMove-Count (going_to_wait g) {s = s} less lt at (sleeps e) u v =
      move-Count (sleeping g) s.fair lt (omega (arith, ap busy at)) v
  WorkerMove-Count (sleeping g) less lt at mv u v = elim mv [ ]
  WorkerMove-Count exited less lt at mv u v = elim mv [ ]

  ClientMove-Count :
      (w : Client V T) {n m k c : ℕ} {s t : Pool V T}
      → k < word - 1
      → c < m
      → s.client c ≡ w
      → ClientMove F s c w t
      → Fair.Inv F s.fair
      → Count n m k s
      → Count n m (suc k) t
  ClientMove-Count away {s = s} less lt at (records o) u v =
      let w = client-Count (recorded o) s.fair lt (omega (arith, ap held at)) v in
      record { exact = w.exact; few = w.few }
  ClientMove-Count (recorded o) {m = m} {c = c} {s = s} less lt at counts u v = record {
    exact =
        omega (arith, v.exact, v.few, update_total m c held s.client (holding o) lt, ap held at);
    few = omega (arith, v.few);
  }
  ClientMove-Count (holding o) {s = s} less lt at (pushes f e) u v =
      let id = class_for (class_name o.name) s.fair in
      let (back, _, change) = submit-IsQueued L o.name o.weight o.job s.fair f u e in
      client-Count pushed f lt
        (omega (
          arith,
          ap held at,
          change length refl,
          ap length back,
          length-append (queue s.fair id) (o.job ∷ []),
        ))
        v
  ClientMove-Count pushed {s = s} less lt at advances u v =
      let w = client-Count calling s.fair lt (omega (arith, ap held at)) v in
      record { exact = w.exact; few = w.few }
  ClientMove-Count calling {n = n} {s = s} less lt at calls u v =
      let w = client-Count away s.fair lt (omega (arith, ap held at)) v in
      record {
        exact = omega (
          arith,
          w.exact,
          sum_same n (λ j. busy (s.worker j)) (λ j. busy (wake s.gen (s.worker j)))
              (λ j l. busy-wake s.gen (s.worker j)),
        );
        few = w.few;
      }

  CloserMove-Count :
      {n m k : ℕ} {s t : Pool V T} (x : Closer)
      → CloserMove n s x t
      → Count n m k s
      → Count n m (suc k) t
  CloserMove-Count open_for_work stores v = record { exact = v.exact; few = omega (arith, v.few) }
  CloserMove-Count stored shouts v = record { exact = v.exact; few = omega (arith, v.few) }
  CloserMove-Count {s = s} shouting notifies v =
      let w = woken-Count (λ j. wake s.gen (s.worker j)) (λ j. busy-wake s.gen (s.worker j)) v in
      record { exact = w.exact; few = w.few }
  CloserMove-Count notified (joins all) v = record { exact = v.exact; few = omega (arith, v.few) }
  CloserMove-Count joined mv v = elim mv [ ]

  Step-Count :
      {n m k : ℕ} {s t : Pool V T}
      → k < word - 1
      → Step F n m s t
      → Fair.Inv F s.fair
      → Count n m k s
      → Count n m (suc k) t
  Step-Count {s = s} less (by_worker i lt mv) u v =
      WorkerMove-Count (s.worker i) (omega arith) lt refl mv u v
  Step-Count {s = s} less (by_client c lt mv) u v =
      ClientMove-Count (s.client c) less lt refl mv u v
  Step-Count {s = s} less (by_closer mv) u v = CloserMove-Count s.closer mv v
  Step-Count {s = s} less (registers name weight f e) u v = record {
    exact = omega (
      arith,
      v.exact,
      backlog-KeepsQueues L length s.fair f refl u
          (register_class-KeepsQueues L name weight s.fair f u e),
    );
    few = omega (arith, v.few);
  }

  -- Both invariants hold in runs of fewer than 2^64 steps.
  pub run_sound :
      {n m k : ℕ} {s : Pool V T}
      → Run F n m (initial F) k s
      → k < word
      → Inv F n k s × Count n m k s
  unfolding sum
  run_sound {n} {m} start less =
      (initial-Inv L n, record { exact = omega (arith, sum_zero n, sum_zero m); few = omega arith })
  run_sound (later {k = k} r mv) less =
      let (v, w) = run_sound r (omega arith) in
      (Step-Inv L (omega arith) (omega (arith, w.few)) mv v, Step-Count (omega arith) mv v.sound w)
