-- ===== src/WorkStealing/Workers/Counting.antt =====
-- Every step keeps `pending` exact.
use thread_pool_runtime.Prelude.{
  ℕ, sum, sum_same, sum_zero, suc, ◌-◌, ◌<◌, ◌≡◌, refl, sym, ap, ◌∙◌, List, [], ◌∷◌, ◌++◌, take,
  drop, arith, length, length-append, take-append-drop, ℕ_discrete,
}
use thread_pool_runtime.Prelude.Family.{update, update_eq, update_ne}
use thread_pool_runtime.Deque.Words.{word, sub64}
use thread_pool_runtime.Priority.{rank}
use thread_pool_runtime.WorkStealing.{injector_batch_size}
use thread_pool_runtime.WorkStealing.Workers.{
  Probe, probes, Worker, outside, searching, checking, flagged, going_to_wait, sleeping, running,
  counted, ringing, exited, Client, away, recorded, holding, pushed, calling, Closer, open_for_work,
  stored, shouting, notified, joined, Pool, wake, moves, WorkerMove, snapshots, own_found,
  own_empty, injected_found, injected_empty, peer_found, peer_missed, finds_nothing, sees_open,
  sees_flag, breaks, sees_pending, waits_not, sleeps, finishes, rings, wakes_all, ClientMove,
  records, counts, pushes, advances, calls, CloserMove, stores, shouts, notifies, joins, Step,
  by_worker, by_client, by_closer, initial,
}
use thread_pool_runtime.WorkStealing.Workers.Count.{
  busy, held, Count, stock_by-update, busy-wake, worker_total, client_total, deque_total,
}

module _ {T : Type 0} where
  -- A step of worker `i` that finds no job and finishes none.
  idle-Count :
      {n m k i : ℕ} {s : Pool T} (w : Worker T)
      → i < n
      → busy (s.worker i) ≡ 0
      → busy w ≡ 0
      → Count n m k s
      → Count n m (suc k) (moves s i w)
  idle-Count {n = n} {i = i} {s = s} w lt b b' v = record {
    exact = omega (arith, v.exact, worker_total n i s w lt);
    few = omega (arith, v.few);
  }

  searching-Count :
      {n m k i g : ℕ} {ps : List Probe} {s t : Pool T}
      → i < n
      → s.worker i ≡ searching g ps
      → WorkerMove n s i (searching g ps) t
      → Count n m k s
      → Count n m (suc k) t
  searching-Count {n = n} {i = i} {s = s} lt at (own_found {p = p} job rest e) v = record {
    exact = omega (
      arith,
      v.exact,
      worker_total n i s (running job) lt,
      ap busy at,
      deque_total length n i s p rest lt,
      ap length e,
      length-append rest (job ∷ []),
    );
    few = omega (arith, v.few);
  }
  searching-Count {n = n} {i = i} {s = s} lt at (injected_found {p = p} job rest e) v =
      let few_left = take (injector_batch_size - 1) rest in
      record {
        exact = omega (
          arith,
          v.exact,
          worker_total n i s (running job) lt,
          ap busy at,
          deque_total length n i s p (s.deques i (rank p) ++ few_left) lt,
          length-append (s.deques i (rank p)) few_left,
          ap length e,
          stock_by-update length s.injectors p (drop (injector_batch_size - 1) rest),
          ap length (take-append-drop (injector_batch_size - 1) rest),
          length-append few_left (drop (injector_batch_size - 1) rest),
        );
        few = omega (arith, v.few);
      }
  searching-Count {n = n} {i = i} {s = s} lt at (peer_found {v = w} {p = p} job rest lt' e) v =
      record {
        exact = omega (
          arith,
          v.exact,
          worker_total n i s (running job) lt,
          ap busy at,
          deque_total length n w s p rest lt',
          ap length e,
        );
        few = omega (arith, v.few);
      }
  searching-Count {g = g} lt at (own_empty {ps = ps} e) v =
      idle-Count (searching g ps) lt (ap busy at) refl v
  searching-Count {g = g} lt at (injected_empty {ps = ps} e) v =
      idle-Count (searching g ps) lt (ap busy at) refl v
  searching-Count {g = g} lt at (peer_missed {ps = ps}) v =
      idle-Count (searching g ps) lt (ap busy at) refl v
  searching-Count {g = g} lt at finds_nothing v = idle-Count (checking g) lt (ap busy at) refl v

  -- A worker that runs a job counts.
  pub busy_some :
      (n i : ℕ) (s : Pool T) {job : T}
      → i < n
      → s.worker i ≡ running job
      → 0 < sum n (λ j. busy (s.worker j))
  busy_some n i s lt at = omega (arith, worker_total n i s outside lt, ap busy at)

  finishes-Count :
      {n m k i : ℕ} {s : Pool T} {job : T}
      → k < word
      → i < n
      → s.worker i ≡ running job
      → Count n m k s
      → Count n m (suc k) (moves (record s { pending = sub64 s.pending 1 }) i counted)
  finishes-Count {n} {m} {k} {i} {s} less lt at v =
      let some_left = busy_some n i s lt at in
      let one_less : sub64 s.pending 1 ≡ s.pending - 1 = omega (arith, v.exact, v.few) in
      record {
        exact = omega (arith, v.exact, one_less, worker_total n i s counted lt, ap busy at);
        few = omega (arith, one_less, v.few);
      }

  -- Waking the sleepers changes no total.
  woken-Count :
      {n m k : ℕ} {s : Pool T} (W : ℕ → Worker T)
      → ((j : ℕ) → busy (W j) ≡ busy (s.worker j))
      → Count n m k s
      → Count n m (suc k) (record s { worker = W })
  woken-Count {n} {m} {k} {s} W same v = record {
    exact =
        omega
          (arith, v.exact, sum_same n (λ j. busy (s.worker j)) (λ j. busy (W j)) (λ j lt. same j));
    few = omega (arith, v.few);
  }

  WorkerMove-Count :
      (w : Worker T) {n m k i : ℕ} {s t : Pool T}
      → k < word
      → i < n
      → s.worker i ≡ w
      → WorkerMove n s i w t
      → Count n m k s
      → Count n m (suc k) t
  WorkerMove-Count outside {n = n} {i = i} {s = s} less lt at snapshots v =
      idle-Count (searching s.gen (probes n i)) lt (ap busy at) refl v
  WorkerMove-Count (searching g ps) less lt at mv v = searching-Count lt at mv v
  WorkerMove-Count (checking g) less lt at (sees_open e) v =
      idle-Count (going_to_wait g) lt (ap busy at) refl v
  WorkerMove-Count (checking g) less lt at (sees_flag e) v =
      idle-Count (flagged g) lt (ap busy at) refl v
  WorkerMove-Count (flagged g) less lt at (breaks e) v = idle-Count exited lt (ap busy at) refl v
  WorkerMove-Count (flagged g) less lt at (sees_pending e) v =
      idle-Count (going_to_wait g) lt (ap busy at) refl v
  WorkerMove-Count (going_to_wait g) less lt at (waits_not e) v =
      idle-Count outside lt (ap busy at) refl v
  WorkerMove-Count (going_to_wait g) less lt at (sleeps e) v =
      idle-Count (sleeping g) lt (ap busy at) refl v
  WorkerMove-Count (sleeping g) less lt at mv v = elim mv [ ]
  WorkerMove-Count (running job) less lt at finishes v = finishes-Count less lt at v
  WorkerMove-Count counted {i = i} {s = s} less lt at rings v =
      let w = idle-Count ringing lt (ap busy at) refl v in record { exact = w.exact; few = w.few }
  WorkerMove-Count ringing {i = i} {s = s} less lt at wakes_all v =
      woken-Count (update (λ j. wake s.gen (s.worker j)) i outside)
        (λ j. elim (ℕ_discrete i j) [
          | yes e ↦
              ap busy (update_eq (λ j. wake s.gen (s.worker j)) i j outside e)
              ∙ sym (ap busy (ap s.worker (sym e) ∙ at))
          | no ne ↦
              ap busy (update_ne (λ j. wake s.gen (s.worker j)) i j outside ne)
              ∙ busy-wake s.gen (s.worker j)
        ])
        v
  WorkerMove-Count exited less lt at mv v = elim mv [ ]

  ClientMove-Count :
      (w : Client T) {n m k c : ℕ} {s t : Pool T}
      → k < word - 1
      → c < m
      → s.client c ≡ w
      → ClientMove s c w t
      → Count n m k s
      → Count n m (suc k) t
  ClientMove-Count away {m = m} {c = c} {s = s} less lt at (records job p) v = record {
    exact = omega (arith, v.exact, client_total m c s (recorded job p) lt, ap held at);
    few = omega (arith, v.few);
  }
  ClientMove-Count (recorded job p) {m = m} {c = c} {s = s} less lt at counts v = record {
    exact = omega (arith, v.exact, v.few, client_total m c s (holding job p) lt, ap held at);
    few = omega (arith, v.few);
  }
  ClientMove-Count (holding job p) {m = m} {c = c} {s = s} less lt at pushes v = record {
    exact = omega (
      arith,
      v.exact,
      client_total m c s pushed lt,
      ap held at,
      stock_by-update length s.injectors p (s.injectors (rank p) ++ job ∷ []),
      length-append (s.injectors (rank p)) (job ∷ []),
    );
    few = omega (arith, v.few);
  }
  ClientMove-Count pushed {m = m} {c = c} {s = s} less lt at advances v = record {
    exact = omega (arith, v.exact, client_total m c s calling lt, ap held at);
    few = omega (arith, v.few);
  }
  ClientMove-Count calling {n = n} {m = m} {c = c} {s = s} less lt at calls v = record {
    exact = omega (
      arith,
      v.exact,
      client_total m c s away lt,
      ap held at,
      sum_same n (λ j. busy (s.worker j)) (λ j. busy (wake s.gen (s.worker j)))
          (λ j l. busy-wake s.gen (s.worker j)),
    );
    few = omega (arith, v.few);
  }

  CloserMove-Count :
      {n m k : ℕ} {s t : Pool T} (x : Closer)
      → CloserMove n s x t
      → Count n m k s
      → Count n m (suc k) t
  CloserMove-Count open_for_work stores v = record { exact = v.exact; few = omega (arith, v.few) }
  CloserMove-Count stored shouts v = record { exact = v.exact; few = omega (arith, v.few) }
  CloserMove-Count {s = s} shouting notifies v =
      let w = woken-Count (λ j. wake s.gen (s.worker j)) (λ j. busy-wake s.gen (s.worker j)) v in
      record { exact = w.exact; few = w.few }
  CloserMove-Count notified (joins all) v = record { exact = v.exact; few = omega (arith, v.few) }
  CloserMove-Count joined mv v = elim mv [ ]

  pub Step-Count :
      {n m k : ℕ} {s t : Pool T} → k < word - 1 → Step n m s t → Count n m k s → Count n m (suc k) t
  Step-Count {s = s} less (by_worker i lt mv) v =
      WorkerMove-Count (s.worker i) (omega arith) lt refl mv v
  Step-Count {s = s} less (by_client c lt mv) v = ClientMove-Count (s.client c) less lt refl mv v
  Step-Count {s = s} less (by_closer mv) v = CloserMove-Count s.closer mv v

  pub initial-Count : (n m : ℕ) → Count n m 0 (initial {T = T})
  initial-Count n m = record { exact = omega (arith, sum_zero n, sum_zero m); few = omega arith }
