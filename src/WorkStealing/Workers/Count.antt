-- ===== src/WorkStealing/Workers/Count.antt =====
-- `pending` is the number of the jobs that are queued, running or about to be queued.
use thread_pool_runtime.Prelude.{ℕ, ◌+◌, ◌<◌, ◌≤◌, ◌≡◌, List, arith, length, sum, update_total}
use thread_pool_runtime.Prelude.Family.{update}
use thread_pool_runtime.Priority.{Priority, high, normal, background, rank}
use thread_pool_runtime.WorkStealing.Workers.{
  Worker, running, Client, holding, Pool, wake, set_deque,
}

abbrev pub busy : {T : Type 0} → Worker T → ℕ
busy (running job) = 1
busy w = 0

abbrev pub held : {T : Type 0} → Client T → ℕ
held (holding job p) = 1
held c = 0

-- The jobs of the three queues.
abbrev pub stock_by : {T : Type 0} → (List T → ℕ) → (ℕ → List T) → ℕ
stock_by f q = f (q 0) + f (q 1) + f (q 2)

abbrev pub stock : {T : Type 0} → (ℕ → List T) → ℕ
stock = stock_by length

-- The jobs of `n` workers and `m` callers that have not been run to their end.
abbrev pub total : {T : Type 0} → ℕ → ℕ → Pool T → ℕ
total n m s =
    sum n (λ j. busy (s.worker j))
    + sum n (λ j. stock (s.deques j))
    + sum m (λ c. held (s.client c))
    + stock s.injectors

pub record Count {T : Type 0} (n m k : ℕ) (s : Pool T) : Type 0 where
  pub exact : s.pending ≡ total n m s
  pub few : s.pending ≤ k

module _ {T : Type 0} where
  pub stock_by-update :
      (f : List T → ℕ) (q : ℕ → List T) (p : Priority) (xs : List T)
      → stock_by f (update q (rank p) xs) + f (q (rank p)) ≡ stock_by f q + f xs
  stock_by-update f q high xs = ground arith
  stock_by-update f q normal xs = ground arith
  stock_by-update f q background xs = ground arith

  pub busy-wake : (g : ℕ) (w : Worker T) → busy (wake g w) ≡ busy w
  busy-wake g w = ground arith

  -- The totals after the changes that steps are made of.
  pub worker_total :
      (n i : ℕ) (s : Pool T) (w : Worker T)
      → i < n
      → sum n (λ j. busy (update s.worker i w j)) + busy (s.worker i)
        ≡ sum n (λ j. busy (s.worker j)) + busy w
  worker_total n i s w lt = update_total n i busy s.worker w lt

  pub client_total :
      (m c : ℕ) (s : Pool T) (w : Client T)
      → c < m
      → sum m (λ j. held (update s.client c w j)) + held (s.client c)
        ≡ sum m (λ j. held (s.client j)) + held w
  client_total m c s w lt = update_total m c held s.client w lt

  pub deque_total :
      (f : List T → ℕ) (n v : ℕ) (s : Pool T) (p : Priority) (xs : List T)
      → v < n
      → sum n (λ j. stock_by f ((set_deque s v (rank p) xs).deques j)) + f (s.deques v (rank p))
        ≡ sum n (λ j. stock_by f (s.deques j)) + f xs
  deque_total f n v s p xs lt =
      let row = update (s.deques v) (rank p) xs in
      omega
        (arith, update_total n v (stock_by f) s.deques row lt, stock_by-update f (s.deques v) p xs)
