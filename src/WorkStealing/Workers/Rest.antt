-- ===== src/WorkStealing/Workers/Rest.antt =====
-- When all workers sleep or have left, nothing is left to do, and `shutdown` can return.
use thread_pool_runtime.Prelude.{
  ℕ, zero_sum, ◌<◌, ◌≡◌, ◌≢◌, ◌⊎◌, inl, inr, refl, sym, ap, ◌∙◌, Bool, true, false, not, ◌==◌, List,
  [], arith, length, dec_lt, Bool-cases,
}
use thread_pool_runtime.Deque.Words.{word}
use thread_pool_runtime.WorkStealing.Workers.{
  Worker, outside, sleeping, counted, ringing, exited, away, pushed, calling, shouting, notified,
  Pool, Run, start, later, initial,
}
use thread_pool_runtime.WorkStealing.Workers.Inv.{
  looked_own, looked_injected, settled, outdated, IsWaking, Reason, Inv,
}
use thread_pool_runtime.WorkStealing.Workers.Count.{busy, held, stock, Count}
use thread_pool_runtime.WorkStealing.Workers.Counting.{Step-Count, initial-Count}
use thread_pool_runtime.WorkStealing.Workers.Others.{Run-outside}
use thread_pool_runtime.WorkStealing.Workers.Steps.{Step-Inv, initial-Inv}

-- The worker is neither outside nor at rest.
abbrev is_moving : {T : Type 0} → Worker T → Bool
is_moving outside = false
is_moving (sleeping g) = false
is_moving exited = false
is_moving w = true

module _ {T : Type 0} where
  pub Run-holds :
      {n m k : ℕ} {s : Pool T} → Run n m initial k s → k < word → Inv k s × Count n m k s
  Run-holds {n} {m} start less = (initial-Inv, initial-Count n m)
  Run-holds (later {k = k} r mv) less =
      let (v, w) = Run-holds r (omega arith) in
      (Step-Inv (omega arith) (omega (arith, w.few)) mv v, Step-Count (omega arith) mv w)

  abbrev pub IsAtRest : Worker T → Type 0
  IsAtRest w = ((g : ℕ) × (w ≡ sleeping g)) ⊎ (w ≡ exited)

  rest_own : (r : ℕ) (w : Worker T) → IsAtRest w → looked_own r w ≡ true
  rest_own r w (inl (g, e)) = ap (looked_own r) e
  rest_own r w (inr e) = ap (looked_own r) e

  -- All workers sleep or have left, and no thread is about to advance the count or to wake them.
  pub record IsResting (n : ℕ) (s : Pool T) : Type 0 where
    pub workers : (i : ℕ) → i < n → IsAtRest (s.worker i)
    pub clients : (c : ℕ) → (s.client c ≢ pushed) × (s.client c ≢ calling)
    pub closer : s.closer ≢ shouting

  resting_worker :
      {n m k : ℕ} {s : Pool T} (w : Worker T)
      → Run n m initial k s
      → IsResting n s
      → is_moving w ≡ true
      → (j : ℕ) → s.worker j ≢ w
  resting_worker {n = n} {s = s} w r rest moving j e = elim (dec_lt j n) [
    | yes lt ↦ clash (still _ (rest.workers j lt))
    | no ge ↦ clash (ap is_moving (Run-outside r (omega arith)))
  ]
    where
      clash : is_moving (s.worker j) ≡ false → ⊥
      clash f = let a = sym (ap is_moving e) ∙ f in absurd (cc)

      still : (x : Worker T) → IsAtRest x → is_moving x ≡ false
      still x (inl (g, f)) = ap is_moving f
      still x (inr f) = ap is_moving f

  -- Nobody who could still wake a sleeper is left.
  not_waking : {n m k : ℕ} {s : Pool T} → Run n m initial k s → IsResting n s → IsWaking s → ⊥
  not_waking r rest (inl (c, e)) = (rest.clients c).1 e
  not_waking r rest (inr (inl (j, e))) = resting_worker ringing r rest refl j e
  not_waking r rest (inr (inr e)) = rest.closer e

  -- Sleepers sleep on the present count.
  current :
      {n m k : ℕ} {s : Pool T} (i g : ℕ)
      → Run n m initial k s
      → k < word
      → IsResting n s
      → s.worker i ≡ sleeping g
      → g ≡ s.gen
  current {s = s} i g r less rest at = elim (Bool-cases (outdated s.gen (s.worker i))) [
    | inl old ↦ absurd (not_waking r rest ((Run-holds r less).0.woken i old))
    | inr new ↦ fresh (sym (ap (outdated s.gen) at) ∙ new)
  ]
    where
      fresh : not (g == s.gen) ≡ false → g ≡ s.gen
      fresh e = ground arith

  -- While every worker sleeps or has left and one sleeps, and no `submit`, finished job or `shutdown`
  -- is about to ring, there is no job in any deque or injector: no wakeup is ever lost. The run has
  -- fewer than 2^64 steps.
  pub sleeping_drained :
      (n m k i g : ℕ) (s : Pool T)
      → Run n m initial k s
      → k < word
      → IsResting n s
      → s.worker i ≡ sleeping g
      → ((r : ℕ) → r < 3 → s.injectors r ≡ []) × ((v r : ℕ) → v < n → r < 3 → s.deques v r ≡ [])
  sleeping_drained n m k i g s r less rest at =
      let v = (Run-holds r less).0 in
      (
        λ q lt.
            elim (v.injected_empty i q
              (ap (looked_injected q s.gen) at ∙ same (current i g r less rest at)) lt) [
                | inl none_left ↦ none_left
                | inr (c, e) ↦ absurd ((rest.clients c).0 e)
              ],
        λ j q lt lt'. v.own_empty j q (rest_own q (s.worker j) (rest.workers j lt)) lt',
      )
    where
      same : g ≡ s.gen → (g == s.gen) ≡ true
      same e = ground arith

  rest_busy : (w : Worker T) → IsAtRest w → busy w ≡ 0
  rest_busy w (inl (g, e)) = ap busy e
  rest_busy w (inr e) = ap busy e

  -- With no `submit` under way, nothing is pending once the workers rest.
  resting_pending :
      (n m k i g : ℕ) (s : Pool T)
      → Run n m initial k s
      → k < word
      → IsResting n s
      → ((c : ℕ) → s.client c ≡ away)
      → s.worker i ≡ sleeping g
      → s.pending ≡ 0
  resting_pending n m k i g s r less rest gone at =
      let (inj, deq) = sleeping_drained n m k i g s r less rest at in
      omega (
        arith,
        (Run-holds r less).1.exact,
        zero_sum n (λ j. busy (s.worker j)) (λ j lt. rest_busy (s.worker j) (rest.workers j lt)),
        zero_sum n (λ j. stock (s.deques j))
            (λ j lt. no_stock (s.deques j) (λ q lt'. deq j q lt lt')),
        zero_sum m (λ c. held (s.client c)) (λ c lt. ap held (gone c)),
        no_stock s.injectors inj,
      )
    where
      no_stock : (q : ℕ → List T) → ((x : ℕ) → x < 3 → q x ≡ []) → stock q ≡ 0
      no_stock q e = omega (
        arith,
        ap length (e 0 (omega arith)),
        ap length (e 1 (omega arith)),
        ap length (e 2 (omega arith)),
      )

  -- Once `shutdown` has rung and no `submit` is under way, no worker sleeps when all rest.
  pub resting_exited :
      (n m k : ℕ) (s : Pool T)
      → Run n m initial k s
      → k < word
      → IsResting n s
      → ((c : ℕ) → s.client c ≡ away)
      → s.closer ≡ notified
      → (i : ℕ) → i < n
      → s.worker i ≡ exited
  resting_exited n m k s r less rest gone closed i lt = elim (rest.workers i lt) [
    | inr e ↦ e
    | inl (g, at) ↦ absurd (
        no_reason g at (
          (Run-holds r less).0.reason i
            (ap (settled s.gen) at ∙ same g (current i g r less rest at))))
  ]
    where
      same : (g : ℕ) → g ≡ s.gen → (g == s.gen) ≡ true
      same g e = ground arith

      no_reason : (g : ℕ) → s.worker i ≡ sleeping g → Reason s → ⊥
      no_reason g at (inl e) = absurd (cc)
      no_reason g at (inr (inl e)) = absurd (cc)
      no_reason g at (inr (inr (inl e))) = e (resting_pending n m k i g s r less rest gone at)
      no_reason g at (inr (inr (inr (j, e)))) = resting_worker counted r rest refl j e
