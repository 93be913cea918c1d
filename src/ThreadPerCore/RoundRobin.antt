-- ===== src/ThreadPerCore/RoundRobin.antt =====
-- `submit` with no hint deals the jobs out evenly.
use thread_pool_runtime.Prelude.{
  ℕ, zero, suc, ◌+◌, ◌%◌, ◌<◌, ◌≤◌, ◌≡◌, refl, ap, ◌∙◌, List, [], ◌∷◌, none, arith, sum, sum_first,
  sum_last, sum_same, count_if, ◌==◌, ltb, if◌then◌else◌,
}
use native.Mathlib.Nat.{mod-eq_of_lt, add-mod_right}
use thread_pool_runtime.Deque.Words.{word}
use thread_pool_runtime.ThreadPerCore.{Cores, target}

-- The cores of `k` submissions with no hint, one after the other, in that order.
abbrev pub turns : {T : Type 0} → ℕ → Cores T → List ℕ
turns zero s = []
turns (suc k) s = (target none s).0 ∷ turns k (target none s).1

-- One when number `a` falls to core `c` of `n`.
unfoldable falls : ℕ → ℕ → ℕ → ℕ
falls n c a = if a % n == c then 1 else 0

falls_period : (n c a : ℕ) → falls n c (a + n) ≡ falls n c a
unfolding falls
falls_period n c a = rw (add-mod_right a n) refl

-- Of the numbers below `n`, only `c` falls to core `c`.
falls_below : (n c k : ℕ) → k ≤ n → sum k (falls n c) ≡ (if ltb c k then 1 else 0)
unfolding falls sum
falls_below n c zero le = ground arith
falls_below n c (suc k) le =
    ground (arith, falls_below n c k (omega arith), mod-eq_of_lt {n = k} {m = n} (omega arith))

-- Of `n` numbers in a row, one falls to core `c`.
falls_once : (n c a : ℕ) → c < n → sum n (λ j. falls n c (a + j)) ≡ 1
falls_once n c zero lt =
    sum_same n (falls n c) (λ j. falls n c (0 + j)) (λ j l. ap (falls n c) (omega arith))
    ∙ falls_below n c n (omega arith)
    ∙ ground arith
falls_once n c (suc a) lt =
    let g : ℕ → ℕ = λ j. falls n c (a + j) in
    omega (
      arith,
      falls_once n c a lt,
      sum_first n g,
      sum_last n g,
      falls_period n c a,
      ap (falls n c) (zero_right a),
      sum_same n (λ j. g (suc j)) (λ j. falls n c (suc a + j))
          (λ j l. ap (falls n c) (omega arith)),
    )
  where
    zero_right : (a : ℕ) → a + 0 ≡ a
    zero_right a = omega arith

module _ {T : Type 0} where
  count_if-turns :
      (k c : ℕ) (s : Cores T)
      → s.next + k ≤ word
      → count_if (λ x. x == c) (turns k s) ≡ sum k (λ j. falls s.num_cores c (s.next + j))
  unfolding target falls sum
  count_if-turns zero c s fits = refl
  count_if-turns (suc k) c s fits =
      let f : ℕ → ℕ = λ j. falls s.num_cores c (s.next + j) in
      let next = (target none s).1 in
      omega (
        arith,
        count_if-turns k c next (omega arith),
        sum_first k f,
        ap (falls s.num_cores c) (zero_right s.next),
        sum_same k (λ j. f (suc j)) (λ j. falls s.num_cores c (next.next + j))
            (λ j l. ap (falls s.num_cores c) (omega arith)),
      )
    where
      zero_right : (a : ℕ) → a + 0 ≡ a
      zero_right a = omega arith

  -- As long as the turn does not wrap around, of as many submissions in a row as there are cores,
  -- with no hint, each core gets exactly one.
  pub turns_even :
      (c : ℕ) (s : Cores T)
      → c < s.num_cores
      → s.next + s.num_cores ≤ word
      → count_if (λ x. x == c) (turns s.num_cores s) ≡ 1
  turns_even c s lt fits = count_if-turns s.num_cores c s fits ∙ falls_once s.num_cores c s.next lt
