-- ===== src/FairScheduler/Whole.antt =====
-- Whole numbers for run times and weights, with division rounded down: they satisfy the laws that the
-- fair scheduler's order rests on.
use thread_pool_runtime.Prelude.{ℕ, ◌+◌, ◌/◌, refl, ltb, leb, arith}
use thread_pool_runtime.FairScheduler.Doubles.{Double, IsOrdered}

abbrev pub whole : Double ℕ
whole = record { double_0 = 0; double_1 = 1; lt = ltb; le = leb; plus = ◌+◌; over = ◌/◌ }

pub whole-IsOrdered : IsOrdered whole
whole-IsOrdered = record {
  lt_irrefl = λ a. ground arith;
  lt_asym = λ a b e. ground arith;
  at_most_trans = λ a b c p q. ground arith;
  le_lt = λ a b. ground arith;
  positive = refl;
  grows = λ v e w p q. ground arith;
}
