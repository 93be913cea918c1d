-- ===== src/FairScheduler/Doubles.antt =====
-- The `double` of virtual run times: the operations that the fair scheduler uses, and the laws of the
-- finite values that its order rests on.
use thread_pool_runtime.Prelude.{◌≡◌, Bool, true, false, not, if◌then◌else◌, arith}

pub record Double (V : Type 0) : Type 0 where
  pub double_0 : V
  pub double_1 : V
  pub lt : V → V → Bool
  pub le : V → V → Bool
  pub plus : V → V → V
  pub over : V → V → V

-- `std::max(a, b)`
unfoldable pub larger : {V : Type 0} → Double V → V → V → V
larger F a b = if F.lt a b then b else a

abbrev pub AtMost : {V : Type 0} → Double V → V → V → Type 0
AtMost F a b = F.lt b a ≡ false

-- A strict weak order; rounding does not take a sum below its first summand.
pub record IsOrdered {V : Type 0} (F : Double V) : Type 0 where
  pub lt_irrefl : (a : V) → F.lt a a ≡ false
  pub lt_asym : (a b : V) → F.lt a b ≡ true → F.lt b a ≡ false
  pub at_most_trans : (a b c : V) → AtMost F a b → AtMost F b c → AtMost F a c
  pub le_lt : (a b : V) → F.le a b ≡ not (F.lt b a)
  pub positive : F.lt F.double_0 F.double_1 ≡ true
  pub grows :
      (v e w : V)
      → F.le F.double_0 e ≡ true
      → F.lt F.double_0 w ≡ true
      → AtMost F v (F.plus v (F.over e w))

module _ {V : Type 0} {F : Double V} (L : IsOrdered F) where
  pub AtMost-larger_left : (a b : V) → AtMost F a (larger F a b)
  unfolding larger
  AtMost-larger_left a b = ground (arith, L.lt_irrefl a, L.lt_asym a b)

  pub AtMost-larger_right : (a b : V) → AtMost F b (larger F a b)
  unfolding larger
  AtMost-larger_right a b = ground (arith, L.lt_irrefl b)

  pub larger-AtMost : (a b c : V) → AtMost F a c → AtMost F b c → AtMost F (larger F a b) c
  unfolding larger
  larger-AtMost a b c p q = ground arith
