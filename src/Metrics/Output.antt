-- ===== src/Metrics/Output.antt =====
-- src/metrics.cpp: a snapshot as text. A stream is the list of its character codes; a number goes out
-- in decimal digits.
use Prim.Native.Char.{code}
use Prim.Native.String.{String}
use thread_pool_runtime.Prelude.{
  ℕ, zero, suc, ◌+◌, ◌/◌, ◌%◌, ◌==◌, if◌then◌else◌, List, [], ◌∷◌, ◌++◌,
}
use thread_pool_runtime.Metrics.{RuntimeMetrics}

abbrev pub codes : String → List ℕ
codes String.[] = []
codes (String.◌∷◌ c s) = code c ∷ codes s

-- The digits of a number below 10^fuel, before those in `out`.
unfoldable pub digits : ℕ → ℕ → List ℕ → List ℕ
digits zero n out = out
digits (suc fuel) n out =
    let more = digits fuel (n / 10) ((b'0' + n % 10) ∷ out) in if n == 0 then out else more

-- `os << n` for an `std::uint64_t`, which has at most 20 digits.
unfoldable pub put_number : ℕ → List ℕ
put_number n = if n == 0 then b'0' ∷ [] else digits 20 n []

-- `operator<<`
unfoldable pub put_metrics : RuntimeMetrics → List ℕ
put_metrics m =
    codes "submitted="
    ++ put_number m.tasks_submitted
    ++ codes " completed="
    ++ put_number m.tasks_completed
    ++ codes " panicked="
    ++ put_number m.tasks_panicked
    ++ codes " stolen="
    ++ put_number m.tasks_stolen
