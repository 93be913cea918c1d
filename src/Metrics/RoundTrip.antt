-- ===== src/Metrics/RoundTrip.antt =====
-- The text of a snapshot tells all its counters.
use thread_pool_runtime.Prelude.{
  ℕ, zero, suc, ◌+◌, ◌-◌, ◌*◌, ◌/◌, ◌%◌, ◌^◌, ◌<◌, ◌≡◌, refl, ap, ◌∙◌, Bool, false, ◌&&◌, leb, ◌==◌,
  if◌then◌else◌, List, [], ◌∷◌, ◌++◌, append_assoc, append-nil, Option, none, some, arith, ◌>>=◌,
  Bool-cases, inl, inr,
}
use native.Mathlib.Nat.{pow-suc}
use thread_pool_runtime.Metrics.{RuntimeMetrics}
use thread_pool_runtime.Metrics.Output.{codes, digits, put_number, put_metrics}

abbrev is_digit : ℕ → Bool
is_digit c = leb b'0' c && leb c b'9'

-- The number at the front of a text, after the digits of `n`, and the rest of the text.
unfoldable pub get_digits : List ℕ → ℕ → ℕ × List ℕ
get_digits [] n = (n, [])
get_digits (c ∷ s) n =
    let later = get_digits s (n * 10 + (c - b'0')) in if is_digit c then later else (n, c ∷ s)

-- A text without the label at its front.
unfoldable pub drop_label : List ℕ → List ℕ → Option (List ℕ)
drop_label [] s = some s
drop_label (c ∷ label) [] = none
drop_label (c ∷ label) (d ∷ s) = let later = drop_label label s in if c == d then later else none

-- A label and the number behind it.
unfoldable pub get_field : List ℕ → List ℕ → Option (ℕ × List ℕ)
get_field label s = do rest ← drop_label label s; some (get_digits rest 0)

-- The fields behind those that are given.
abbrev pub after_stolen : ℕ → ℕ → ℕ → ℕ × List ℕ → Option RuntimeMetrics
after_stolen submitted completed panicked (stolen, s) = some (record {
  tasks_submitted = submitted;
  tasks_completed = completed;
  tasks_panicked = panicked;
  tasks_stolen = stolen;
})

abbrev pub after_panicked : ℕ → ℕ → ℕ × List ℕ → Option RuntimeMetrics
after_panicked submitted completed (panicked, s) =
    get_field (codes " stolen=") s >>= after_stolen submitted completed panicked

abbrev pub after_completed : ℕ → ℕ × List ℕ → Option RuntimeMetrics
after_completed submitted (completed, s) =
    get_field (codes " panicked=") s >>= after_panicked submitted completed

abbrev pub after_submitted : ℕ × List ℕ → Option RuntimeMetrics
after_submitted (submitted, s) = get_field (codes " completed=") s >>= after_completed submitted

unfoldable pub get_metrics : List ℕ → Option RuntimeMetrics
get_metrics s = get_field (codes "submitted=") s >>= after_submitted

digits-append :
    (fuel n : ℕ) (out rest : List ℕ) → digits fuel n out ++ rest ≡ digits fuel n (out ++ rest)
unfolding digits
digits-append zero n out rest = refl
digits-append (suc fuel) n out rest =
    ground (arith, digits-append fuel (n / 10) ((b'0' + n % 10) ∷ out) rest)

get_last : (n : ℕ) (out : List ℕ) → get_digits ((b'0' + n % 10) ∷ out) (n / 10) ≡ get_digits out n
unfolding get_digits
get_last n out = ground arith

get_digits-digits :
    (fuel n : ℕ) (out : List ℕ)
    → n < 10 ^ fuel
    → get_digits (digits fuel n out) 0 ≡ get_digits out n
unfolding digits
get_digits-digits zero n out lt = ap (get_digits out) (omega arith)
get_digits-digits (suc fuel) n out lt = elim (Bool-cases (n == 0)) [
  | inl e ↦ rw e (ap (get_digits out) (ground arith))
  | inr e ↦ rw e (
      get_digits-digits fuel (n / 10) ((b'0' + n % 10) ∷ out) (omega (arith, pow-suc 10 fuel))
      ∙ get_last n out)
]

-- No digit is at the front.
abbrev Ends : List ℕ → Type 0
Ends [] = Unit
Ends (c ∷ s) = is_digit c ≡ false

get_digits-Ends : (s : List ℕ) (n : ℕ) → Ends s → get_digits s n ≡ (n, s)
unfolding get_digits
get_digits-Ends [] n e = refl
get_digits-Ends (c ∷ s) n e = rw e refl

put_number-append :
    (n : ℕ) (rest : List ℕ)
    → n < 2 ^ 64
    → Ends rest
    → get_digits (put_number n ++ rest) 0 ≡ (n, rest)
unfolding put_number get_digits
put_number-append n rest lt e = elim (Bool-cases (n == 0)) [
  | inl z ↦ rw z (zero_first rest e ∙ ap (λ k. (k, rest)) (ground arith))
  | inr nz ↦ rw nz (
      ap (λ s. get_digits s 0) (digits-append 20 n [] rest)
      ∙ get_digits-digits 20 n rest (omega arith)
      ∙ get_digits-Ends rest n e)
]
  where
    zero_first : (rest : List ℕ) → Ends rest → get_digits (b'0' ∷ rest) 0 ≡ (0, rest)
    zero_first rest e = get_digits-Ends rest 0 e

bind_some : {A B : Type 0} {o : Option A} {a : A} (f : A → Option B) → o ≡ some a → (o >>= f) ≡ f a
bind_some f e = ap (λ x. x >>= f) e

drop_label-append : (label rest : List ℕ) → drop_label label (label ++ rest) ≡ some rest
unfolding drop_label
drop_label-append [] rest = refl
drop_label-append (c ∷ label) rest = ground (arith, drop_label-append label rest)

get_field-append :
    (label : List ℕ) (n : ℕ) (rest : List ℕ)
    → n < 2 ^ 64
    → Ends rest
    → get_field label (label ++ (put_number n ++ rest)) ≡ some (n, rest)
unfolding get_field
get_field-append label n rest lt e =
    bind_some (λ r. some (get_digits r 0)) (drop_label-append label (put_number n ++ rest))
    ∙ ap some (put_number-append n rest lt e)

-- The fields one after the other.
abbrev in_order : RuntimeMetrics → List ℕ
in_order m =
    codes "submitted="
    ++ (put_number m.tasks_submitted
        ++ (codes " completed="
            ++ (put_number m.tasks_completed
                ++ (codes " panicked="
                    ++ (put_number m.tasks_panicked
                        ++ (codes " stolen=" ++ (put_number m.tasks_stolen ++ [])))))))

put_metrics-in_order : (m : RuntimeMetrics) → put_metrics m ≡ in_order m
unfolding put_metrics
put_metrics-in_order m = simp (append_assoc, append-nil)

get_in_order :
    (m : RuntimeMetrics)
    → m.tasks_submitted < 2 ^ 64
    → m.tasks_completed < 2 ^ 64
    → m.tasks_panicked < 2 ^ 64
    → m.tasks_stolen < 2 ^ 64
    → get_metrics (in_order m) ≡ some m
unfolding get_metrics
get_in_order m a b c d =
    bind_some (after_submitted) (get_field-append (codes "submitted=") m.tasks_submitted _ a refl)
    ∙ bind_some (after_completed m.tasks_submitted)
        (get_field-append (codes " completed=") m.tasks_completed _ b refl)
    ∙ bind_some (after_panicked m.tasks_submitted m.tasks_completed)
        (get_field-append (codes " panicked=") m.tasks_panicked _ c refl)
    ∙ bind_some (after_stolen m.tasks_submitted m.tasks_completed m.tasks_panicked)
        (get_field-append (codes " stolen=") m.tasks_stolen [] d tt)

-- A snapshot of 64-bit counters is read back from its text: no two snapshots look the same.
pub get_metrics-put_metrics :
    (m : RuntimeMetrics)
    → m.tasks_submitted < 2 ^ 64
    → m.tasks_completed < 2 ^ 64
    → m.tasks_panicked < 2 ^ 64
    → m.tasks_stolen < 2 ^ 64
    → get_metrics (put_metrics m) ≡ some m
unfolding get_metrics put_metrics
get_metrics-put_metrics m a b c d = ap get_metrics (put_metrics-in_order m) ∙ get_in_order m a b c d
