-- ===== src/Deque/Words.antt =====
-- 64-bit words. A number below 2^63 is the same signed and unsigned; 2^64 - 1 is also -1.
use thread_pool_runtime.Prelude.{ℕ, ◌+◌, ◌-◌, ◌%◌, ◌^◌, ◌<◌, ◌≡◌, Bool, ltb, arith}

abbrev pub word : ℕ
word = 2 ^ 64

abbrev pub half_word : ℕ
half_word = 2 ^ 63

abbrev pub add64 : ℕ → ℕ → ℕ
add64 a b = (a + b) % word

abbrev pub sub64 : ℕ → ℕ → ℕ
sub64 a b = (a + word - b) % word

-- `a < b` as int64_t: the sign bit is turned over, then the patterns are compared.
abbrev pub slt : ℕ → ℕ → Bool
slt a b = ltb ((a + half_word) % word) ((b + half_word) % word)

pub slt-ltb : (a b : ℕ) → a < half_word → b < half_word → slt a b ≡ ltb a b
slt-ltb a b ha hb = ground arith
