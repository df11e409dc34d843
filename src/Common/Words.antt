-- ===== src/Common/Words.antt =====
-- Arithmetic on `size_t`, `ptr_t` and `u64`, which are 64 bits wide on AMD64. A word is a number
-- below 2 ^ 64; each operation that can leave that range is written with its wrap.
use Prim.Native.Nat.{ℕ, ◌+◌, ◌-◌, ◌*◌, ◌%◌, ◌^◌}

abbrev pub word_mod : ℕ
word_mod = 2 ^ 64

abbrev pub add64 : ℕ → ℕ → ℕ
add64 a b = (a + b) % 2 ^ 64

-- `-` on the natural numbers stops at 0, so the modulus is added first.
abbrev pub sub64 : ℕ → ℕ → ℕ
sub64 a b = (a + 2 ^ 64 - b) % 2 ^ 64

abbrev pub mul64 : ℕ → ℕ → ℕ
mul64 a b = a * b % 2 ^ 64
