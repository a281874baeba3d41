-- ===== src/Base/Words.antt =====
-- Machine arithmetic: Rust's wrapping additions and subtractions at 32 and 64 bits.
use Prim.Native.Nat.{ℕ, ◌+◌, ◌-◌, ◌%◌, ◌^◌}

abbrev pub add32 : ℕ → ℕ → ℕ
add32 a b = (a + b) % 2 ^ 32

abbrev pub add64 : ℕ → ℕ → ℕ
add64 a b = (a + b) % 2 ^ 64

-- `-` on the naturals stops at 0, so the modulus is added first.
abbrev pub sub64 : ℕ → ℕ → ℕ
sub64 a b = (a + 2 ^ 64 - b) % 2 ^ 64

abbrev pub u16_of : ℕ → ℕ
u16_of n = n % 2 ^ 16

abbrev pub u32_of : ℕ → ℕ
u32_of n = n % 2 ^ 32
