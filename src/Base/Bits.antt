-- ===== src/Base/Bits.antt =====
-- `bit_and` with a mask of `k` ones is the remainder by `2 ^ k`; numbers with one bit set.
use Prim.Native.Nat.{
  ℕ, zero, suc, ◌+◌, ◌-◌, ◌*◌, ◌/◌, ◌%◌, ◌^◌, ◌≤◌, ◌<◌, min, bit_and, digits, bit_and-bitwise,
}
use mathlib.Core.Path.{◌≡◌, refl, ap}
use native.Mathlib.Nat.{pow-suc, one-le-pow}
use native.Mathlib.Decide.{ℕ_discrete}
use native.Mathlib.Omega.{arith}

-- What the native operation stands for, with the bound on its digits made a variable.
abbrev and_within : ℕ → ℕ → ℕ → ℕ
and_within bound a b = digits (λ _. zero) min bound a b

and_within-bound : (m n a b : ℕ) → a ≤ m → a ≤ n → and_within m a b ≡ and_within n a b
and_within-bound zero zero a b p q = refl
and_within-bound zero (suc n) zero b p q = refl
and_within-bound zero (suc n) (suc a) b p q = absurd (omega arith)
and_within-bound (suc m) zero zero b p q = refl
and_within-bound (suc m) zero (suc a) b p q = absurd (omega arith)
and_within-bound (suc m) (suc n) zero b p q = refl
and_within-bound (suc m) (suc n) (suc a) b p q =
    omega (arith, and_within-bound m n (suc a / 2) (b / 2) (omega arith) (omega arith))

zero-bit_and : (b : ℕ) → bit_and 0 b ≡ 0
zero-bit_and b = bit_and-bitwise 0 b

bit_and-halves : (a b : ℕ) → bit_and a b ≡ 2 * bit_and (a / 2) (b / 2) + min (a % 2) (b % 2)
bit_and-halves zero b = omega (arith, zero-bit_and b, zero-bit_and (b / 2))
bit_and-halves (suc a) b = omega (
  arith,
  bit_and-bitwise (suc a) b,
  bit_and-bitwise (suc a / 2) (b / 2),
  and_within-bound a (suc a / 2) (suc a / 2) (b / 2) (omega arith) (omega arith),
)

bit_and-zero_within : (bound a : ℕ) → a ≤ bound → bit_and a 0 ≡ 0
bit_and-zero_within bound zero h = refl
bit_and-zero_within zero (suc a) h = absurd (omega arith)
bit_and-zero_within (suc bound) (suc a) h =
    omega (arith, bit_and-halves (suc a) 0, bit_and-zero_within bound (suc a / 2) (omega arith))

mod-two_mul : (a p : ℕ) → 0 < p → a % (2 * p) ≡ 2 * (a / 2 % p) + a % 2
mod-two_mul a p h = grind arith

-- `x & (2^k - 1)`
pub bit_and_mask : (k a : ℕ) → bit_and a (2 ^ k - 1) ≡ a % 2 ^ k
bit_and_mask zero a = omega (arith, bit_and-zero_within a a (omega arith))
bit_and_mask (suc k) a = ground (
  arith,
  pow-suc 2 k,
  one-le-pow k 2,
  bit_and-halves a (2 ^ suc k - 1),
  bit_and_mask k (a / 2),
  mod-two_mul a (2 ^ k),
)

-- The number of bits set among the lowest `width` bits.
unfoldable pub count_ones : ℕ → ℕ → ℕ
count_ones zero n = 0
count_ones (suc width) n = n % 2 + count_ones width (n / 2)

count_ones-eq-zero : (width n : ℕ) → n < 2 ^ width → count_ones width n ≡ 0 → n ≡ 0
unfolding count_ones
count_ones-eq-zero zero n h e = omega arith
count_ones-eq-zero (suc width) n h e = omega (
  arith,
  pow-suc 2 width,
  count_ones-eq-zero width (n / 2) (omega (arith, pow-suc 2 width)) (omega arith),
)

-- One bit set: a power of two.
pub count_ones-eq-one :
    (width n : ℕ) → n < 2 ^ width → count_ones width n ≡ 1 → (k : ℕ) × (n ≡ 2 ^ k)
unfolding count_ones
count_ones-eq-one zero n h e = absurd (omega arith)
count_ones-eq-one (suc width) n h e =
    let half-lt : n / 2 < 2 ^ width = omega (arith, pow-suc 2 width) in
    elim (ℕ_discrete (n % 2) 0) [
      | yes even ↦
          let (k, half) = count_ones-eq-one width (n / 2) half-lt (omega arith) in
          (suc k, omega (arith, pow-suc 2 k))
      | no odd ↦ (0, omega (arith, count_ones-eq-zero width (n / 2) half-lt (omega arith)))
    ]

count_ones-zero : (width : ℕ) → count_ones width 0 ≡ 0
unfolding count_ones
count_ones-zero zero = refl
count_ones-zero (suc width) = omega (arith, count_ones-zero width)

-- A power of two has one bit set.
pub count_ones-power : (width k : ℕ) → k < width → count_ones width (2 ^ k) ≡ 1
unfolding count_ones
count_ones-power zero k h = absurd (omega arith)
count_ones-power (suc width) zero h = omega (arith, count_ones-zero width)
count_ones-power (suc width) (suc k) h =
    let half : 2 ^ suc k / 2 ≡ 2 ^ k = omega (arith, pow-suc 2 k) in
    let even : 2 ^ suc k % 2 ≡ 0 = omega (arith, pow-suc 2 k) in
    omega (arith, even, ap (count_ones width) half, count_ones-power width k (omega arith))
