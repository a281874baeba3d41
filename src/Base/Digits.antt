-- ===== src/Base/Digits.antt =====
-- Numbers in the digits of a base of at most 16, as `format!` writes them and `parse` reads them.
use Prim.Native.Nat.{ℕ, zero, suc, ◌+◌, ◌-◌, ◌*◌, ◌/◌, ◌%◌, ◌≤◌, ◌<◌}
use mathlib.Core.Path.{◌≡◌, refl, ap, sym, ◌∙◌}
use mathlib.Core.Logic.{◌≢◌, inl, inr}
use mathlib.Core.Bool.{true, ◌&&◌}
use mathlib.Core.Option.{Option, none, some}
use mathlib.Core.List.{List, [], ◌∷◌, ◌++◌}
use native.Mathlib.Omega.{arith}
use native.Mathlib.Nat.{mod-lt, mod-add-div', mod-eq_of_lt, div-lt_self}
use shmem_ipc.Base.Lists.{length}
use shmem_ipc.Base.Tests.{ltb, leb, if◌then◌else◌, ltb→lt, Bool-cases}

unfoldable pub digit_char : ℕ → ℕ
digit_char d = if ltb d 10 then 48 + d else 87 + d

-- The digits of `n` in front of `acc`; `fuel` above the number is enough.
unfoldable pub digits_from : (base fuel n : ℕ) → List ℕ → List ℕ
unfolding digit_char
digits_from base zero n acc = acc
digits_from base (suc fuel) n acc =
    let digit = digit_char (n % base) in
    let more = digits_from base fuel (n / base) (digit ∷ acc) in
    if ltb n base then digit ∷ acc else more

-- `{}` and `{:x}`
unfoldable pub decimal : ℕ → List ℕ
unfolding digits_from
decimal n = digits_from 10 (n + 1) n []

unfoldable pub hex : ℕ → List ℕ
unfolding digits_from
hex n = digits_from 16 (n + 1) n []

below : ℕ → ℕ → Option ℕ
below base d = if ltb d base then some d else none

digit_value : (base c : ℕ) → Option ℕ
unfolding below
digit_value base c =
    if leb 48 c && ltb c 58
    then below base (c - 48)
    else if leb 97 c && ltb c 123
    then below base (c - 87)
    else none

-- The number that the digits continue `acc` to; `none` for another character, and where the number
-- reaches `limit`.
unfoldable pub parse_from : (base limit acc : ℕ) → List ℕ → Option ℕ
unfolding digit_value
parse_from base limit acc [] = some acc
parse_from base limit acc (c ∷ rest) = elim (digit_value base c) [
  | none ↦ none
  | some d ↦
      if ltb (acc * base + d) limit then parse_from base limit (acc * base + d) rest else none
]

digit_value-digit_char :
    (base d : ℕ) → d < base → base ≤ 16 → digit_value base (digit_char d) ≡ some d
unfolding digit_value digit_char
digit_value-digit_char base d lt small = ground arith

parse_from-digit :
    (base limit acc d : ℕ) (rest : List ℕ)
    → d < base
    → base ≤ 16
    → acc * base + d < limit
    → parse_from base limit acc (digit_char d ∷ rest) ≡ parse_from base limit (acc * base + d) rest
unfolding parse_from
parse_from-digit base limit acc d rest lt small fits =
    let fit : ltb (acc * base + d) limit ≡ true = ground arith in
    rw (digit_value-digit_char base d lt small, fit, parse_from) refl

-- What is printed is read again, if it fits.
pub parse_from-digits_from :
    (base limit fuel n : ℕ) (rest : List ℕ)
    → n < fuel
    → 2 ≤ base
    → base ≤ 16
    → n < limit
    → parse_from base limit 0 (digits_from base fuel n rest) ≡ parse_from base limit n rest
unfolding digits_from
parse_from-digits_from base limit zero n rest lt large small fits = absurd (omega arith)
parse_from-digits_from base limit (suc fuel) n rest lt large small fits =
    let digit-lt : n % base < base = mod-lt n (omega arith) in
    let whole : n % base + n / base * base ≡ n = mod-add-div' n base in
    elim (Bool-cases (ltb n base)) [
      | inl one ↦
          let self : n % base ≡ n = mod-eq_of_lt (ltb→lt _ _ one) in
          rw (one, self)
            (parse_from-digit base limit 0 n rest (ltb→lt _ _ one) small (omega arith)
              ∙ ap (λ k. parse_from base limit k rest) (omega arith))
      | inr more ↦
          let half : n / base < n = div-lt_self (ground arith) (omega arith) in
          rw more (
            parse_from-digits_from base limit fuel (n / base) (digit_char (n % base) ∷ rest)
              (omega arith) large small (omega arith)
            ∙ parse_from-digit base limit (n / base) (n % base) rest digit-lt small
                (omega (arith, whole))
            ∙ ap (λ k. parse_from base limit k rest) (omega (arith, whole)))
    ]

-- What is read back is printed injectively.
read_injective :
    (base : ℕ) (print : ℕ → List ℕ)
    → ((limit k : ℕ) → k < limit → parse_from base limit 0 (print k) ≡ some k)
    → (n m : ℕ) → print n ≡ print m
    → n ≡ m
read_injective base print read n m same =
    let both : some n ≡ some m =
      sym (read (n + m + 1) n (omega arith))
      ∙ ap (parse_from base (n + m + 1) 0) same
      ∙ read (n + m + 1) m (omega arith) in
    ground (arith, both)

pub parse_from-decimal : (limit n : ℕ) → n < limit → parse_from 10 limit 0 (decimal n) ≡ some n
unfolding decimal parse_from
parse_from-decimal limit n fits =
    parse_from-digits_from 10 limit (n + 1) n [] (omega arith) (omega arith) (omega arith) fits

parse_from-hex : (limit n : ℕ) → n < limit → parse_from 16 limit 0 (hex n) ≡ some n
unfolding hex parse_from
parse_from-hex limit n fits =
    parse_from-digits_from 16 limit (n + 1) n [] (omega arith) (omega arith) (omega arith) fits

pub decimal-injective : (n m : ℕ) → decimal n ≡ decimal m → n ≡ m
decimal-injective n m same = read_injective 10 decimal parse_from-decimal n m same

pub hex-injective : (n m : ℕ) → hex n ≡ hex m → n ≡ m
hex-injective n m same = read_injective 16 hex parse_from-hex n m same

-- A predicate that the list's elements have.
abbrev pub All {ℓ κ} : {A : Type ℓ} → (A → Type κ) → List A → Type κ
All P [] = Unit
All P (x ∷ xs) = P x × All P xs

-- What all digits are: not below the character 0, not above the letter f, and no underscore.
abbrev pub IsDigit : ℕ → Type 0
IsDigit c = (48 ≤ c) × (c ≤ 102) × (c ≢ 95)

pub digits_from-All :
    (base fuel n : ℕ) (rest : List ℕ)
    → 0 < base
    → base ≤ 16
    → All IsDigit rest
    → All IsDigit (digits_from base fuel n rest)
unfolding digits_from digit_char
digits_from-All base zero n rest pos small h = h
digits_from-All base (suc fuel) n rest pos small h =
    let digit-lt : n % base < base = mod-lt n pos in
    let ranged : IsDigit (digit_char (n % base)) = ground arith in
    elim (Bool-cases (ltb n base)) [
      | inl one ↦ rw one (ranged, h)
      | inr more ↦ rw more (
          digits_from-All base fuel (n / base) (digit_char (n % base) ∷ rest) pos small (ranged, h))
    ]

digits_from-ne-nil : (base fuel n c : ℕ) (rest : List ℕ) → digits_from base fuel n (c ∷ rest) ≢ []
unfolding digits_from
digits_from-ne-nil base zero n c rest = cc
digits_from-ne-nil base (suc fuel) n c rest = elim (Bool-cases (ltb n base)) [
  | inl one ↦ rw one cc
  | inr more ↦ rw more (digits_from-ne-nil base fuel (n / base) (digit_char (n % base)) (c ∷ rest))
]

digits_from-nil-ne-nil : (base fuel n : ℕ) → 0 < fuel → digits_from base fuel n [] ≢ []
unfolding digits_from
digits_from-nil-ne-nil base zero n pos = absurd (omega arith)
digits_from-nil-ne-nil base (suc fuel) n pos = elim (Bool-cases (ltb n base)) [
  | inl one ↦ rw one (λ e. cc)
  | inr more ↦ rw more (digits_from-ne-nil base fuel (n / base) (digit_char (n % base)) [])
]

pub decimal-ne-nil : (n : ℕ) → decimal n ≢ []
unfolding decimal
decimal-ne-nil n = digits_from-nil-ne-nil 10 (n + 1) n (omega arith)

pub decimal-All : (n : ℕ) → All IsDigit (decimal n)
unfolding decimal
decimal-All n = digits_from-All 10 (n + 1) n [] (omega arith) (omega arith) tt

pub hex-All : (n : ℕ) → All IsDigit (hex n)
unfolding hex
hex-All n = digits_from-All 16 (n + 1) n [] (omega arith) (omega arith) tt

cons_parts : {c d : ℕ} {xs ys : List ℕ} → (c ∷ xs) ≡ (d ∷ ys) → (c ≡ d) × (xs ≡ ys)
cons_parts h = (cc h, cc h)

-- A character that is no digit ends the digits in front of it.
pub digits_split :
    (s : ℕ) (a b c d : List ℕ)
    → ((x : ℕ) → IsDigit x → x ≢ s)
    → All IsDigit a
    → All IsDigit c
    → a ++ (s ∷ b) ≡ c ++ (s ∷ d)
    → (a ≡ c) × (b ≡ d)
digits_split s [] b [] d other p q h = (refl, (cons_parts h).1)
digits_split s [] b (y ∷ c) d other p (digit, q) h = absurd (other y digit (sym (cons_parts h).0))
digits_split s (x ∷ a) b [] d other (digit, p) q h = absurd (other x digit (cons_parts h).0)
digits_split s (x ∷ a) b (y ∷ c) d other (_, p) (_, q) h =
    let (head, tail) = cons_parts h in
    let (front, back) = digits_split s a b c d other p q tail in (cc (head, front), back)

pub append_cancel : (xs ys zs : List ℕ) → xs ++ ys ≡ xs ++ zs → ys ≡ zs
append_cancel [] ys zs h = h
append_cancel (x ∷ xs) ys zs h = append_cancel xs ys zs (cons_parts h).1

zeros : ℕ → List ℕ → List ℕ
zeros zero text = text
zeros (suc n) text = 48 ∷ zeros n text

-- `{:016x}`, for a width of 16
unfoldable pub padded : (width n : ℕ) → List ℕ
unfolding zeros hex
padded width n = zeros (width - length (hex n)) (hex n)

zeros-All : (k : ℕ) (text : List ℕ) → All IsDigit text → All IsDigit (zeros k text)
unfolding zeros
zeros-All zero text d = d
zeros-All (suc k) text d = ((omega arith, omega arith, omega arith), zeros-All k text d)

pub padded-All : (width n : ℕ) → All IsDigit (padded width n)
unfolding padded
padded-All width n = zeros-All (width - length (hex n)) (hex n) (hex-All n)

-- Zeros in front change nothing.
parse_from-zeros :
    (limit k : ℕ) (text : List ℕ)
    → 0 < limit
    → parse_from 16 limit 0 (zeros k text) ≡ parse_from 16 limit 0 text
unfolding zeros digit_char
parse_from-zeros limit zero text pos = refl
parse_from-zeros limit (suc k) text pos =
    parse_from-digit 16 limit 0 0 (zeros k text) (omega arith) (omega arith) pos
    ∙ parse_from-zeros limit k text pos

pub padded-injective : (width n m : ℕ) → padded width n ≡ padded width m → n ≡ m
unfolding padded
padded-injective width n m same =
    read_injective 16 (padded width)
      (λ limit k lt.
        parse_from-zeros limit (width - length (hex k)) (hex k) (omega arith)
        ∙ parse_from-hex limit k lt)
      n m same
