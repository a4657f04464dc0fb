-- ===== src/Base/Bits.antt =====
-- Single bits of machine words, and `|` and `&` of disjoint fields as sums.
use Prim.Native.Nat.{ℕ, zero, suc, ◌+◌, ◌-◌, ◌*◌, ◌/◌, ◌%◌, ◌^◌, ◌≤◌, ◌<◌, min, max}
use Prim.Native.Nat.{bit_and, bit_or, digits, bitwise, bit_and-bitwise, bit_or-bitwise}
use mathlib.Core.Path.{◌≡◌, refl, sym, ap}
use mathlib.Core.Bool.{Bool, true, false, ◌||◌}
use native.Mathlib.Nat.{
  pow-suc, pow-succ', div-div-eq-div-mul, one-le-pow, div-eq_of_lt, add-div_left, mul-add-div_right,
}
use native.Mathlib.Omega.{arith}
use xmap.Base.Tests.{◌==◌}

-- `a & mask` as a condition, for a mask of one bit or none: in C a mask that was shifted out is 0,
-- and so is the quotient by 0 here.
abbrev pub test_bit : ℕ → ℕ → Bool
test_bit a mask = a / mask % 2 == 1

module _ (z : ℕ → ℕ) (f : ℕ → ℕ → ℕ) where
  -- More fuel than digits changes nothing.
  digits_enough : (n m a b : ℕ) → a ≤ n → a ≤ m → digits z f n a b ≡ digits z f m a b
  digits_enough zero zero a b p q = refl
  digits_enough zero (suc m) zero b p q = refl
  digits_enough zero (suc m) (suc a) b p q = absurd (omega arith)
  digits_enough (suc n) zero zero b p q = refl
  digits_enough (suc n) zero (suc a) b p q = absurd (omega arith)
  digits_enough (suc n) (suc m) zero b p q = refl
  digits_enough (suc n) (suc m) (suc a) b p q =
      rw (digits_enough n m (suc a / 2) (b / 2) (omega arith) (omega arith))

  bitwise_lowest :
      (a b : ℕ)
      → bitwise z f (suc a) b ≡ bitwise z f (suc a / 2) (b / 2) * 2 + f (suc a % 2) (b % 2)
  bitwise_lowest a b =
      omega (arith, digits_enough a (suc a / 2) (suc a / 2) (b / 2) (omega arith) (omega arith))

pub bit_or_lowest : (a b : ℕ) → bit_or a b ≡ bit_or (a / 2) (b / 2) * 2 + max (a % 2) (b % 2)
bit_or_lowest zero b = simp bit_or-bitwise (omega arith)
bit_or_lowest (suc a) b = simp bit_or-bitwise (bitwise_lowest (λ y. y) max a b)

pub bit_and_lowest : (a b : ℕ) → bit_and a b ≡ bit_and (a / 2) (b / 2) * 2 + min (a % 2) (b % 2)
bit_and_lowest zero b = simp bit_and-bitwise (omega arith)
bit_and_lowest (suc a) b = simp bit_and-bitwise (bitwise_lowest (λ y. 0) min a b)

bit_or-zero_below : (n a : ℕ) → a ≤ n → bit_or a 0 ≡ a
bit_or-zero_below n zero h = refl
bit_or-zero_below zero (suc a) h = absurd (omega arith)
bit_or-zero_below (suc n) (suc a) h =
    omega (arith, bit_or_lowest (suc a) 0, bit_or-zero_below n (suc a / 2) (omega arith))

bit_and-zero_below : (n a : ℕ) → a ≤ n → bit_and a 0 ≡ 0
bit_and-zero_below n zero h = refl
bit_and-zero_below zero (suc a) h = absurd (omega arith)
bit_and-zero_below (suc n) (suc a) h =
    omega (arith, bit_and_lowest (suc a) 0, bit_and-zero_below n (suc a / 2) (omega arith))

pub bit_or-zero : (a : ℕ) → bit_or a 0 ≡ a
bit_or-zero a = bit_or-zero_below a a (omega arith)

pub bit_and-zero : (a : ℕ) → bit_and a 0 ≡ 0
bit_and-zero a = bit_and-zero_below a a (omega arith)

mul-two-pow_suc : (q k : ℕ) → q * 2 ^ suc k ≡ 2 * (q * 2 ^ k)
mul-two-pow_suc q k = omega (arith, ap (λ (t : ℕ). q * t) (pow-suc 2 k))

-- A word whose low k bits are clear, or'ed with k bits, is the sum.
pub bit_or-add : (k q r : ℕ) → r < 2 ^ k → bit_or (q * 2 ^ k) r ≡ q * 2 ^ k + r
bit_or-add zero q r h = ground (arith, bit_or-zero q)
bit_or-add (suc k) q r h = ground (
  arith,
  bit_or_lowest (q * 2 ^ suc k) r,
  mul-two-pow_suc q k,
  bit_or-add k q (r / 2) (omega (arith, pow-suc 2 k)),
)

bit_and_split : (k q r : ℕ) → r < 2 ^ k → bit_and (q * 2 ^ k + r) (2 ^ k - 1) ≡ r
bit_and_split zero q r h = rw bit_and-zero (omega arith)
bit_and_split (suc k) q r h = ground (
  arith,
  bit_and_lowest (q * 2 ^ suc k + r) (2 ^ suc k - 1),
  mul-two-pow_suc q k,
  pow-suc 2 k,
  bit_and_split k q (r / 2) (omega (arith, pow-suc 2 k)),
)

-- A mask of k low bits is the remainder by 2 ^ k.
pub bit_and-mod : (k a : ℕ) → bit_and a (2 ^ k - 1) ≡ a % 2 ^ k
bit_and-mod k a = ground (arith, one-le-pow k 2, bit_and_split k (a / 2 ^ k) (a % 2 ^ k))

pub two-pow_pos : (j : ℕ) → 0 < 2 ^ j
two-pow_pos j = one-le-pow j 2 (omega arith)

pub two-pow_suc : (j : ℕ) → 2 ^ suc j ≡ 2 ^ j + 2 ^ j
two-pow_suc j = omega (arith, pow-suc 2 j)

pub half-two-pow_suc : (j : ℕ) → 2 ^ suc j / 2 ≡ 2 ^ j
half-two-pow_suc j = omega (arith, pow-suc 2 j)

-- A number below 2 ^ j has bit j clear, and with 2 ^ j added it has the bit set.
pub test_bit_low : (j a : ℕ) → a < 2 ^ j → test_bit a (2 ^ j) ≡ false
test_bit_low j a h = rw (div-eq_of_lt h)

pub test_bit_high : (j a : ℕ) → a < 2 ^ j → test_bit (2 ^ j + a) (2 ^ j) ≡ true
test_bit_high j a h = rw quotient
  where
    quotient : (2 ^ j + a) / 2 ^ j ≡ 1
    quotient = omega (arith, add-div_left a (two-pow_pos j), div-eq_of_lt h)

pub mul-two-pow_suc' : (k j : ℕ) → k * 2 ^ suc j ≡ k * 2 * 2 ^ j
mul-two-pow_suc' k j = omega (arith, ap (λ (t : ℕ). k * t) (pow-suc 2 j))

-- Multiples of 2 ^ (j + 1) leave bit j alone.
pub test_bit_add : (j k a : ℕ) → test_bit (k * 2 ^ suc j + a) (2 ^ j) ≡ test_bit a (2 ^ j)
test_bit_add j k a = ap (λ (t : ℕ). t == 1) parity
  where
    parity : (k * 2 ^ suc j + a) / 2 ^ j % 2 ≡ a / 2 ^ j % 2
    parity = omega (
      arith,
      ap (λ (t : ℕ). (t + a) / 2 ^ j) (mul-two-pow_suc' k j),
      mul-add-div_right (two-pow_pos j) (k * 2) a,
    )

test_bit_half : (m y : ℕ) → test_bit y (2 ^ suc m) ≡ test_bit (y / 2) (2 ^ m)
test_bit_half m y = ap (λ (t : ℕ). t % 2 == 1) quotient
  where
    quotient : y / 2 ^ suc m ≡ y / 2 / 2 ^ m
    quotient = rw (pow-succ' 2 m) (sym (div-div-eq-div-mul y 2 (2 ^ m)))

bit_or-half : (k x : ℕ) → bit_or x (2 ^ suc k) / 2 ≡ bit_or (x / 2) (2 ^ k)
bit_or-half k x = omega (arith, rw half-two-pow_suc at (bit_or_lowest x (2 ^ suc k)))

bit_or-one_half : (x : ℕ) → bit_or x 1 / 2 ≡ x / 2
bit_or-one_half x = omega (arith, bit_or_lowest x 1, bit_or-zero (x / 2))

-- Or'ing bit k in sets that bit and keeps every other.
pub test_bit-bit_or :
    (m k x : ℕ) → test_bit (bit_or x (2 ^ k)) (2 ^ m) ≡ (k == m || test_bit x (2 ^ m))
test_bit-bit_or zero zero x = ground (arith, bit_or_lowest x 1)
test_bit-bit_or zero (suc k) x = ground (arith, bit_or_lowest x (2 ^ suc k), pow-suc 2 k)
test_bit-bit_or (suc m) zero x =
    rw (test_bit_half m (bit_or x 1), bit_or-one_half, test_bit_half m x) (ground arith)
test_bit-bit_or (suc m) (suc k) x =
    rw (test_bit_half m (bit_or x (2 ^ suc k)), bit_or-half, test_bit_half m x)
      (ground (arith, test_bit-bit_or m k (x / 2)))
