-- ===== src/Base/Tally.antt =====
-- How many numbers below a bound pass a test: the specification of every counter.
use Prim.Native.Nat.{ℕ, zero, suc, ◌+◌, ◌*◌, ◌/◌, ◌^◌, ◌≤◌, ◌<◌}
use mathlib.Core.Path.{◌≡◌, refl, ap}
use mathlib.Core.Bool.{Bool, true, false, ◌&&◌, ◌||◌}
use mathlib.Core.Logic.{◌⊎◌, inl, inr}
use native.Mathlib.Omega.{arith}
use xmap.Base.Tests.{if◌then◌else◌}

pub tally : (ℕ → Bool) → ℕ → ℕ
tally f zero = 0
tally f (suc n) = (if f n then 1 else 0) + tally f n

pub tally-add :
    (f g : ℕ → Bool) (m n : ℕ)
    → ((i : ℕ) → i < n → f (m + i) ≡ g i)
    → tally f (m + n) ≡ tally f m + tally g n
unfolding tally
tally-add f g m zero h = let e : m + 0 ≡ m = omega arith in rw e (omega arith)
tally-add f g m (suc n) h =
    let e : m + suc n ≡ suc (m + n) = omega arith in
    rw (e, h n (omega arith)) (omega (arith, tally-add f g m n (λ i p. h i (omega arith))))

pub tally_ext : (f g : ℕ → Bool) (n : ℕ) → ((i : ℕ) → i < n → f i ≡ g i) → tally f n ≡ tally g n
unfolding tally
tally_ext f g zero h = refl
tally_ext f g (suc n) h =
    rw (h n (omega arith)) (omega (arith, tally_ext f g n (λ i p. h i (omega arith))))

pub tally_none : (f : ℕ → Bool) (n : ℕ) → ((i : ℕ) → i < n → f i ≡ false) → tally f n ≡ 0
unfolding tally
tally_none f zero h = refl
tally_none f (suc n) h =
    rw (h n (omega arith)) (omega (arith, tally_none f n (λ i p. h i (omega arith))))

pub tally_all : (f : ℕ → Bool) (n : ℕ) → ((i : ℕ) → i < n → f i ≡ true) → tally f n ≡ n
unfolding tally
tally_all f zero h = refl
tally_all f (suc n) h =
    rw (h n (omega arith)) (omega (arith, tally_all f n (λ i p. h i (omega arith))))

-- The number of passing values before a passing value identifies it.
pub tally-le : (f : ℕ → Bool) (m n : ℕ) → m ≤ n → tally f m ≤ tally f n
unfolding tally
tally-le f m zero h = let e : m ≡ 0 = omega arith in rw e (omega arith)
tally-le f m (suc n) h = grind (arith, tally-le f m n)

pub tally-suc : (f : ℕ → Bool) (n : ℕ) → tally f (suc n) ≡ (if f n then 1 else 0) + tally f n
unfolding tally
tally-suc f n = refl

-- Two tests that never pass together.
pub tally_or :
    (f g h : ℕ → Bool) (n : ℕ)
    → ((i : ℕ) → i < n → (f i ≡ (g i || h i)) × ((g i && h i) ≡ false))
    → tally f n ≡ tally g n + tally h n
unfolding tally
tally_or f g h zero e = omega arith
tally_or f g h (suc n) e =
    ground (arith, e n (omega arith), tally_or f g h n (λ i p. e i (omega arith)))

pub tally_const :
    (f : ℕ → Bool) (b : Bool) (n : ℕ)
    → ((i : ℕ) → i < n → f i ≡ b)
    → tally f n ≡ (if b then n else 0)
tally_const f true n h = tally_all f n h
tally_const f false n h = tally_none f n h

-- A test of the quotient passes for whole blocks.
pub tally_blocks :
    (g : ℕ → Bool) (k : ℕ) → tally (λ a. g (a / 2 ^ 12)) (k * 2 ^ 12) ≡ tally g k * 2 ^ 12
tally_blocks g zero = unfold tally in refl
tally_blocks g (suc k) =
    let split : suc k * 2 ^ 12 ≡ k * 2 ^ 12 + 2 ^ 12 = omega arith in
    rw
      (
        split,
        tally-add (λ a. g (a / 2 ^ 12)) (λ a. g k) (k * 2 ^ 12) (2 ^ 12)
            (λ i p. ap g (omega arith)),
        tally_const (λ a. g k) (g k) (2 ^ 12) (λ i p. refl),
      )
      (ground (arith, tally_blocks g k, tally-suc g k))

pub tally-le_bound : (f : ℕ → Bool) (n : ℕ) → tally f n ≤ n
unfolding tally
tally-le_bound f zero = omega arith
tally-le_bound f (suc n) = ground (arith, tally-le_bound f n)

-- A passing value raises the count of all values above it.
pub tally-lt : (f : ℕ → Bool) (a n : ℕ) → f a ≡ true → a < n → tally f a < tally f n
tally-lt f a n e h = ground (arith, tally-suc f a, tally-le f (suc a) n h)

pub tally_injective :
    (f : ℕ → Bool) (a b : ℕ) → f a ≡ true → f b ≡ true → tally f a ≡ tally f b → a ≡ b
tally_injective f a b ea eb e = elim (compare_cases a b) [
  | inl lt ↦ absurd (omega (arith, tally-lt f a b ea lt))
  | inr (inl gt) ↦ absurd (omega (arith, tally-lt f b a eb gt))
  | inr (inr eq) ↦ eq
]
  where
    compare_cases : (a b : ℕ) → (a < b) ⊎ ((b < a) ⊎ (a ≡ b))
    compare_cases a b = grind arith

pub tally-zero : (f : ℕ → Bool) → tally f 0 ≡ 0
unfolding tally
tally-zero f = refl
