-- ===== src/Base/Divides.antt =====
-- Divisors of numbers: a common divisor that keeps what differences keep, and primes.
use Prim.Native.Nat.{ℕ, zero, suc, ◌+◌, ◌-◌, ◌*◌, ◌/◌, ◌%◌, ◌≤◌, ◌<◌}
use mathlib.Core.Path.{◌≡◌, refl, ap, sym, ◌∙◌, subst}
use mathlib.Core.Logic.{◌⊎◌, inl, inr, ◌≢◌}
use mathlib.Core.Bool.{Bool, true, false, ◌&&◌, ◌||◌, not}
use mathlib.Core.List.{List, [], ◌∷◌}
use native.Mathlib.Nat.{
  mul_comm, mul-sub, mul-le-mul, div-add-mod', mul-mod_right, mul_left_comm, eq_of_mul-eq-mul_left,
}
use native.Mathlib.Omega.{arith}
use xmap.Base.Tests.{◌==◌, ltb, ltb→lt, ltb-false→le, Bool-cases}

abbrev pub Divides : ℕ → ℕ → Type 0
Divides a b = (c : ℕ) × (b ≡ a * c)

-- Two numbers with a property that differences keep have a common divisor with it.
module _ (P : ℕ → Type 0) (sub : (a b : ℕ) → P a → P b → P (a - b)) where
  common_below :
      (fuel a b : ℕ) → a + b ≤ fuel → P a → P b → (d : ℕ) × (Divides d a × (Divides d b × P d))
  common_below fuel zero b h pa pb = (b, ((0, omega arith), ((1, omega arith), pb)))
  common_below fuel (suc a) zero h pa pb = (suc a, ((1, omega arith), ((0, omega arith), pa)))
  common_below zero (suc a) (suc b) h pa pb = absurd (omega arith)
  common_below (suc fuel) (suc a) (suc b) h pa pb = elim (Bool-cases (ltb a b)) [
    | inl less ↦
        let lt : a < b = ltb→lt a b less in
        let (d, ((m, em), ((n, en), pd))) =
          common_below fuel (suc a) (suc b - suc a) (omega arith) pa (sub (suc b) (suc a) pb pa) in
        (d, ((m, em), ((m + n, omega (arith, em, en)), pd)))
    | inr more ↦
        let le : b ≤ a = ltb-false→le a b more in
        let (d, ((m, em), ((n, en), pd))) =
          common_below fuel (suc a - suc b) (suc b) (omega arith) (sub (suc a) (suc b) pa pb) pb in
        (d, ((n + m, omega (arith, em, en)), ((n, en), pd)))
  ]

  pub common : (a b : ℕ) → P a → P b → (d : ℕ) × (Divides d a × (Divides d b × P d))
  common a b pa pb = common_below (a + b) a b (omega arith) pa pb

pub record IsPrime (q : ℕ) : Type 0 where
  pub large : 1 < q
  pub only : (d : ℕ) → Divides d q → (d ≡ 1) ⊎ (d ≡ q)

-- Either a divisor or not.
pub Divides-cases : (q a : ℕ) → 0 < q → Divides q a ⊎ (a % q ≢ 0)
Divides-cases q a pos = elim (Bool-cases (a % q == 0)) [
  | inl e ↦
      let none_left : a % q ≡ 0 = ground (arith, e) in
      inl (a / q, omega (arith, div-add-mod' a q, mul_comm q (a / q), none_left))
  | inr ne ↦ inr (λ e. ground (arith, ne, e))
]

pub Divides→mod : (q a : ℕ) → Divides q a → a % q ≡ 0
Divides→mod q a (c, e) = ap (λ (t : ℕ). t % q) e ∙ mul-mod_right q c

pub mul-Divides-sub :
    (q a b u : ℕ) → Divides q (a * u) → Divides q (b * u) → Divides q ((a - b) * u)
mul-Divides-sub q a b u (m, em) (n, en) = (
  m - n,
  mul_comm (a - b) u
      ∙ mul-sub u a b
      ∙ ap₂' (mul_comm u a ∙ em) (mul_comm u b ∙ en)
      ∙ sym (mul-sub q m n),
)
  where
    ap₂' : {x x' y y' : ℕ} → x ≡ x' → y ≡ y' → x - y ≡ x' - y'
    ap₂' e e' = cc

-- Euclid's lemma.
pub IsPrime-mul : (q a u : ℕ) → IsPrime q → Divides q (a * u) → a % q ≢ 0 → Divides q u
IsPrime-mul q a u prime divides apart =
    let (d, (dq, (da, (m, em)))) =
      common (λ x. Divides q (x * u)) (λ x y. mul-Divides-sub q x y u) q a (u, refl) divides in
    elim (prime.only d dq) [
      | inl one ↦ (m, omega (arith, ap (λ (t : ℕ). t * u) one, em))
      | inr same ↦ absurd (apart (Divides→mod q a (subst (λ t. Divides t a) same da)))
    ]

abbrev pub product : List ℕ → ℕ
product [] = 1
product (q ∷ qs) = q * product qs

abbrev pub EachPrime : List ℕ → Type 0
EachPrime [] = Unit {0}
EachPrime (q ∷ qs) = IsPrime q × EachPrime qs

abbrev pub SomeDivides : List ℕ → ℕ → Type 0
SomeDivides [] t = ⊥
SomeDivides (q ∷ qs) t = Divides q t ⊎ SomeDivides qs t

not_one : (t c : ℕ) → 1 < t → 1 ≡ t * c → ⊥
not_one t zero big e = omega (arith, e)
not_one t (suc c) big e = let split : t * suc c ≡ t + t * c = omega arith in omega (arith, e, split)

-- A divisor of a product of primes, other than 1, is divided by one of them.
pub SomeDivides-of_product :
    (qs : List ℕ) (t : ℕ) → EachPrime qs → Divides t (product qs) → 1 < t → SomeDivides qs t
SomeDivides-of_product [] t primes (c, e) big = absurd (not_one t c big e)
SomeDivides-of_product (q ∷ qs) t primes (c, e) big =
    let prime = primes.0 in
    elim (Divides-cases q t (omega (arith, prime.large))) [
      | inl here ↦ inl here
      | inr apart ↦
          let (m, em) = IsPrime-mul q t c prime (product qs, sym e) apart in
          let turned : q * product qs ≡ q * (t * m) =
            e ∙ ap (λ (x : ℕ). t * x) em ∙ mul_left_comm t q m in
          inr (
            SomeDivides-of_product qs t primes.1
              (m, eq_of_mul-eq-mul_left q (omega (arith, prime.large)) _ _ turned) big)
    ]

-- No divisor from 2 to n + 1.
abbrev pub no_divisor : ℕ → ℕ → Bool
no_divisor zero q = true
no_divisor (suc n) q = not (q % (n + 2) == 0) && no_divisor n q

no_divisor-apart : (n q d : ℕ) → no_divisor n q ≡ true → 2 ≤ d → d ≤ n + 1 → Divides d q → ⊥
no_divisor-apart zero q d h le le' divides = omega arith
no_divisor-apart (suc n) q d h le le' divides = elim (Bool-cases (d == n + 2)) [
  | inl last ↦
      let same : d ≡ n + 2 = ground (arith, last) in
      let no_rest : q % (n + 2) ≡ 0 = subst (λ t. q % t ≡ 0) same (Divides→mod d q divides) in
      ground (arith, h, no_rest)
  | inr before ↦
      let below : d ≤ n + 1 = ground (arith, before, le') in
      no_divisor-apart n q d (ground (arith, h)) le below divides
]

-- Trial division up to the square root.
pub no_divisor-IsPrime :
    (n q : ℕ) → no_divisor n q ≡ true → 1 < q → q < (n + 2) * (n + 2) → IsPrime q
no_divisor-IsPrime n q h big bound = record { large = big; only = only }
  where
    only : (d : ℕ) → Divides d q → (d ≡ 1) ⊎ (d ≡ q)
    only zero (c, e) = absurd (omega (arith, e))
    only (suc zero) (c, e) = inl refl
    only (suc (suc d)) (zero, e) = absurd (omega (arith, e))
    only (suc (suc d)) (suc zero, e) = inr (omega (arith, e))
    only (suc (suc d)) (suc (suc c), e) = elim (Bool-cases (ltb (n + 1) (suc (suc d)))) [
      | inr small ↦ absurd (
          no_divisor-apart n q (suc (suc d)) h (omega arith) (ltb-false→le _ _ small)
            (suc (suc c), e))
      | inl large ↦ elim (Bool-cases (ltb (n + 1) (suc (suc c)))) [
        | inr small ↦ absurd (
            no_divisor-apart n q (suc (suc c)) h (omega arith) (ltb-false→le _ _ small)
              (suc (suc d), e ∙ mul_comm (suc (suc d)) (suc (suc c))))
        | inl large' ↦
            let lt = ltb→lt _ _ large in
            let lt' = ltb→lt _ _ large' in
            let le : (n + 2) * (n + 2) ≤ suc (suc d) * suc (suc c) =
              mul-le-mul (omega (arith, lt)) (omega (arith, lt')) in
            absurd (omega (arith, bound, e, le))
      ]
    ]

-- The prime divisors of a number are among those of a list.
abbrev pub HasFactors : ℕ → List ℕ → Type 0
HasFactors n fs = (t : ℕ) → Divides t n → 1 < t → SomeDivides fs t

abbrev listed : ℕ → List ℕ → Bool
listed q [] = false
listed q (f ∷ fs) = q == f || listed q fs

abbrev pub all_listed : List ℕ → List ℕ → Bool
all_listed [] fs = true
all_listed (q ∷ qs) fs = listed q fs && all_listed qs fs

listed-SomeDivides : (q t : ℕ) (fs : List ℕ) → listed q fs ≡ true → Divides q t → SomeDivides fs t
listed-SomeDivides q t [] h divides = cc
listed-SomeDivides q t (f ∷ fs) h divides = elim (Bool-cases (q == f)) [
  | inl same ↦ let e : q ≡ f = ground (arith, same) in inl (subst (λ x. Divides x t) e divides)
  | inr other ↦ inr (listed-SomeDivides q t fs (rw other at h) divides)
]

SomeDivides-listed :
    (qs fs : List ℕ) (t : ℕ) → all_listed qs fs ≡ true → SomeDivides qs t → SomeDivides fs t
SomeDivides-listed [] fs t h some_divides = absurd some_divides
SomeDivides-listed (q ∷ qs) fs t h (inl here) = listed-SomeDivides q t fs (ground (arith, h)) here
SomeDivides-listed (q ∷ qs) fs t h (inr there) =
    SomeDivides-listed qs fs t (ground (arith, h)) there

-- A factorization into primes of the list.
pub product-HasFactors :
    (n : ℕ) (qs fs : List ℕ)
    → n ≡ product qs
    → EachPrime qs
    → all_listed qs fs ≡ true
    → HasFactors n fs
product-HasFactors n qs fs e primes h t (c, divides) big =
    SomeDivides-listed qs fs t h (SomeDivides-of_product qs t primes (c, sym e ∙ divides) big)
