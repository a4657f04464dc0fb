-- ===== src/Cyclic/Generator.antt =====
-- Generators of the units modulo a prime, for the groups of src/xm_cyclic.c: when a number's powers
-- come back to 1, and which of its powers generate as well.
use xmap.Base.{
  ℕ, zero, suc, ◌+◌, ◌-◌, ◌*◌, ◌/◌, ◌%◌, ◌^◌, ◌<◌, ◌≡◌, refl, sym, ap, ◌∙◌, subst, ltb, arith,
  if◌then◌else◌, inl, inr, Bool-cases, List, [], ◌∷◌, ◌==◌, ◌≢◌,
}
use xmap.Base.Modular.{mod-mul-mod, mul-mod-mod, pow-add}
use xmap.Base.Divides.{Divides, common, SomeDivides, Divides→mod, HasFactors, mul-Divides-sub}
use native.Mathlib.Nat.{mod-eq_of_lt, pow-suc, pow-zero, mul_comm, mul_assoc, div-eq_of_eq-mul_left}
use xmap.Cyclic.Coprime.{All}

pub pow-mul : (g a b : ℕ) → g ^ (a * b) ≡ (g ^ a) ^ b
pow-mul g a zero = let e : a * 0 ≡ 0 = omega arith in rw (e, pow-zero g, pow-zero (g ^ a)) refl
pow-mul g a (suc b) =
    let e : a * suc b ≡ a * b + a = omega arith in
    rw (e, pow-add g (a * b) a, pow-mul g a b, pow-suc (g ^ a) b) refl

pub mod-pow : (a n m : ℕ) → (a % m) ^ n % m ≡ a ^ n % m
mod-pow a zero m = rw (pow-zero (a % m), pow-zero a) refl
mod-pow a (suc n) m =
    ap (λ (t : ℕ). t % m) (pow-suc (a % m) n)
    ∙ mul-mod-mod ((a % m) ^ n) a m
    ∙ sym (mod-mul-mod ((a % m) ^ n) a m)
    ∙ ap (λ (t : ℕ). (t * a) % m) (mod-pow a n m)
    ∙ mod-mul-mod (a ^ n) a m
    ∙ ap (λ (t : ℕ). t % m) (sym (pow-suc a n))

-- Powers by squaring.
unfoldable pub square_multiply : ℕ → ℕ → ℕ → ℕ → ℕ
square_multiply zero b e p = 1 % p
square_multiply (suc fuel) b e p =
    let rest = square_multiply fuel (b * b % p) (e / 2) p in
    if e % 2 == 0 then rest else rest * b % p

pub square_multiply_lem : (fuel b e p : ℕ) → e < 2 ^ fuel → square_multiply fuel b e p ≡ b ^ e % p
unfolding square_multiply
square_multiply_lem zero b e p h =
    let none_left : e ≡ 0 = omega arith in rw (none_left, pow-zero b) refl
square_multiply_lem (suc fuel) b e p h =
    let half : e / 2 < 2 ^ fuel = omega (arith, pow-suc 2 fuel) in
    let square : b * b ≡ b ^ 2 = rw (pow-suc b 1, pow-suc b 0, pow-zero b) (omega arith) in
    let rest : square_multiply fuel (b * b % p) (e / 2) p ≡ b ^ (2 * (e / 2)) % p =
      square_multiply_lem fuel (b * b % p) (e / 2) p half
      ∙ mod-pow (b * b) (e / 2) p
      ∙ ap (λ (t : ℕ). t ^ (e / 2) % p) square
      ∙ ap (λ (t : ℕ). t % p) (sym (pow-mul b 2 (e / 2))) in
    elim (Bool-cases (e % 2 == 0)) [
      | inl even ↦
          let same : 2 * (e / 2) ≡ e = ground (arith, even) in
          rw (even, rest) (ap (λ (t : ℕ). b ^ t % p) same)
      | inr odd ↦
          let same : suc (2 * (e / 2)) ≡ e = ground (arith, odd) in
          rw (odd, rest)
            (mod-mul-mod (b ^ (2 * (e / 2))) b p
              ∙ ap (λ (t : ℕ). t % p) (sym (pow-suc b (2 * (e / 2))))
              ∙ ap (λ (t : ℕ). b ^ t % p) same)
    ]

-- A number whose powers modulo p are 1 exactly at the multiples of the order.
pub record IsGenerator (g p order : ℕ) : Type 0 where
  pub closes : g ^ order % p ≡ 1
  pub exact : (e : ℕ) → g ^ e % p ≡ 1 → Divides order e

-- Powers that are 1 modulo p: differences and multiples of exponents.
one-sub : (g p : ℕ) → 1 < p → (a b : ℕ) → g ^ a % p ≡ 1 → g ^ b % p ≡ 1 → g ^ (a - b) % p ≡ 1
one-sub g p big a b ea eb = elim (Bool-cases (ltb a b)) [
  | inl less ↦ let e : a - b ≡ 0 = ground (arith, less) in rw (e, pow-zero g) (mod-eq_of_lt big)
  | inr more ↦
      let e : a ≡ a - b + b = ground (arith, more) in
      let one : g ^ (a - b) * 1 ≡ g ^ (a - b) = omega arith in
      ap (λ (t : ℕ). t % p) (sym one)
      ∙ ap (λ (t : ℕ). (g ^ (a - b) * t) % p) (sym eb)
      ∙ mul-mod-mod (g ^ (a - b)) (g ^ b) p
      ∙ ap (λ (t : ℕ). t % p) (sym (pow-add g (a - b) b))
      ∙ ap (λ (t : ℕ). g ^ t % p) (sym e)
      ∙ ea
]

pub one_pow : (n : ℕ) → 1 ^ n ≡ 1
one_pow zero = refl
one_pow (suc n) = rw (pow-suc 1 n, one_pow n) refl

pub one-mul : (g p d s : ℕ) → 1 < p → g ^ d % p ≡ 1 → g ^ (d * s) % p ≡ 1
one-mul g p d s big e =
    ap (λ (t : ℕ). t % p) (pow-mul g d s)
    ∙ sym (mod-pow (g ^ d) s p)
    ∙ ap (λ (t : ℕ). t ^ s % p) e
    ∙ ap (λ (t : ℕ). t % p) (one_pow s)
    ∙ mod-eq_of_lt big

-- No power of g with an exponent order / f is 1.
abbrev pub NoneEarly : ℕ → ℕ → ℕ → List ℕ → Type 0
NoneEarly g p order = All (λ f. g ^ (order / f) % p ≢ 1)

early :
    (g p order d : ℕ) (fs : List ℕ)
    → 1 < p
    → g ^ d % p ≡ 1
    → (t : ℕ) → order ≡ d * t
    → 0 < t
    → NoneEarly g p order fs
    → SomeDivides fs t
    → ⊥
early g p order d [] big e t et pos none_early some_divides = some_divides
early g p order d (f ∷ fs) big e t et pos none_early (inr there) =
    early g p order d fs big e t et pos none_early.1 there
early g p order d (zero ∷ fs) big e t et pos none_early (inl (s, es)) = absurd (omega (arith, es))
early g p order d (suc f ∷ fs) big e t et pos none_early (inl (s, es)) =
    none_early.0 (ap (λ (x : ℕ). g ^ x % p) quotient ∙ one-mul g p d s big e)
  where
    split : order ≡ d * s * suc f
    split = et ∙ ap (λ (x : ℕ). d * x) (es ∙ mul_comm (suc f) s) ∙ sym (mul_assoc d s (suc f))

    quotient : order / suc f ≡ d * s
    quotient = div-eq_of_eq-mul_left (omega arith) split

-- A number with order-th power 1, and with no earlier one among those that the factors leave.
pub factors-IsGenerator :
    (g p order : ℕ) (fs : List ℕ)
    → 1 < p
    → 0 < order
    → HasFactors order fs
    → g ^ order % p ≡ 1
    → NoneEarly g p order fs
    → IsGenerator g p order
factors-IsGenerator g p order fs big pos has closes none_early = record {
  closes = closes;
  exact = exact;
}
  where
    exact : (e : ℕ) → g ^ e % p ≡ 1 → Divides order e
    exact e one =
        let (d, (de, ((t, et), ed))) =
          common (λ x. g ^ x % p ≡ 1) (one-sub g p big) e order one closes in
        go d t de et ed
      where
        go : (d t : ℕ) → Divides d e → order ≡ d * t → g ^ d % p ≡ 1 → Divides order e
        go d zero de et ed = absurd (omega (arith, et))
        go d (suc zero) de et ed =
            let same : d ≡ order = omega (arith, et) in subst (λ x. Divides x e) same de
        go d (suc (suc t)) de et ed = absurd (
            early g p order d fs big ed (suc (suc t)) et (omega arith) none_early
              (has (suc (suc t)) (d, et ∙ mul_comm d (suc (suc t))) (omega arith)))

not_both : (c d : ℕ) (fs : List ℕ) → All (λ f. c % f ≢ 0) fs → Divides d c → SomeDivides fs d → ⊥
not_both c d [] apart dc some_divides = some_divides
not_both c d (f ∷ fs) apart (m, em) (inl (n, en)) =
    apart.0 (Divides→mod f c (n * m, em ∙ ap (λ (x : ℕ). x * m) en ∙ mul_assoc f n m))
not_both c d (f ∷ fs) apart dc (inr there) = not_both c d fs apart.1 dc there

-- Where no factor divides c, the power with exponent c of a generator is one as well.
pub pow-IsGenerator :
    (g p order c : ℕ) (fs : List ℕ)
    → 1 < p
    → 0 < order
    → HasFactors order fs
    → All (λ f. c % f ≢ 0) fs
    → IsGenerator g p order
    → IsGenerator (g ^ c % p) p order
pow-IsGenerator g p order c fs big pos has apart gen = record {
  closes =
      mod-pow (g ^ c) order p
      ∙ ap (λ (t : ℕ). t % p) (sym (pow-mul g c order))
      ∙ ap (λ (t : ℕ). g ^ t % p) (mul_comm c order)
      ∙ one-mul g p order c big gen.closes;
  exact = exact;
}
  where
    dsub : (e a b : ℕ) → Divides order (a * e) → Divides order (b * e) → Divides order ((a - b) * e)
    dsub e a b = mul-Divides-sub order a b e

    exact : (e : ℕ) → (g ^ c % p) ^ e % p ≡ 1 → Divides order e
    exact e one =
        let product_one : g ^ (c * e) % p ≡ 1 =
          ap (λ (t : ℕ). t % p) (pow-mul g c e) ∙ sym (mod-pow (g ^ c) e p) ∙ one in
        let (d, (dc, ((t, et), (m, em)))) =
          common (λ x. Divides order (x * e)) (dsub e) c order (gen.exact (c * e) product_one)
            (e, refl) in
        go d t m dc et em
      where
        go : (d t m : ℕ) → Divides d c → order ≡ d * t → d * e ≡ order * m → Divides order e
        go zero t m dc et em = absurd (omega (arith, et))
        go (suc zero) t m dc et em = (m, omega (arith, em))
        go (suc (suc d)) t m dc et em =
            absurd (not_both c (suc (suc d)) fs apart dc (has (suc (suc d)) (t, et) (omega arith)))
