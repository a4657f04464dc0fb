-- ===== src/Shard/Orbit.antt =====
-- The elements that a shard of src/xm_shard.c walks through are consecutive powers of the generator.
use xmap.Base.{
  ℕ, zero, suc, ◌+◌, ◌-◌, ◌*◌, ◌%◌, ◌^◌, ◌≤◌, ◌<◌, ◌≡◌, refl, sym, ap, ◌∙◌, ltb, arith,
  if◌then◌else◌, inl, inr, Bool-cases,
}
use xmap.Base.Modular.{mod-mul-mod, mul-mod-mod, pow-add}
use native.Mathlib.Nat.{mod-lt, mod-eq_of_lt, mul-le-mul_right, pow-suc, mul_assoc}
use xmap.Cyclic.{Cycle}
use xmap.Cyclic.Generator.{one-mul}
use xmap.Cyclic.Made.{Turns}
use xmap.Base.Divides.{Divides}
use xmap.Shard.{Params, next_power}
use xmap.Shard.Next.{powers}

-- The element with an exponent.
abbrev pub elem_at : Cycle → ℕ → ℕ
elem_at cycle exponent = cycle.generator ^ exponent % cycle.group.prime

product_small : (a g p bound : ℕ) → a < p → p * g ≤ bound → 0 < bound → a * g < bound
product_small a zero p bound lt fits pos = omega arith
product_small a (suc g) p bound lt fits pos =
    let le : suc a * suc g ≤ p * suc g = mul-le-mul_right (suc g) lt in
    let e : suc a * suc g ≡ a * suc g + suc g = omega arith in omega (arith, le, e)

-- One step of the shard raises the exponent by one.
next_power-elem_at :
    (cycle : Cycle) (params : Params) (e : ℕ)
    → Turns cycle
    → params.factor ≡ cycle.generator
    → params.modulus ≡ cycle.group.prime
    → next_power params (elem_at cycle e) ≡ elem_at cycle (suc e)
next_power-elem_at cycle params e turns factor modulus =
    let low : elem_at cycle e < cycle.group.prime =
      mod-lt (cycle.generator ^ e) (omega (arith, turns.order)) in
    let fits =
      product_small (elem_at cycle e) cycle.generator cycle.group.prime (2 ^ 64) low turns.fits
        (omega arith) in
    rw (factor, modulus, mod-eq_of_lt fits)
      (mod-mul-mod (cycle.generator ^ e) cycle.generator cycle.group.prime
        ∙ ap (λ (t : ℕ). t % cycle.group.prime) (sym (pow-suc cycle.generator e)))

pub powers-elem_at :
    (k e : ℕ) (cycle : Cycle) (params : Params)
    → Turns cycle
    → params.factor ≡ cycle.generator
    → params.modulus ≡ cycle.group.prime
    → powers params k (elem_at cycle e) ≡ elem_at cycle (e + k)
unfolding powers
powers-elem_at zero e cycle params turns factor modulus =
    let same : e + 0 ≡ e = omega arith in rw same refl
powers-elem_at (suc k) e cycle params turns factor modulus =
    let same : e + suc k ≡ suc e + k = omega arith in
    rw (next_power-elem_at cycle params e turns factor modulus, same)
      (powers-elem_at k (suc e) cycle params turns factor modulus)

-- Once around the cycle.
pub elem_at-order :
    (e : ℕ) (cycle : Cycle) → Turns cycle → elem_at cycle (e + cycle.order) ≡ elem_at cycle e
elem_at-order e cycle turns =
    let p = cycle.group.prime in
    let g = cycle.generator in
    let one : g ^ e * 1 ≡ g ^ e = omega arith in
    ap (λ (t : ℕ). t % p) (pow-add g e cycle.order)
    ∙ sym (mul-mod-mod (g ^ e) (g ^ cycle.order) p)
    ∙ ap (λ (t : ℕ). (g ^ e * t) % p) turns.generates.closes
    ∙ ap (λ (t : ℕ). t % p) one

-- The number of steps from one exponent to another, once around where they are the same.
abbrev pub distance : ℕ → ℕ → ℕ → ℕ
distance order from upto = if ltb from upto then upto - from else upto + order - from

pub elem_at-distance :
    (from upto : ℕ) (cycle : Cycle)
    → Turns cycle
    → from < cycle.order
    → elem_at cycle (from + distance cycle.order from upto) ≡ elem_at cycle upto
elem_at-distance from upto cycle turns lt = elim (Bool-cases (ltb from upto)) [
  | inl ahead ↦ let e : from + (upto - from) ≡ upto = ground (arith, ahead) in rw (ahead, e) refl
  | inr behind ↦
      let e : from + (upto + cycle.order - from) ≡ upto + cycle.order = omega arith in
      rw (behind, e) (elem_at-order upto cycle turns)
]

-- Where two elements are the same, their exponents differ by a multiple of the order.
pub elem_at_injective :
    (i j : ℕ) (cycle : Cycle)
    → Turns cycle
    → i ≤ j
    → elem_at cycle i ≡ elem_at cycle j
    → Divides cycle.order (j - i)
elem_at_injective i j cycle turns le e = turns.generates.exact (j - i) (back ∙ one)
  where
    g : ℕ
    g = cycle.generator

    p : ℕ
    p = cycle.group.prime

    inverse : ℕ
    inverse = g ^ (cycle.order * i - i)

    enough : i ≤ cycle.order * i
    enough =
        omega
          (arith, mul-le-mul_right {m = 1} {n = cycle.order} i (omega (arith, turns.some_order)))

    one : inverse * g ^ i % p ≡ 1
    one =
        let whole : cycle.order * i - i + i ≡ cycle.order * i = omega (arith, enough) in
        ap (λ (t : ℕ). t % p) (sym (pow-add g (cycle.order * i - i) i))
        ∙ ap (λ (t : ℕ). g ^ t % p) whole
        ∙ one-mul g p cycle.order i (omega (arith, turns.order, turns.some_order))
            turns.generates.closes

    back : g ^ (j - i) % p ≡ inverse * g ^ i % p
    back =
        let apart : i + (j - i) ≡ j = omega arith in
        let single : 1 * g ^ (j - i) ≡ g ^ (j - i) = omega arith in
        ap (λ (t : ℕ). t % p) (sym single)
        ∙ ap (λ (t : ℕ). (t * g ^ (j - i)) % p) (sym one)
        ∙ mod-mul-mod (inverse * g ^ i) (g ^ (j - i)) p
        ∙ ap (λ (t : ℕ). t % p) (mul_assoc inverse (g ^ i) (g ^ (j - i)))
        ∙ ap (λ (t : ℕ). (inverse * t) % p) (sym (pow-add g i (j - i)))
        ∙ ap (λ (t : ℕ). (inverse * g ^ t) % p) apart
        ∙ sym (mul-mod-mod inverse (g ^ j) p)
        ∙ ap (λ (t : ℕ). (inverse * t) % p) (sym e)
        ∙ mul-mod-mod inverse (g ^ i) p
