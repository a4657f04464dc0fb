-- ===== src/Cyclic/Made.antt =====
-- `xm_make_cycle` of src/xm_cyclic.c: a cycle that is made has a generator.
use xmap.Base.{
  ℕ, suc, ◌+◌, ◌-◌, ◌*◌, ◌%◌, ◌^◌, ◌≤◌, ◌<◌, ◌≡◌, ◌≢◌, refl, ap, some, Option, get_elem?, List, [],
  ◌∷◌, arith,
}
use native.Mathlib.Nat.{mod-lt, mul-le-mul}
use xmap.Cyclic.{
  CyclicGroup, Cycle, Gmp, make_cycle, find_primroot, isomorphism, search_primroot, first_candidate,
  found,
}
use xmap.Cyclic.Coprime.{All, Apart, check_coprime_iff}
use xmap.Cyclic.Candidate.{IsFound, from_all, small_groups, small_groups-IsFound}
use xmap.Cyclic.Generator.{IsGenerator, pow-IsGenerator}
use xmap.Cyclic.Roots.{IsGroup, groups-IsGroup}

-- What a shard relies on of its cycle: the order is that of the units modulo the prime, the generator
-- has this order, and a step's product fits into 64 bits.
pub record Turns (cycle : Cycle) : Type 0 where
  pub order : cycle.group.prime ≡ suc cycle.order
  pub some_order : 1 < cycle.order
  pub generates : IsGenerator cycle.generator cycle.group.prime cycle.order
  pub fits : cycle.group.prime * cycle.generator ≤ 2 ^ 64
  pub small : cycle.group.prime < 2 ^ 64

Apart→mod : (c : ℕ) (fs : List ℕ) → All (Apart c) fs → All (λ f. c % f ≢ 0) fs
Apart→mod c [] apart = tt
Apart→mod c (f ∷ fs) apart = (apart.0.0, Apart→mod c fs apart.1)

-- The power of the root with an exponent that passed generates as well.
pub passes-IsGenerator :
    (group : CyclicGroup) (lo hi : ℕ) {search : _}
    → IsGroup group
    → 0 < lo
    → (f : IsFound group lo hi search)
    → IsGenerator (group.known_primroot ^ f.candidate % group.prime) group.prime (group.prime - 1)
passes-IsGenerator group lo hi g pos f =
    let nonzero : f.candidate ≢ 0 = λ e. omega (arith, e, f.from) in
    pow-IsGenerator group.known_primroot group.prime (group.prime - 1) f.candidate
      group.prime_factors (omega (arith, g.large)) (omega (arith, g.large)) g.factors
      (Apart→mod f.candidate group.prime_factors
        ((check_coprime_iff f.candidate group.prime_factors nonzero g.nonzero).0 f.passes))
      g.root

-- The cycle that is made of a candidate, where its power of the root fits in 32 bits.
pub record IsMade (group : CyclicGroup) (result : Option Cycle) : Type 0 where
  pub cycle : Cycle
  pub returns : result ≡ some cycle
  pub of : cycle.group ≡ group
  pub turns : Turns cycle

find_primroot-found :
    (gmp : Gmp) (fuel : ℕ) (group : CyclicGroup) (word candidate : ℕ)
    → group.prime < 2 ^ 32
    → search_primroot fuel group (first_candidate group word) ≡ found candidate
    → group.known_primroot ^ candidate % group.prime < group.prime
    → find_primroot gmp fuel group word ≡ some (group.known_primroot ^ candidate % group.prime)
unfolding find_primroot isomorphism
find_primroot-found gmp fuel group word candidate small e low =
    let root = group.known_primroot ^ candidate % group.prime in
    let narrow : root % 2 ^ 64 % 2 ^ 32 ≡ root = omega (arith, low) in
    rw (e, find_primroot, gmp.powm_lem group.known_primroot candidate group.prime) (ap some narrow)

make_cycle-IsMade :
    (gmp : Gmp) (fuel : ℕ) (group : CyclicGroup) (word_1 word_2 lo hi : ℕ)
    → IsGroup group
    → 0 < lo
    → group.prime < 2 ^ 32
    → IsFound group lo hi (search_primroot fuel group (first_candidate group word_1))
    → IsMade group (make_cycle gmp fuel group word_1 word_2)
unfolding make_cycle
make_cycle-IsMade gmp fuel group word_1 word_2 lo hi g pos small f =
    let root = group.known_primroot ^ f.candidate % group.prime in
    let low : root < group.prime =
      mod-lt (group.known_primroot ^ f.candidate) (omega (arith, g.large)) in
    rw (find_primroot-found gmp fuel group word_1 f.candidate small f.ends low, make_cycle)
      (record {
        cycle = _;
        returns = refl;
        of = refl;
        turns = record {
          order = omega (arith, g.large);
          some_order = omega (arith, g.large);
          generates = passes-IsGenerator group lo hi g pos f;
          fits = product_fits group.prime root low small;
          small = omega arith;
        };
      })
  where
    product_fits : (p r : ℕ) → r < p → p < 2 ^ 32 → p * r ≤ 2 ^ 64
    product_fits p r lt small =
        let le : p * r ≤ 2 ^ 32 * 2 ^ 32 =
          mul-le-mul {n₂ = 2 ^ 32} {m₂ = 2 ^ 32} (omega arith) (omega arith) in
        omega (arith, le)

-- For each group whose prime fits in 32 bits, and every pair of random words, a cycle over that group is
-- made within prime + 9 rounds of the search, and its generator has as its order the number of
-- units modulo the prime.
pub make_cycle-Turns :
    (gmp : Gmp) (i fuel : ℕ) (group : CyclicGroup) (word_1 word_2 : ℕ)
    → get_elem? small_groups i ≡ some group
    → group.prime + 8 < fuel
    → IsMade group (make_cycle gmp fuel group word_1 word_2)
make_cycle-Turns gmp i fuel group word_1 word_2 e enough =
    let (g, small) = small_IsGroup i group e in
    make_cycle-IsMade gmp fuel group word_1 word_2 1 (group.prime - 1) g (omega arith) small
      (small_groups-IsFound i group word_1 fuel e enough)
  where
    small_IsGroup :
        (i : ℕ) (group : CyclicGroup)
        → get_elem? small_groups i ≡ some group
        → IsGroup group × (group.prime < 2 ^ 32)
    small_IsGroup i group e =
        from_all (λ g. IsGroup g × (g.prime < 2 ^ 32)) small_groups i group
          (
            (groups-IsGroup 0 _ refl, omega arith),
            (
              (groups-IsGroup 1 _ refl, omega arith),
              (
                (groups-IsGroup 2 _ refl, omega arith),
                ((groups-IsGroup 3 _ refl, omega arith), tt),
              ),
            ),
          )
          e
