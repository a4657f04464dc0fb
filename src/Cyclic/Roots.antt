-- ===== src/Cyclic/Roots.antt =====
-- The table of groups in src/xm_cyclic.c: `known_primroot` generates the units modulo `prime`, and
-- `prime_factors` are the prime divisors of their number. So the cycles that are made have generators.
use xmap.Base.{
  ℕ, suc, ◌-◌, ◌/◌, ◌^◌, ◌<◌, ◌≡◌, ◌≢◌, refl, sym, ◌∙◌, true, some, get_elem?, List, [], ◌∷◌, ◌==◌,
  arith, Bool, not, ◌&&◌,
}
use xmap.Base.Divides.{
  IsPrime, no_divisor-IsPrime as prime, EachPrime, HasFactors, product-HasFactors, product,
  all_listed,
}
use native.Mathlib.Nat.{div-le_self}
use xmap.Cyclic.{CyclicGroup, groups}
use xmap.Cyclic.Coprime.{All}
use xmap.Cyclic.Candidate.{AllGroups, from_all}
use xmap.Cyclic.Generator.{
  square_multiply, square_multiply_lem, IsGenerator, NoneEarly, factors-IsGenerator,
}

-- What the table says of a group.
pub record IsGroup (group : CyclicGroup) : Type 0 where
  pub large : 2 < group.prime
  pub bounded : group.prime < 2 ^ 33
  pub root : IsGenerator group.known_primroot group.prime (group.prime - 1)
  pub factors : HasFactors (group.prime - 1) group.prime_factors
  pub nonzero : All (λ f. f ≢ 0) group.prime_factors

-- Whether the powers of g are as they are for a generator, computed.
unfoldable none_early : ℕ → ℕ → ℕ → List ℕ → Bool
none_early g p order [] = true
none_early g p order (f ∷ fs) =
    not (square_multiply 33 g (order / f) p == 1) && none_early g p order fs

none_early-NoneEarly :
    (g p order : ℕ) (fs : List ℕ)
    → order < 2 ^ 33
    → none_early g p order fs ≡ true
    → NoneEarly g p order fs
unfolding none_early
none_early-NoneEarly g p order [] h e = tt
none_early-NoneEarly g p order (f ∷ fs) h e = (
  λ one.
      let below : order / f < 2 ^ 33 = omega (arith, div-le_self order f) in
      let run = square_multiply_lem 33 g (order / f) p below in ground (arith, e, run, one),
  none_early-NoneEarly g p order fs h (ground (arith, e)),
)

computed-IsGenerator :
    (g p order : ℕ) (fs : List ℕ)
    → 1 < p
    → 0 < order
    → order < 2 ^ 33
    → HasFactors order fs
    → square_multiply 33 g order p ≡ 1
    → none_early g p order fs ≡ true
    → IsGenerator g p order
computed-IsGenerator g p order fs big pos small has closes early =
    factors-IsGenerator g p order fs big pos has
      (sym (square_multiply_lem 33 g order p small) ∙ closes)
      (none_early-NoneEarly g p order fs small early)

two : IsPrime 2
two = prime 0 2 refl (omega arith) (omega arith)

three : IsPrime 3
three = prime 0 3 refl (omega arith) (omega arith)

nonzero : (n : ℕ) → suc n ≢ 0
nonzero n e = omega (arith, e)

computed-IsGroup :
    (group : CyclicGroup) (qs : List ℕ)
    → 2 < group.prime
    → group.prime < 2 ^ 33
    → group.prime - 1 ≡ product qs
    → EachPrime qs
    → all_listed qs group.prime_factors ≡ true
    → square_multiply 33 group.known_primroot (group.prime - 1) group.prime ≡ 1
    → none_early group.known_primroot group.prime (group.prime - 1) group.prime_factors ≡ true
    → All (λ f. f ≢ 0) group.prime_factors
    → IsGroup group
computed-IsGroup group qs large bounded whole primes from closes early nonzero =
    let has = product-HasFactors (group.prime - 1) qs group.prime_factors whole primes from in
    record {
      large = large;
      bounded = bounded;
      root =
          computed-IsGenerator group.known_primroot group.prime (group.prime - 1)
            group.prime_factors (omega arith) (omega arith) (omega arith) has closes early;
      factors = has;
      nonzero = nonzero;
    }

IsGroup-8 : IsGroup (record { prime = 257; known_primroot = 3; prime_factors = 2 ∷ [] })
unfolding square_multiply none_early
IsGroup-8 =
    computed-IsGroup _ (2 ∷ 2 ∷ 2 ∷ 2 ∷ 2 ∷ 2 ∷ 2 ∷ 2 ∷ []) (omega arith) (omega arith) refl
      (two, (two, (two, (two, (two, (two, (two, (two, tt)))))))) refl refl refl (nonzero 1, tt)

IsGroup-16 : IsGroup (record { prime = 65537; known_primroot = 3; prime_factors = 2 ∷ [] })
unfolding square_multiply none_early
IsGroup-16 =
    computed-IsGroup _ (2 ∷ 2 ∷ 2 ∷ 2 ∷ 2 ∷ 2 ∷ 2 ∷ 2 ∷ 2 ∷ 2 ∷ 2 ∷ 2 ∷ 2 ∷ 2 ∷ 2 ∷ 2 ∷ [])
      (omega arith) (omega arith) refl
      (
        two,
        (
          two,
          (
            two,
            (
              two,
              (
                two,
                (two, (two, (two, (two, (two, (two, (two, (two, (two, (two, (two, tt))))))))))),
              ),
            ),
          ),
        ),
      )
      refl refl refl (nonzero 1, tt)

IsGroup-24 :
    IsGroup
      (record { prime = 16777259; known_primroot = 2; prime_factors = 2 ∷ 23 ∷ 103 ∷ 3541 ∷ [] })
unfolding square_multiply none_early
IsGroup-24 =
    computed-IsGroup _ (2 ∷ 23 ∷ 103 ∷ 3541 ∷ []) (omega arith) (omega arith) refl
      (
        two,
        (
          prime 3 23 refl (omega arith) (omega arith),
          (
            prime 9 103 refl (omega arith) (omega arith),
            (prime 58 3541 refl (omega arith) (omega arith), tt),
          ),
        ),
      )
      refl refl refl (nonzero 1, (nonzero 22, (nonzero 102, (nonzero 3540, tt))))

IsGroup-28 :
    IsGroup
      (record { prime = 268435459; known_primroot = 2; prime_factors = 2 ∷ 3 ∷ 19 ∷ 87211 ∷ [] })
unfolding square_multiply none_early
IsGroup-28 =
    computed-IsGroup _ (2 ∷ 3 ∷ 3 ∷ 3 ∷ 3 ∷ 19 ∷ 87211 ∷ []) (omega arith) (omega arith) refl
      (
        two,
        (
          three,
          (
            three,
            (
              three,
              (
                three,
                (
                  prime 3 19 refl (omega arith) (omega arith),
                  (prime 294 87211 refl (omega arith) (omega arith), tt),
                ),
              ),
            ),
          ),
        ),
      )
      refl refl refl (nonzero 1, (nonzero 2, (nonzero 18, (nonzero 87210, tt))))

IsGroup-32 : IsGroup (record {
  prime = 4294967311;
  known_primroot = 3;
  prime_factors = 2 ∷ 3 ∷ 5 ∷ 131 ∷ 364289 ∷ [];
})
unfolding square_multiply none_early
IsGroup-32 =
    computed-IsGroup _ (2 ∷ 3 ∷ 3 ∷ 5 ∷ 131 ∷ 364289 ∷ []) (omega arith) (omega arith) refl
      (
        two,
        (
          three,
          (
            three,
            (
              prime 1 5 refl (omega arith) (omega arith),
              (
                prime 10 131 refl (omega arith) (omega arith),
                (prime 602 364289 refl (omega arith) (omega arith), tt),
              ),
            ),
          ),
        ),
      )
      refl refl refl (nonzero 1, (nonzero 2, (nonzero 4, (nonzero 130, (nonzero 364288, tt)))))

all_groups : AllGroups IsGroup groups
all_groups = (IsGroup-8, (IsGroup-16, (IsGroup-24, (IsGroup-28, (IsGroup-32, tt)))))

-- In every group of the table, known_primroot has order prime - 1, and prime_factors hold all prime
-- divisors of prime - 1.
pub groups-IsGroup : (i : ℕ) (group : CyclicGroup) → get_elem? groups i ≡ some group → IsGroup group
groups-IsGroup i group e = from_all IsGroup groups i group all_groups e
