-- ===== src/Cyclic.antt =====
-- src/xm_cyclic.c: the multiplicative groups in whose order the addresses are visited, and the
-- random choice of a generator. Random words are arguments, in the order in which they are drawn.
pub mod Group
pub mod Coprime
pub mod Candidate
pub mod Generator
pub mod Roots
pub mod Made
mod Tests
use xmap.Base.{
  ℕ, zero, suc, ◌+◌, ◌-◌, ◌%◌, ◌^◌, ◌≡◌, Bool, true, false, ◌&&◌, ◌||◌, Option, none, some, List,
  [], ◌∷◌, ltb, leb, ◌==◌, if◌then◌else◌,
}

-- `struct xm_cyclic_group_t`; the list is the used part of `prime_factors`.
pub record CyclicGroup : Type 0 where
  pub prime : ℕ
  pub known_primroot : ℕ
  pub prime_factors : List ℕ

abbrev pub groups : List CyclicGroup
groups =
    record { prime = 257; known_primroot = 3; prime_factors = 2 ∷ [] }
    ∷ record { prime = 65537; known_primroot = 3; prime_factors = 2 ∷ [] }
    ∷ record { prime = 16777259; known_primroot = 2; prime_factors = 2 ∷ 23 ∷ 103 ∷ 3541 ∷ [] }
    ∷ record { prime = 268435459; known_primroot = 2; prime_factors = 2 ∷ 3 ∷ 19 ∷ 87211 ∷ [] }
    ∷ record {
      prime = 4294967311;
      known_primroot = 3;
      prime_factors = 2 ∷ 3 ∷ 5 ∷ 131 ∷ 364289 ∷ [];
    }
    ∷ []

-- The GMP function `mpz_powm`, with its documented result.
pub record Gmp : Type 0 where
  pub powm : ℕ → ℕ → ℕ → ℕ
  pub powm_lem :
      (base exponent modulus : ℕ) → powm base exponent modulus ≡ base ^ exponent % modulus

-- One round of the loop of `check_coprime`: whether the factor lets the candidate pass; `none` is
-- the division by zero that it makes at 0.
unfoldable pub check_factor : ℕ → ℕ → Option Bool
check_factor check factor =
    if ltb check factor && check == 0
    then none
    else if ltb check factor && factor % check == 0
    then some false
    else if ltb factor check && check % factor == 0
    then some false
    else if factor == check
    then some false
    else some true

unfoldable pub check_coprime : ℕ → List ℕ → Option Bool
check_coprime check [] = some true
check_coprime check (factor ∷ factors) = elim (check_factor check factor) [
  | none ↦ none
  | some false ↦ some false
  | some true ↦ check_coprime check factors
]

-- How the search for a candidate ends: with one, in a division by zero, or not within the fuel.
pub data Search : Type 0 where
  found : ℕ → Search
  fault unfinished : Search

-- The loop of `find_primroot`; `candidate` is a uint32_t.
unfoldable pub search_primroot : ℕ → CyclicGroup → ℕ → Search
search_primroot zero group candidate = unfinished
search_primroot (suc fuel) group candidate = elim (check_coprime candidate group.prime_factors) [
  | none ↦ fault
  | some true ↦ found candidate
  | some false ↦
      search_primroot fuel group
        (if leb group.prime ((candidate + 1) % 2 ^ 32) then 1 else (candidate + 1) % 2 ^ 32)
]

-- The candidate that the search starts from.
unfoldable pub first_candidate : CyclicGroup → ℕ → ℕ
first_candidate group word =
    let candidate = word % 2 ^ 32 % group.prime % 2 ^ 32 in if candidate == 0 then 1 else candidate

-- `xm_isomorphism`
unfoldable pub isomorphism : Gmp → ℕ → CyclicGroup → ℕ
isomorphism gmp additive_elt group = gmp.powm group.known_primroot additive_elt group.prime % 2 ^ 64

-- `find_primroot`; it returns a uint32_t. `none` stands for the two other ends of the search.
unfoldable pub find_primroot : Gmp → ℕ → CyclicGroup → ℕ → Option ℕ
find_primroot gmp fuel group word = elim (search_primroot fuel group (first_candidate group word)) [
  | found candidate ↦ some (isomorphism gmp candidate group % 2 ^ 32)
  | _ ↦ none
]

-- The loop of `xm_get_cyclic_group`. Its bound is the size of the array in bytes, so where no group
-- is large enough it reads past the array: `none`.
unfoldable pub get_cyclic_group : ℕ → List CyclicGroup → Option CyclicGroup
get_cyclic_group min_size [] = none
get_cyclic_group min_size (group ∷ rest) =
    let later = get_cyclic_group min_size rest in
    if ltb min_size group.prime then some group else later

-- `struct xm_cycle_t`
pub record Cycle : Type 0 where
  pub group : CyclicGroup
  pub generator : ℕ
  pub order : ℕ
  pub offset : ℕ

-- `xm_make_cycle`, with the two random words that it draws.
unfoldable pub make_cycle : Gmp → ℕ → CyclicGroup → ℕ → ℕ → Option Cycle
make_cycle gmp fuel group word_1 word_2 = elim (find_primroot gmp fuel group word_1) [
  | none ↦ none
  | some generator ↦ some (record {
    group = group;
    generator = generator;
    order = group.prime - 1;
    offset = word_2 % 2 ^ 32 % group.prime;
  })
]
