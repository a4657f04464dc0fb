-- ===== src/Cyclic/Candidate.antt =====
-- The search of `find_primroot` (src/xm_cyclic.c): when it ends, with what, and when it divides by
-- zero.
use xmap.Base.{
  ℕ, zero, suc, ◌+◌, ◌-◌, ◌%◌, ◌^◌, ◌<◌, ◌≤◌, ◌≡◌, ◌≢◌, refl, true, false, none, some,
  some_injective, subst, get_elem?, List, [], ◌∷◌, ltb, leb, if◌then◌else◌, arith, ◌⊎◌, inl, inr,
  Bool-cases, ltb→lt, take,
}
use native.Mathlib.Nat.{mod-lt}
use xmap.Cyclic.{
  CyclicGroup, groups, check_coprime, check_factor, Search, found, fault, search_primroot,
  first_candidate,
}
use xmap.Cyclic.Coprime.{check_coprime-total}

-- The search ends with a candidate that passed.
pub record IsFound (group : CyclicGroup) (lo hi : ℕ) (result : Search) : Type 0 where
  pub candidate : ℕ
  pub ends : result ≡ found candidate
  pub passes : check_coprime candidate group.prime_factors ≡ some true
  pub from : lo ≤ candidate
  pub upto : candidate ≤ hi

next_candidate : CyclicGroup → ℕ → ℕ
next_candidate group c = if leb group.prime ((c + 1) % 2 ^ 32) then 1 else (c + 1) % 2 ^ 32

module _ (group : CyclicGroup) (fuel c : ℕ) where
  search-here :
      check_coprime c group.prime_factors ≡ some true → search_primroot (suc fuel) group c ≡ found c
  unfolding search_primroot
  search-here e = rw (e, search_primroot)

  search-next :
      check_coprime c group.prime_factors ≡ some false
      → search_primroot (suc fuel) group c ≡ search_primroot fuel group (next_candidate group c)
  unfolding search_primroot next_candidate
  search-next e = rw (e, search_primroot)

  search-fault :
      check_coprime c group.prime_factors ≡ none → search_primroot (suc fuel) group c ≡ fault
  unfolding search_primroot
  search-fault e = rw (e, search_primroot)

IsFound-from :
    {group : CyclicGroup} {lo lo' hi hi' : ℕ} {result : Search}
    → lo' ≤ lo
    → hi ≤ hi'
    → IsFound group lo hi result
    → IsFound group lo' hi' result
IsFound-from h h' k = record {
  candidate = k.candidate;
  ends = k.ends;
  passes = k.passes;
  from = omega arith;
  upto = omega arith;
}

module _ (group : CyclicGroup) (w : ℕ)
    (passes : check_coprime w group.prime_factors ≡ some true) where
  not_yet : (c : ℕ) → check_coprime c group.prime_factors ≡ some false → c ≢ w
  not_yet c e same = cc

  -- Upwards from c to a candidate w that passes, where neither the prime nor the word is exceeded.
  pub search_up :
      (fuel c : ℕ)
      → w < group.prime
      → w < 2 ^ 32
      → 0 < c
      → c ≤ w
      → w - c < fuel
      → IsFound group c w (search_primroot fuel group c)
  search_up zero c hp hw pos le h = elim h [ ]
  search_up (suc fuel) c hp hw pos le h =
      elim (check_coprime-total c group.prime_factors (omega arith)) [
        | inl here ↦
            rw (search-here group fuel c here)
              (record { candidate = c; ends = refl; passes = here; from = omega arith; upto = le })
        | inr later ↦
            let ne : c ≢ w = not_yet c later in
            let next : next_candidate group c ≡ c + 1 = unfold next_candidate in ground arith in
            rw (search-next group fuel c later, next)
              (IsFound-from (omega arith) (omega arith)
                (search_up fuel (c + 1) hp hw (omega arith) (omega arith) (omega arith)))
      ]

  -- In a group whose prime fits in 32 bits the search goes round to w at the latest.
  pub search_round :
      (fuel c : ℕ)
      → w < group.prime
      → group.prime < 2 ^ 32
      → 0 < w
      → 0 < c
      → c < group.prime
      → group.prime - c + w < fuel
      → IsFound group 1 (group.prime - 1) (search_primroot fuel group c)
  search_round zero c hp hg hw pos lt h = elim h [ ]
  search_round (suc fuel) c hp hg hw pos lt h =
      elim (check_coprime-total c group.prime_factors (omega arith)) [
        | inl here ↦ rw (search-here group fuel c here) (record {
          candidate = c;
          ends = refl;
          passes = here;
          from = omega arith;
          upto = omega arith;
        })
        | inr later ↦
            rw (search-next group fuel c later) (elim (Bool-cases (ltb (c + 1) group.prime)) [
              | inl small ↦
                  let next : next_candidate group c ≡ c + 1 =
                    unfold next_candidate in ground arith in
                  let room : c + 1 < group.prime = ltb→lt _ _ small in
                  rw next (search_round fuel (c + 1) hp hg hw (omega arith) room (omega arith))
              | inr last ↦
                  let next : next_candidate group c ≡ 1 = unfold next_candidate in ground arith in
                  rw next (
                    IsFound-from (omega arith) (omega arith)
                      (search_up fuel 1 hp (omega arith) (omega arith) (omega arith) (omega arith)))
            ])
      ]

first_candidate_bounds :
    (group : CyclicGroup) (word : ℕ)
    → 1 < group.prime
    → group.prime < 2 ^ 32
    → (0 < first_candidate group word) × (first_candidate group word < group.prime)
unfolding first_candidate
first_candidate_bounds group word h hg =
    let low : word % 2 ^ 32 % group.prime < group.prime = mod-lt (word % 2 ^ 32) (omega arith) in
    let same : word % 2 ^ 32 % group.prime % 2 ^ 32 ≡ word % 2 ^ 32 % group.prime = omega arith in
    ground (arith, low, same)

-- The groups whose primes fit in 32 bits, and the largest one.
abbrev pub small_groups : List CyclicGroup
small_groups = take 4 groups

abbrev pub cyclic_32 : CyclicGroup
cyclic_32 = record {
  prime = 4294967311;
  known_primroot = 3;
  prime_factors = 2 ∷ 3 ∷ 5 ∷ 131 ∷ 364289 ∷ [];
}

abbrev pub AllGroups : (CyclicGroup → Type 0) → List CyclicGroup → Type 0
AllGroups P [] = Unit {0}
AllGroups P (g ∷ gs) = P g × AllGroups P gs

-- The search for a generator of the group ends, whatever the random word.
abbrev EndsFound : CyclicGroup → Type 0
EndsFound group =
    (word fuel : ℕ)
    → group.prime + 8 < fuel
    → IsFound group 1 (group.prime - 1) (search_primroot fuel group (first_candidate group word))

ends_found :
    (group : CyclicGroup) (w : ℕ)
    → check_coprime w group.prime_factors ≡ some true
    → w < group.prime
    → group.prime < 2 ^ 32
    → 0 < w
    → w < 8
    → EndsFound group
ends_found group w passes hp hg pos low word fuel h =
    let start = first_candidate_bounds group word (omega arith) hg in
    search_round group w passes fuel (first_candidate group word) hp hg pos start.0 start.1
      (omega (arith, start))

all_small : AllGroups EndsFound small_groups
unfolding check_coprime check_factor
all_small = (
  ends_found _ 3 refl (omega arith) (omega arith) (omega arith) (omega arith),
  (
    ends_found _ 3 refl (omega arith) (omega arith) (omega arith) (omega arith),
    (
      ends_found _ 3 refl (omega arith) (omega arith) (omega arith) (omega arith),
      (ends_found _ 5 refl (omega arith) (omega arith) (omega arith) (omega arith), tt),
    ),
  ),
)

pub from_all :
    (P : CyclicGroup → Type 0) (gs : List CyclicGroup) (i : ℕ) (group : CyclicGroup)
    → AllGroups P gs
    → get_elem? gs i ≡ some group
    → P group
from_all P [] i group all e = cc
from_all P (g ∷ gs) zero group all e = subst P (some_injective _ _ e) all.0
from_all P (g ∷ gs) (suc i) group all e = from_all P gs i group all.1 e

-- In each group whose prime fits in 32 bits, the search for a generator returns a candidate that
-- passed, from 1 to the group's order, for every random word, within prime + 9 rounds.
pub small_groups-IsFound :
    (i : ℕ) (group : CyclicGroup) (word fuel : ℕ)
    → get_elem? small_groups i ≡ some group
    → group.prime + 8 < fuel
    → IsFound group 1 (group.prime - 1) (search_primroot fuel group (first_candidate group word))
small_groups-IsFound i group word fuel e enough =
    from_all EndsFound small_groups i group all_small e word fuel enough

-- In the largest group the search ends with a candidate for every word whose low 32 bits are at
-- most 2^32 - 3.
pub cyclic_32-IsFound :
    (word fuel : ℕ)
    → word % 2 ^ 32 ≤ 4294967293
    → 2 ^ 32 < fuel
    → IsFound cyclic_32 1 4294967293
        (search_primroot fuel cyclic_32 (first_candidate cyclic_32 word))
unfolding check_coprime check_factor
cyclic_32-IsFound word fuel h enough = IsFound-from pos (omega arith) (
    search_up cyclic_32 4294967293 refl fuel (first_candidate cyclic_32 word) (omega arith)
      (omega arith) pos upto (omega arith))
  where
    pos : 0 < first_candidate cyclic_32 word
    pos = unfold first_candidate in ground arith

    upto : first_candidate cyclic_32 word ≤ 4294967293
    upto = unfold first_candidate in ground arith

from_last : (fuel : ℕ) → search_primroot (suc (suc fuel)) cyclic_32 4294967295 ≡ fault
unfolding search_primroot check_coprime check_factor
from_last fuel = refl

from_last_but_one : (fuel : ℕ) → search_primroot (suc (suc (suc fuel))) cyclic_32 4294967294 ≡ fault
unfolding search_primroot check_coprime check_factor
from_last_but_one fuel = refl

-- For the two words above it wraps round to 0 and divides by zero.
pub cyclic_32_fault :
    (word fuel : ℕ)
    → 4294967294 ≤ word % 2 ^ 32
    → search_primroot (suc (suc (suc fuel))) cyclic_32 (first_candidate cyclic_32 word) ≡ fault
cyclic_32_fault word fuel h = elim first [
  | inl e ↦ rw e (from_last_but_one fuel)
  | inr e ↦ rw e (from_last (suc fuel))
]
  where
    first :
        (first_candidate cyclic_32 word ≡ 4294967294)
        ⊎ (first_candidate cyclic_32 word ≡ 4294967295)
    first = unfold first_candidate in ground arith
