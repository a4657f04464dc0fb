-- ===== src/Cyclic/Group.antt =====
-- `xm_get_cyclic_group` of src/xm_cyclic.c: the choice of the group.
use xmap.Base.{
  ℕ, ◌<◌, ◌≤◌, ◌≡◌, none, some, List, [], ◌∷◌, ltb, arith, ◌≢◌, subst, inl, inr, Bool-cases,
  Option-cases,
}
use xmap.Cyclic.{CyclicGroup, groups, get_cyclic_group}

-- The chosen group is the first of the list that is larger than the size.
pub data IsFirst (min_size : ℕ) : List CyclicGroup → CyclicGroup → Type 0 where
  here :
      (group : CyclicGroup) (rest : List CyclicGroup)
      → min_size < group.prime
      → IsFirst min_size (group ∷ rest) group
  there :
      (group chosen : CyclicGroup) (rest : List CyclicGroup)
      → group.prime ≤ min_size
      → IsFirst min_size rest chosen
      → IsFirst min_size (group ∷ rest) chosen

get_cyclic_group-IsFirst' :
    (min_size : ℕ) (gs : List CyclicGroup) {chosen : CyclicGroup}
    → get_cyclic_group min_size gs ≡ some chosen
    → IsFirst min_size gs chosen
unfolding get_cyclic_group
get_cyclic_group-IsFirst' min_size [] e = cc
get_cyclic_group-IsFirst' min_size (group ∷ rest) {chosen} e =
    elim (Bool-cases (ltb min_size group.prime)) [
      | inl fits ↦
          subst (IsFirst min_size (group ∷ rest)) (ground arith) (here group rest (ground arith))
      | inr small ↦
          there group chosen rest (ground arith)
            (get_cyclic_group-IsFirst' min_size rest (rw small at e))
    ]

get_cyclic_group-ne-none :
    (min_size : ℕ) → min_size < 4294967311 → get_cyclic_group min_size groups ≢ none
unfolding get_cyclic_group
get_cyclic_group-ne-none min_size h = ground arith

-- Up to the size of the largest group one is found, and it is the smallest that will do.
pub get_cyclic_group-IsFirst :
    (min_size : ℕ)
    → min_size < 4294967311
    → (chosen : CyclicGroup) × (get_cyclic_group min_size groups ≡ some chosen)
      × IsFirst min_size groups chosen
get_cyclic_group-IsFirst min_size h = elim (Option-cases (get_cyclic_group min_size groups)) [
  | inl e ↦ absurd (get_cyclic_group-ne-none min_size h e)
  | inr (chosen, e) ↦ (chosen, e, get_cyclic_group-IsFirst' min_size groups e)
]

-- From that size on the loop runs past the array.
pub get_cyclic_group_overrun :
    (min_size : ℕ) → 4294967311 ≤ min_size → get_cyclic_group min_size groups ≡ none
unfolding get_cyclic_group
get_cyclic_group_overrun min_size h = ground arith
