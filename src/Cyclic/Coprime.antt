-- ===== src/Cyclic/Coprime.antt =====
-- `check_coprime` of src/xm_cyclic.c against divisibility.
use xmap.Base.{
  ℕ, ◌%◌, ◌<◌, ◌≡◌, ◌≢◌, refl, true, false, none, some, List, [], ◌∷◌, arith, ◌↔◌, ◌⊎◌, inl, inr,
}
use native.Mathlib.Nat.{mod-eq_of_lt, mod_self}
use xmap.Cyclic.{check_coprime, check_factor}

abbrev pub All : (ℕ → Type 0) → List ℕ → Type 0
All P [] = Unit {0}
All P (x ∷ xs) = P x × All P xs

-- The factor neither divides the candidate nor is divided by it.
abbrev pub Apart : ℕ → ℕ → Type 0
Apart check f = (check % f ≢ 0) × (f % check ≢ 0)

check_factor_total : (check f : ℕ) → check ≢ 0 → check_factor check f ≢ none
unfolding check_factor
check_factor_total check f h = ground arith

check_factor_iff :
    (check f : ℕ) → check ≢ 0 → f ≢ 0 → (check_factor check f ≡ some true) ↔ Apart check f
unfolding check_factor
check_factor_iff check f hc hf = elim (order check f) [
  | inl below ↦ let small : check % f ≡ check = mod-eq_of_lt below in ground arith
  | inr (inl above) ↦ let small : f % check ≡ f = mod-eq_of_lt above in ground arith
  | inr (inr same) ↦ let zero_rest : check % f ≡ 0 = rw same (mod_self f) in ground arith
]
  where
    order : (a b : ℕ) → (a < b) ⊎ ((b < a) ⊎ (a ≡ b))
    order a b = grind arith

-- A candidate other than 0 passes exactly if it is apart from every factor: no factor divides it,
-- and it divides none. So 1 is refused.
pub check_coprime_iff :
    (check : ℕ) (factors : List ℕ)
    → check ≢ 0
    → All (λ f. f ≢ 0) factors
    → (check_coprime check factors ≡ some true) ↔ All (Apart check) factors
unfolding check_coprime
check_coprime_iff check [] h pos = (λ _. tt, λ _. refl)
check_coprime_iff check (f ∷ fs) h pos = (
  λ e. (
    (check_factor_iff check f h pos.0).0 (head_passes e),
    (check_coprime_iff check fs h pos.1).0 (rest_passes e),
  ),
  λ apart.
      rw ((check_factor_iff check f h pos.0).1 apart.0, check_coprime)
        ((check_coprime_iff check fs h pos.1).1 apart.1),
)
  where
    head_passes : check_coprime check (f ∷ fs) ≡ some true → check_factor check f ≡ some true
    head_passes e = ground arith

    rest_passes : check_coprime check (f ∷ fs) ≡ some true → check_coprime check fs ≡ some true
    rest_passes e = ground arith

-- Only 0 makes it divide by zero.
pub check_coprime-total :
    (check : ℕ) (factors : List ℕ)
    → check ≢ 0
    → (check_coprime check factors ≡ some true) ⊎ (check_coprime check factors ≡ some false)
unfolding check_coprime
check_coprime-total check [] h = ground arith
check_coprime-total check (f ∷ fs) h =
    ground (arith, check_factor_total check f h, check_coprime-total check fs h)
