-- ===== src/Context/Parts.antt =====
-- Strings with separators, as src/xm_context.c takes them apart with strchr.
use xmap.Base.{
  ℕ, ◌≡◌, refl, ap, none, some, List, [], ◌∷◌, ◌++◌, ◌==◌, arith, inl, inr, Bool-cases,
  Option-cases, if◌then◌else◌, ◌⊎◌,
}
use xmap.Context.{strchr, comma}

-- The parts of a string between its commas.
unfoldable pub parts : List ℕ → List (List ℕ)
parts [] = [] ∷ []
parts (x ∷ s) = elim (parts s) [
  | [] ↦ []
  | p ∷ ps ↦ if x == comma then [] ∷ p ∷ ps else (x ∷ p) ∷ ps
]

parts_nonempty : (s : List ℕ) → (p : List ℕ) × ((ps : List (List ℕ)) × (parts s ≡ p ∷ ps))
unfolding parts
parts_nonempty [] = ([], ([], refl))
parts_nonempty (x ∷ s) =
    let (p, (ps, e)) = parts_nonempty s in
    elim (Bool-cases (x == comma)) [
      | inl here ↦ ([], (p ∷ ps, rw (e, here) refl))
      | inr other ↦ (x ∷ p, (ps, rw (e, other) refl))
    ]

pub parts_one : (s : List ℕ) → strchr comma s ≡ none → parts s ≡ s ∷ []
unfolding parts strchr
parts_one [] e = refl
parts_one (x ∷ s) e = elim (Bool-cases (x == comma)) [
  | inl here ↦ let no = rw here at e in cc
  | inr other ↦ elim (Option-cases (strchr comma s)) [
    | inl later ↦ rw (parts_one s later, other) refl
    | inr (found, later) ↦ let no = rw (other, later) at e in cc
  ]
]

-- What a search finds: the string is what stands before, the character, and what stands behind it.
pub record IsSplit (c : ℕ) (s before behind : List ℕ) : Type 0 where
  pub returns : strchr c s ≡ some (before, behind)
  pub whole : s ≡ before ++ c ∷ behind
  pub first : strchr c before ≡ none

pub strchr-cases :
    (c : ℕ) (s : List ℕ)
    → (strchr c s ≡ none) ⊎ ((before : List ℕ) × ((behind : List ℕ) × IsSplit c s before behind))
unfolding strchr
strchr-cases c [] = inl refl
strchr-cases c (x ∷ s) = elim (Bool-cases (x == c)) [
  | inl here ↦
      let same : x ≡ c = ground (arith, here) in
      inr ([], (s, record { returns = rw here refl; whole = rw same refl; first = refl }))
  | inr other ↦ elim (strchr-cases c s) [
    | inl later ↦ inl (rw (other, later) refl)
    | inr (before, (behind, split)) ↦ inr (
      x ∷ before,
      (
        behind,
        record {
          returns = rw (other, split.returns) refl;
          whole = ap (λ t. x ∷ t) split.whole;
          first = rw (other, split.first) refl;
        },
      ),
    )
  ]
]

pub parts-append :
    (before behind : List ℕ)
    → strchr comma before ≡ none
    → parts (before ++ comma ∷ behind) ≡ before ∷ parts behind
unfolding parts strchr
parts-append [] behind e = let (p, (ps, nonempty)) = parts_nonempty behind in rw nonempty refl
parts-append (x ∷ before) behind e = elim (Bool-cases (x == comma)) [
  | inl here ↦ let no = rw here at e in cc
  | inr other ↦ elim (Option-cases (strchr comma before)) [
    | inl later ↦ rw (parts-append before behind later, other) refl
    | inr (found, later) ↦ let no = rw (other, later) at e in cc
  ]
]

pub strchr-append_none :
    (c d : ℕ) (before behind : List ℕ)
    → strchr c (before ++ d ∷ behind) ≡ none
    → (strchr c before ≡ none) × (strchr c behind ≡ none)
unfolding strchr
strchr-append_none c d [] behind e = (
  refl,
  elim (Bool-cases (d == c)) [
    | inl here ↦ let no = rw here at e in cc
    | inr other ↦ elim (Option-cases (strchr c behind)) [
      | inl later ↦ later
      | inr (found, later) ↦ let no = rw (other, later) at e in cc
    ]
  ],
)
strchr-append_none c d (x ∷ before) behind e = elim (Bool-cases (x == c)) [
  | inl here ↦ let no = rw here at e in cc
  | inr other ↦ elim (Option-cases (strchr c (before ++ d ∷ behind))) [
    | inl later ↦ let (p, q) = strchr-append_none c d before behind later in (rw (other, p) refl, q)
    | inr (found, later) ↦ let no = rw (other, later) at e in cc
  ]
]
