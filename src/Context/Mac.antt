-- ===== src/Context/Mac.antt =====
-- `parse_mac` of src/xm_context.c.
use xmap.Base.{
  ℕ, zero, suc, ◌+◌, ◌-◌, ◌*◌, ◌/◌, ◌%◌, ◌<◌, ◌≡◌, refl, sym, ap, ◌∙◌, subst, Bool, false, ◌&&◌,
  ◌||◌, not, Option, none, some, List, [], ◌∷◌, ltb, leb, ◌==◌, length, get_or, drop, arith,
  if◌then◌else◌, inl, inr, Bool-cases, Option-cases, some_injective,
}

-- The value of a hexadecimal digit.
unfoldable pub digit : ℕ → Option ℕ
digit c =
    if leb 48 c && leb c 57
    then some (c - 48)
    else if leb 65 c && leb c 70
    then some (c - 55)
    else if leb 97 c && leb c 102
    then some (c - 87)
    else none

-- `isspace`, by which `strtol` skips.
unfoldable pub space : ℕ → Bool
space c = c == 32 || (leb 9 c && leb c 13)

-- What `strtol` with base 16 makes of a string of two characters that it reads to the end; none is a
-- string where something is left. The result is what `b & 0xFF` keeps of it.
unfoldable pub octet : ℕ → ℕ → Option ℕ
octet c d = elim (digit d) [
  | none ↦ none
  | some low ↦ elim (digit c) [
    | some high ↦ some (high * 16 + low)
    | none ↦
        if space c || c == 43 then some low else if c == 45 then some ((256 - low) % 256) else none
  ]
]

-- The loop of `parse_mac` over the octets that are left.
unfoldable pub parse_octets : ℕ → List ℕ → Option (List ℕ)
parse_octets zero s = some []
parse_octets (suc left) s =
    let rest = parse_octets left (drop 3 s) in
    if ltb 0 left && not (get_or s 2 0 == 58)
    then none
    else elim (octet (get_or s 0 0) (get_or s 1 0)) [
      | none ↦ none
      | some b ↦ elim rest [ none ↦ none | some bs ↦ some (b ∷ bs) ]
    ]

-- `parse_mac`: the six bytes, or none where it returns 0.
unfoldable pub parse_mac : List ℕ → Option (List ℕ)
parse_mac s = if ltb (length s) 17 then none else parse_octets 6 s

-- A digit in text, and an address as it is written: pairs of digits with colons between them.
unfoldable pub print_digit : ℕ → ℕ
print_digit n = if ltb n 10 then n + 48 else n + 87

unfoldable pub print_octets : List ℕ → List ℕ
print_octets [] = []
print_octets (b ∷ []) = print_digit (b / 16) ∷ print_digit (b % 16) ∷ []
print_octets (b ∷ bs) = print_digit (b / 16) ∷ print_digit (b % 16) ∷ 58 ∷ print_octets bs

abbrev pub Bytes : List ℕ → Type 0
Bytes [] = Unit {0}
Bytes (b ∷ bs) = (b < 256) × Bytes bs

digit-print_digit : (n : ℕ) → n < 16 → digit (print_digit n) ≡ some n
unfolding digit print_digit
digit-print_digit n h = ground arith

octet-print : (b : ℕ) → b < 256 → octet (print_digit (b / 16)) (print_digit (b % 16)) ≡ some b
unfolding octet
octet-print b h =
    rw (digit-print_digit (b % 16) (omega arith), octet, digit-print_digit (b / 16) (omega arith))
      (ap some (omega arith))

length-print_octets : (b : ℕ) (bs : List ℕ) → length (print_octets (b ∷ bs)) ≡ 3 * length bs + 2
unfolding print_octets
length-print_octets b [] = refl
length-print_octets b (b' ∷ bs) = omega (arith, length-print_octets b' bs)

parse_octets-print :
    (b : ℕ) (bs : List ℕ)
    → Bytes (b ∷ bs)
    → parse_octets (length (b ∷ bs)) (print_octets (b ∷ bs)) ≡ some (b ∷ bs)
unfolding parse_octets print_octets
parse_octets-print b [] bytes = rw (octet-print b bytes.0) refl
parse_octets-print b (b' ∷ bs) bytes =
    rw (octet-print b bytes.0, parse_octets-print b' bs bytes.1) (ground arith)

-- Six bytes that are printed as pairs of digits with colons between them are parsed as those bytes.
pub parse_mac-print_octets :
    (bs : List ℕ) → length bs ≡ 6 → Bytes bs → parse_mac (print_octets bs) ≡ some bs
unfolding parse_mac
parse_mac-print_octets [] six bytes = absurd (omega (arith, six))
parse_mac-print_octets (b ∷ bs) six bytes =
    let long : ltb (length (print_octets (b ∷ bs))) 17 ≡ false =
      ground (arith, length-print_octets b bs, six) in
    let parsed : parse_octets 6 (print_octets (b ∷ bs)) ≡ some (b ∷ bs) =
      subst (λ n. parse_octets n (print_octets (b ∷ bs)) ≡ some (b ∷ bs)) six
        (parse_octets-print b bs bytes) in
    rw (long, parse_mac) parsed

length-parse_octets : (left : ℕ) (s bs : List ℕ) → parse_octets left s ≡ some bs → length bs ≡ left
unfolding parse_octets
length-parse_octets zero s bs e = ap length (some_injective bs [] (sym e))
length-parse_octets (suc left) s bs e = elim (Bool-cases (ltb 0 left && not (get_or s 2 0 == 58))) [
  | inl no_colon ↦ let no = rw no_colon at e in cc
  | inr colon ↦ elim (Option-cases (octet (get_or s 0 0) (get_or s 1 0))) [
    | inl invalid ↦ let no = rw (colon, invalid) at e in cc
    | inr (b, valid) ↦ elim (Option-cases (parse_octets left (drop 3 s))) [
      | inl unparsed ↦ let no = rw (colon, valid, unparsed) at e in cc
      | inr (rest, parsed) ↦
          let same = rw (colon, valid, parsed) at e in
          ap length (some_injective bs (b ∷ rest) (sym same))
          ∙ ap suc (length-parse_octets left (drop 3 s) rest parsed)
    ]
  ]
]

-- What is parsed has six bytes.
pub length-parse_mac : (s bs : List ℕ) → parse_mac s ≡ some bs → length bs ≡ 6
unfolding parse_mac
length-parse_mac s bs e = elim (Bool-cases (ltb (length s) 17)) [
  | inl short ↦ let no = rw short at e in cc
  | inr long ↦ length-parse_octets 6 s bs (rw long at e)
]
