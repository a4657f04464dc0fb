-- ===== src/Pbm/Laws.antt =====
-- lib/common/xm_pbm.c as a set of 32-bit values.
use xmap.Base.{
  ℕ, ◌+◌, ◌/◌, ◌%◌, ◌^◌, ◌<◌, ◌≡◌, refl, sym, Bool, true, false, ◌||◌, Option, none, some, List, [],
  ◌∷◌, ◌==◌, if◌then◌else◌, arith, length, ◌∙◌, Bool-cases, inl, inr,
}
use native.Mathlib.Nat.{zero-div}
use xmap.Base.Bits.{test_bit-bit_or}
use xmap.Pbm.{
  Bitmap, Page, init, check, set, page_check, page_set, page_or_new, load_lines, before_comment,
}

page_check-set : (bm : Page) (v w : ℕ) → page_check (page_set bm v) w ≡ (v == w || page_check bm w)
unfolding page_check page_set
page_check-set bm v w = ground (arith, test_bit-bit_or (w % 8) (v % 8) (bm (v / 8)))

page_check-new : (w : ℕ) → page_check (page_or_new none) w ≡ false
unfolding page_check page_or_new
page_check-new w = ground (arith, zero-div (2 ^ (w % 8)))

-- A missing page answers as an empty one.
check-page :
    (b : Bitmap) (v : ℕ) → check b v ≡ page_check (page_or_new (b (v / 2 ^ 16))) (v % 2 ^ 16)
unfolding check
check-page b v = go (b (v / 2 ^ 16)) refl
  where
    go :
        (o : Option Page)
        → b (v / 2 ^ 16) ≡ o
        → check b v ≡ page_check (page_or_new (b (v / 2 ^ 16))) (v % 2 ^ 16)
    go none e = rw (e, check) (sym (page_check-new (v % 2 ^ 16)))
    go (some bm) e = rw (e, check) (unfold page_or_new in refl)

page-set :
    (b : Bitmap) (v top : ℕ)
    → v < 2 ^ 32
    → page_or_new (set b v top) ≡ (
        if v / 2 ^ 16 == top
        then page_set (page_or_new (b top)) (v % 2 ^ 16)
        else page_or_new (b top))
unfolding set page_or_new
page-set b v top hv =
    let small : v / 2 ^ 16 % 2 ^ 16 ≡ v / 2 ^ 16 = omega arith in
    rw small (elim (Bool-cases (v / 2 ^ 16 == top)) [ inl e ↦ rw (e, ==→eq _ _ e) | inr e ↦ rw e ])
  where
    ==→eq : (a b : ℕ) → (a == b) ≡ true → a ≡ b
    ==→eq a b e = ground arith

-- The empty bitmap holds no value.
pub check-init : (v : ℕ) → check init v ≡ false
unfolding check init
check-init v = refl

-- Setting a value adds it, and changes no other value.
pub check-set :
    (b : Bitmap) (v w : ℕ) → v < 2 ^ 32 → w < 2 ^ 32 → check (set b v) w ≡ (v == w || check b w)
check-set b v w hv hw =
    check-page (set b v) w
    ∙ rw (page-set b v (w / 2 ^ 16) hv, check-page b w)
        (ground (arith, page_check-set (page_or_new (b (w / 2 ^ 16))) (v % 2 ^ 16) (w % 2 ^ 16)))

-- What `xm_pbm_load_from_file` has put in: each line's address, whether it parsed or not.
abbrev pub addresses : (List ℕ → Bool × ℕ) → List (List ℕ) → List ℕ
addresses inet_aton [] = []
addresses inet_aton (line ∷ lines) = (inet_aton (before_comment line)).1 ∷ addresses inet_aton lines

abbrev pub contains : List ℕ → ℕ → Bool
contains [] w = false
contains (v ∷ vs) w = v == w || contains vs w

-- Loading a file adds exactly the addresses of its lines, and counts the lines.
pub load_lines-check :
    (inet_aton : List ℕ → Bool × ℕ) (lines : List (List ℕ)) (b : Bitmap) (count w : ℕ)
    → ((line : List ℕ) → (inet_aton line).1 < 2 ^ 32)
    → w < 2 ^ 32
    → count < 2 ^ 32
    → (check (load_lines inet_aton lines b count).0 w
        ≡ (contains (addresses inet_aton lines) w || check b w))
      × ((load_lines inet_aton lines b count).1 ≡ (count + length lines) % 2 ^ 32)
unfolding load_lines
load_lines-check inet_aton [] b count w small hw hc = (refl, omega arith)
load_lines-check inet_aton (line ∷ lines) b count w small hw hc = ground (
  arith,
  small (before_comment line),
  check-set b (inet_aton (before_comment line)).1 w,
  load_lines-check inet_aton lines (set b (inet_aton (before_comment line)).1)
      ((count + 1) % 2 ^ 32) w small,
)
