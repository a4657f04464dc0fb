-- ===== src/Pbm.antt =====
-- lib/common/xm_pbm.c: a bitmap of all 32-bit values in pages of 65536 bits, which are allocated
-- when a value of theirs is first set. `v >> k` is a quotient and `v & (2^k - 1)` a remainder.
pub mod Laws
mod Tests
use Prim.Native.Nat.{bit_or}
use xmap.Base.{
  ℕ, ◌+◌, ◌/◌, ◌%◌, ◌^◌, Bool, true, false, Option, none, some, List, [], ◌∷◌, ◌==◌, if◌then◌else◌,
}
use xmap.Base.Bits.{test_bit}

-- A page is its bytes by their index, and the bitmap its pages by theirs.
abbrev pub Page : Type 0
Page = ℕ → ℕ

abbrev pub Bitmap : Type 0
Bitmap = ℕ → Option Page

unfoldable pub init : Bitmap
init top = none

abbrev pub update {ℓ} : {A : Type ℓ} → (ℕ → A) → ℕ → A → ℕ → A
update f i x j = if i == j then x else f j

unfoldable pub page_check : Page → ℕ → Bool
page_check bm v = test_bit (bm (v / 8)) (2 ^ (v % 8))

unfoldable pub page_set : Page → ℕ → Page
page_set bm v = update bm (v / 8) (bit_or (bm (v / 8)) (2 ^ (v % 8)))

unfoldable pub check : Bitmap → ℕ → Bool
check b v = elim (b (v / 2 ^ 16)) [ none ↦ false | some bm ↦ page_check bm (v % 2 ^ 16) ]

-- `xmalloc` and `memset` of a new page.
unfoldable pub page_or_new : Option Page → Page
page_or_new none = λ i. 0
page_or_new (some bm) = bm

unfoldable pub set : Bitmap → ℕ → Bitmap
set b v =
    update b (v / 2 ^ 16 % 2 ^ 16)
      (some (page_set (page_or_new (b (v / 2 ^ 16 % 2 ^ 16))) (v % 2 ^ 16)))

-- A line up to its comment sign.
unfoldable pub before_comment : List ℕ → List ℕ
before_comment [] = []
before_comment (c ∷ line) = if c == b'#' then [] else c ∷ before_comment line

-- The loop of `xm_pbm_load_from_file` over the lines that `fgets` returns. `inet_aton` is a
-- parameter: whether it parses, and what it leaves in `addr`. A line that it refuses is only
-- logged, and `addr` is set all the same.
unfoldable pub load_lines : (List ℕ → Bool × ℕ) → List (List ℕ) → Bitmap → ℕ → Bitmap × ℕ
load_lines inet_aton [] b count = (b, count)
load_lines inet_aton (line ∷ lines) b count =
    load_lines inet_aton lines (set b (inet_aton (before_comment line)).1) ((count + 1) % 2 ^ 32)
