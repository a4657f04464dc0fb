-- ===== src/Iptree/Semantics.antt =====
-- What the tree of lib/common/xm_iptree.c says of an address: which addresses the counters are to
-- count, written without sizes, masks or paint.
use xmap.Base.{
  ℕ, zero, suc, ◌+◌, ◌*◌, ◌^◌, ◌<◌, ◌≡◌, refl, Bool, true, false, not, ◌&&◌, leb, ◌==◌, arith,
  Option,
}
use xmap.Base.Bits.{test_bit, test_bit_low, test_bit_high, test_bit_add, mul-two-pow_suc'}
use xmap.Iptree.{Node, leaf, inner}

-- Address a below a node of level j (with j address bits left) is decided by a leaf of value x
-- within those bits. With `deep` only leaves below level 12 count: the others are in the radix.
unfoldable pub counted : Bool → ℕ → Node → ℕ → ℕ → Bool
counted deep j (leaf v c) x a = v == x && not (deep && leb 12 j)
counted deep zero (inner v c l r) x a = false
counted deep (suc j) (inner v c l r) x a = elim (test_bit a (2 ^ j)) [
  | true ↦ counted deep j r x a
  | false ↦ counted deep j l x a
]

module _ (deep : Bool) (x : ℕ) where
  -- Only the low j bits of an address matter at level j.
  pub counted-add :
      (j k a : ℕ) (node : Node) → counted deep j node x (k * 2 ^ j + a) ≡ counted deep j node x a
  unfolding counted
  counted-add j k a (leaf v c) = refl
  counted-add zero k a (inner v c l r) = refl
  counted-add (suc j) k a (inner v c l r) = ground (
    arith,
    test_bit_add j k a,
    mul-two-pow_suc' k j,
    counted-add j (k * 2) a l,
    counted-add j (k * 2) a r,
  )

  -- The two halves of an inner node.
  pub counted_left :
      (j a v : ℕ) (c : Option ℕ) (l r : Node)
      → a < 2 ^ j
      → counted deep (suc j) (inner v c l r) x a ≡ counted deep j l x a
  unfolding counted
  counted_left j a v c l r h = ground (arith, test_bit_low j a h)

  pub counted_right :
      (j a v : ℕ) (c : Option ℕ) (l r : Node)
      → a < 2 ^ j
      → counted deep (suc j) (inner v c l r) x (2 ^ j + a) ≡ counted deep j r x a
  unfolding counted
  counted_right j a v c l r h =
      ground (arith, test_bit_high j a h, counted-add j 1 a r, mul-two-pow_suc' 1 j)
