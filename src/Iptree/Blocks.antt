-- ===== src/Iptree/Blocks.antt =====
-- Paint in lib/common/xm_iptree.c changes no value, and the radix array and the deep counts share
-- the addresses between them.
use xmap.Base.{
  ℕ, zero, suc, ◌+◌, ◌*◌, ◌/◌, ◌%◌, ◌^◌, ◌<◌, ◌≡◌, refl, Bool, true, false, arith, ap, ◌∙◌, ◌&&◌,
  ◌||◌, ◌==◌,
}
use xmap.Base.Tally.{tally, tally_or, tally_blocks}
use xmap.Iptree.{
  Node, leaf, inner, block, in_radix, count_recurse, lookup_from, top_mask, lookup_node, is_leaf,
  value_of,
}
use xmap.Iptree.Semantics.{counted}
use xmap.Iptree.Radix.{counted-split}

-- Painting changes no value: it decides the same addresses.
pub counted-painted :
    (deep : Bool) (x y size : ℕ) (p e : Bool) (node : Node) (j a : ℕ)
    → counted deep j (count_recurse node y size p e).1 x a ≡ counted deep j node x a
unfolding counted count_recurse
counted-painted deep x y size p e (leaf v c) j a = refl
counted-painted deep x y size p e (inner v c l r) zero a = refl
counted-painted deep x y size p e (inner v c l r) (suc j) a = ground (
  arith,
  counted-painted deep x y (size / 2) p e l j a,
  counted-painted deep x y (size / 2) p e r j a,
)

pub lookup_from-painted :
    (y size : ℕ) (p e : Bool) (node : Node) (a mask : ℕ)
    → lookup_from (count_recurse node y size p e).1 a mask ≡ lookup_from node a mask
unfolding lookup_from count_recurse
lookup_from-painted y size p e (leaf v c) a mask = refl
lookup_from-painted y size p e (inner v c l r) a mask = ground (
  arith,
  lookup_from-painted y (size / 2) p e l a (mask / 2),
  lookup_from-painted y (size / 2) p e r a (mask / 2),
)

-- Whether the walk of `_lookup_node` stops at a leaf of value x.
abbrev settles : Node → ℕ → ℕ → ℕ → ℕ → Bool
settles node x left prefix mask =
    let found = lookup_node left node prefix mask in is_leaf found && value_of found == x

settles-painted :
    (y size : ℕ) (p e : Bool) (node : Node) (x left prefix mask : ℕ)
    → settles (count_recurse node y size p e).1 x left prefix mask ≡ settles node x left prefix mask
unfolding lookup_node count_recurse
settles-painted y size p e (leaf v c) x zero prefix mask = refl
settles-painted y size p e (leaf v c) x (suc left) prefix mask = refl
settles-painted y size p e (inner v c l r) x zero prefix mask = refl
settles-painted y size p e (inner v c l r) x (suc left) prefix mask = ground (
  arith,
  settles-painted y (size / 2) p e l x left prefix (mask / 2),
  settles-painted y (size / 2) p e r x left prefix (mask / 2),
)

pub in_radix-painted :
    (y size : ℕ) (p e : Bool) (node : Node) (x i : ℕ)
    → in_radix (count_recurse node y size p e).1 x i ≡ in_radix node x i
unfolding in_radix
in_radix-painted y size p e node x i =
    settles-painted y size p e node x 20 (i * block % 2 ^ 32) top_mask

module _ (node : Node) (x : ℕ) where
  -- Each address is counted with its block in the radix or below level 12, and not both.
  abbrev settled_at : ℕ → ℕ → ℕ → Bool
  settled_at left j prefix =
      let found = lookup_node left node prefix (2 ^ j / 2) in is_leaf found && value_of found == x

  settled_or_deep :
      (left j a p : ℕ)
      → j ≡ 12 + left
      → p ≡ a / block * block
      → (counted false j node x a ≡ (settled_at left j p || counted true j node x a))
        × ((settled_at left j p && counted true j node x a) ≡ false)
  settled_or_deep left j a p e q =
      let whole : a / block * block + a % block ≡ a = omega arith in
      rw q (rw whole at (counted-split x (a / block) (a % block) (omega arith) left j node e))

  pub radix_or_deep :
      (a : ℕ)
      → a < 2 ^ 32
      → (counted false 32 node x a ≡ (in_radix node x (a / block) || counted true 32 node x a))
        × ((in_radix node x (a / block) && counted true 32 node x a) ≡ false)
  unfolding in_radix
  radix_or_deep a h = settled_or_deep 20 32 a (a / block * block % 2 ^ 32) refl (omega arith)

  pub tally-radix :
      tally (counted false 32 node x) (2 ^ 32)
      ≡ tally (in_radix node x) (2 ^ 20) * block + tally (counted true 32 node x) (2 ^ 32)
  tally-radix =
      tally_or (counted false 32 node x) (λ a. in_radix node x (a / block)) (counted true 32 node x)
        (2 ^ 32) radix_or_deep
      ∙ ap (λ t. t + tally (counted true 32 node x) (2 ^ 32))
          (tally_blocks (in_radix node x) (2 ^ 20))
