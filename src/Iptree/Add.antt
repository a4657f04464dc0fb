-- ===== src/Iptree/Add.antt =====
-- `xm_iptree_add` of lib/common/xm_iptree.c against `xm_iptree_lookup_ip`: which addresses a new
-- prefix changes.
use xmap.Base.{
  ℕ, zero, suc, ◌*◌, ◌/◌, ◌%◌, ◌^◌, ◌≡◌, refl, Bool, true, false, not, ◌&&◌, leb, arith,
  if◌then◌else◌,
}
use xmap.Base.Bits.{test_bit}
use xmap.Iptree.{
  Node, leaf, inner, Iptree, collapse, convert_to_leaf, create_leaf, set_at, set_recurse, add,
  lookup_from, lookup_ip, top_mask,
}

abbrev pub same_bit : Bool → Bool → Bool
same_bit true b = b
same_bit false b = not b

-- The first len bits of the prefix are those of the address, from the mask down. Beyond bit 0 both
-- go left.
unfoldable pub matches : ℕ → ℕ → ℕ → ℕ → Bool
matches zero prefix address mask = true
matches (suc len) prefix address mask =
    same_bit (test_bit prefix top_mask) (test_bit address mask)
    && matches len (prefix * 2 % 2 ^ 32) address (mask / 2)

-- The walk along the prefix ends at a leaf, at the length or before.
unfoldable pub ends_at_leaf : ℕ → Node → ℕ → Bool
ends_at_leaf len (leaf v c) prefix = true
ends_at_leaf zero (inner v c l r) prefix = false
ends_at_leaf (suc len) (inner v c l r) prefix = elim (test_bit prefix top_mask) [
  | true ↦ ends_at_leaf len r (prefix * 2 % 2 ^ 32)
  | false ↦ ends_at_leaf len l (prefix * 2 % 2 ^ 32)
]

-- Discarding equal leaves would change no lookup; the code does not even discard them.
lookup-collapse :
    (node : Node) (address mask : ℕ)
    → lookup_from (collapse node) address mask ≡ lookup_from node address mask
unfolding lookup_from collapse convert_to_leaf
lookup-collapse (leaf v c) address mask = refl
lookup-collapse (inner v c l r) address mask = ground arith

set_at-lookup :
    (len : ℕ) (node : Node) (prefix value address mask : ℕ)
    → lookup_from (set_at len node prefix value) address mask ≡ (
        if matches len prefix address mask && ends_at_leaf len node prefix
        then value
        else lookup_from node address mask)
unfolding lookup_from set_at matches ends_at_leaf create_leaf convert_to_leaf
set_at-lookup zero (leaf v c) prefix value address mask = refl
set_at-lookup zero (inner v c l r) prefix value address mask = refl
set_at-lookup (suc len) (leaf v c) prefix value address mask = ground (
  arith,
  lookup-collapse
      (inner v c (create_leaf v) (set_at len (create_leaf v) (prefix * 2 % 2 ^ 32) value)) address
      mask,
  lookup-collapse
      (inner v c (set_at len (create_leaf v) (prefix * 2 % 2 ^ 32) value) (create_leaf v)) address
      mask,
  set_at-lookup len (create_leaf v) (prefix * 2 % 2 ^ 32) value address (mask / 2),
)
set_at-lookup (suc len) (inner v c l r) prefix value address mask = ground (
  arith,
  lookup-collapse (inner v c l (set_at len r (prefix * 2 % 2 ^ 32) value)) address mask,
  lookup-collapse (inner v c (set_at len l (prefix * 2 % 2 ^ 32) value) r) address mask,
  set_at-lookup len l (prefix * 2 % 2 ^ 32) value address (mask / 2),
  set_at-lookup len r (prefix * 2 % 2 ^ 32) value address (mask / 2),
)

-- After a prefix of at most 256 bits has been added, the addresses that match it have the new value
-- exactly if the walk along it ends at a leaf; every other address keeps its value.
pub add-lookup :
    (t : Iptree) (prefix len value address : ℕ)
    → lookup_ip (add t prefix len value) address ≡ (
        if leb len 256 && (matches len prefix address top_mask && ends_at_leaf len t.root prefix)
        then value
        else lookup_ip t address)
unfolding lookup_ip add set_recurse
add-lookup t prefix len value address =
    ground (arith, set_at-lookup len t.root prefix value address top_mask)

-- So a prefix that is shorter than one already split off leaves every address as it was.
pub add-lookup_split :
    (t : Iptree) (prefix len value address : ℕ)
    → ends_at_leaf len t.root prefix ≡ false
    → lookup_ip (add t prefix len value) address ≡ lookup_ip t address
add-lookup_split t prefix len value address e =
    rw (add-lookup t prefix len value address, e) (ground arith)
