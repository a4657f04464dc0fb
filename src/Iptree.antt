-- ===== src/Iptree.antt =====
-- lib/common/xm_iptree.c: the binary tree from IPv4 prefixes to values behind the white and black
-- list. Each node is owned by its parent alone, so a function that updates nodes in place returns
-- the new tree. A `count` that the code has not written yet (malloc leaves it unset) is `none`.
pub mod Semantics
pub mod Count
pub mod Index
pub mod Radix
pub mod Agree
pub mod Add
pub mod Prefix
pub mod Blocks
pub mod Lookup
pub mod Paint
pub mod Bijection
pub mod Counts
mod Tests
use Prim.Native.Nat.{bit_or}
use xmap.Base.{
  ℕ, zero, suc, ◌+◌, ◌-◌, ◌*◌, ◌/◌, ◌%◌, ◌^◌, Bool, true, false, not, ◌&&◌, ◌||◌, Option, none,
  some, List, [], ◌∷◌, ◌++◌, ltb, leb, ◌==◌, if◌then◌else◌, length, get_elem?,
}
use xmap.Base.Bits.{test_bit}

-- `struct xm_node_t`: a leaf has no children, any other node has both.
pub data Node : Type 0 where
  leaf : ℕ → Option ℕ → Node
  inner : ℕ → Option ℕ → Node → Node → Node

abbrev pub is_leaf : Node → Bool
is_leaf (leaf v c) = true
is_leaf (inner v c l r) = false

abbrev pub value_of : Node → ℕ
value_of (leaf v c) = v
value_of (inner v c l r) = v

abbrev pub count_of : Node → Option ℕ
count_of (leaf v c) = c
count_of (inner v c l r) = c

abbrev with_value : Node → ℕ → Node
with_value (leaf v c) x = leaf x c
with_value (inner v c l r) x = inner x c l r

-- `struct xm_iptree_t`; the list is the first `radix_len` entries of `radix`.
pub record Iptree : Type 0 where
  pub root : Node
  pub radix : List ℕ
  pub painted : Bool
  pub paint_value : ℕ

abbrev pub radix_length : ℕ
radix_length = 20

-- The addresses below one entry of the radix array.
abbrev pub block : ℕ
block = 2 ^ 12

abbrev pub top_mask : ℕ
top_mask = 0x8000_0000

unfoldable pub create_leaf : ℕ → Node
create_leaf value = leaf value none

-- The guard returns at a node that is NOT a leaf, so nothing is ever freed: at a leaf both
-- children are null already.
unfoldable pub convert_to_leaf : Node → Node
convert_to_leaf (inner v c l r) = inner v c l r
convert_to_leaf (leaf v c) = leaf v c

-- The end of `_set_recurse`: two leaves with one value are to be discarded.
unfoldable pub collapse : Node → Node
unfolding convert_to_leaf
collapse (leaf v c) = leaf v c
collapse (inner v c l r) =
    if is_leaf r && is_leaf l && value_of r == value_of l
    then convert_to_leaf (inner (value_of l) c l r)
    else inner v c l r

-- The body of `_set_recurse` at a length that its first guard lets through.
unfoldable pub set_at : ℕ → Node → ℕ → ℕ → Node
set_at zero node prefix value =
    with_value (if is_leaf node then node else convert_to_leaf node) value
set_at (suc len) (leaf v c) prefix value = elim (v == value) [
  | true ↦ leaf v c
  | false ↦ elim (test_bit prefix top_mask) [
    | true ↦
        collapse
          (inner v c (create_leaf v) (set_at len (create_leaf v) (prefix * 2 % 2 ^ 32) value))
    | false ↦
        collapse
          (inner v c (set_at len (create_leaf v) (prefix * 2 % 2 ^ 32) value) (create_leaf v))
  ]
]
set_at (suc len) (inner v c l r) prefix value = elim (test_bit prefix top_mask) [
  | true ↦ collapse (inner v c l (set_at len r (prefix * 2 % 2 ^ 32) value))
  | false ↦ collapse (inner v c (set_at len l (prefix * 2 % 2 ^ 32) value) r)
]

-- `_set_recurse`. Its lengths are the parsed ones, which are not negative.
unfoldable pub set_recurse : Node → ℕ → ℕ → ℕ → Node
set_recurse node prefix len value = if ltb 256 len then node else set_at len node prefix value

unfoldable pub add : Iptree → ℕ → ℕ → ℕ → Iptree
add t prefix len value = record t { root = set_recurse t.root prefix len value; painted = false }

-- The loop of `_lookup_ip`.
pub lookup_from : Node → ℕ → ℕ → ℕ
lookup_from (leaf v c) address mask = v
lookup_from (inner v c l r) address mask = elim (test_bit address mask) [
  | true ↦ lookup_from r address (mask / 2)
  | false ↦ lookup_from l address (mask / 2)
]

unfoldable pub lookup_ip : Iptree → ℕ → ℕ
lookup_ip t address = lookup_from t.root address top_mask

-- The loop of `_lookup_index`; `none` is a comparison with a count that was never written.
pub index_from : Node → ℕ → ℕ → ℕ → Option ℕ
index_from (leaf v c) n ip mask = some (bit_or ip n % 2 ^ 32)
index_from (inner v c l r) n ip mask = elim (count_of l) [
  | none ↦ none
  | some k ↦ elim (ltb n k) [
    | true ↦ index_from l n ip (mask / 2)
    | false ↦ index_from r (n - k) (bit_or ip mask) (mask / 2)
  ]
]

-- What a leaf of `size` addresses adds to the count.
unfoldable pub leaf_count : ℕ → ℕ → ℕ → Bool → ℕ
leaf_count v value size exclude_radix =
    if v == value then if exclude_radix && leb block size then 0 else size else 0

-- `_count_ips_recurse`, with the node as it leaves it.
unfoldable pub count_recurse : Node → ℕ → ℕ → Bool → Bool → ℕ × Node
unfolding leaf_count
count_recurse (leaf v c) value size paint exclude_radix =
    let n = leaf_count v value size exclude_radix in (n, leaf v (if paint then some n else c))
count_recurse (inner v c l r) value size paint exclude_radix =
    let (nl, l') = count_recurse l value (size / 2) paint exclude_radix in
    let (nr, r') = count_recurse r value (size / 2) paint exclude_radix in
    let n = (nl + nr) % 2 ^ 64 in (n, inner v (if paint then some n else c) l' r')

-- The loop of `_lookup_node` with `left` steps to go.
pub lookup_node : ℕ → Node → ℕ → ℕ → Node
lookup_node zero node prefix mask = node
lookup_node (suc left) (leaf v c) prefix mask = leaf v c
lookup_node (suc left) (inner v c l r) prefix mask = elim (test_bit prefix mask) [
  | true ↦ lookup_node left r prefix (mask / 2)
  | false ↦ lookup_node left l prefix (mask / 2)
]

-- Whether the prefix of number i enters the radix array.
pub in_radix : Node → ℕ → ℕ → Bool
in_radix root value i =
    let node = lookup_node radix_length root (i * block % 2 ^ 32) top_mask in
    is_leaf node && value_of node == value

-- The loop that fills the radix array, at index i with `left` rounds to go.
pub fill : ℕ → ℕ → Node → ℕ → List ℕ → List ℕ
fill zero i root value radix = radix
fill (suc left) i root value radix =
    fill left (i + 1) root value
      (if in_radix root value i then radix ++ (i * block % 2 ^ 32) ∷ [] else radix)

pub paint_value : Iptree → ℕ → Iptree
paint_value t value =
    let (n, root') = count_recurse t.root value (2 ^ 32) true true in
    record {
      root = root';
      radix = fill (2 ^ radix_length) 0 root' value [];
      painted = true;
      paint_value = value;
    }

pub lookup_painted : Iptree → ℕ → Option ℕ
lookup_painted t index = elim (get_elem? t.radix (index / block)) [
  | some entry ↦ some (bit_or entry (index % block))
  | none ↦ index_from t.root (index - length t.radix * block) 0 top_mask
]

-- The paint at the start of `xm_iptree_lookup_index`.
pub repaint : Iptree → ℕ → Iptree
repaint t value = if not t.painted || not (t.paint_value == value) then paint_value t value else t

-- `xm_iptree_lookup_index`, with the tree as it leaves it. In the slow branch `radix_len` blocks
-- are at most `index`.
unfoldable pub lookup_index : Iptree → ℕ → ℕ → Option ℕ × Iptree
lookup_index t index value = let t' = repaint t value in (lookup_painted t' index, t')

-- `xm_iptree_count_ips`; `none` is a read of a count that was never written.
unfoldable pub count_ips : Iptree → ℕ → Option ℕ
count_ips t value =
    if t.painted && t.paint_value == value
    then elim (count_of t.root) [
      | none ↦ none
      | some n ↦ some ((n + length t.radix * block) % 2 ^ 64)
    ]
    else some (count_recurse t.root value (2 ^ 32) false false).0

-- `xm_iptree_create`; malloc leaves `paint_value` at any number, and `radix_len` is not read
-- before a paint sets it.
unfoldable pub create : ℕ → ℕ → Iptree
unfolding create_leaf
create value unset = record {
  root = create_leaf value;
  radix = [];
  painted = false;
  paint_value = unset;
}
