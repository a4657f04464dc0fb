-- ===== src/Iptree/Lookup.antt =====
-- The public operations of lib/common/xm_iptree.c over painted and unpainted trees:
-- `xm_iptree_count_ips` and `xm_iptree_lookup_index` against the addresses of the tree.
use Prim.Native.Nat.{bit_or}
use xmap.Base.{
  ℕ, ◌+◌, ◌-◌, ◌*◌, ◌/◌, ◌%◌, ◌^◌, ◌≤◌, ◌<◌, ◌≡◌, refl, sym, Bool, true, false, ltb, arith, Option,
  some, none, inl, inr, Bool-cases, ap, ◌∙◌, ◌&&◌, ◌||◌, length, get_elem?, if◌then◌else◌,
  get_elem?-none, ltb→lt, ltb-false→le,
}
use xmap.Base.Bits.{bit_or-add}
use xmap.Base.Tally.{tally, tally_ext}
use xmap.Iptree.{Node, Iptree, block, in_radix, count_of, lookup_painted, index_from, top_mask}
use xmap.Iptree.Semantics.{counted}
use xmap.Iptree.Count.{count-eq-tally}
use xmap.Iptree.Index.{IsRanked, painted_node, count_of-painted, index_from-IsRanked}
use xmap.Iptree.Radix.{IsListed}
use xmap.Iptree.Blocks.{counted-painted, radix_or_deep, tally-radix}

-- The addresses that a leaf of the value x decides within their 32 bits, and the index that each of them has: those of the
-- radix blocks come first.
unfoldable pub has_value : Node → ℕ → ℕ → Bool
has_value root x = counted false 32 root x

unfoldable pub position : Node → ℕ → ℕ → ℕ
position root x ip =
    if in_radix root x (ip / block)
    then tally (in_radix root x) (ip / block) * block + ip % block
    else tally (in_radix root x) (2 ^ 20) * block + tally (counted true 32 root x) ip

-- The result is the address of the tree at this index.
pub record IsAddress (root : Node) (x index : ℕ) (result : Option ℕ) : Type 0 where
  pub ip : ℕ
  pub returns : result ≡ some ip
  pub in_space : ip < 2 ^ 32
  pub value : has_value root x ip ≡ true
  pub index_of : position root x ip ≡ index

-- A tree marked as painted carries the counts and the radix array of its paint value.
pub record IsPainted (t : Iptree) (x : ℕ) : Type 0 where
  pub node : Node
  pub painted_root : t.root ≡ painted_node x true node 32
  pub listed : IsListed (in_radix t.root x) (2 ^ 20) t.radix

pub record IsConsistent (t : Iptree) : Type 0 where
  pub paint : t.painted ≡ true → IsPainted t t.paint_value

-- An address in a listed block.
radix-IsAddress :
    (root : Node) (x number offset : ℕ)
    → number < 2 ^ 20
    → offset < block
    → in_radix root x number ≡ true
    → IsAddress root x
        (tally (in_radix root x) number * block + offset)
        (some (bit_or (number * block) offset))
unfolding has_value position
radix-IsAddress root x number offset small low listed = record {
  ip = number * block + offset;
  returns = ap some (bit_or-add 12 number offset low);
  in_space = omega arith;
  value =
      (radix_or_deep root x (number * block + offset) (omega arith)).0
      ∙ (rw (block_number, listed));
  index_of = rw (block_number, listed) (omega arith);
}
  where
    block_number : (number * block + offset) / block ≡ number
    block_number = omega arith

-- An address that a leaf below level 12 decides.
deep-IsAddress :
    (root : Node) (x ip : ℕ)
    → ip < 2 ^ 32
    → counted true 32 root x ip ≡ true
    → IsAddress root x
        (tally (in_radix root x) (2 ^ 20) * block + tally (counted true 32 root x) ip)
        (some ip)
unfolding has_value position
deep-IsAddress root x ip small passes = record {
  ip = ip;
  returns = refl;
  in_space = small;
  value = both.0 ∙ rw passes (ground arith);
  index_of = rw outside;
}
  where
    both :
        (counted false 32 root x ip ≡ (in_radix root x (ip / block) || counted true 32 root x ip))
        × ((in_radix root x (ip / block) && counted true 32 root x ip) ≡ false)
    both = radix_or_deep root x ip small

    outside : in_radix root x (ip / block) ≡ false
    outside = ground (arith, both, passes)

lookup_painted-some :
    (t : Iptree) (index : ℕ) {entry : ℕ}
    → get_elem? t.radix (index / block) ≡ some entry
    → lookup_painted t index ≡ some (bit_or entry (index % block))
unfolding lookup_painted
lookup_painted-some t index e = rw (e, lookup_painted)

lookup_painted-none :
    (t : Iptree) (index : ℕ)
    → get_elem? t.radix (index / block) ≡ none
    → lookup_painted t index ≡ index_from t.root (index - length t.radix * block) 0 top_mask
unfolding lookup_painted
lookup_painted-none t index e = rw (e, lookup_painted)

module _ {t : Iptree} {x : ℕ} (p : IsPainted t x) where
  same_counted : (deep : Bool) (a : ℕ) → counted deep 32 p.node x a ≡ counted deep 32 t.root x a
  same_counted deep a = sym (
      ap (λ r. counted deep 32 r x a) p.painted_root
      ∙ counted-painted deep x x (2 ^ 32) true true p.node 32 a)

  same_tally :
      (deep : Bool) (n : ℕ)
      → tally (counted deep 32 p.node x) n ≡ tally (counted deep 32 t.root x) n
  same_tally deep n = tally_ext _ _ n (λ a h. same_counted deep a)

  lookup-radix :
      (index : ℕ)
      → index / block < length t.radix
      → IsAddress t.root x index (lookup_painted t index)
  lookup-radix index h =
      let e = p.listed.entries (index / block) h in
      let whole : tally (in_radix t.root x) e.number * block + index % block ≡ index =
        omega (arith, e.rank) in
      rw (lookup_painted-some t index e.is) (
        rw whole at
          (radix-IsAddress t.root x e.number (index % block) e.below (omega arith) e.listed))

  -- The index left for the tree, and the address that the walk finds for it.
  abbrev deep_index : ℕ → ℕ
  deep_index index = index - length t.radix * block

  lookup_found :
      (index : ℕ) {result : Option ℕ}
      → length t.radix ≤ index / block
      → IsRanked (counted true 32 p.node x) 0 (2 ^ 32) (deep_index index) result
      → IsAddress t.root x index result
  lookup_found index out found =
      let whole : tally (in_radix t.root x) (2 ^ 20) * block
            + tally (counted true 32 t.root x) found.offset
          ≡ index =
        omega (arith, p.listed.size, found.rank, same_tally true found.offset) in
      let start : 0 + found.offset ≡ found.offset = omega arith in
      rw (found.returns, start)
        (rw whole at (
          deep-IsAddress t.root x found.offset found.below
            (sym (same_counted true found.offset) ∙ found.passes)))

  lookup-deep :
      (index : ℕ)
      → length t.radix ≤ index / block
      → index < tally (has_value t.root x) (2 ^ 32)
      → IsAddress t.root x index (lookup_painted t index)
  unfolding has_value
  lookup-deep index out h =
      rw
        (lookup_painted-none t index (get_elem?-none t.radix (index / block) out)
          ∙ ap (λ r. index_from r (deep_index index) 0 top_mask) p.painted_root)
        (lookup_found index out (
          index_from-IsRanked x true p.node 32 0 (deep_index index) (omega arith) (omega arith)
            (omega (arith, tally-radix t.root x, p.listed.size, same_tally true (2 ^ 32)))))

  pub lookup_painted-IsAddress :
      (index : ℕ)
      → index < tally (has_value t.root x) (2 ^ 32)
      → IsAddress t.root x index (lookup_painted t index)
  lookup_painted-IsAddress index h = elim (Bool-cases (ltb (index / block) (length t.radix))) [
    | inl e ↦ lookup-radix index (ltb→lt _ _ e)
    | inr e ↦ lookup-deep index (ltb-false→le _ _ e) h
  ]

  -- The count that a painted tree answers with.
  pub count_painted : count_of t.root ≡ some (tally (counted true 32 t.root x) (2 ^ 32))
  count_painted =
      ap count_of p.painted_root
      ∙ count_of-painted x true p.node (2 ^ 32)
      ∙ ap some (count-eq-tally x true true p.node 32 (omega arith) ∙ same_tally true (2 ^ 32))
