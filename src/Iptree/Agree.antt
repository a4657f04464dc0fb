-- ===== src/Iptree/Agree.antt =====
-- The counters of lib/common/xm_iptree.c against `xm_iptree_lookup_ip`.
use xmap.Base.{ℕ, zero, suc, ◌/◌, ◌^◌, ◌≡◌, true, false, arith}
use xmap.Base.Bits.{half-two-pow_suc}
use xmap.Iptree.{Node, leaf, inner, Iptree, lookup_from, lookup_ip}
use xmap.Iptree.Semantics.{counted}
use xmap.Iptree.Lookup.{has_value}

-- The tree has at most j levels of inner nodes.
abbrev pub FitsLevel : ℕ → Node → Type 0
FitsLevel j (leaf v c) = Unit {0}
FitsLevel zero (inner v c l r) = ⊥
FitsLevel (suc j) (inner v c l r) = FitsLevel j l × FitsLevel j r

counted→lookup :
    (node : Node) (j x a : ℕ) → counted false j node x a ≡ true → lookup_from node a (2 ^ j / 2) ≡ x
unfolding counted lookup_from
counted→lookup (leaf v c) j x a e = ground arith
counted→lookup (inner v c l r) zero x a e = cc
counted→lookup (inner v c l r) (suc j) x a e =
    ground (arith, half-two-pow_suc j, counted→lookup l j x a, counted→lookup r j x a)

lookup→counted :
    (node : Node) (j x a : ℕ)
    → FitsLevel j node
    → lookup_from node a (2 ^ j / 2) ≡ x
    → counted false j node x a ≡ true
unfolding counted lookup_from
lookup→counted (leaf v c) j x a fits e = ground arith
lookup→counted (inner v c l r) zero x a fits e = absurd fits
lookup→counted (inner v c l r) (suc j) x a fits e =
    ground (arith, half-two-pow_suc j, lookup→counted l j x a fits.0, lookup→counted r j x a fits.1)

-- An address that the counters give to x is looked up as x.
pub has_value→lookup : (t : Iptree) (x ip : ℕ) → has_value t.root x ip ≡ true → lookup_ip t ip ≡ x
unfolding has_value lookup_ip
has_value→lookup t x ip e = counted→lookup t.root 32 x ip e

-- In a tree of at most 32 levels the counters miss no address.
pub lookup→has_value :
    (t : Iptree) (x ip : ℕ)
    → FitsLevel 32 t.root
    → lookup_ip t ip ≡ x
    → has_value t.root x ip ≡ true
unfolding has_value lookup_ip
lookup→has_value t x ip fits e = lookup→counted t.root 32 x ip fits e
