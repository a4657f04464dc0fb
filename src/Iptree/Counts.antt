-- ===== src/Iptree/Counts.antt =====
-- The counters and the numbering of lib/common/xm_iptree.c against `xm_iptree_lookup_ip`.
use xmap.Base.{
  ℕ, zero, suc, ◌/◌, ◌^◌, ◌<◌, ◌≡◌, ap, ◌∙◌, Bool, true, false, ◌&&◌, ◌==◌, some, arith,
}
use xmap.Base.Bits.{test_bit, half-two-pow_suc}
use xmap.Base.Tally.{tally, tally_ext}
use xmap.Iptree.{Node, leaf, inner, Iptree, lookup_from, lookup_ip, lookup_index, count_ips}
use xmap.Iptree.Semantics.{counted}
use xmap.Iptree.Lookup.{has_value, position, IsConsistent}
use xmap.Iptree.Paint.{count_ips-eq-tally}
use xmap.Iptree.Bijection.{lookup_index_complete}

-- The walk of an address ends at a leaf within its j bits. It does not for a single host that was
-- added with the length 256.
unfoldable pub decided : ℕ → Node → ℕ → Bool
decided j (leaf v c) a = true
decided zero (inner v c l r) a = false
decided (suc j) (inner v c l r) a = elim (test_bit a (2 ^ j)) [
  | true ↦ decided j r a
  | false ↦ decided j l a
]

counted-decided :
    (node : Node) (j x a : ℕ)
    → counted false j node x a ≡ (decided j node a && lookup_from node a (2 ^ j / 2) == x)
unfolding counted decided lookup_from
counted-decided (leaf v c) j x a = ground arith
counted-decided (inner v c l r) zero x a = ground arith
counted-decided (inner v c l r) (suc j) x a =
    ground (arith, half-two-pow_suc j, counted-decided l j x a, counted-decided r j x a)

-- Whether an address is decided within its 32 bits and looked up as the value.
unfoldable pub gives : Iptree → ℕ → ℕ → Bool
gives t x ip = decided 32 t.root ip && lookup_ip t ip == x

pub has_value-gives : (t : Iptree) (x ip : ℕ) → has_value t.root x ip ≡ gives t x ip
unfolding has_value gives lookup_ip
has_value-gives t x ip = counted-decided t.root 32 x ip

-- In a tree whose caches are in order the count, cached or walked, is the number of the 32-bit
-- addresses that are looked up as the value and whose walk ends at a leaf within their 32 bits.
pub count_ips-gives :
    (t : Iptree) (x : ℕ) → IsConsistent t → count_ips t x ≡ some (tally (gives t x) (2 ^ 32))
count_ips-gives t x ok =
    count_ips-eq-tally t x ok
    ∙ ap some (tally_ext (has_value t.root x) (gives t x) (2 ^ 32) (λ a _. has_value-gives t x a))

-- In a tree whose caches are in order every 32-bit address that is looked up as the value, and whose
-- walk ends at a leaf within its 32 bits, is found by an index below the count.
pub lookup_index-gives :
    (t : Iptree) (x ip : ℕ)
    → IsConsistent t
    → ip < 2 ^ 32
    → decided 32 t.root ip ≡ true
    → lookup_ip t ip ≡ x
    → (index : ℕ) × ((n : ℕ) × ((count_ips t x ≡ some n)
          × (index < n)
          × ((lookup_index t index x).0 ≡ some ip)))
unfolding gives
lookup_index-gives t x ip ok small ends found =
    let given : gives t x ip ≡ true = ground (arith, ends, found) in
    let (low, at) = lookup_index_complete t x ip ok small (has_value-gives t x ip ∙ given) in
    (
      position t.root x ip,
      (tally (has_value t.root x) (2 ^ 32), (count_ips-eq-tally t x ok, low, at)),
    )
