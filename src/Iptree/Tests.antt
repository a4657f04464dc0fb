-- ===== src/Iptree/Tests.antt =====
-- A run of lib/common/xm_iptree.c on the network 10.0.0.0/8.
use xmap.Base.{
  ℕ, ◌+◌, ◌-◌, ◌/◌, ◌^◌, ◌<◌, ◌≡◌, refl, sym, ◌∙◌, some, some_injective, true, false, false, ◌==◌,
  leb, ◌&&◌, if◌then◌else◌, arith,
}
use xmap.Base.Tally.{tally}
use xmap.Iptree.{
  Iptree, create, add, set_recurse, set_at, create_leaf, convert_to_leaf, collapse, count_ips,
  count_recurse, leaf_count, lookup_index, lookup_ip, lookup_from, top_mask,
}
use xmap.Iptree.Lookup.{has_value, position, IsAddress, IsConsistent}
use xmap.Iptree.Paint.{count_ips-eq-tally, add-IsConsistent}
use xmap.Iptree.Bijection.{lookup_index_sound, lookup_index_complete}
use xmap.Iptree.Counts.{gives, decided, count_ips-gives, lookup_index-gives}
use xmap.Iptree.Agree.{FitsLevel, has_value→lookup, lookup→has_value}
use xmap.Iptree.Add.{matches, ends_at_leaf, add-lookup, add-lookup_split}
use xmap.Iptree.Prefix.{add-lookup_network}

abbrev net : ℕ
net = 167772160

abbrev plain : Iptree
plain = add (create 0 0) net 8 1

plain-IsConsistent : IsConsistent plain
plain-IsConsistent = add-IsConsistent (create 0 0) net 8 1

count_run : count_ips plain 1 ≡ some 16777216
unfolding add create set_recurse set_at create_leaf convert_to_leaf collapse count_ips count_recurse
    leaf_count
count_run = refl

plain_tally : tally (has_value plain.root 1) (2 ^ 32) ≡ 16777216
plain_tally = some_injective _ _ (sym (count_ips-eq-tally plain 1 plain-IsConsistent) ∙ count_run)

count_ips-eq-tally_run : count_ips plain 1 ≡ some (tally (has_value plain.root 1) (2 ^ 32))
count_ips-eq-tally_run = count_ips-eq-tally plain 1 plain-IsConsistent

lookup_index_sound_example : IsAddress plain.root 1 5 (lookup_index plain 5 1).0
lookup_index_sound_example =
    lookup_index_sound plain 1 5 plain-IsConsistent (omega (arith, plain_tally))

plain-FitsLevel : FitsLevel 32 plain.root
unfolding add create set_recurse set_at create_leaf convert_to_leaf collapse
plain-FitsLevel = (((((tt, ((tt, (tt, tt)), tt)), tt), tt), tt), tt)

lookup_run : lookup_ip plain (net + 7) ≡ 1
unfolding add create set_recurse set_at create_leaf convert_to_leaf collapse lookup_ip lookup_from
lookup_run = refl

plain_value : has_value plain.root 1 (net + 7) ≡ true
plain_value = lookup→has_value plain 1 (net + 7) plain-FitsLevel lookup_run

lookup_index_complete_run :
    (position plain.root 1 (net + 7) < tally (has_value plain.root 1) (2 ^ 32))
    × ((lookup_index plain (position plain.root 1 (net + 7)) 1).0 ≡ some (net + 7))
lookup_index_complete_run =
    lookup_index_complete plain 1 (net + 7) plain-IsConsistent (omega arith) plain_value

lookup→has_value_run : has_value plain.root 1 (net + 7) ≡ true
lookup→has_value_run = lookup→has_value plain 1 (net + 7) plain-FitsLevel lookup_run

has_value→lookup_example : lookup_ip plain (net + 7) ≡ 1
has_value→lookup_example = has_value→lookup plain 1 (net + 7) plain_value

fresh_ends : ends_at_leaf 8 (create 0 0).root net ≡ true
unfolding create create_leaf ends_at_leaf
fresh_ends = refl

add-lookup_network_run : lookup_ip (add (create 0 0) net 8 1) (net + 7) ≡ (
    if net / 2 ^ (32 - 8) == (net + 7) / 2 ^ (32 - 8) then 1 else lookup_ip (create 0 0) (net + 7))
add-lookup_network_run =
    add-lookup_network (create 0 0) net 8 1 (net + 7) (omega arith) (omega arith) (omega arith)
      fresh_ends

split_end : ends_at_leaf 4 plain.root 0 ≡ false
unfolding add create set_recurse set_at create_leaf convert_to_leaf collapse ends_at_leaf
split_end = refl

shorter_prefix : lookup_ip (add plain 0 4 2) 7 ≡ lookup_ip plain 7
shorter_prefix = add-lookup_split plain 0 4 2 7 split_end

add-lookup_example : lookup_ip (add (create 0 0) net 8 1) 7 ≡ (
    if leb 8 256 && (matches 8 net 7 top_mask && ends_at_leaf 8 (create 0 0).root net)
    then 1
    else lookup_ip (create 0 0) 7)
add-lookup_example = add-lookup (create 0 0) net 8 1 7

count_ips-gives_example : count_ips plain 1 ≡ some (tally (gives plain 1) (2 ^ 32))
count_ips-gives_example = count_ips-gives plain 1 plain-IsConsistent

plain_decided : decided 32 plain.root (net + 7) ≡ true
unfolding add create set_recurse set_at create_leaf convert_to_leaf collapse decided
plain_decided = refl

lookup_index-gives_example :
    (index : ℕ) × ((n : ℕ) × ((count_ips plain 1 ≡ some n)
        × (index < n)
        × ((lookup_index plain index 1).0 ≡ some (net + 7))))
lookup_index-gives_example =
    lookup_index-gives plain 1 (net + 7) plain-IsConsistent (omega arith) plain_decided lookup_run

-- A single host is looked up, but neither counted nor decided within its 32 bits.
host_run :
    let t = add (create 0 0) 5 256 1 in
    (lookup_ip t 5 ≡ 1) × (count_ips t 1 ≡ some 0) × (decided 32 t.root 5 ≡ false)
unfolding add create set_recurse set_at create_leaf convert_to_leaf collapse decided count_ips
    count_recurse leaf_count lookup_ip lookup_from
host_run = (refl, refl, refl)
