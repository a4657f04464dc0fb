-- ===== src/Wblist/Tests.antt =====
-- A run of src/xm_wblist.c: a white list with the network 10.0.0.0/8.
use xmap.Base.{
  ℕ, ◌^◌, ◌<◌, ◌≡◌, refl, sym, ◌∙◌, none, some, some_injective, true, List, [], ◌∷◌, arith,
}
use xmap.Base.Tally.{tally}
use xmap.Wblist.{Wblist, Item, address, strtol, allowed, build, create, count_allowed, lookup_index}
use xmap.Wblist.Laws.{IsReady, create-IsReady, create-some, lookup_index-is_allowed}
use xmap.Wblist.Entries.{listed, create-Lists}
use xmap.Iptree.Counts.{gives}
use xmap.Iptree.{Iptree, add, create_leaf, convert_to_leaf, collapse, count_ips}
use xmap.Iptree as Tree
use xmap.Iptree.Lookup.{has_value, IsConsistent}
use xmap.Iptree.Paint.{count_ips-eq-tally, add-IsConsistent}

-- A machine whose own order is the network's.
abbrev same_order : ℕ → ℕ
same_order n = n

abbrev items : List Item
items = record { host = address 167772160; prefix_length = strtol 8 } ∷ []

abbrev built : Iptree
built = build same_order 0 none none items []

count_run : count_ips built allowed ≡ some 16777216
unfolding build xmap.Wblist.init_from_array xmap.Wblist.init_from_string xmap.Wblist.add_host
    xmap.Wblist.add_iptree add xmap.Iptree.create xmap.Iptree.set_recurse xmap.Iptree.set_at
    create_leaf convert_to_leaf collapse count_ips xmap.Iptree.count_recurse xmap.Iptree.leaf_count
count_run = refl

built-IsConsistent : IsConsistent built
unfolding build xmap.Wblist.init_from_array xmap.Wblist.init_from_string xmap.Wblist.add_host
    xmap.Wblist.add_iptree add
built-IsConsistent = add-IsConsistent (add (Tree.create 0 0) 167772160 8 1) 0 256 0

built_tally : tally (has_value built.root allowed) (2 ^ 32) ≡ 16777216
built_tally =
    some_injective _ _ (sym (count_ips-eq-tally built allowed built-IsConsistent) ∙ count_run)

abbrev made : Wblist
made = record { wb_iptree = Tree.paint_value built allowed }

create-some_run : create same_order 0 none none items [] ≡ some made
create-some_run = create-some same_order 0 none none items [] (omega (arith, built_tally))

create_run : create same_order 0 none none items [] ≡ some made
create_run = create-some same_order 0 none none items [] (omega (arith, built_tally))

create-IsReady_run :
    let n = tally (has_value built.root allowed) (2 ^ 32) in
    IsReady made × (0 < n) × (count_allowed same_order made ≡ some n)
create-IsReady_run = create-IsReady same_order 0 none none items [] made create_run

built-IsReady : IsReady (record { wb_iptree = built })
built-IsReady = record { tree = built-IsConsistent }

lookup_index-is_allowed_run :
    (ip : ℕ) × ((ip < 2 ^ 32)
      × ((lookup_index same_order (record { wb_iptree = built }) 9).0 ≡ some (same_order ip))
      × (has_value built.root allowed ip ≡ true))
lookup_index-is_allowed_run =
    lookup_index-is_allowed same_order (record { wb_iptree = built }) 9 built-IsReady
      (omega (arith, built_tally))

create-Lists_example :
    let t = listed same_order 0 none none items [] in
    let n = tally (gives t allowed) (2 ^ 32) in
    IsReady made
    × (0 < n)
    × (count_allowed same_order made ≡ some n)
    × ((ip : ℕ) → gives made.wb_iptree allowed ip ≡ gives t allowed ip)
create-Lists_example = create-Lists same_order 0 none none items [] made create_run
