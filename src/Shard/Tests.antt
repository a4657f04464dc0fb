-- ===== src/Shard/Tests.antt =====
-- A run of src/xm_shard.c in the group of 257 elements, on a list with the network 10.0.0.0/8.
use xmap.Base.{ℕ, ◌^◌, ◌≡◌, refl, sym, ◌∙◌, some, some_injective, arith, [], ◌∷◌}
use xmap.Base.Tally.{tally}
use xmap.Iptree.{
  Iptree, create, add, set_recurse, set_at, create_leaf, convert_to_leaf, collapse, count_ips,
  count_recurse, leaf_count,
}
use xmap.Iptree.Lookup.{has_value, IsConsistent}
use xmap.Iptree.Paint.{count_ips-eq-tally, add-IsConsistent}
use xmap.Wblist.{allowed}
use xmap.Shard.{Shard, get_next_ip, exponent_begin, exponent_end}
use xmap.Shard.Orbit.{elem_at}
use xmap.Shard.Widths.{Divided}
use xmap.Shard.Partition.{Visits, shards_complete, shards_disjoint}
use xmap.Cyclic.{Cycle}
use xmap.Cyclic.Roots.{groups-IsGroup}
use xmap.Shard.Next.{powers}
use xmap.Shard.Walk.{Walks, Advances, get_next_ip-Advances}

abbrev pub tree : Iptree
tree = add (create 0 0) 167772160 8 1

pub tree-IsConsistent : IsConsistent tree
tree-IsConsistent = add-IsConsistent (create 0 0) 167772160 8 1

count_run : count_ips tree allowed ≡ some 16777216
unfolding add create set_recurse set_at create_leaf convert_to_leaf collapse count_ips count_recurse
    leaf_count
count_run = refl

pub tree_tally : tally (has_value tree.root allowed) (2 ^ 32) ≡ 16777216
tree_tally =
    some_injective _ _ (sym (count_ips-eq-tally tree allowed tree-IsConsistent) ∙ count_run)

abbrev pub same_order : ℕ → ℕ
same_order n = n

-- From 1 by powers of 3 to 81 = 3 ^ 4.
abbrev pub shard : Shard
shard = record {
  state = record {
    sent = 0;
    tried_sent = 0;
    blacklisted = 0;
    whitelisted = 0;
    failures = 0;
    first_scanned = 0;
    max_targets = 0;
  };
  params = record { first = 1; last = 81; factor = 3; modulus = 257 };
  current = 1;
  max_index = 200;
  wblist = record { wb_iptree = tree };
}

pub shard_ends : powers shard.params 4 shard.current ≡ 81
unfolding powers
shard_ends = refl

pub shard-Walks : Walks (has_value tree.root allowed) 3 shard
shard-Walks = record {
  list = record { ready = record { tree = tree-IsConsistent }; same = λ a. refl };
  enough = omega (arith, tree_tally);
  small = omega arith;
  ahead = shard_ends;
}

get_next_ip-Advances_example :
    Advances same_order (has_value tree.root allowed) 3 shard (get_next_ip same_order 6 shard)
get_next_ip-Advances_example =
    get_next_ip-Advances same_order (has_value tree.root allowed) 6 3 shard (omega arith)
      shard-Walks

-- The cycle of the powers of 3 modulo 257, from the fifth one on, shared by two shards.
abbrev cycle : Cycle
cycle = record {
  group = record { prime = 257; known_primroot = 3; prime_factors = 2 ∷ [] };
  generator = 3;
  order = 256;
  offset = 5;
}

cycle-Divided : Divided cycle 2
cycle-Divided = record {
  turns = record {
    order = refl;
    some_order = omega arith;
    generates = let g = groups-IsGroup 0 (cycle.group) refl in g.root;
    fits = omega arith;
    small = omega arith;
  };
  narrow = omega arith;
  low = omega arith;
  some_shards = omega arith;
  few = omega arith;
  words = omega arith;
}

visit_run : Visits same_order cycle 2 cycle-Divided 1 2 (elem_at cycle 135)
unfolding exponent_begin exponent_end
visit_run = record { shard = omega arith; inside = omega arith; there = refl }

shards_complete_example :
    (i : ℕ) × (k : ℕ) × Visits same_order cycle 2 cycle-Divided i k (elem_at cycle 1000)
shards_complete_example = shards_complete same_order cycle 2 cycle-Divided 1000

shards_disjoint_example : ◌≡◌ {A = ℕ} 1 1 × ◌≡◌ {A = ℕ} 2 2
shards_disjoint_example =
    shards_disjoint same_order cycle 2 cycle-Divided 1 1 2 2 (elem_at cycle 135) visit_run visit_run
