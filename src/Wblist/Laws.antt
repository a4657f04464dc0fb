-- ===== src/Wblist/Laws.antt =====
-- What src/xm_wblist.c promises the scanner: the count of the addresses that it may send to, and that
-- every index below the count stands for one of them.
use xmap.Base.{
  ℕ, ◌^◌, ◌<◌, ◌≡◌, refl, ap, ◌∙◌, subst, true, false, Option, none, some, List, arith, ◌==◌,
  if◌then◌else◌, Bool-cases, some_injective, inl, inr,
}
use xmap.Base.Tally.{tally, tally_ext}
use xmap.Iptree.{Iptree}
use xmap.Iptree as Tree
use xmap.Iptree.Lookup.{has_value, IsConsistent}
use xmap.Iptree.Paint.{count_ips-eq-tally, paint_value-IsConsistent, has_value-paint}
use xmap.Iptree.Bijection.{lookup_index_sound}
use xmap.Wblist.{Wblist, Item, allowed, lookup_index, build, create, count_allowed}

-- A list whose cached counts are in order.
pub record IsReady (wblist : Wblist) : Type 0 where
  pub tree : IsConsistent wblist.wb_iptree

module _ (ntohl : ℕ → ℕ) where
  -- The count after painting, of the addresses before it.
  count_painted_list :
      (t : Iptree)
      → count_allowed ntohl (record { wb_iptree = Tree.paint_value t allowed })
        ≡ some (tally (has_value t.root allowed) (2 ^ 32))
  unfolding count_allowed
  count_painted_list t =
      count_ips-eq-tally (Tree.paint_value t allowed) allowed (paint_value-IsConsistent t allowed)
      ∙ ap some (tally_ext _ _ (2 ^ 32) (λ a _. has_value-paint t allowed allowed a))

  -- What is known of a list that was made from a tree.
  pub record IsMade (t : Iptree) (wblist : Wblist) : Type 0 where
    pub same : (ip : ℕ) → has_value wblist.wb_iptree.root allowed ip ≡ has_value t.root allowed ip
    pub ready : IsReady wblist
    pub some_left : 0 < tally (has_value t.root allowed) (2 ^ 32)
    pub count : count_allowed ntohl wblist ≡ some (tally (has_value t.root allowed) (2 ^ 32))

  painted-IsMade :
      (t : Iptree)
      → (tally (has_value t.root allowed) (2 ^ 32) == 0) ≡ false
      → IsMade t (record { wb_iptree = Tree.paint_value t allowed })
  painted-IsMade t left = record {
    same = has_value-paint t allowed allowed;
    ready = record { tree = paint_value-IsConsistent t allowed };
    some_left = grind arith;
    count = count_painted_list t;
  }

  made :
      (t : Iptree) (wblist : Wblist)
      → (let painted : Wblist = record { wb_iptree = Tree.paint_value t allowed } in
          elim (count_allowed ntohl painted) [
            | none ↦ none
            | some n ↦ if n == 0 then none else some painted
          ])
        ≡ some wblist
      → IsMade t wblist
  made t wblist h = elim (Bool-cases (tally (has_value t.root allowed) (2 ^ 32) == 0)) [
    | inl nothing ↦ let e = rw (count_painted_list t, nothing) at h in cc
    | inr left ↦
        let e = rw (count_painted_list t, left) at h in
        subst (IsMade t) (some_injective _ _ e) (painted-IsMade t left)
  ]

  pub create-IsMade :
      (unset : ℕ) (white_file black_file : Option (Option (List (Option Item))))
      (white black : List Item) (wblist : Wblist)
      → create ntohl unset white_file black_file white black ≡ some wblist
      → IsMade (build ntohl unset white_file black_file white black) wblist
  unfolding create
  create-IsMade unset white_file black_file white black wblist h =
      made (build ntohl unset white_file black_file white black) wblist h

  -- A list that is created is ready: its caches are in order, the count that it gives is that of the
  -- addresses that its tree decides as ADDR_ALLOWED, and there is at least one of them.
  pub create-IsReady :
      (unset : ℕ) (white_file black_file : Option (Option (List (Option Item))))
      (white black : List Item) (wblist : Wblist)
      → create ntohl unset white_file black_file white black ≡ some wblist
      → let n =
          tally
            (has_value (build ntohl unset white_file black_file white black).root allowed)
            (2 ^ 32) in
        IsReady wblist × (0 < n) × (count_allowed ntohl wblist ≡ some n)
  unfolding create
  create-IsReady unset white_file black_file white black wblist h =
      let m = made (build ntohl unset white_file black_file white black) wblist h in
      (m.ready, m.some_left, m.count)

  kept :
      (t : Iptree)
      → 0 < tally (has_value t.root allowed) (2 ^ 32)
      → (let painted : Wblist = record { wb_iptree = Tree.paint_value t allowed } in
          elim (count_allowed ntohl painted) [
            | none ↦ none
            | some n ↦ if n == 0 then none else some painted
          ])
        ≡ some (record { wb_iptree = Tree.paint_value t allowed })
  kept t left =
      let nonzero : (tally (has_value t.root allowed) (2 ^ 32) == 0) ≡ false = grind arith in
      rw (count_painted_list t, nonzero) refl

  -- As long as an address is left to ADDR_ALLOWED, a list is created, over the painted tree.
  pub create-some :
      (unset : ℕ) (white_file black_file : Option (Option (List (Option Item))))
      (white black : List Item)
      → let t = build ntohl unset white_file black_file white black in
        0 < tally (has_value t.root allowed) (2 ^ 32)
        → create ntohl unset white_file black_file white black
          ≡ some (record { wb_iptree = Tree.paint_value t allowed })
  unfolding create
  create-some unset white_file black_file white black left =
      kept (build ntohl unset white_file black_file white black) left

  -- An index below the count of a ready list is looked up as an address, in network order, that the
  -- list allows.
  pub lookup_index-is_allowed :
      (wblist : Wblist) (index : ℕ)
      → IsReady wblist
      → index < tally (has_value wblist.wb_iptree.root allowed) (2 ^ 32)
      → (ip : ℕ) × ((ip < 2 ^ 32)
          × ((lookup_index ntohl wblist index).0 ≡ some (ntohl ip))
          × (has_value wblist.wb_iptree.root allowed ip ≡ true))
  unfolding lookup_index
  lookup_index-is_allowed wblist index ready h =
      let found = lookup_index_sound wblist.wb_iptree allowed index ready.tree h in
      (
        found.ip,
        (
          found.in_space,
          ap (λ o. elim o [ none ↦ none | some ip ↦ some (ntohl ip) ]) found.returns,
          found.value,
        ),
      )
