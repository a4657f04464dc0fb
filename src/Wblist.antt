-- ===== src/Wblist.antt =====
-- src/xm_wblist.c: the white and black list of addresses over the prefix tree of lib/common/xm_iptree.c.
-- ntohl is libc's; what strtol, inet_aton, inet_addr and getaddrinfo read from a text is an argument.
pub mod Laws
pub mod Entries
mod Tests
use xmap.Base.{
  ℕ, ◌+◌, ◌%◌, ◌^◌, ◌≤◌, Bool, true, false, Option, none, some, List, [], ◌∷◌, ltb, leb, ◌==◌, ◌||◌,
  if◌then◌else◌, length,
}
use xmap.Iptree.{Iptree}
use xmap.Iptree as Tree

-- `struct xm_wblist_t`
pub record Wblist : Type 0 where
  pub wb_iptree : Iptree

-- `ADDR_DISALLOWED` and `ADDR_ALLOWED`
abbrev pub disallowed : ℕ
disallowed = 0

abbrev pub allowed : ℕ
allowed = 1

-- What follows the slash of an entry: the long that strtol reads, as the remainder modulo 2^64.
pub data PrefixLength : Type 0 where
  absent : PrefixLength
  unreadable : PrefixLength
  strtol : ℕ → PrefixLength

-- What precedes it: an address in network order, the answers for a host name (none: of another
-- family), or a name without an answer.
pub data Host : Type 0 where
  address : ℕ → Host
  answers : List (Option ℕ) → Host
  unknown_host : Host

-- An entry of a list.
pub record Item : Type 0 where
  pub host : Host
  pub prefix_length : PrefixLength

-- The long as an int; one that is negative is its remainder modulo 2^32, which is above 256 as well.
abbrev pub prefix_int : ℕ → ℕ
prefix_int n = n % 2 ^ 32

module _ (ntohl : ℕ → ℕ) where
  -- `xm_wblist_lookup_index`; the lookup may repaint the tree.
  unfoldable pub lookup_index : Wblist → ℕ → Option ℕ × Wblist
  lookup_index wblist index =
      let (found, tree) = Tree.lookup_index wblist.wb_iptree index allowed in
      (elim found [ none ↦ none | some ip ↦ some (ntohl ip) ], record { wb_iptree = tree })

  -- `xm_wblist_is_allowed`
  unfoldable pub is_allowed : Wblist → ℕ → Bool
  is_allowed wblist s_addr = Tree.lookup_ip wblist.wb_iptree (ntohl s_addr) == allowed

  -- `_add_iptree`
  unfoldable pub add_iptree : Iptree → ℕ → ℕ → ℕ → Iptree
  add_iptree iptree s_addr prefix_len value = Tree.add iptree (ntohl s_addr) prefix_len value

  -- `xm_blacklist_prefix`
  unfoldable pub blacklist_prefix : Wblist → ℕ → ℕ → Wblist
  blacklist_prefix wblist s_addr prefix_len = record {
    wb_iptree = add_iptree wblist.wb_iptree s_addr prefix_len disallowed;
  }

  -- `xm_whitelist_prefix`
  unfoldable pub whitelist_prefix : Wblist → ℕ → ℕ → Wblist
  whitelist_prefix wblist s_addr prefix_len = record {
    wb_iptree = add_iptree wblist.wb_iptree s_addr prefix_len allowed;
  }

  -- The loop of `init_from_string` over the answers for a name, and whether it returns 0.
  unfoldable pub add_answers : Iptree → List (Option ℕ) → ℕ → ℕ → Bool → Bool × Iptree
  add_answers iptree [] prefix_len value ret = (ret, iptree)
  add_answers iptree (none ∷ rest) prefix_len value ret =
      add_answers iptree rest prefix_len value ret
  add_answers iptree (some s_addr ∷ rest) prefix_len value ret =
      add_answers (add_iptree iptree s_addr prefix_len value) rest prefix_len value true

  -- `init_from_string` past the prefix length.
  unfoldable pub add_host : Iptree → Host → ℕ → ℕ → Bool × Iptree
  add_host iptree (address s_addr) prefix_len value =
      (true, add_iptree iptree s_addr prefix_len value)
  add_host iptree (answers found) prefix_len value = add_answers iptree found prefix_len value false
  add_host iptree unknown_host prefix_len value = (false, iptree)

  -- `init_from_string`; true is its 0. Without a slash the prefix length is 256.
  unfoldable pub init_from_string : Iptree → Item → ℕ → Bool × Iptree
  init_from_string iptree item value = elim item.prefix_length [
    | absent ↦ add_host iptree item.host 256 value
    | unreadable ↦ (false, iptree)
    | strtol n ↦
        let prefix_len = prefix_int n in
        if ltb 256 prefix_len then (false, iptree) else add_host iptree item.host prefix_len value
  ]

  -- The loop of `init_from_file` over the lines, none for a blank one.
  unfoldable pub init_from_lines : Iptree → List (Option Item) → ℕ → Iptree
  init_from_lines iptree [] value = iptree
  init_from_lines iptree (none ∷ lines) value = init_from_lines iptree lines value
  init_from_lines iptree (some item ∷ lines) value =
      init_from_lines (init_from_string iptree item value).1 lines value

  -- `init_from_file`; none: the file cannot be opened. What it only logs is left out.
  unfoldable pub init_from_file : Iptree → Option (List (Option Item)) → ℕ → Iptree
  init_from_file iptree none value = iptree
  init_from_file iptree (some lines) value = init_from_lines iptree lines value

  -- `init_from_array`
  unfoldable pub init_from_array : Iptree → List Item → ℕ → Iptree
  init_from_array iptree [] value = iptree
  init_from_array iptree (cidr ∷ cidrs) value =
      init_from_array (init_from_string iptree cidr value).1 cidrs value

  -- A list that may be absent, through one of the two above.
  abbrev from_optional_file : Option (Option (List (Option Item))) → ℕ → Iptree → Iptree
  from_optional_file file value iptree = elim file [
    | none ↦ iptree
    | some lines ↦ init_from_file iptree lines value
  ]

  -- The tree of `xm_wblist_create` before it is painted. A file argument is none for a null pointer.
  unfoldable pub build :
      ℕ
      → Option (Option (List (Option Item)))
      → Option (Option (List (Option Item)))
      → List Item
      → List Item
      → Iptree
  build unset whitelist_file blacklist_file whitelist blacklist =
      let has_whitelist : Bool = elim whitelist_file [
        | none ↦ ltb 0 (length whitelist)
        | some f ↦ true
      ] in
      let white : Iptree =
        if has_whitelist
        then init_from_array
            (from_optional_file whitelist_file allowed (Tree.create disallowed unset)) whitelist
            allowed
        else Tree.create allowed unset in
      let black =
        init_from_array (from_optional_file blacklist_file disallowed white) blacklist disallowed in
      (init_from_string black (record { host = address 0; prefix_length = absent }) disallowed).1

  -- `xm_wblist_count_allowed` and `xm_wblist_count_not_allowed`
  unfoldable pub count_allowed : Wblist → Option ℕ
  count_allowed wblist = Tree.count_ips wblist.wb_iptree allowed

  unfoldable pub count_not_allowed : Wblist → Option ℕ
  count_not_allowed wblist = Tree.count_ips wblist.wb_iptree disallowed

  -- `xm_wblist_ip_to_index`
  unfoldable pub ip_to_index : Wblist → ℕ → ℕ
  ip_to_index wblist ip = Tree.lookup_ip wblist.wb_iptree (ntohl ip)

  -- `xm_wblist_create`; none is its null pointer, where no address is left to scan.
  unfoldable pub create :
      ℕ
      → Option (Option (List (Option Item)))
      → Option (Option (List (Option Item)))
      → List Item
      → List Item
      → Option Wblist
  create unset whitelist_file blacklist_file whitelist blacklist =
      let wblist : Wblist = record {
        wb_iptree =
            Tree.paint_value (build unset whitelist_file blacklist_file whitelist blacklist)
              allowed;
      } in
      elim (count_allowed wblist) [ none ↦ none | some n ↦ if n == 0 then none else some wblist ]
