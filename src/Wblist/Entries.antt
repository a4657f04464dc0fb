-- ===== src/Wblist/Entries.antt =====
-- What the entries of the lists of src/xm_wblist.c stand for, and the tree that they make.
use xmap.Base.{
  ℕ, ◌^◌, ◌≡◌, refl, sym, ap, ◌∙◌, Bool, true, false, Bool-cases, inl, inr, Option, none, some,
  List, [], ◌∷◌, ◌++◌, ltb, if◌then◌else◌, length, arith, ◌<◌, subst,
}
use xmap.Base.Tally.{tally, tally_ext}
use xmap.Iptree.{Iptree}
use xmap.Iptree as Tree
use xmap.Iptree.Counts.{gives, has_value-gives}
use xmap.Iptree.Lookup.{has_value}
use xmap.Wblist.Laws.{IsReady, create-IsMade}
use xmap.Wblist.{
  Wblist, create, count_allowed, PrefixLength, absent, unreadable, strtol, Host, address, answers,
  unknown_host, Item, allowed, disallowed, add_iptree, add_answers, add_host, prefix_int,
  init_from_string, init_from_lines, init_from_file, init_from_array, build,
}

-- The addresses of a host, each with the length.
abbrev with_length : List (Option ℕ) → ℕ → List (ℕ × ℕ)
with_length [] n = []
with_length (none ∷ found) n = with_length found n
with_length (some a ∷ found) n = (a, n) ∷ with_length found n

abbrev host_entries : Host → ℕ → List (ℕ × ℕ)
host_entries (address a) n = (a, n) ∷ []
host_entries (answers found) n = with_length found n
host_entries unknown_host n = []

-- The addresses and lengths that an entry of a list stands for; none if its length is refused. A host
-- without a length has 256.
abbrev item_entries : Item → List (ℕ × ℕ)
item_entries item = elim item.prefix_length [
  | absent ↦ host_entries item.host 256
  | unreadable ↦ []
  | strtol n ↦ if ltb 256 (prefix_int n) then [] else host_entries item.host (prefix_int n)
]

abbrev pub array_entries : List Item → List (ℕ × ℕ)
array_entries [] = []
array_entries (item ∷ items) = item_entries item ++ array_entries items

abbrev line_entries : List (Option Item) → List (ℕ × ℕ)
line_entries [] = []
line_entries (none ∷ lines) = line_entries lines
line_entries (some item ∷ lines) = item_entries item ++ line_entries lines

abbrev pub file_entries : Option (Option (List (Option Item))) → List (ℕ × ℕ)
file_entries none = []
file_entries (some none) = []
file_entries (some (some lines)) = line_entries lines

-- Without a whitelist everything is allowed at first.
abbrev pub default_value : Option (Option (List (Option Item))) → List Item → ℕ
default_value none [] = allowed
default_value none (item ∷ items) = disallowed
default_value (some lines) items = disallowed

module _ (ntohl : ℕ → ℕ) where
  -- Prefixes added one after the other.
  unfoldable pub add_all : ℕ → Iptree → List (ℕ × ℕ) → Iptree
  add_all value t [] = t
  add_all value t ((a, n) ∷ es) = add_all value (Tree.add t (ntohl a) n value) es

  add_all-append :
      (value : ℕ) (xs ys : List (ℕ × ℕ)) (t : Iptree)
      → add_all value t (xs ++ ys) ≡ add_all value (add_all value t xs) ys
  unfolding add_all
  add_all-append value [] ys t = refl
  add_all-append value ((a, n) ∷ xs) ys t = add_all-append value xs ys _

  add_answers-add_all :
      (found : List (Option ℕ)) (t : Iptree) (n value : ℕ) (ret : Bool)
      → (add_answers ntohl t found n value ret).1 ≡ add_all value t (with_length found n)
  unfolding add_answers add_all add_iptree
  add_answers-add_all [] t n value ret = refl
  add_answers-add_all (none ∷ found) t n value ret = add_answers-add_all found t n value ret
  add_answers-add_all (some a ∷ found) t n value ret = add_answers-add_all found _ n value true

  add_host-add_all :
      (host : Host) (t : Iptree) (n value : ℕ)
      → (add_host ntohl t host n value).1 ≡ add_all value t (host_entries host n)
  unfolding add_host add_all add_iptree
  add_host-add_all (address a) t n value = refl
  add_host-add_all (answers found) t n value = add_answers-add_all found t n value false
  add_host-add_all unknown_host t n value = refl

  item-add_all :
      (host : Host) (given : PrefixLength) (t : Iptree) (value : ℕ)
      → (let item : Item = record { host = host; prefix_length = given } in
          (init_from_string ntohl t item value).1 ≡ add_all value t (item_entries item))
  unfolding init_from_string add_all
  item-add_all host absent t value = add_host-add_all host t 256 value
  item-add_all host unreadable t value = refl
  item-add_all host (strtol n) t value = elim (Bool-cases (ltb 256 (prefix_int n))) [
    | inl long ↦ rw long refl
    | inr fits ↦ rw fits (add_host-add_all host t (prefix_int n) value)
  ]

  array-add_all :
      (items : List Item) (t : Iptree) (value : ℕ)
      → init_from_array ntohl t items value ≡ add_all value t (array_entries items)
  unfolding init_from_array add_all
  array-add_all [] t value = refl
  array-add_all (item ∷ items) t value =
      array-add_all items _ value
      ∙ ap (λ u. add_all value u (array_entries items))
          (item-add_all item.host item.prefix_length t value)
      ∙ sym (add_all-append value (item_entries item) (array_entries items) t)

  lines-add_all :
      (lines : List (Option Item)) (t : Iptree) (value : ℕ)
      → init_from_lines ntohl t lines value ≡ add_all value t (line_entries lines)
  unfolding init_from_lines add_all
  lines-add_all [] t value = refl
  lines-add_all (none ∷ lines) t value = lines-add_all lines t value
  lines-add_all (some item ∷ lines) t value =
      lines-add_all lines _ value
      ∙ ap (λ u. add_all value u (line_entries lines))
          (item-add_all item.host item.prefix_length t value)
      ∙ sym (add_all-append value (item_entries item) (line_entries lines) t)

  -- The tree of all the entries: those of the whitelist, then those of the blacklist, and the host 0 at
  -- the end, which is never allowed.
  unfoldable pub listed :
      ℕ
      → Option (Option (List (Option Item)))
      → Option (Option (List (Option Item)))
      → List Item
      → List Item
      → Iptree
  listed unset white_file black_file white black =
      let start = Tree.create (default_value white_file white) unset in
      let whites = add_all allowed start (file_entries white_file ++ array_entries white) in
      add_all disallowed whites (file_entries black_file ++ (array_entries black ++ (0, 256) ∷ []))

  pub build-listed :
      (unset : ℕ) (white_file black_file : Option (Option (List (Option Item))))
      (white black : List Item)
      → build ntohl unset white_file black_file white black
        ≡ listed unset white_file black_file white black
  unfolding build listed
  build-listed unset white_file black_file white black =
      item-add_all (address 0) absent _ disallowed
      ∙ ap (λ u. add_all disallowed u ((0, 256) ∷ []))
          (array-add_all black _ disallowed
            ∙ ap (λ u. add_all disallowed u (array_entries black))
                (optional black_file _ disallowed
                  ∙ ap (λ u. add_all disallowed u (file_entries black_file))
                      (start white_file white)))
      ∙ sym (add_all-append disallowed (array_entries black) ((0, 256) ∷ []) _)
      ∙ sym (
          add_all-append disallowed (file_entries black_file) (array_entries black ++ (0, 256) ∷ [])
            _)
    where
      optional :
          (file : Option (Option (List (Option Item)))) (t : Iptree) (value : ℕ)
          → (elim file [ none ↦ t | some lines ↦ init_from_file ntohl t lines value ])
            ≡ add_all value t (file_entries file)
      optional none t value = unfold add_all in refl
      optional (some none) t value = unfold add_all in unfold init_from_file in refl
      optional (some (some lines)) t value = unfold init_from_file in lines-add_all lines t value

      start :
          (file : Option (Option (List (Option Item)))) (white : List Item)
          → (let has_whitelist : Bool = elim file [ none ↦ ltb 0 (length white) | some f ↦ true ] in
              if has_whitelist
              then init_from_array ntohl
                  (elim file [
                    | none ↦ Tree.create disallowed unset
                    | some lines ↦ init_from_file ntohl (Tree.create disallowed unset) lines allowed
                  ])
                  white
                  allowed
              else Tree.create allowed unset)
            ≡ add_all allowed
                (Tree.create (default_value file white) unset)
                (file_entries file ++ array_entries white)
      start none [] = unfold add_all in refl
      start none (item ∷ white) =
          let given : ltb 0 (length (item ∷ white)) ≡ true = ground arith in
          rw given (array-add_all (item ∷ white) (Tree.create disallowed unset) allowed)
      start (some lines) white =
          array-add_all white _ allowed
          ∙ ap (λ u. add_all allowed u (array_entries white)) (optional (some lines) _ allowed)
          ∙ sym (add_all-append allowed (file_entries (some lines)) (array_entries white) _)

  -- A list that is created is ready: its caches are in order. It gives ADDR_ALLOWED to exactly the
  -- addresses to which the prefixes of the whitelist, then those of the blacklist and at last the host 0,
  -- added one after the other, give it within 32 bits; it counts them, and there is at least one.
  pub create-Lists :
      (unset : ℕ) (white_file black_file : Option (Option (List (Option Item))))
      (white black : List Item) (wblist : Wblist)
      → create ntohl unset white_file black_file white black ≡ some wblist
      → let t = listed unset white_file black_file white black in
        let n = tally (gives t allowed) (2 ^ 32) in
        IsReady wblist
        × (0 < n)
        × (count_allowed ntohl wblist ≡ some n)
        × ((ip : ℕ) → gives wblist.wb_iptree allowed ip ≡ gives t allowed ip)
  create-Lists unset white_file black_file white black wblist h =
      let m = create-IsMade ntohl unset white_file black_file white black wblist h in
      let t = build ntohl unset white_file black_file white black in
      let u = listed unset white_file black_file white black in
      let same : t ≡ u = build-listed unset white_file black_file white black in
      let at : (ip : ℕ) → has_value t.root allowed ip ≡ gives u allowed ip =
        λ ip. has_value-gives t allowed ip ∙ ap (λ t. gives t allowed ip) same in
      let whole : tally (has_value t.root allowed) (2 ^ 32) ≡ tally (gives u allowed) (2 ^ 32) =
        tally_ext _ _ (2 ^ 32) (λ a _. at a) in
      (
        m.ready,
        subst (λ n. 0 < n) whole m.some_left,
        m.count ∙ ap some whole,
        λ ip. sym (has_value-gives wblist.wb_iptree allowed ip) ∙ m.same ip ∙ at ip,
      )
