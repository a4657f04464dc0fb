-- ===== src/ObjectPool/Owners.antt =====
-- Who owns the objects of lib/common/xm_object_pool.c: an object is in the free list or in the hands of
-- one user.
use mathlib.Core.List.{append-nil, append_assoc}
use xmap.Base.{
  ℕ, zero, suc, ◌+◌, ◌-◌, ◌^◌, ◌<◌, ◌≤◌, ◌≡◌, refl, sym, ap, subst, ◌∙◌, false, Bool-cases, inl,
  inr, ◌⊎◌, ◌&&◌, ltb, ◌==◌, ==_iff, if◌then◌else◌, Option, none, some, List, [], ◌∷◌, ◌++◌, length,
  arith,
}
use xmap.ObjectPool.{
  Pool, Got, null, object, object_mem_size, mem_header_size, item_header_size, add_item, carve,
  new_memory, take_first, get, put,
}

-- How often a list has an item.
unfoldable pub count : ℕ → List ℕ → ℕ
count x [] = 0
count x (y ∷ ys) = if x == y then suc (count x ys) else count x ys

-- A list without the first such item.
unfoldable pub remove : ℕ → List ℕ → List ℕ
remove x [] = []
remove x (y ∷ ys) = let rest = remove x ys in if x == y then ys else y ∷ rest

count-append : (x : ℕ) (xs ys : List ℕ) → count x (xs ++ ys) ≡ count x xs + count x ys
unfolding count
count-append x [] ys = omega arith
count-append x (y ∷ xs) ys = ground (arith, count-append x xs ys)

length-append_one : (x : ℕ) (xs : List ℕ) → length (xs ++ (x ∷ [])) ≡ suc (length xs)
length-append_one x [] = refl
length-append_one x (y ∷ xs) = ap suc (length-append_one x xs)

count-remove :
    (y x : ℕ) (xs : List ℕ) → 0 < count x xs → count y (remove x xs) + count y (x ∷ []) ≡ count y xs
unfolding count remove
count-remove y x [] h = absurd (omega arith)
count-remove y x (z ∷ xs) h = elim (Bool-cases (x == z)) [
  | inl e ↦ let same = (==_iff x z).0 e in rw (e, same) (ground arith)
  | inr e ↦
      let later : 0 < count x xs = rw e at h in rw e (ground (arith, count-remove y x xs later))
]

length-remove : (x : ℕ) (xs : List ℕ) → 0 < count x xs → suc (length (remove x xs)) ≡ length xs
unfolding count remove
length-remove x [] h = absurd (omega arith)
length-remove x (z ∷ xs) h = ground (arith, length-remove x xs)

-- What a block adds to the free list.
record Carves (pos end : ℕ) (omp result : Pool) : Type 0 where
  new : List ℕ
  free : result.free_list ≡ omp.free_list ++ new
  frees : result.n_frees ≡ omp.n_frees + length new
  objects : result.n_objects ≡ omp.n_objects + length new
  using : result.n_using ≡ omp.n_using
  small : result.n_objects < 2 ^ 64
  distinct : (x : ℕ) → count x new ≤ 1
  within : (x : ℕ) → 0 < count x new → (pos ≤ x) × (x + (omp.object_size + item_header_size) < end)
  spaced :
      (x y : ℕ)
      → 0 < count x new
      → 0 < count y new
      → x < y
      → x + (omp.object_size + item_header_size) ≤ y
  sizes : result.object_size ≡ omp.object_size
  some_new : pos + (omp.object_size + item_header_size) < end → 0 < length new

-- An item before others that lie behind it.
distinct-cons :
    (pos r end x : ℕ) (new : List ℕ)
    → 0 < r
    → count x new ≤ 1
    → ((y : ℕ) → 0 < count y new → (pos + r ≤ y) × (y + r < end))
    → count x (pos ∷ new) ≤ 1
unfolding count
distinct-cons pos r end x new positive once behind = elim (Bool-cases (x == pos)) [
  | inr other ↦ rw other once
  | inl same ↦ elim (Bool-cases (ltb 0 (count x new))) [
    | inl found ↦
        let far = behind x (ground (arith, found)) in
        absurd (omega (arith, far.0, (==_iff x pos).0 same))
    | inr absent ↦ rw same (ground (arith, absent))
  ]
]

within-cons :
    (pos r end x : ℕ) (new : List ℕ)
    → pos + r < end
    → ((y : ℕ) → 0 < count y new → (pos + r ≤ y) × (y + r < end))
    → 0 < count x (pos ∷ new)
    → (pos ≤ x) × (x + r < end)
unfolding count
within-cons pos r end x new room behind h = elim (Bool-cases (x == pos)) [
  | inl same ↦ let at = (==_iff x pos).0 same in (omega arith, omega arith)
  | inr other ↦
      let found : 0 < count x new = rw other at h in
      let far = behind x found in (omega (arith, far.0), far.1)
]

-- The first object ends before the others begin, and they do not overlap.
spaced-cons :
    (pos r end x y : ℕ) (new : List ℕ)
    → ((y : ℕ) → 0 < count y new → (pos + r ≤ y) × (y + r < end))
    → ((x y : ℕ) → 0 < count x new → 0 < count y new → x < y → x + r ≤ y)
    → 0 < count x (pos ∷ new)
    → 0 < count y (pos ∷ new)
    → x < y
    → x + r ≤ y
unfolding count
spaced-cons pos r end x y new behind spaced hx hy lt = elim (Bool-cases (y == pos)) [
  | inl last ↦ elim (Bool-cases (x == pos)) [
    | inl same ↦ absurd (omega (arith, (==_iff y pos).0 last, (==_iff x pos).0 same))
    | inr other ↦
        let far = behind x (rw other at hx) in absurd (omega (arith, far.0, (==_iff y pos).0 last))
  ]
  | inr later ↦
      let found : 0 < count y new = rw later at hy in
      elim (Bool-cases (x == pos)) [
        | inl same ↦
            let far = behind y found in let at = (==_iff x pos).0 same in omega (arith, far.0)
        | inr other ↦ spaced x y (rw other at hx) found lt
      ]
]

carve-stop :
    (pos end : ℕ) (omp : Pool)
    → ltb (pos + (omp.object_size + item_header_size)) end ≡ false
    → omp.n_objects < 2 ^ 64
    → Carves pos end omp omp
unfolding count
carve-stop pos end omp stop few = record {
  small = few;
  new = [];
  free = sym (append-nil omp.free_list);
  frees = omega arith;
  objects = omega arith;
  using = refl;
  distinct = λ x. omega arith;
  within = λ x h. absurd (omega arith);
  spaced = λ x y h h' lt. absurd (omega arith);
  sizes = refl;
  some_new = λ h. absurd (ground (arith, stop, h));
}

carve-Carves :
    (fuel pos end : ℕ) (omp : Pool)
    → end ≤ pos + fuel
    → omp.n_frees + fuel < 2 ^ 64
    → omp.n_objects + fuel < 2 ^ 64
    → Carves pos end omp (carve fuel pos end omp)
unfolding carve count
carve-Carves zero pos end omp h small few = carve-stop pos end omp (ground arith) (omega arith)
carve-Carves (suc fuel) pos end omp h small few =
    let r = omp.object_size + item_header_size in
    elim (Bool-cases (ltb (pos + r) end)) [
      | inr stop ↦ rw stop (carve-stop pos end omp stop (omega arith))
      | inl room ↦
          let later =
            carve-Carves fuel (pos + r) end (add_item omp pos) (omega arith) (omega arith)
              (omega arith) in
          rw room (record {
            new = pos ∷ later.new;
            free = later.free ∙ append_assoc omp.free_list (pos ∷ []) later.new;
            frees = omega (arith, later.frees);
            objects = omega (arith, later.objects);
            using = later.using;
            small = later.small;
            distinct = λ x.
                distinct-cons pos r end x later.new (omega arith) (later.distinct x) later.within;
            within = λ x h. within-cons pos r end x later.new (ground (arith, room)) later.within h;
            spaced = λ x y. spaced-cons pos r end x y later.new later.within later.spaced;
            sizes = later.sizes;
            some_new = λ h. omega arith;
          })
    ]

-- The object is free or in use.
abbrev pub Known : ℕ → Pool → List ℕ → Type 0
Known x omp used = 0 < count x omp.free_list + count x used

-- A pool and the objects in use, each by its item. No object overlaps another, its header included.
pub record IsSound (omp : Pool) (used : List ℕ) : Type 0 where
  pub frees : omp.n_frees ≡ length omp.free_list
  pub using : omp.n_using ≡ length used
  pub objects : omp.n_frees + omp.n_using ≡ omp.n_objects
  pub once : (x : ℕ) → count x omp.free_list + count x used ≤ 1
  pub spaced :
      (x y : ℕ)
      → Known x omp used
      → Known y omp used
      → x < y
      → x + (omp.object_size + item_header_size) ≤ y

-- What a get does: it fails and changes nobody's objects, or it hands out an object of nobody.
pub record HandsOut (used : List ℕ) (result : Got × Pool) : Type 0 where
  pub outcome :
      ((result.0 ≡ null) × IsSound result.1 used)
      ⊎ ((item : ℕ) × ((result.0 ≡ object (item + item_header_size))
            × ((count item used ≡ 0) × IsSound result.1 (item ∷ used))))

take_first-HandsOut :
    (item : ℕ) (items used : List ℕ) (omp : Pool)
    → omp.free_list ≡ item ∷ items
    → omp.n_objects < 2 ^ 64
    → IsSound omp used
    → HandsOut used (take_first omp)
unfolding take_first count
take_first-HandsOut item items used omp first small sound =
    let frees : omp.n_frees ≡ suc (length items) = sound.frees ∙ ap length first in
    let known : (x : ℕ)
        → 0 < count x items + count x (item ∷ used)
        → 0 < count x omp.free_list + count x used =
      λ x h. subst (λ l. 0 < count x l + count x used) (sym first) (ground (arith, h)) in
    let once : (x : ℕ) → count x (item ∷ items) + count x used ≤ 1 =
      λ x. subst (λ l. count x l + count x used ≤ 1) first (sound.once x) in
    rw (first, take_first)
      (record {
        outcome = inr (
          item,
          (
            refl,
            (
              ground (arith, once item),
              record {
                frees = omega (arith, frees, sound.objects);
                using = omega (arith, sound.using, sound.objects);
                objects = omega (arith, frees, sound.objects);
                once = λ x. ground (arith, once x);
                spaced = λ x y hx hy. sound.spaced x y (known x hx) (known y hy);
              },
            ),
          ),
        );
      })

either : (m n : ℕ) → 0 < m + n → (0 < m) ⊎ (0 < n)
either zero n h = inr (omega arith)
either (suc m) n h = inl (omega arith)

-- The objects of a new block and those in use, which do not overlap it.
grown-spaced :
    (addr r : ℕ) (new used : List ℕ)
    → ((x : ℕ) → 0 < count x new → (addr + mem_header_size ≤ x) × (x + r < addr + object_mem_size))
    → ((x y : ℕ) → 0 < count x new → 0 < count y new → x < y → x + r ≤ y)
    → ((x y : ℕ) → 0 < count x used → 0 < count y used → x < y → x + r ≤ y)
    → ((x : ℕ) → 0 < count x used → (x + r ≤ addr) ⊎ (addr + object_mem_size ≤ x))
    → (x y : ℕ) → (0 < count x new) ⊎ (0 < count x used)
    → (0 < count y new) ⊎ (0 < count y used)
    → x < y
    → x + r ≤ y
grown-spaced addr r new used within spaced old apart x y (inl hx) (inl hy) lt = spaced x y hx hy lt
grown-spaced addr r new used within spaced old apart x y (inr hx) (inr hy) lt = old x y hx hy lt
grown-spaced addr r new used within spaced old apart x y (inl hx) (inr hy) lt =
    let place = within x hx in
    elim (apart y hy) [
      | inl below ↦ absurd (omega (arith, place.0))
      | inr above ↦ omega (arith, place.1)
    ]
grown-spaced addr r new used within spaced old apart x y (inr hx) (inl hy) lt =
    let place = within y hy in
    elim (apart x hx) [
      | inl below ↦ omega (arith, place.0)
      | inr above ↦ absurd (omega (arith, place.1))
    ]

-- A new block for a pool without free items.
grown-IsSound :
    (addr : ℕ) (omp used_pool : Pool) (used : List ℕ)
    → omp.free_list ≡ []
    → IsSound omp used
    → Carves (addr + mem_header_size) (addr + object_mem_size) omp used_pool
    → used_pool.n_objects < 2 ^ 64
    → ((x : ℕ)
        → 0 < count x used
        → (x + (omp.object_size + item_header_size) ≤ addr) ⊎ (addr + object_mem_size ≤ x))
    → (mms : List ℕ) (n_mms : ℕ) → IsSound (record used_pool { mm_list = mms; n_mms = n_mms }) used
unfolding count
grown-IsSound addr omp grown used none_free sound carves small apart mms n_mms =
    let all_new : grown.free_list ≡ carves.new =
      carves.free ∙ ap (λ l. l ++ carves.new) none_free in
    let before : omp.n_frees ≡ 0 = sound.frees ∙ ap length none_free in
    let r = omp.object_size + item_header_size in
    let split : (x : ℕ)
        → 0 < count x grown.free_list + count x used
        → (0 < count x carves.new) ⊎ (0 < count x used) =
      λ x h. either (count x carves.new) (count x used) (rw all_new at h) in
    let spaced : (x y : ℕ)
        → (0 < count x carves.new) ⊎ (0 < count x used)
        → (0 < count y carves.new) ⊎ (0 < count y used)
        → x < y
        → x + r ≤ y =
      grown-spaced addr r carves.new used carves.within carves.spaced
        (λ x y hx hy. sound.spaced x y (omega arith) (omega arith)) apart in
    record {
      spaced = λ x y hx hy lt.
          let far = spaced x y (split x hx) (split y hy) lt in omega (arith, far, carves.sizes);
      frees = rw all_new (omega (arith, carves.frees, before));
      using = carves.using ∙ sound.using;
      objects = omega (arith, carves.frees, carves.objects, carves.using, sound.objects);
      once = λ x. rw all_new (elim (Bool-cases (ltb 0 (count x used))) [
        | inr unused ↦ ground (arith, unused, carves.distinct x)
        | inl in_use ↦ elim (Bool-cases (ltb 0 (count x carves.new))) [
          | inr old ↦ let had = sound.once x in ground (arith, old, had)
          | inl made ↦
              let place = carves.within x (ground (arith, made)) in
              elim (apart x (ground (arith, in_use))) [
                | inl below ↦ absurd (omega (arith, place.0))
                | inr above ↦ absurd (omega (arith, place.1))
              ]
        ]
      ]);
    }

-- In a sound pool whose objects fit into a block, with memory that no object in use overlaps and a
-- counter that does not overflow: a get fails and changes nobody's objects, or it hands out an
-- object that nobody has, and the pool stays sound: no two objects, free or in use, overlap.
pub get-HandsOut :
    (malloc : Option ℕ) (omp : Pool) (used : List ℕ)
    → omp.object_size + item_header_size + mem_header_size < object_mem_size
    → omp.n_objects + object_mem_size < 2 ^ 64
    → ((addr x : ℕ)
        → malloc ≡ some addr
        → 0 < count x used
        → (x + (omp.object_size + item_header_size) ≤ addr) ⊎ (addr + object_mem_size ≤ x))
    → IsSound omp used
    → HandsOut used (get malloc omp)
unfolding get new_memory
get-HandsOut malloc omp used fits small apart sound = go omp.free_list refl
  where
    first_of : (l : List ℕ) → 0 < length l → (x : ℕ) × ((xs : List ℕ) × (l ≡ x ∷ xs))
    first_of [] h = absurd (omega arith)
    first_of (x ∷ xs) h = (x, (xs, refl))

    fill :
        (addr : ℕ)
        → malloc ≡ some addr
        → omp.free_list ≡ []
        → HandsOut used (take_first (new_memory (some addr) omp).1)
    fill addr got none_free =
        let carves =
          carve-Carves object_mem_size (addr + mem_header_size) (addr + object_mem_size) omp
            (omega arith) (omega (arith, sound.objects)) (omega arith) in
        let (item, (items, e)) = first_of carves.new (carves.some_new (omega arith)) in
        take_first-HandsOut item items used _
          (carves.free ∙ ap (λ l. l ++ carves.new) none_free ∙ e) carves.small
          (grown-IsSound addr omp _ used none_free sound carves carves.small (λ x. apart addr x got)
            _ _)

    out :
        (m : Option ℕ)
        → malloc ≡ m
        → omp.free_list ≡ []
        → HandsOut used (
            if (new_memory malloc omp).0
            then take_first (new_memory malloc omp).1
            else (null, (new_memory malloc omp).1))
    out none got none_free = rw (got, new_memory) (record { outcome = inl (refl, sound) })
    out (some addr) got none_free = rw (got, new_memory) (fill addr got none_free)

    go : (free : List ℕ) → omp.free_list ≡ free → HandsOut used (get malloc omp)
    go (item ∷ items) e =
        rw (e, get) (take_first-HandsOut item items used omp e (omega arith) sound)
    go [] e =
        rw (e, get)
          (elim (Bool-cases (ltb 0 omp.object_limits && ltb omp.object_limits omp.n_objects)) [
            | inl limit ↦ rw limit (record { outcome = inl (refl, sound) })
            | inr free ↦ rw free (out malloc refl e)
          ])

-- An object in use that is put back is free, once, and in nobody's hands; every object is free or in
-- use as often as before, and the pool stays sound.
pub put-IsSound :
    (omp : Pool) (used : List ℕ) (item : ℕ)
    → omp.n_objects < 2 ^ 64
    → 0 < count item used
    → IsSound omp used
    → let after = put omp (some (item + item_header_size)) in
      IsSound after (remove item used)
      × (count item after.free_list ≡ 1)
      × (count item (remove item used) ≡ 0)
      × ((x : ℕ)
          → count x after.free_list + count x (remove item used)
            ≡ count x omp.free_list + count x used)
unfolding put count
put-IsSound omp used item small held sound =
    let back : item + item_header_size - item_header_size ≡ item = omega arith in
    let kept : (x : ℕ)
        → count x (omp.free_list ++ (item ∷ [])) + count x (remove item used)
          ≡ count x omp.free_list + count x used =
      λ x. omega (arith, count-append x omp.free_list (item ∷ []), count-remove x item used held) in
    let one : count item (item ∷ []) ≡ 1 = ground arith in
    rw (back, put)
      (
        record {
          frees = omega (
            arith,
            sound.frees,
            sound.objects,
            length-append_one item omp.free_list,
            length-remove item used held,
            sound.using,
          );
          using = omega (arith, sound.using, sound.objects, length-remove item used held);
          objects = omega (arith, sound.using, sound.objects, length-remove item used held);
          once = λ x. omega (arith, sound.once x, kept x);
          spaced =
              λ x y hx hy. sound.spaced x y (omega (arith, kept x, hx)) (omega (arith, kept y, hy));
        },
        omega (arith, sound.once item, held, count-append item omp.free_list (item ∷ []), one),
        omega (arith, sound.once item, count-remove item item used held, one),
        kept,
      )
