-- ===== src/Iptree/Paint.antt =====
-- The public operations of lib/common/xm_iptree.c on any tree that the code can reach: the paint
-- and radix caches never show.
use xmap.Base.{
  ℕ, ◌+◌, ◌*◌, ◌%◌, ◌^◌, ◌<◌, ◌≡◌, refl, sym, true, false, arith, some, inl, inr, Bool-cases, ap,
  subst, not, ◌&&◌, ◌||◌, ◌==◌, [], length,
}
use xmap.Base.Tally.{tally, tally-zero, tally_ext, tally-le_bound}
use xmap.Iptree.{
  Iptree, block, count_recurse, paint_value, lookup_index, repaint, count_ips, add, create,
}
use xmap.Iptree.Semantics.{counted}
use xmap.Iptree.Count.{count-eq-tally}
use xmap.Iptree.Radix.{fill-IsListed}
use xmap.Iptree.Blocks.{counted-painted, tally-radix}
use xmap.Iptree.Lookup.{
  has_value, IsAddress, IsPainted, IsConsistent, lookup_painted-IsAddress, count_painted,
}

pub paint_value-IsPainted : (t : Iptree) (x : ℕ) → IsPainted (paint_value t x) x
unfolding paint_value
paint_value-IsPainted t x = record {
  node = t.root;
  painted_root = refl;
  listed =
      fill-IsListed (count_recurse t.root x (2 ^ 32) true true).1 x (2 ^ 20) 0 (2 ^ 20) []
        (omega arith) (omega arith)
        (record { size = sym (tally-zero _); entries = λ k h. elim h [ ] });
}

pub has_value-paint :
    (t : Iptree) (x y a : ℕ) → has_value (paint_value t x).root y a ≡ has_value t.root y a
unfolding has_value paint_value
has_value-paint t x y a = counted-painted false y x (2 ^ 32) true true t.root 32 a

-- The caches are in order from the start and after every operation.
pub create-IsConsistent : (value unset : ℕ) → IsConsistent (create value unset)
unfolding create
create-IsConsistent value unset = record { paint = λ h. cc }

pub add-IsConsistent : (t : Iptree) (prefix len value : ℕ) → IsConsistent (add t prefix len value)
unfolding add
add-IsConsistent t prefix len value = record { paint = λ h. cc }

pub paint_value-IsConsistent : (t : Iptree) (x : ℕ) → IsConsistent (paint_value t x)
unfolding paint_value
paint_value-IsConsistent t x = record { paint = λ h. paint_value-IsPainted t x }

painted_for :
    (t : Iptree) (x : ℕ) → IsConsistent t → (t.painted && t.paint_value == x) ≡ true → IsPainted t x
painted_for t x ok e = subst (IsPainted t) (ground arith) (ok.paint (ground arith))

-- The tree that `xm_iptree_lookup_index` leaves, and looks up in, is painted for its value.
pub repaint-IsPainted : (t : Iptree) (x : ℕ) → IsConsistent t → IsPainted (repaint t x) x
unfolding repaint
repaint-IsPainted t x ok = elim (Bool-cases (t.painted && t.paint_value == x)) [
  | inl e ↦ rw (both e) (painted_for t x ok e)
  | inr e ↦ rw (missing e) (paint_value-IsPainted t x)
]
  where
    both :
        (t.painted && t.paint_value == x) ≡ true
        → (not t.painted || not (t.paint_value == x)) ≡ false
    both e = ground arith

    missing :
        (t.painted && t.paint_value == x) ≡ false
        → (not t.painted || not (t.paint_value == x)) ≡ true
    missing e = ground arith

pub repaint-IsConsistent : (t : Iptree) (x : ℕ) → IsConsistent t → IsConsistent (repaint t x)
unfolding repaint
repaint-IsConsistent t x ok = elim (Bool-cases (not t.painted || not (t.paint_value == x))) [
  | inl e ↦ rw e (paint_value-IsConsistent t x)
  | inr e ↦ rw e ok
]

pub has_value-repaint :
    (t : Iptree) (x a : ℕ) → has_value (repaint t x).root x a ≡ has_value t.root x a
unfolding repaint
has_value-repaint t x a = elim (Bool-cases (not t.painted || not (t.paint_value == x))) [
  | inl e ↦ rw e (has_value-paint t x x a)
  | inr e ↦ rw e
]

-- The count of the addresses that a value is decided for: the same from the cached counts and from the walk.
pub count_ips-eq-tally :
    (t : Iptree) (x : ℕ)
    → IsConsistent t
    → count_ips t x ≡ some (tally (has_value t.root x) (2 ^ 32))
unfolding count_ips has_value
count_ips-eq-tally t x ok = elim (Bool-cases (t.painted && t.paint_value == x)) [
  | inl e ↦ rw (e, count_painted (painted_for t x ok e)) (ap some (cached (painted_for t x ok e)))
  | inr e ↦ rw e (ap some (count-eq-tally x false false t.root 32 (omega arith)))
]
  where
    cached :
        IsPainted t x
        → (tally (counted true 32 t.root x) (2 ^ 32) + length t.radix * block) % 2 ^ 64
          ≡ tally (counted false 32 t.root x) (2 ^ 32)
    cached p = omega (
      arith,
      p.listed.size,
      tally-radix t.root x,
      tally-le_bound (counted false 32 t.root x) (2 ^ 32),
    )

-- An index below the count gives an address of the tree, and the one that this index stands for.
pub lookup_index-IsAddress :
    (t : Iptree) (x index : ℕ)
    → IsConsistent t
    → index < tally (has_value t.root x) (2 ^ 32)
    → IsAddress (repaint t x).root x index (lookup_index t index x).0
unfolding lookup_index
lookup_index-IsAddress t x index ok h = lookup_painted-IsAddress (repaint-IsPainted t x ok) index (
    rw
      (tally_ext (has_value (repaint t x).root x) (has_value t.root x) (2 ^ 32)
        (λ a _. has_value-repaint t x a))
      h)
