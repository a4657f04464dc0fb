-- ===== src/Iptree/Bijection.antt =====
-- `xm_iptree_lookup_index` of lib/common/xm_iptree.c as a numbering of the addresses with a value:
-- the scanner visits each of them by exactly one index.
use xmap.Base.{
  ℕ, ◌+◌, ◌*◌, ◌/◌, ◌%◌, ◌^◌, ◌<◌, ◌≡◌, refl, sym, Bool, true, false, arith, some, inl, inr,
  Bool-cases, ap, ◌∙◌, not, ◌||◌, ◌==◌, fun_ext,
}
use xmap.Base.Tally.{tally, tally-lt, tally_injective}
use xmap.Iptree.{Node, Iptree, block, in_radix, paint_value, lookup_index, repaint}
use xmap.Iptree.Semantics.{counted}
use xmap.Iptree.Blocks.{counted-painted, in_radix-painted, radix_or_deep, tally-radix}
use xmap.Iptree.Lookup.{has_value, position, IsAddress, IsConsistent}
use xmap.Iptree.Paint.{lookup_index-IsAddress, has_value-repaint}

module _ (root : Node) (x : ℕ) where
  position_radix :
      (ip : ℕ)
      → in_radix root x (ip / block) ≡ true
      → position root x ip ≡ tally (in_radix root x) (ip / block) * block + ip % block
  unfolding position
  position_radix ip e = rw e

  position_deep :
      (ip : ℕ)
      → in_radix root x (ip / block) ≡ false
      → position root x ip
        ≡ tally (in_radix root x) (2 ^ 20) * block + tally (counted true 32 root x) ip
  unfolding position
  position_deep ip e = rw e

  deep_of :
      (ip : ℕ)
      → ip < 2 ^ 32
      → has_value root x ip ≡ true
      → in_radix root x (ip / block) ≡ false
      → counted true 32 root x ip ≡ true
  unfolding has_value
  deep_of ip small v e = ground (arith, radix_or_deep root x ip small)

  -- The index of an address with the value is below the count.
  pub position-lt :
      (ip : ℕ)
      → ip < 2 ^ 32
      → has_value root x ip ≡ true
      → position root x ip < tally (has_value root x) (2 ^ 32)
  unfolding has_value
  position-lt ip small v = elim (Bool-cases (in_radix root x (ip / block))) [
    | inl e ↦ omega (
      arith,
      position_radix ip e,
      tally-radix root x,
      tally-lt (in_radix root x) (ip / block) (2 ^ 20) e (omega arith),
    )
    | inr e ↦ omega (
      arith,
      position_deep ip e,
      tally-radix root x,
      tally-lt (counted true 32 root x) ip (2 ^ 32) (unfold has_value in deep_of ip small v e)
          small,
    )
  ]

  -- A block of the radix comes before every address below level 12.
  radix_before_deep :
      (a b : ℕ)
      → a < 2 ^ 32
      → in_radix root x (a / block) ≡ true
      → in_radix root x (b / block) ≡ false
      → position root x a < position root x b
  radix_before_deep a b small ea eb = omega (
    arith,
    position_radix a ea,
    position_deep b eb,
    tally-lt (in_radix root x) (a / block) (2 ^ 20) ea (omega arith),
  )

  -- Two addresses with the value have different indexes.
  pub position_injective :
      (a b : ℕ)
      → a < 2 ^ 32
      → b < 2 ^ 32
      → has_value root x a ≡ true
      → has_value root x b ≡ true
      → position root x a ≡ position root x b
      → a ≡ b
  position_injective a b sa sb va vb e = elim (Bool-cases (in_radix root x (a / block))) [
    | inl ea ↦ elim (Bool-cases (in_radix root x (b / block))) [
      | inl eb ↦ omega (
        arith,
        tally_injective (in_radix root x) (a / block) (b / block) ea eb
            (omega (arith, position_radix a ea, position_radix b eb)),
        position_radix a ea,
        position_radix b eb,
      )
      | inr eb ↦ absurd (omega (arith, radix_before_deep a b sa ea eb))
    ]
    | inr ea ↦ elim (Bool-cases (in_radix root x (b / block))) [
      | inl eb ↦ absurd (omega (arith, radix_before_deep b a sb eb ea))
      | inr eb ↦
          tally_injective (counted true 32 root x) a b (deep_of a sa va ea) (deep_of b sb vb eb)
            (omega (arith, position_deep a ea, position_deep b eb))
    ]
  ]

module _ (t : Iptree) (x : ℕ) where
  in_radix-repaint : (i : ℕ) → in_radix (repaint t x).root x i ≡ in_radix t.root x i
  unfolding repaint paint_value
  in_radix-repaint i = elim (Bool-cases (not t.painted || not (t.paint_value == x))) [
    | inl e ↦ rw e (in_radix-painted x (2 ^ 32) true true t.root x i)
    | inr e ↦ rw e
  ]

  counted-repaint :
      (deep : Bool) (a : ℕ) → counted deep 32 (repaint t x).root x a ≡ counted deep 32 t.root x a
  unfolding repaint paint_value
  counted-repaint deep a = elim (Bool-cases (not t.painted || not (t.paint_value == x))) [
    | inl e ↦ rw e (counted-painted deep x x (2 ^ 32) true true t.root 32 a)
    | inr e ↦ rw e
  ]

  position-repaint : (ip : ℕ) → position (repaint t x).root x ip ≡ position t.root x ip
  unfolding position
  position-repaint ip = rw (fun_ext in_radix-repaint, fun_ext (counted-repaint true)) refl

  -- Every index below the count is answered, by the address of the tree with this index.
  pub lookup_index_sound :
      (index : ℕ)
      → IsConsistent t
      → index < tally (has_value t.root x) (2 ^ 32)
      → IsAddress t.root x index (lookup_index t index x).0
  lookup_index_sound index ok h =
      let found = lookup_index-IsAddress t x index ok h in
      record {
        ip = found.ip;
        returns = found.returns;
        in_space = found.in_space;
        value = sym (has_value-repaint t x found.ip) ∙ found.value;
        index_of = sym (position-repaint found.ip) ∙ found.index_of;
      }

  -- Every address that the value is decided for is found, by exactly one index below the count.
  pub lookup_index_complete :
      (ip : ℕ)
      → IsConsistent t
      → ip < 2 ^ 32
      → has_value t.root x ip ≡ true
      → (position t.root x ip < tally (has_value t.root x) (2 ^ 32))
        × ((lookup_index t (position t.root x ip) x).0 ≡ some ip)
  lookup_index_complete ip ok small v =
      (position-lt t.root x ip small v, found.returns ∙ ap some same)
    where
      found : IsAddress t.root x (position t.root x ip) (lookup_index t (position t.root x ip) x).0
      found = lookup_index_sound (position t.root x ip) ok (position-lt t.root x ip small v)

      same : found.ip ≡ ip
      same =
          position_injective t.root x found.ip ip found.in_space small found.value v found.index_of
