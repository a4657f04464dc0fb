-- ===== src/Iptree/Count.antt =====
-- `_count_ips_recurse` of lib/common/xm_iptree.c: what it counts, and what it paints.
use xmap.Base.{
  ℕ, zero, suc, ◌+◌, ◌^◌, ◌≤◌, ◌≡◌, refl, Bool, not, ◌&&◌, leb, ◌==◌, arith, Option, inl, inr,
  Bool-cases, ap,
}
use native.Mathlib.Nat.{pow-le-pow_right}
use xmap.Base.Bits.{half-two-pow_suc, two-pow_suc}
use xmap.Base.Tally.{tally, tally-add, tally_ext, tally_all, tally_none}
use xmap.Iptree.{Node, leaf, inner, leaf_count, count_recurse, block}
use xmap.Iptree.Semantics.{counted, counted_left, counted_right}

leb-block : (j : ℕ) → leb block (2 ^ j) ≡ leb 12 j
leb-block j = elim (Bool-cases (leb 12 j)) [
  | inl h ↦
      rw h (ground (arith, pow-le-pow_right {n = 2} (omega arith) {i = 12} {j = j} (ground arith)))
  | inr h ↦ rw h (
      ground (
        arith,
        pow-le-pow_right {n = 2} (omega arith) {i = suc j} {j = 12} (ground arith),
        two-pow_suc j,
      ))
]

module _ (x : ℕ) (paint deep : Bool) where
  -- Below level 0 the size has been shifted to 0, so nothing counts.
  count_zero : (node : Node) → (count_recurse node x 0 paint deep).0 ≡ 0
  unfolding count_recurse
  count_zero (leaf v c) = ground arith
  count_zero (inner v c l r) = ground (arith, count_zero l, count_zero r)

  pub count-le : (node : Node) (j : ℕ) → (count_recurse node x (2 ^ j) paint deep).0 ≤ 2 ^ j
  unfolding count_recurse
  count-le (leaf v c) j = ground arith
  count-le (inner v c l r) zero = ground (arith, count_zero l, count_zero r)
  count-le (inner v c l r) (suc j) =
      rw half-two-pow_suc (ground (arith, count-le l j, count-le r j, two-pow_suc j))

  leaf_count-eq-tally :
      (v j : ℕ) (c : Option ℕ)
      → leaf_count v x (2 ^ j) deep ≡ tally (counted deep j (leaf v c) x) (2 ^ j)
  unfolding leaf_count counted
  leaf_count-eq-tally v j c = elim (Bool-cases (v == x && not (deep && leb 12 j))) [
    | inl e ↦
        rw (tally_all (counted deep j (leaf v c) x) (2 ^ j) (λ i h. e))
          (ground (arith, leb-block j))
    | inr e ↦
        rw (tally_none (counted deep j (leaf v c) x) (2 ^ j) (λ i h. e))
          (ground (arith, leb-block j))
  ]

  pub tally_halves :
      (v j : ℕ) (c : Option ℕ) (l r : Node)
      → tally (counted deep (suc j) (inner v c l r) x) (2 ^ suc j)
        ≡ tally (counted deep j l x) (2 ^ j) + tally (counted deep j r x) (2 ^ j)
  tally_halves v j c l r =
      rw
        (
          two-pow_suc j,
          tally-add (counted deep (suc j) (inner v c l r) x) (counted deep j r x) (2 ^ j) (2 ^ j)
              (λ a h. counted_right deep x j a v c l r h),
        )
        (ap (λ t. t + tally (counted deep j r x) (2 ^ j))
          (tally_ext (counted deep (suc j) (inner v c l r) x) (counted deep j l x) (2 ^ j)
            (λ a h. counted_left deep x j a v c l r h)))

  -- At level j of at most 32 the count is the number of addresses decided in favour of x.
  pub count-eq-tally :
      (node : Node) (j : ℕ)
      → j ≤ 32
      → (count_recurse node x (2 ^ j) paint deep).0 ≡ tally (counted deep j node x) (2 ^ j)
  unfolding count_recurse counted
  count-eq-tally (leaf v c) j h = leaf_count-eq-tally v j c
  count-eq-tally (inner v c l r) zero h = omega (
    arith,
    count_zero l,
    count_zero r,
    tally_none (counted deep 0 (inner v c l r) x) 1 (λ i p. refl),
  )
  count-eq-tally (inner v c l r) (suc j) h = rw half-two-pow_suc (
      omega (
        arith,
        tally_halves v j c l r,
        count-eq-tally l j (omega arith),
        count-eq-tally r j (omega arith),
        count-le l j,
        count-le r j,
        pow-le-pow_right {n = 2} (omega arith) {i = j} {j = 31} (omega arith),
      ))
