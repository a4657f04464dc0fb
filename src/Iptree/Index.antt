-- ===== src/Iptree/Index.antt =====
-- `_lookup_index` of lib/common/xm_iptree.c on a painted tree: index n is the n-th address that
-- the paint counted.
use xmap.Base.{
  ℕ, zero, suc, ◌+◌, ◌-◌, ◌*◌, ◌/◌, ◌%◌, ◌^◌, ◌≤◌, ◌<◌, ◌≡◌, refl, Bool, true, false, ltb, arith,
  Option, some, inl, inr, Bool-cases, ap, ltb→lt, ◌∙◌, not, ◌&&◌, leb, ◌==◌,
}
use Prim.Native.Nat.{bit_or}
use xmap.Base.Bits.{half-two-pow_suc, two-pow_suc, two-pow_pos, bit_or-add, mul-two-pow_suc'}
use xmap.Base.Tally.{tally, tally-add, tally_ext, tally_all, tally_none}
use xmap.Iptree.{Node, leaf, inner, count_recurse, count_of, index_from}
use xmap.Iptree.Semantics.{counted, counted_left, counted_right}
use xmap.Iptree.Count.{count-eq-tally, tally_halves}

-- The result is the base plus the n-th value below the bound that passes the test f.
pub record IsRanked (f : ℕ → Bool) (base bound n : ℕ) (result : Option ℕ) : Type 0 where
  pub offset : ℕ
  pub returns : result ≡ some (base + offset)
  pub below : offset < bound
  pub passes : f offset ≡ true
  pub rank : tally f offset ≡ n

module _ (v n ip mask : ℕ) {k : ℕ} (c : Option ℕ) (l r : Node) (e : count_of l ≡ some k) where
  index_from-left :
      ltb n k ≡ true → index_from (inner v c l r) n ip mask ≡ index_from l n ip (mask / 2)
  unfolding index_from
  index_from-left h = rw (e, index_from) (rw h)

  index_from-right :
      ltb n k ≡ false
      → index_from (inner v c l r) n ip mask ≡ index_from r (n - k) (bit_or ip mask) (mask / 2)
  unfolding index_from
  index_from-right h = rw (e, index_from) (rw h)

module _ (x : ℕ) (deep : Bool) where
  -- The node as the paint leaves it at level j.
  abbrev pub painted_node : Node → ℕ → Node
  painted_node node j = (count_recurse node x (2 ^ j) true deep).1

  pub count_of-painted :
      (node : Node) (size : ℕ)
      → count_of (count_recurse node x size true deep).1
        ≡ some (count_recurse node x size true deep).0
  unfolding count_recurse
  count_of-painted (leaf v c) size = refl
  count_of-painted (inner v c l r) size = refl

  bit_or-small :
      (j q n : ℕ)
      → (q + 1) * 2 ^ j ≤ 2 ^ 32
      → n < 2 ^ j
      → bit_or (q * 2 ^ j) n % 2 ^ 32 ≡ q * 2 ^ j + n
  bit_or-small j q n room h = rw (bit_or-add j q n h) (omega arith)

  next_base : (q j : ℕ) → q * 2 ^ suc j + 2 ^ j ≡ (q * 2 + 1) * 2 ^ j
  next_base q j = omega (arith, mul-two-pow_suc' q j)

  next_base_suc : (q j : ℕ) → (q * 2 + 1 + 1) * 2 ^ j ≡ (q + 1) * 2 ^ suc j
  next_base_suc q j = omega (arith, mul-two-pow_suc' (q + 1) j)

  -- `ip |= mask` takes the base to the right half.
  set_bit : (q j : ℕ) → bit_or (q * 2 ^ suc j) (2 ^ j) ≡ (q * 2 + 1) * 2 ^ j
  set_bit q j = omega (
    arith,
    bit_or-add (suc j) q (2 ^ j) (omega (arith, two-pow_suc j, two-pow_pos j)),
    next_base q j,
  )

  index_from-leaf :
      (v j q n : ℕ) (c : Option ℕ)
      → (q + 1) * 2 ^ j ≤ 2 ^ 32
      → n < tally (counted deep j (leaf v c) x) (2 ^ j)
      → IsRanked
          (counted deep j (leaf v c) x)
          (q * 2 ^ j)
          (2 ^ j)
          n
          (some (bit_or (q * 2 ^ j) n % 2 ^ 32))
  unfolding counted
  index_from-leaf v j q n c room h = elim (Bool-cases (v == x && not (deep && leb 12 j))) [
    | inl e ↦
        let all = λ (m : ℕ). tally_all (counted deep j (leaf v c) x) m (λ i p. e) in
        record {
          offset = n;
          returns = ap some (bit_or-small j q n room (omega (arith, all (2 ^ j))));
          below = omega (arith, all (2 ^ j));
          passes = e;
          rank = all n;
        }
    | inr e ↦ absurd (omega (arith, tally_none (counted deep j (leaf v c) x) (2 ^ j) (λ i p. e)))
  ]

  module _ (v j base : ℕ) (c : Option ℕ) (l r : Node) {result : Option ℕ} where
    IsRanked-left :
        (n : ℕ)
        → IsRanked (counted deep j l x) base (2 ^ j) n result
        → IsRanked (counted deep (suc j) (inner v c l r) x) base (2 ^ suc j) n result
    IsRanked-left n k = record {
      offset = k.offset;
      returns = k.returns;
      below = omega (arith, two-pow_suc j);
      passes = counted_left deep x j k.offset v c l r k.below ∙ k.passes;
      rank = tally_ext _ _ k.offset (λ a h. counted_left deep x j a v c l r (omega arith)) ∙ k.rank;
    }

    IsRanked-right :
        (n : ℕ)
        → tally (counted deep j l x) (2 ^ j) ≤ n
        → IsRanked
            (counted deep j r x)
            (base + 2 ^ j)
            (2 ^ j)
            (n - tally (counted deep j l x) (2 ^ j))
            result
        → IsRanked (counted deep (suc j) (inner v c l r) x) base (2 ^ suc j) n result
    IsRanked-right n h k = record {
      offset = 2 ^ j + k.offset;
      returns = k.returns ∙ ap some (omega arith);
      below = omega (arith, two-pow_suc j);
      passes = counted_right deep x j k.offset v c l r k.below ∙ k.passes;
      rank = omega (
        arith,
        tally-add (counted deep (suc j) (inner v c l r) x) (counted deep j r x) (2 ^ j) k.offset
            (λ a p. counted_right deep x j a v c l r (omega arith)),
        tally_ext (counted deep (suc j) (inner v c l r) x) (counted deep j l x) (2 ^ j)
            (λ a p. counted_left deep x j a v c l r p),
        k.rank,
      );
    }

  pub index_from-IsRanked :
      (node : Node) (j q n : ℕ)
      → j ≤ 32
      → (q + 1) * 2 ^ j ≤ 2 ^ 32
      → n < tally (counted deep j node x) (2 ^ j)
      → IsRanked
          (counted deep j node x)
          (q * 2 ^ j)
          (2 ^ j)
          n
          (index_from (painted_node node j) n (q * 2 ^ j) (2 ^ j / 2))
  unfolding index_from count_recurse
  index_from-IsRanked (leaf v c) j q n hj room h = index_from-leaf v j q n c room h
  index_from-IsRanked (inner v c l r) zero q n hj room h = absurd (
      omega
        (arith, tally_none (counted deep 0 (inner v c l r) x) 1 (λ i p. unfold counted in refl)))
  index_from-IsRanked (inner v c l r) (suc j) q n hj room h =
      rw half-two-pow_suc (elim (Bool-cases (ltb n (tally (counted deep j l x) (2 ^ j)))) [
        | inl e ↦
            rw
              (index_from-left _ n (q * 2 ^ suc j) (2 ^ j) _ (painted_node l j) (painted_node r j)
                painted_count e)
              (IsRanked-left v j (q * 2 ^ suc j) c l r n (
                rw (mul-two-pow_suc' q j) (
                  index_from-IsRanked l j (q * 2) n (omega arith)
                    (omega (arith, two-pow_suc j, ap (λ (t : ℕ). q * t) (two-pow_suc j)))
                    (ltb→lt _ _ e))))
        | inr e ↦
            rw
              (index_from-right _ n (q * 2 ^ suc j) (2 ^ j) _ (painted_node l j) (painted_node r j)
                painted_count e)
              (IsRanked-right v j (q * 2 ^ suc j) c l r n (ground arith) (
                rw (set_bit q j, next_base q j)
                  (index_from-IsRanked r j (q * 2 + 1) (n - tally (counted deep j l x) (2 ^ j))
                    (omega arith) (rw (next_base_suc q j) room)
                    (ground (arith, tally_halves x true deep v j c l r)))))
      ])
    where
      painted_count : count_of (painted_node l j) ≡ some (tally (counted deep j l x) (2 ^ j))
      painted_count =
          count_of-painted l (2 ^ j) ∙ ap some (count-eq-tally x true deep l j (omega arith))
