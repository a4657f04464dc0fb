-- ===== src/Iptree/Radix.antt =====
-- The radix array of lib/common/xm_iptree.c: which blocks of 4096 addresses `xm_iptree_paint_value`
-- lists in it, and why they are exactly the addresses that the deep count leaves out.
use native.Mathlib.Nat.{div-div-eq-div-mul}
use xmap.Base.{
  ℕ, zero, suc, ◌+◌, ◌*◌, ◌/◌, ◌%◌, ◌^◌, ◌≤◌, ◌<◌, ◌≡◌, refl, sym, Bool, true, false, ltb, arith,
  Option, some, inl, inr, Bool-cases, ap, ◌∙◌, ◌&&◌, ◌||◌, ◌==◌, List, [], ◌∷◌, ◌++◌, length,
  get_elem?, if◌then◌else◌, length-append, get_elem?-append_left, get_elem?-append_last,
}
use xmap.Base.Modular.{pow-add}
use xmap.Base.Bits.{half-two-pow_suc}
use xmap.Base.Tally.{tally, tally-suc}
use xmap.Iptree.{Node, leaf, inner, block, lookup_node, in_radix, fill, is_leaf, value_of}
use xmap.Iptree.Semantics.{counted}

-- Entry k of the array is the first address of the k-th listed block.
pub record IsEntry (f : ℕ → Bool) (bound k : ℕ) (entry : Option ℕ) : Type 0 where
  pub number : ℕ
  pub is : entry ≡ some (number * block)
  pub below : number < bound
  pub listed : f number ≡ true
  pub rank : tally f number ≡ k

pub record IsListed (f : ℕ → Bool) (bound : ℕ) (radix : List ℕ) : Type 0 where
  pub size : length radix ≡ tally f bound
  pub entries : (k : ℕ) → k < length radix → IsEntry f bound k (get_elem? radix k)

module _ (root : Node) (x : ℕ) where
  IsEntry-suc :
      {f : ℕ → Bool} {i k : ℕ} {entry : Option ℕ} → IsEntry f i k entry → IsEntry f (suc i) k entry
  IsEntry-suc e = record {
    number = e.number;
    is = e.is;
    below = omega arith;
    listed = e.listed;
    rank = e.rank;
  }

  IsListed-skip :
      {i : ℕ} {radix : List ℕ}
      → in_radix root x i ≡ false
      → IsListed (in_radix root x) i radix
      → IsListed (in_radix root x) (suc i) radix
  IsListed-skip {i} out h = record {
    size = h.size ∙ sym (ground (arith, tally-suc (in_radix root x) i));
    entries = λ k p. IsEntry-suc (h.entries k p);
  }

  IsListed-push :
      {i : ℕ} {radix : List ℕ}
      → i < 2 ^ 20
      → in_radix root x i ≡ true
      → IsListed (in_radix root x) i radix
      → IsListed (in_radix root x) (suc i) (radix ++ (i * block % 2 ^ 32) ∷ [])
  IsListed-push {i} {radix} small inside h = record {
    size = ground (
      arith,
      tally-suc (in_radix root x) i,
      length-append radix ((i * block % 2 ^ 32) ∷ []),
      h.size,
    );
    entries = λ k p. elim (Bool-cases (ltb k (length radix))) [
      | inl e ↦
          rw (get_elem?-append_left radix ((i * block % 2 ^ 32) ∷ []) k (ground arith))
            (IsEntry-suc (h.entries k (ground arith)))
      | inr e ↦
          let last : k ≡ length radix =
            ground (arith, length-append radix ((i * block % 2 ^ 32) ∷ [])) in
          record {
            number = i;
            is = get_elem?-append_last radix (i * block % 2 ^ 32) k last ∙ ap some (omega arith);
            below = omega arith;
            listed = inside;
            rank = omega (arith, h.size);
          }
    ];
  }

  pub fill-IsListed :
      (left i end : ℕ) (radix : List ℕ)
      → i + left ≡ end
      → end ≤ 2 ^ 20
      → IsListed (in_radix root x) i radix
      → IsListed (in_radix root x) end (fill left i root x radix)
  unfolding fill
  fill-IsListed zero i end radix e room h = let done : i ≡ end = omega arith in rw (← done) h
  fill-IsListed (suc left) i end radix e room h =
      fill-IsListed left (i + 1) end
        (if in_radix root x i then radix ++ (i * block % 2 ^ 32) ∷ [] else radix) (omega arith) room
        (let next : i + 1 ≡ suc i = omega arith in
          rw next (elim (Bool-cases (in_radix root x i)) [
            | inl inside ↦ rw inside (IsListed-push {i = i} {radix = radix} (omega arith) inside h)
            | inr out ↦ rw out (IsListed-skip {i = i} out h)
          ]))

-- An address and the first address of its block agree in the bits from 12 on.
quotient-block : (left b o : ℕ) → o < block → (b * block + o) / 2 ^ (12 + left) ≡ b / 2 ^ left
quotient-block left b o h =
    rw (pow-add 2 12 left, ← div-div-eq-div-mul (b * block + o) block (2 ^ left))
      (ap (λ (t : ℕ). t / 2 ^ left) (omega arith))

quotient_same :
    (left j b o : ℕ) → o < block → j ≡ 12 + left → (b * block + o) / 2 ^ j ≡ b * block / 2 ^ j
quotient_same left j b o h e =
    rw (e, quotient-block left b o h)
      (sym
        (ap (λ (t : ℕ). t / 2 ^ (12 + left)) (omega arith) ∙ quotient-block left b 0 (omega arith)))

module _ (x b o : ℕ) (small : o < block) where
  abbrev settled : Node → Bool
  settled node = is_leaf node && value_of node == x

  -- Below level 12 nothing is in the radix.
  counted_low :
      (node : Node) (j : ℕ)
      → j < 12
      → counted false j node x (b * block + o) ≡ counted true j node x (b * block + o)
  unfolding counted
  counted_low (leaf v c) j h = ground arith
  counted_low (inner v c l r) zero h = refl
  counted_low (inner v c l r) (suc j) h = ground (arith, counted_low l j, counted_low r j)

  -- An address counts either with its block or below level 12, and never twice.
  pub counted-split :
      (left j : ℕ) (node : Node)
      → j ≡ 12 + left
      → (counted false j node x (b * block + o) ≡ (
          settled (lookup_node left node (b * block) (2 ^ j / 2))
          || counted true j node x (b * block + o)))
        × ((settled (lookup_node left node (b * block) (2 ^ j / 2))
              && counted true j node x (b * block + o))
            ≡ false)
  unfolding counted lookup_node
  counted-split zero j (leaf v c) e = ground arith
  counted-split zero zero (inner v c l r) e = absurd (omega arith)
  counted-split zero (suc j) (inner v c l r) e = ground (arith, counted_low l j, counted_low r j)
  counted-split (suc left) j (leaf v c) e = ground arith
  counted-split (suc left) zero (inner v c l r) e = absurd (omega arith)
  counted-split (suc left) (suc j) (inner v c l r) e = rw half-two-pow_suc (
      ground (
        arith,
        quotient_same left j b o small (omega arith),
        counted-split left j l (omega arith),
        counted-split left j r (omega arith),
      ))
