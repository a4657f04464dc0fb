-- ===== src/Shard/Partition.antt =====
-- How `xm_shard_create` of src/xm_shard.c divides the cycle of exponents among the shards.
use xmap.Base.{
  ℕ, zero, suc, ◌+◌, ◌-◌, ◌*◌, ◌/◌, ◌%◌, ◌≤◌, ◌<◌, ◌≡◌, sym, ap, ◌∙◌, subst, ltb, arith, inl, inr,
  Bool-cases, ltb→lt, ltb-false→le,
}
use native.Mathlib.Nat.{mod-lt, mul-le-mul_right, div-add-mod}
use xmap.Cyclic.{Cycle}
use xmap.Shard.{exponent_begin, exponent_end}
use xmap.Shard.Orbit.{elem_at, distance, elem_at_injective}
use xmap.Shard.Widths.{Divided, width, width_bounds}
use xmap.Shard.Widths as Places

module _ (ntohl : ℕ → ℕ) (cycle : Cycle) (n : ℕ) (divided : Divided cycle n) where
  -- The k-th step of the i-th shard, counted from 0 to n - 1, before its last element, is at the element.
  pub record Visits (i k elem : ℕ) : Type 0 where
    pub shard : i < n
    pub inside :
        k < distance cycle.order (exponent_begin ntohl cycle n i) (exponent_end ntohl cycle n i)
    pub there : elem_at cycle (exponent_begin ntohl cycle n i + k) ≡ elem

  Visits-place :
      (i k elem : ℕ)
      → Visits i k elem
      → (k < width cycle.order n i)
        × (elem_at cycle (cycle.order / n * i + k + cycle.offset) ≡ elem)
  Visits-place i k elem v = (
    subst (λ w. k < w) (Places.distance-width ntohl cycle n divided i v.shard) v.inside,
    sym (Places.elem_at-begin ntohl cycle n divided i k v.shard) ∙ v.there,
  )

  -- Where n shards with the indices 0 to n - 1, at most as many as the cycle has elements, share a cycle,
  -- every element of the cycle is visited by one of them.
  pub shards_complete : (e : ℕ) → (i : ℕ) × (k : ℕ) × Visits i k (elem_at cycle e)
  shards_complete e =
      let x = (e + (cycle.order * cycle.offset - cycle.offset)) % cycle.order in
      let (i, k, lt, inside, same) =
        Places.place ntohl cycle n divided x (mod-lt _ (omega (arith, divided.turns.some_order))) in
      (
        i,
        k,
        record {
          shard = lt;
          inside =
              subst (λ w. k < w) (sym (Places.distance-width ntohl cycle n divided i lt)) inside;
          there = Places.elem_at-begin ntohl cycle n divided i k lt ∙ back i k same;
        },
      )
    where
      more : ℕ
      more = cycle.order * cycle.offset - cycle.offset

      enough : cycle.offset ≤ cycle.order * cycle.offset
      enough = omega (
        arith,
        mul-le-mul_right {m = 1} {n = cycle.order} cycle.offset
            (omega (arith, divided.turns.some_order)),
      )

      back :
          (i k : ℕ)
          → (e + (cycle.order * cycle.offset - cycle.offset)) % cycle.order
            ≡ cycle.order / n * i + k
          → elem_at cycle (cycle.order / n * i + k + cycle.offset) ≡ elem_at cycle e
      back i k same =
          let x = e + (cycle.order * cycle.offset - cycle.offset) in
          let whole : cycle.order / n * i + k + cycle.offset + cycle.order * (x / cycle.order)
              ≡ e + cycle.order * cycle.offset =
            omega (arith, same, enough, div-add-mod x cycle.order) in
          sym (
            Places.elem_at-multiple ntohl cycle n divided (cycle.order / n * i + k + cycle.offset)
              (x / cycle.order))
          ∙ ap (elem_at cycle) whole
          ∙ Places.elem_at-multiple ntohl cycle n divided e cycle.offset

  -- And no element is visited twice, by one shard or by two, if their indices are below n. (The threads
  -- of src/xm_work.c are numbered from 1, so that the last of them has the index n.)
  pub shards_disjoint : (i j k l elem : ℕ) → Visits i k elem → Visits j l elem → (i ≡ j) × (k ≡ l)
  shards_disjoint i j k l elem v w =
      let (inside, here) = Visits-place i k elem v in
      let (inside', there) = Visits-place j l elem w in
      Places.one_place ntohl cycle n divided i j k l v.shard w.shard inside inside' (
        same_place (cycle.order / n * i + k) (cycle.order / n * j + l) (bound i k v.shard inside)
          (bound j l w.shard inside') (here ∙ sym there))
    where
      bound : (i k : ℕ) → i < n → k < width cycle.order n i → cycle.order / n * i + k < cycle.order
      bound i k lt inside =
          let (pos, le) = width_bounds cycle.order n i lt divided.few in omega (arith, le, inside)

      multiple_small : (c d : ℕ) → d < cycle.order → d ≡ cycle.order * c → d ≡ 0
      multiple_small zero d lt e = omega (arith, e)
      multiple_small (suc c) d lt e =
          let split : cycle.order * suc c ≡ cycle.order + cycle.order * c = omega arith in
          absurd (omega (arith, lt, e, split))

      same_place :
          (x y : ℕ)
          → x < cycle.order
          → y < cycle.order
          → elem_at cycle (x + cycle.offset) ≡ elem_at cycle (y + cycle.offset)
          → x ≡ y
      same_place x y lt lt' e = elim (Bool-cases (ltb x y)) [
        | inl less ↦
            let (c, em) =
              elem_at_injective (x + cycle.offset) (y + cycle.offset) cycle divided.turns
                (omega (arith, ltb→lt _ _ less)) e in
            absurd (
              omega (
                arith,
                ltb→lt _ _ less,
                multiple_small c (y + cycle.offset - (x + cycle.offset)) (omega arith) em,
              ))
        | inr more ↦
            let (c, em) =
              elem_at_injective (y + cycle.offset) (x + cycle.offset) cycle divided.turns
                (omega (arith, ltb-false→le _ _ more)) (sym e) in
            omega (
              arith,
              ltb-false→le _ _ more,
              multiple_small c (x + cycle.offset - (y + cycle.offset)) (omega arith) em,
            )
      ]
