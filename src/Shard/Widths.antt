-- ===== src/Shard/Widths.antt =====
-- The exponents at which a shard of `xm_shard_create` (src/xm_shard.c) starts and stops, as places in the
-- cycle.
use xmap.Base.{
  ℕ, suc, ◌+◌, ◌-◌, ◌*◌, ◌/◌, ◌%◌, ◌^◌, ◌≤◌, ◌<◌, ◌≡◌, sym, ap, ◌∙◌, false, true, ◌==◌, ltb,
  if◌then◌else◌, arith, inl, inr, Bool-cases, ltb→lt, ltb-false→le,
}
use xmap.Base.Modular.{mod_wrap, pow-add, mul-mod-mod}
use native.Mathlib.Nat.{
  mod-lt, mod-eq_of_lt, mul-le-mul_left, mul-div-le, div-add-mod, div-mul-le_self, div-add-mod',
  mul_comm, mul-zero, mod-add-mod, add-mul-mod_self_left, mod_self,
}
use xmap.Cyclic.{Cycle}
use xmap.Cyclic.Made.{Turns}
use xmap.Cyclic.Generator.{one-mul}
use xmap.Shard.{exponent_begin, exponent_end}
use xmap.Shard.Orbit.{elem_at, distance}

-- The number of exponents of the i-th of n shards; the last one has what remains.
abbrev pub width : ℕ → ℕ → ℕ → ℕ
width order n i = let q = order / n in if suc i == n then order - q * i else q

share_le : (order n i : ℕ) → i < n → order / n * i + order / n ≤ order
share_le order n i lt =
    let le : order / n * suc i ≤ order / n * n = mul-le-mul_left (order / n) lt in
    let e : order / n * suc i ≡ order / n * i + order / n = omega arith in
    omega (arith, le, e, div-mul-le_self order n)

share_pos : (order n : ℕ) → 0 < n → n ≤ order → 0 < order / n
share_pos order n pos le = elim (Bool-cases (order / n == 0)) [
  | inl none_left ↦
      let e : order / n ≡ 0 = ground (arith, none_left) in
      absurd (omega (arith, ap (λ (t : ℕ). t * n) e, div-add-mod' order n, mod-lt order pos))
  | inr some_left ↦ ground (arith, some_left)
]

pub width_bounds :
    (order n i : ℕ)
    → i < n
    → n ≤ order
    → (0 < width order n i) × (order / n * i + width order n i ≤ order)
width_bounds order n i lt le =
    ground (arith, share_le order n i lt, share_pos order n (omega arith) le)

distance-mod :
    (order a w : ℕ) → 0 < w → w ≤ order → distance order (a % order) ((a + w) % order) ≡ w
distance-mod order a w pos le =
    let low : a % order < order = mod-lt a (omega arith) in
    let same : (a + w) % order ≡ (a % order + w) % order = sym (mod-add-mod a order w) in
    rw same (elim (mod_wrap (a % order + w) order (omega arith)) [
      | inl (lt, e) ↦ rw e (ground arith)
      | inr (ge, e) ↦ ground (arith, e)
    ])

-- A cycle that n shards divide among them.
pub record Divided (cycle : Cycle) (n : ℕ) : Type 0 where
  pub turns : Turns cycle
  pub narrow : cycle.order < 2 ^ 33
  pub low : cycle.offset < 2 ^ 33
  pub some_shards : 0 < n
  pub few : n ≤ cycle.order
  pub words : n < 2 ^ 32

module _ (ntohl : ℕ → ℕ) (cycle : Cycle) (n : ℕ) (divided : Divided cycle n) where
  abbrev q : ℕ
  q = cycle.order / n

  begin_mod :
      (i : ℕ) → i < n → exponent_begin ntohl cycle n i ≡ (q * i + cycle.offset) % cycle.order
  unfolding exponent_begin
  begin_mod i lt =
      let small : cycle.order / n * i + cycle.offset < 2 ^ 64 =
        omega (arith, share_le cycle.order n i lt, divided.narrow, divided.low) in
      ap (λ (t : ℕ). t % cycle.order) (mod-eq_of_lt small)

  end_mod :
      (i : ℕ)
      → i < n
      → exponent_end ntohl cycle n i ≡ (q * i + cycle.offset + width cycle.order n i) % cycle.order
  unfolding exponent_end
  end_mod i lt = elim (Bool-cases (suc i == n)) [
    | inl last ↦
        let at_end : i + 1 ≡ n = ground (arith, last) in
        let wrapped : (i + 1) % 2 ^ 32 % n ≡ 0 =
          ap (λ (t : ℕ). t % n) (mod-eq_of_lt (omega (arith, divided.words)))
          ∙ rw at_end (mod_self n) in
        let none_left : q * ((i + 1) % 2 ^ 32 % n) ≡ 0 =
          ap (λ (t : ℕ). q * t) wrapped ∙ mul-zero q in
        let around : q * i + cycle.offset + (cycle.order - q * i) ≡ cycle.offset + cycle.order * 1 =
          omega (arith, share_le cycle.order n i lt, divided.narrow, divided.low) in
        let sum : q * ((i + 1) % 2 ^ 32 % n) + cycle.offset ≡ cycle.offset =
          omega (arith, none_left) in
        let small : cycle.offset < 2 ^ 64 = omega (arith, divided.low) in
        rw (last, around)
          (ap (λ (t : ℕ). t % 2 ^ 64 % cycle.order) sum
            ∙ ap (λ (t : ℕ). t % cycle.order) (mod-eq_of_lt small)
            ∙ sym (add-mul-mod_self_left cycle.offset cycle.order 1))
    | inr more ↦
        let before : i + 1 < n = ground (arith, more, lt) in
        let kept : (i + 1) % 2 ^ 32 % n ≡ i + 1 =
          ap (λ (t : ℕ). t % n) (mod-eq_of_lt (omega (arith, divided.words)))
          ∙ mod-eq_of_lt before in
        let sum : q * ((i + 1) % 2 ^ 32 % n) + cycle.offset ≡ q * i + cycle.offset + q =
          omega (arith, ap (λ (t : ℕ). q * t) kept) in
        let small : q * i + cycle.offset + q < 2 ^ 64 =
          omega (arith, share_le cycle.order n i lt, divided.narrow, divided.low) in
        rw more (
          ap (λ (t : ℕ). t % 2 ^ 64 % cycle.order) sum
          ∙ ap (λ (t : ℕ). t % cycle.order) (mod-eq_of_lt small))
  ]

  pub distance-width :
      (i : ℕ)
      → i < n
      → distance cycle.order (exponent_begin ntohl cycle n i) (exponent_end ntohl cycle n i)
        ≡ width cycle.order n i
  distance-width i lt =
      let (pos, le) = width_bounds cycle.order n i lt divided.few in
      rw (begin_mod i lt, end_mod i lt)
        (distance-mod cycle.order (q * i + cycle.offset) (width cycle.order n i) pos
          (omega (arith, le)))

  pub elem_at-multiple : (e m : ℕ) → elem_at cycle (e + cycle.order * m) ≡ elem_at cycle e
  elem_at-multiple e m =
      let p = cycle.group.prime in
      let g = cycle.generator in
      let one : g ^ e * 1 ≡ g ^ e = omega arith in
      ap (λ (t : ℕ). t % p) (pow-add g e (cycle.order * m))
      ∙ sym (mul-mod-mod (g ^ e) (g ^ (cycle.order * m)) p)
      ∙ ap (λ (t : ℕ). (g ^ e * t) % p)
          (one-mul g p cycle.order m (omega (arith, divided.turns.order, divided.turns.some_order))
            divided.turns.generates.closes)
      ∙ ap (λ (t : ℕ). t % p) one

  -- The k-th element of a shard.
  pub elem_at-begin :
      (i k : ℕ)
      → i < n
      → elem_at cycle (exponent_begin ntohl cycle n i + k)
        ≡ elem_at cycle (q * i + k + cycle.offset)
  elem_at-begin i k lt =
      let a = q * i + cycle.offset in
      let whole : q * i + k + cycle.offset ≡ a % cycle.order + k + cycle.order * (a / cycle.order) =
        omega (arith, div-add-mod' a cycle.order, mul_comm cycle.order (a / cycle.order)) in
      rw (begin_mod i lt, whole) (sym (elem_at-multiple (a % cycle.order + k) (a / cycle.order)))

  -- Every place in the cycle belongs to a shard.
  pub place :
      (x : ℕ)
      → x < cycle.order
      → (i : ℕ) × (k : ℕ) × (i < n) × (k < width cycle.order n i) × (x ≡ q * i + k)
  place x lt = elim (Bool-cases (ltb (x / q) (n - 1))) [
    | inl early ↦
        let before : x / q < n - 1 = ltb→lt _ _ early in
        let not_last : (suc (x / q) == n) ≡ false = ground (arith, before) in
        (
          x / q,
          x % q,
          omega (arith, before),
          rw not_last (mod-lt x (share_pos cycle.order n divided.some_shards divided.few)),
          sym (div-add-mod x q),
        )
    | inr late ↦
        let after : q * (n - 1) ≤ x =
          omega (arith, mul-le-mul_left q (ltb-false→le _ _ late), mul-div-le x q) in
        let last : (suc (n - 1) == n) ≡ true = ground (arith, divided.some_shards) in
        (
          n - 1,
          x - q * (n - 1),
          omega (arith, divided.some_shards),
          rw last (omega (arith, after)),
          omega (arith, after),
        )
  ]

  -- The shards begin one after the other.
  place_before :
      (i j k l : ℕ) → i < n → j < n → k < width cycle.order n i → q * i + k ≡ q * j + l → i < j → ⊥
  place_before i j k l lt lt' inside e before =
      let not_last : (suc i == n) ≡ false = ground (arith, before, lt') in
      let short : k < q = rw not_last at inside in
      let split : q * suc i ≡ q * i + q = omega arith in
      omega (arith, mul-le-mul_left q before, split, short, e)

  pub one_place :
      (i j k l : ℕ)
      → i < n
      → j < n
      → k < width cycle.order n i
      → l < width cycle.order n j
      → q * i + k ≡ q * j + l
      → (i ≡ j) × (k ≡ l)
  one_place i j k l lt lt' inside inside' e = elim (Bool-cases (ltb i j)) [
    | inl less ↦ absurd (place_before i j k l lt lt' inside e (ltb→lt _ _ less))
    | inr more ↦ elim (Bool-cases (ltb j i)) [
      | inl less ↦ absurd (place_before j i l k lt' lt inside' (sym e) (ltb→lt _ _ less))
      | inr same ↦
          let equal : i ≡ j = omega (arith, ltb-false→le _ _ more, ltb-false→le _ _ same) in
          (equal, omega (arith, e, ap (λ (t : ℕ). q * t) equal))
    ]
  ]
