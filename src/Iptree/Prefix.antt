-- ===== src/Iptree/Prefix.antt =====
-- The bit by bit comparison of `_set_recurse` (lib/common/xm_iptree.c) as the comparison of network
-- numbers.
use native.Mathlib.Nat.{
  mod-lt, div-zero, div-add-mod', pow-suc, mul-add-div_right, div-lt_iff_lt-mul, mul-div-mul_right,
  mul_assoc, div-eq_of_lt,
}
use xmap.Base.{
  ℕ, zero, suc, ◌+◌, ◌-◌, ◌*◌, ◌/◌, ◌%◌, ◌^◌, ◌≤◌, ◌<◌, ◌≡◌, refl, sym, true, ◌&&◌, ◌==◌, leb,
  if◌then◌else◌, arith, ap, ap₂, ◌∙◌,
}
use xmap.Base.Modular.{pow-add}
use xmap.Base.Bits.{test_bit, half-two-pow_suc, two-pow_pos, test_bit_add, mul-two-pow_suc'}
use xmap.Iptree.{Iptree, top_mask, add, lookup_ip}
use xmap.Iptree.Add.{matches, same_bit, ends_at_leaf, add-lookup}

mul-lt-mul : (r m k : ℕ) → r < m → 0 < k → r * k < m * k
mul-lt-mul r m k h p = grind arith

-- The high part of a number of m + d bits, below its bit b.
quotient_split :
    (m d b p : ℕ)
    → p < 2 ^ (m + d)
    → ((b * 2 ^ (m + d) + p) / 2 ^ d ≡ b * 2 ^ m + p / 2 ^ d) × (p / 2 ^ d < 2 ^ m)
quotient_split m d b p h = (
  rw (pow-add 2 m d, ← mul_assoc b (2 ^ m) (2 ^ d))
      (mul-add-div_right (two-pow_pos d) (b * 2 ^ m) p),
  (div-lt_iff_lt-mul (two-pow_pos d)).1 (rw (← pow-add 2 m d) h),
)

-- Numbers with high bits b and c are equal if these and the low parts are.
==-add :
    (b c m x y : ℕ)
    → b < 2
    → c < 2
    → x < m
    → y < m
    → (b * m + x == c * m + y) ≡ (same_bit (b % 2 == 1) (c % 2 == 1) && (x == y))
==-add zero zero m x y hb hc hx hy = ground arith
==-add zero (suc zero) m x y hb hc hx hy = ground arith
==-add (suc zero) zero m x y hb hc hx hy = ground arith
==-add (suc zero) (suc zero) m x y hb hc hx hy = ground arith
==-add (suc (suc b)) c m x y hb hc hx hy = absurd (omega arith)
==-add b (suc (suc c)) m x y hb hc hx hy = absurd (omega arith)

module _ (j s p : ℕ) (sum : s + j ≡ 31) where
  top_bit : test_bit (p * 2 ^ s) top_mask ≡ (p / 2 ^ j % 2 == 1)
  top_bit = ap (λ (t : ℕ). t % 2 == 1) quotient
    where
      width : 2 ^ j * 2 ^ s ≡ 2 ^ 31
      width = sym (pow-add 2 j s) ∙ ap (λ (t : ℕ). 2 ^ t) {y = 31} (omega arith)

      quotient : p * 2 ^ s / 2 ^ 31 ≡ p / 2 ^ j
      quotient = rw (← width) (mul-div-mul_right p (2 ^ j) (two-pow_pos s))

  -- `prefix << 1` drops the top bit.
  shifted : p * 2 ^ s * 2 % 2 ^ 32 ≡ p % 2 ^ j * 2 ^ suc s
  shifted = omega (arith, split, low)
    where
      width : 2 ^ j * 2 ^ suc s ≡ 2 ^ 32
      width = sym (pow-add 2 j (suc s)) ∙ ap (λ (t : ℕ). 2 ^ t) {y = 32} (omega arith)

      split : p * 2 ^ s * 2 ≡ p / 2 ^ j * 2 ^ 32 + p % 2 ^ j * 2 ^ suc s
      split = omega (
        arith,
        ap (λ (t : ℕ). t * 2 ^ suc s) (div-add-mod' p (2 ^ j)),
        ap (λ (t : ℕ). p / 2 ^ j * t) width,
        ap (λ (t : ℕ). p * t) (pow-suc 2 s),
      )

      low : p % 2 ^ j * 2 ^ suc s < 2 ^ 32
      low = rw (← width) (
          mul-lt-mul (p % 2 ^ j) (2 ^ j) (2 ^ suc s) (mod-lt p (two-pow_pos j))
            (two-pow_pos (suc s)))

-- The quotients of a number by 2 ^ (j - n), from its bit j and the bits below.
quotient_step :
    (n j p : ℕ)
    → (p / 2 ^ (suc j - suc n) ≡ p / 2 ^ j * 2 ^ (j - (j - n)) + p % 2 ^ j / 2 ^ (j - n))
      × (p % 2 ^ j / 2 ^ (j - n) < 2 ^ (j - (j - n)))
quotient_step n j p = rw (drop) (
    rw (whole, div-add-mod' p (2 ^ j)) at
      (quotient_split (j - (j - n)) (j - n) (p / 2 ^ j) (p % 2 ^ j)
        (rw whole (mod-lt p (two-pow_pos j)))))
  where
    drop : suc j - suc n ≡ j - n
    drop = omega arith

    whole : j - (j - n) + (j - n) ≡ j
    whole = omega arith

high_bit : (j p : ℕ) → p < 2 ^ suc j → p / 2 ^ j < 2
high_bit j p h = (div-lt_iff_lt-mul (two-pow_pos j)).1 (omega (arith, pow-suc 2 j))

eq_self : (n : ℕ) → (n == n) ≡ true
eq_self n = ground arith

-- One round of the comparison, on the top bits and what is below them.
matches_step :
    (n j s p k a : ℕ)
    → s + j ≡ 31
    → matches (suc n) (p * 2 ^ s) (k * 2 ^ suc j + a) (2 ^ suc j / 2) ≡ (
        same_bit (p / 2 ^ j % 2 == 1) (a / 2 ^ j % 2 == 1)
        && matches n (p % 2 ^ j * 2 ^ suc s) ((k * 2 + a / 2 ^ j) * 2 ^ j + a % 2 ^ j) (2 ^ j / 2))
unfolding matches
matches_step n j s p k a e = rw half-two-pow_suc (
    ap₂ ◌&&◌ (ap₂ same_bit (top_bit j s p e) (test_bit_add j k a))
      (ap₂ (λ x y. matches n x y (2 ^ j / 2)) (shifted j s p e) regroup))
  where
    regroup : k * 2 ^ suc j + a ≡ (k * 2 + a / 2 ^ j) * 2 ^ j + a % 2 ^ j
    regroup = omega (arith, mul-two-pow_suc' k j, div-add-mod' a (2 ^ j))

-- Below bit 0 an exhausted prefix goes left, and so does every address.
matches_past : (n z address : ℕ) → z ≡ 0 → matches n z address 0 ≡ true
unfolding matches
matches_past zero z address e = refl
matches_past (suc n) z address e =
    ground (arith, div-zero address, matches_past n (z * 2 % 2 ^ 32) address (omega arith))

matches-quotients :
    (n j s p k a : ℕ)
    → s + j ≡ 32
    → p < 2 ^ j
    → a < 2 ^ j
    → matches n (p * 2 ^ s) (k * 2 ^ j + a) (2 ^ j / 2) ≡ (p / 2 ^ (j - n) == a / 2 ^ (j - n))
matches-quotients zero j s p k a e hp ha =
    let same : j - 0 ≡ j = omega arith in
    unfold matches in rw (same, div-eq_of_lt hp, div-eq_of_lt ha)
matches-quotients (suc n) zero s p k a e hp ha =
    let p0 : p ≡ 0 = omega arith in
    let a0 : a ≡ 0 = omega arith in
    matches_past (suc n) (p * 2 ^ s) (k * 2 ^ 0 + a) (rw p0 (omega arith))
    ∙ rw (p0, a0) (sym (eq_self (0 / 2 ^ (0 - suc n))))
matches-quotients (suc n) (suc j) s p k a e hp ha =
    matches_step n j s p k a (omega arith)
    ∙ ap (λ b. same_bit (p / 2 ^ j % 2 == 1) (a / 2 ^ j % 2 == 1) && b)
        (matches-quotients n j (suc s) (p % 2 ^ j) (k * 2 + a / 2 ^ j) (a % 2 ^ j) (omega arith)
          (mod-lt p (two-pow_pos j)) (mod-lt a (two-pow_pos j)))
    ∙ sym (
        rw ((quotient_step n j p).0, (quotient_step n j a).0)
          (==-add (p / 2 ^ j) (a / 2 ^ j) (2 ^ (j - (j - n))) (p % 2 ^ j / 2 ^ (j - n))
            (a % 2 ^ j / 2 ^ (j - n)) (high_bit j p hp) (high_bit j a ha) (quotient_step n j p).1
            (quotient_step n j a).1))

-- Two addresses match in their first len bits exactly if they lie in the same network of that
-- length; beyond 32 bits, if they are equal.
pub matches-eq-network :
    (len prefix address : ℕ)
    → prefix < 2 ^ 32
    → address < 2 ^ 32
    → matches len prefix address top_mask ≡ (prefix / 2 ^ (32 - len) == address / 2 ^ (32 - len))
matches-eq-network len prefix address hp ha =
    let one : prefix * 2 ^ 0 ≡ prefix = omega arith in
    let none_above : 0 * 2 ^ 32 + address ≡ address = omega arith in
    rw one at (rw none_above at (matches-quotients len 32 0 prefix 0 address (omega arith) hp ha))

-- The same of `xm_iptree_add`: a prefix of at most 256 bits gives its value to exactly the
-- addresses of its network, if the walk along it ends at a leaf, and leaves all others alone.
pub add-lookup_network :
    (t : Iptree) (prefix len value address : ℕ)
    → prefix < 2 ^ 32
    → address < 2 ^ 32
    → len ≤ 256
    → ends_at_leaf len t.root prefix ≡ true
    → lookup_ip (add t prefix len value) address
      ≡ (if prefix / 2 ^ (32 - len) == address / 2 ^ (32 - len) then value else lookup_ip t address)
add-lookup_network t prefix len value address hp ha short ends =
    add-lookup t prefix len value address
    ∙ rw (matches-eq-network len prefix address hp ha, ends, le→leb short) (ground arith)
  where
    le→leb : len ≤ 256 → leb len 256 ≡ true
    le→leb h = ground arith
