-- ===== src/BinFormat/Memory.antt =====
-- The memory behind lib/shm/xm_bin_format.h: what a copy of bytes changes, and what a read depends on.
use xmap.Base.{
  ℕ, zero, suc, ◌+◌, ◌*◌, ◌/◌, ◌%◌, ◌^◌, ◌<◌, ◌≤◌, ◌≡◌, refl, ◌⊎◌, inl, List, [], ◌∷◌, arith,
  length, ◌∙◌, ap, ap₂, sym,
}
use native.Mathlib.Nat.{div-add-mod', add-mul-mod_self_left, mod-eq_of_lt, mod-lt, mod-mod}
use xmap.Base.Bits.{two-pow_pos}
use xmap.Base.Modular.{pow-add}
use xmap.BinFormat.{Mem, poke, store, value_bytes, value_at}

-- A copy changes nothing outside its range.
pub store_outside :
    (mem : Mem) (p : ℕ) (bytes : List ℕ) (q : ℕ)
    → (q < p) ⊎ (p + length bytes ≤ q)
    → store mem p bytes q ≡ mem q
unfolding store
store_outside mem p [] q h = refl
store_outside mem p (b ∷ bs) q h =
    store_outside (poke mem p b) (p + 1) bs q (grind arith) ∙ ground arith

pub store_first : (mem : Mem) (p b : ℕ) (bs : List ℕ) → store mem p (b ∷ bs) p ≡ b
unfolding store
store_first mem p b bs =
    store_outside (poke mem p b) (p + 1) bs p (inl (omega arith)) ∙ ground arith

pub length-value_bytes : (n v : ℕ) → length (value_bytes n v) ≡ n
unfolding value_bytes
length-value_bytes zero v = refl
length-value_bytes (suc n) v = ap suc (length-value_bytes n v)

-- A read depends on its own bytes only.
pub value_at_ext :
    (n : ℕ) (m m' : Mem) (p : ℕ)
    → ((q : ℕ) → p ≤ q → q < p + n → m q ≡ m' q)
    → value_at n m p ≡ value_at n m' p
unfolding value_at
value_at_ext zero m m' p h = refl
value_at_ext (suc n) m m' p h =
    ap₂ (λ x y. x % 256 * 2 ^ (n * 8) + y) (h p (omega arith) (omega arith))
      (value_at_ext n m m' (p + 1) (λ q lo hi. h q (omega arith) (omega arith)))

-- A number modulo 256 * m from its byte above m and the rest below.
mod_byte : (v m : ℕ) → 0 < m → v / m % 256 * m + v % m ≡ v % (256 * m)
mod_byte v m pos = sym (
    ap (λ (t : ℕ). t % (256 * m)) split
    ∙ add-mul-mod_self_left (v / m % 256 * m + v % m) (256 * m) (v / m / 256)
    ∙ mod-eq_of_lt small)
  where
    split : v ≡ (v / m % 256 * m + v % m) + 256 * m * (v / m / 256)
    split = omega (arith, div-add-mod' v m, ap (λ (t : ℕ). t * m) (div-add-mod' (v / m) 256))

    small : v / m % 256 * m + v % m < 256 * m
    small = bound (v / m % 256) (v % m) m (omega arith) (mod-lt v pos)
      where
        bound : (a b m : ℕ) → a < 256 → b < m → a * m + b < 256 * m
        bound a b m ha hb = grind arith

-- The bytes of a value read back as the value, modulo its width.
pub value_at-value_bytes :
    (n v : ℕ) (mem : Mem) (p : ℕ) → value_at n (store mem p (value_bytes n v)) p ≡ v % 2 ^ (n * 8)
unfolding value_at value_bytes store
value_at-value_bytes zero v mem p = omega arith
value_at-value_bytes (suc n) v mem p = rw (
  store_first mem p (v / 2 ^ (n * 8) % 256) (value_bytes n v),
  value_at-value_bytes n v (poke mem p (v / 2 ^ (n * 8) % 256)) (p + 1),
  width,
  ← mod_byte v (2 ^ (n * 8)) (two-pow_pos (n * 8)),
  mod-mod (v / 2 ^ (n * 8)) 256,
)
  where
    width : 2 ^ (suc n * 8) ≡ 256 * 2 ^ (n * 8)
    width = ap (λ (t : ℕ). 2 ^ t) (omega arith) ∙ pow-add 2 8 (n * 8)
