-- ===== src/Base/Modular.antt =====
-- Products and powers modulo a number.
use Prim.Native.Nat.{ℕ, zero, suc, ◌+◌, ◌-◌, ◌*◌, ◌/◌, ◌%◌, ◌^◌, ◌≤◌, ◌<◌}
use xmap.Base.Tests.{Bool-cases, ltb, ltb→lt, ltb-false→le}
use mathlib.Core.Logic.{◌⊎◌, inl, inr}
use mathlib.Core.Path.{◌≡◌, ap, sym, ◌∙◌}
use native.Mathlib.Nat.{
  div-add-mod', add-mul-mod_self_right, mul_assoc, mul_comm, mod-add-mod, add-mul-mod_self_left,
  mod-eq_of_lt, pow-suc, pow-zero,
}
use native.Mathlib.Omega.{arith}

-- Reducing a factor first does not change a product modulo m.
pub mod-mul-mod : (a b m : ℕ) → (a % m * b) % m ≡ a * b % m
mod-mul-mod a b m =
    sym (ap (λ (t : ℕ). t % m) split ∙ add-mul-mod_self_right (a % m * b) (a / m * b) m)
  where
    split : a * b ≡ a % m * b + a / m * b * m
    split = omega (arith, ap (λ (t : ℕ). t * b) (div-add-mod' a m))

pub mul-mod-mod : (a b m : ℕ) → (a * (b % m)) % m ≡ a * b % m
mul-mod-mod a b m = omega (
  arith,
  mod-mul-mod b a m,
  ap (λ (t : ℕ). t % m) (mul_comm a (b % m)),
  ap (λ (t : ℕ). t % m) (mul_comm a b),
)

pub pow-add : (g a b : ℕ) → g ^ (a + b) ≡ g ^ a * g ^ b
pow-add g a zero = let e : a + 0 ≡ a = omega arith in rw (e, pow-zero) (omega arith)
pow-add g a (suc b) =
    let e : a + suc b ≡ suc (a + b) = omega arith in
    rw (e, pow-suc g (a + b), pow-suc g b, pow-add g a b) (mul_assoc (g ^ a) (g ^ b) g)

-- A residue of a number below twice the modulus.
pub mod_wrap :
    (a count : ℕ)
    → a < count + count
    → ((a < count) × (a % count ≡ a)) ⊎ ((count ≤ a) × (a % count + count ≡ a))
mod_wrap a count lt = elim (Bool-cases (ltb a count)) [
  | inl small ↦ inl (ltb→lt a count small, mod-eq_of_lt (ltb→lt a count small))
  | inr large ↦ inr (
    ltb-false→le a count large,
    residue (a - count) (omega (arith, ltb-false→le a count large))
        (omega (arith, ltb-false→le a count large)),
  )
]
  where
    residue : (r : ℕ) → a ≡ r + count * 1 → r < count → a % count + count ≡ a
    residue r e small =
        omega (
          arith,
          ap (λ (t : ℕ). t % count) e ∙ add-mul-mod_self_left r count 1 ∙ mod-eq_of_lt small,
        )

-- Adding to a residue without a wrap.
pub mod-add_small : (v k n : ℕ) → v % n + k < n → (v + k) % n ≡ v % n + k
mod-add_small v k n h = sym (mod-add-mod v n k) ∙ mod-eq_of_lt h
