-- ===== src/CorePool/Mask.antt =====
-- The core mask of lib/thread/xm_core_pool.c as a number.
use mathlib.Core.List.{reverse}
use native.Mathlib.Nat.{
  add-mul-mod_self_left, mod-eq_of_lt, div-add-mod', mod-lt, pow-succ', one-le-pow, zero-mod,
}
use xmap.Base.{
  ℕ, zero, suc, ◌+◌, ◌*◌, ◌/◌, ◌%◌, ◌^◌, ◌<◌, ◌≡◌, refl, some_injective, sym, ap, subst, ◌∙◌, true,
  false, Bool-cases, inl, inr, ◌⊎◌, ◌==◌, if◌then◌else◌, Option, none, some, List, [], ◌∷◌, ◌++◌,
  map, length, arith,
}
use xmap.CorePool.{
  Core, CorePool, isxdigit, xdigit2val, set_bits, set_digits, skip_blanks, skip_prefix, all_zero,
  parse_coremask,
}

-- The number that the digits stand for, the last one first, and the one whose bits are the enabled
-- cores.
unfoldable pub hex_value : List ℕ → ℕ
hex_value [] = 0
hex_value (c ∷ cs) = xdigit2val c + 16 * hex_value cs

unfoldable pub enabled_mask : List Core → ℕ
enabled_mask [] = 0
enabled_mask (core ∷ cores) = (if core.enabled then 1 else 0) + 2 * enabled_mask cores

unfoldable pub enabled_count : List Core → ℕ
enabled_count [] = 0
enabled_count (core ∷ cores) = (if core.enabled then 1 else 0) + enabled_count cores

mod_unique : (v n t r : ℕ) → v ≡ r + n * t → r < n → v % n ≡ r
mod_unique v n t r e h = ap (λ x. x % n) e ∙ add-mul-mod_self_left r n t ∙ mod-eq_of_lt h

-- The lowest digit of a residue, to the base k.
mod-mul : (v k m : ℕ) → 0 < k → 0 < m → v % (k * m) ≡ v % k + k * (v / k % m)
mod-mul v k m hk hm = mod_unique v (k * m) (v / k / m) (v % k + k * (v / k % m)) split below
  where
    split : v ≡ v % k + k * (v / k % m) + k * m * (v / k / m)
    split = omega (arith, div-add-mod' v k, ap (λ t. k * t) (div-add-mod' (v / k) m))

    below : v % k + k * (v / k % m) < k * m
    below = grind (arith, mod-lt v hk, mod-lt (v / k) hm)

-- What a digit sets.
record Sets (bits val : ℕ) (cores done left : List Core) (count : ℕ) : Type 0 where
  size : length done + length left ≡ length cores
  full : (length done ≡ bits) ⊎ ((left ≡ []) × (length done < bits))
  mask : enabled_mask done ≡ val % 2 ^ length done
  counts : enabled_count done ≡ count

set_bits-Sets :
    (bits val : ℕ) (cores : List Core)
    → Sets bits val cores
        (set_bits bits val cores).0
        (set_bits bits val cores).1.0
        (set_bits bits val cores).1.1
unfolding set_bits enabled_mask enabled_count
set_bits-Sets zero val cores = record {
  size = omega arith;
  full = inl refl;
  mask = omega arith;
  counts = refl;
}
set_bits-Sets (suc bits) val [] = record {
  size = refl;
  full = inr (refl, omega arith);
  mask = omega arith;
  counts = refl;
}
set_bits-Sets (suc bits) val (core ∷ cores) =
    let s = set_bits-Sets bits (val / 2) cores in
    record {
      size = omega (arith, s.size);
      full = elim s.full [ inl e ↦ inl (ap suc e) | inr (e, lt) ↦ inr (e, omega arith) ];
      mask = ground (
        arith,
        s.mask,
        mod-mul val 2 (2 ^ length (set_bits bits (val / 2) cores).0) (omega arith)
            (one-le-pow _ 2 (omega arith)),
        pow-succ' 2 (length (set_bits bits (val / 2) cores).0),
      );
      counts = ground (arith, s.counts);
    }

enabled_mask-append :
    (xs ys : List Core)
    → enabled_mask (xs ++ ys) ≡ enabled_mask xs + 2 ^ length xs * enabled_mask ys
unfolding enabled_mask
enabled_mask-append [] ys = omega arith
enabled_mask-append (x ∷ xs) ys =
    omega
      (arith, enabled_mask-append xs ys, ap (λ t. t * enabled_mask ys) (pow-succ' 2 (length xs)))

enabled_count-append :
    (xs ys : List Core) → enabled_count (xs ++ ys) ≡ enabled_count xs + enabled_count ys
unfolding enabled_count
enabled_count-append [] ys = omega arith
enabled_count-append (x ∷ xs) ys = omega (arith, enabled_count-append xs ys)

length-append-cores : (xs ys : List Core) → length (xs ++ ys) ≡ length xs + length ys
length-append-cores [] ys = omega arith
length-append-cores (x ∷ xs) ys = omega (arith, length-append-cores xs ys)

hex_value-zero : (cs : List ℕ) → all_zero cs ≡ true → hex_value cs ≡ 0
unfolding all_zero hex_value xdigit2val
hex_value-zero [] h = refl
hex_value-zero (c ∷ cs) h =
    let rest : all_zero cs ≡ true = ground (arith, h) in
    let first : (c == b'0') ≡ true = ground (arith, h) in
    ground (arith, hex_value-zero cs rest, first)

xdigit2val-lt : (c : ℕ) → isxdigit c ≡ true → xdigit2val c < 16
unfolding xdigit2val isxdigit
xdigit2val-lt c h = ground (arith, h)

-- The cores that digits leave.
pub record IsMask (digits : List ℕ) (cores : List Core) (result : List Core × ℕ) : Type 0 where
  pub size : length result.0 ≡ length cores
  pub mask : enabled_mask result.0 ≡ hex_value digits % 2 ^ length cores
  pub counts : enabled_count result.0 ≡ result.1
  pub overflow : length cores ≡ 0 → hex_value digits ≡ 0

IfMask : List ℕ → List Core → Option (List Core × ℕ) → Type 0
IfMask digits cores none = Unit
IfMask digits cores (some result) = IsMask digits cores result

-- The cores behind the digits.
abbrev disable : List Core → List Core
disable cores = map (λ (core : Core). record core { enabled = false }) cores

disabled-IsMask : (cores : List Core) → IsMask [] cores (disable cores, 0)
unfolding enabled_mask enabled_count hex_value
disabled-IsMask [] = record { size = refl; mask = refl; counts = refl; overflow = λ _. refl }
disabled-IsMask (core ∷ cores) =
    let rest = disabled-IsMask cores in
    record {
      size = ap suc rest.size;
      mask =
          omega (arith, rest.mask, zero-mod (2 ^ length cores), zero-mod (2 ^ suc (length cores)));
      counts = omega (arith, rest.counts);
      overflow = λ _. refl;
    }

-- A digit in front of others, and one whose upper bits have no core.
digit-full :
    (v h l m : ℕ)
    → v < 16
    → m ≡ h % 2 ^ l
    → v % 2 ^ 4 + 2 ^ 4 * m ≡ (v + 16 * h) % 2 ^ suc (suc (suc (suc l)))
digit-full v h l m small e =
    split
    ∙ sym (mod-mul (v + 16 * h) 16 (2 ^ l) (omega arith) (one-le-pow l 2 (omega arith)))
    ∙ ap (λ n. (v + 16 * h) % n)
        (omega (
          arith,
          pow-succ' 2 l,
          pow-succ' 2 (suc l),
          pow-succ' 2 (suc (suc l)),
          pow-succ' 2 (suc (suc (suc l))),
        ))
  where
    low : (v + 16 * h) % 16 ≡ v
    low = omega arith

    high : (v + 16 * h) / 16 ≡ h
    high = omega arith

    split : v % 2 ^ 4 + 2 ^ 4 * m ≡ (v + 16 * h) % 16 + 16 * ((v + 16 * h) / 16 % 2 ^ l)
    split = rw (low, high) (omega (arith, e))

digit-last : (v p : ℕ) → v % p + p * 0 ≡ (v + 16 * 0) % p
digit-last v p = kept ∙ ap (λ n. n % p) same
  where
    kept : v % p + p * 0 ≡ v % p
    kept = omega arith

    same : v ≡ v + 16 * 0
    same = omega arith

digit-IsMask :
    (c : ℕ) (cs : List ℕ) (cores done left : List Core) (count : ℕ) (result : List Core × ℕ)
    → isxdigit c ≡ true
    → 0 < length cores
    → Sets 4 (xdigit2val c) cores done left count
    → IsMask cs left result
    → IsMask (c ∷ cs) cores (done ++ result.0, count + result.1)
unfolding hex_value
digit-IsMask c cs cores done left count result ok some_core sets rest = record {
  size = omega (arith, length-append-cores done result.0, rest.size, sets.size);
  mask = enabled_mask-append done result.0 ∙ elim sets.full [
    | inl full ↦
        let size : length cores ≡ suc (suc (suc (suc (length left)))) =
          omega (arith, sets.size, full) in
        rw (sets.mask, full, size)
          (digit-full (xdigit2val c) (hex_value cs) (length left) (enabled_mask result.0)
            (xdigit2val-lt c ok) rest.mask)
    | inr (none_left, short) ↦
        let gone : length left ≡ 0 = ap length none_left in
        let size : length cores ≡ length done = omega (arith, sets.size, gone) in
        let others = rest.overflow gone in
        let nothing : enabled_mask result.0 ≡ 0 =
          rest.mask ∙ rw others (zero-mod (2 ^ length left)) in
        rw (sets.mask, size, others, nothing) (digit-last (xdigit2val c) (2 ^ length done))
  ];
  counts = omega (arith, enabled_count-append done result.0, sets.counts, rest.counts);
  overflow = λ h. absurd (omega arith);
}

set_digits-IfMask :
    (digits : List ℕ) (cores : List Core) → IfMask digits cores (set_digits digits cores)
unfolding set_digits IfMask enabled_count enabled_mask
set_digits-IfMask [] cores = disabled-IsMask cores
set_digits-IfMask (c ∷ cs) [] = elim (Bool-cases (all_zero (c ∷ cs))) [
  | inl zeros ↦ rw zeros (record {
    size = refl;
    mask = omega arith;
    counts = refl;
    overflow = λ _. hex_value-zero (c ∷ cs) zeros;
  })
  | inr other ↦ rw other tt
]
set_digits-IfMask (c ∷ cs) (core ∷ cores) = elim (Bool-cases (isxdigit c)) [
  | inr bad ↦ rw bad tt
  | inl ok ↦ rw ok (go (set_digits cs left) (set_digits-IfMask cs left) ok)
]
  where
    done : List Core
    done = (set_bits 4 (xdigit2val c) (core ∷ cores)).0

    left : List Core
    left = (set_bits 4 (xdigit2val c) (core ∷ cores)).1.0

    n : ℕ
    n = (set_bits 4 (xdigit2val c) (core ∷ cores)).1.1

    go :
        (o : Option (List Core × ℕ))
        → IfMask cs left o
        → isxdigit c ≡ true
        → IfMask
            (c ∷ cs)
            (core ∷ cores)
            (elim o [ none ↦ none | some result ↦ some (done ++ result.0, n + result.1) ])
    go none h ok = tt
    go (some result) h ok =
        digit-IsMask c cs (core ∷ cores) done left n result ok (omega arith)
          (set_bits-Sets 4 (xdigit2val c) (core ∷ cores)) h

-- The digits of a core mask, the last one first, behind the prefix and the blanks.
abbrev pub digits_of : List ℕ → List ℕ
digits_of coremask = skip_blanks (reverse (skip_prefix (skip_blanks coremask)))

-- The pool after a core mask.
pub record Enables (cpool : CorePool) (coremask : List ℕ) (result : CorePool) : Type 0 where
  pub mask : enabled_mask result.cores ≡ hex_value (digits_of coremask) % 2 ^ length cpool.cores
  pub size : length result.cores ≡ length cpool.cores
  pub counts : enabled_count result.cores ≡ result.config_core_count
  pub some_core : 0 < result.config_core_count

-- A core mask that is accepted enables the cores whose bits its hexadecimal digits have, without
-- the bits that no core is there for; the pool counts them, and there is at least one.
pub parse_coremask-Enables :
    (cpool result : CorePool) (coremask : List ℕ)
    → parse_coremask cpool (some coremask) ≡ some result
    → Enables cpool coremask result
unfolding parse_coremask IfMask
parse_coremask-Enables cpool result coremask h = go (digits_of coremask) refl
  where
    set :
        (digits : List ℕ) (o : Option (List Core × ℕ))
        → digits_of coremask ≡ digits
        → IfMask digits cpool.cores o
        → (elim o as (λ _. Option CorePool) [
          | none ↦ none
          | some (cores, count) ↦
              if count == 0
              then none
              else some (record cpool { cores = cores; config_core_count = count })
        ])
          ≡ some result
        → Enables cpool coremask result
    set digits none e mask found = absurd (ground (arith, found))
    set digits (some (cores, count)) e mask found = elim (Bool-cases (count == 0)) [
      | inl zero_count ↦ let no = rw zero_count at found in absurd (ground (arith, no))
      | inr counted ↦
          let same = some_injective _ result (rw counted at found) in
          subst (Enables cpool coremask) same (record {
            mask = rw e mask.mask;
            size = mask.size;
            counts = mask.counts;
            some_core = ground (arith, counted);
          })
    ]

    go : (digits : List ℕ) → digits_of coremask ≡ digits → Enables cpool coremask result
    go [] e = let no = rw (e, parse_coremask) at h in absurd (ground (arith, no))
    go (c ∷ cs) e =
        let found = rw (e, parse_coremask) at h in
        set (c ∷ cs) (set_digits (c ∷ cs) cpool.cores) e (set_digits-IfMask (c ∷ cs) cpool.cores)
          found
