-- ===== src/DataOutput/Appends.antt =====
-- The writers of lib/common/xm_data_output.h append to the content, whatever has to be moved for it.
use xmap.Base.{
  ℕ, zero, suc, ◌+◌, ◌-◌, ◌*◌, ◌^◌, ◌<◌, ◌≤◌, ◌≡◌, refl, sym, ap, ◌∙◌, Bool, true, false, Option,
  none, some, List, [], ◌∷◌, ◌++◌, ltb, length, arith, ◌⊎◌, inl, inr, Bool-cases, Option-cases,
  ltb-false→le,
}
use native.Mathlib.Nat.{mod-eq_of_lt}
use xmap.BinFormat.{Mem, poke, store, value_bytes}
use xmap.BinFormat.Memory.{store_outside, store_first, length-value_bytes}
use xmap.DataOutput.{
  DataOutput, slice, full, size, content_size, pos_update, content, incr, check, dout_write,
  write_value,
}

length-slice : (mem : Mem) (p n : ℕ) → length (slice mem p n) ≡ n
unfolding slice
length-slice mem p zero = refl
length-slice mem p (suc n) = ap suc (length-slice mem (p + 1) n)

slice_ext :
    (n : ℕ) (m m' : Mem) (p : ℕ)
    → ((q : ℕ) → p ≤ q → q < p + n → m q ≡ m' q)
    → slice m p n ≡ slice m' p n
unfolding slice
slice_ext zero m m' p h = refl
slice_ext (suc n) m m' p h =
    let first = h p (omega arith) (omega arith) in
    let rest = slice_ext n m m' (p + 1) (λ q lo hi. h q (omega arith) (omega arith)) in
    rw (first, rest) refl

slice-store :
    (mem : Mem) (p : ℕ) (bytes : List ℕ) → slice (store mem p bytes) p (length bytes) ≡ bytes
unfolding slice store
slice-store mem p [] = refl
slice-store mem p (b ∷ bs) = rw (store_first mem p b bs, slice-store (poke mem p b) (p + 1) bs) refl

slice-add : (mem : Mem) (p n m : ℕ) → slice mem p (n + m) ≡ slice mem p n ++ slice mem (p + n) m
unfolding slice
slice-add mem p zero m =
    let e : p + 0 ≡ p = omega arith in let z : 0 + m ≡ m = omega arith in rw (e, z) refl
slice-add mem p (suc n) m =
    let e : p + suc n ≡ p + 1 + n = omega arith in
    let s : suc n + m ≡ suc (n + m) = omega arith in
    rw (e, s) (ap (λ t. mem p ∷ t) (slice-add mem (p + 1) n m))

pub record IsValid (dout : DataOutput) : Type 0 where
  pub above : dout.base ≤ dout.pos
  pub below : dout.pos ≤ dout.end

-- A copy behind the content, where there is room for it.
pub dout_write-content :
    (malloc : ℕ → ℕ → Option ℕ) (dout : DataOutput) (bytes : List ℕ)
    → IsValid dout
    → dout.pos + length bytes ≤ dout.end
    → IsValid (dout_write malloc dout bytes)
      × (content (dout_write malloc dout bytes) ≡ content dout ++ bytes)
unfolding dout_write pos_update content content_size
dout_write-content malloc dout bytes ok room = (
  record { above = omega (arith, ok.above); below = room },
  ap (slice mem' dout.base) sizes
      ∙ slice-add mem' dout.base (dout.pos - dout.base) (length bytes)
      ∙ ap (λ t. t ++ slice mem' (dout.base + (dout.pos - dout.base)) (length bytes)) old
      ∙ ap (λ t. slice dout.mem dout.base (dout.pos - dout.base) ++ t) new,
)
  where
    mem' : Mem
    mem' = store dout.mem dout.pos bytes

    sizes : dout.pos + length bytes - dout.base ≡ dout.pos - dout.base + length bytes
    sizes = omega (arith, ok.above)

    old :
        slice mem' dout.base (dout.pos - dout.base)
        ≡ slice dout.mem dout.base (dout.pos - dout.base)
    old =
        slice_ext (dout.pos - dout.base) mem' dout.mem dout.base
          (λ q lo hi. store_outside dout.mem dout.pos bytes q (inl (omega (arith, ok.above))))

    new : slice mem' (dout.base + (dout.pos - dout.base)) (length bytes) ≡ bytes
    new =
        let here : dout.base + (dout.pos - dout.base) ≡ dout.pos = omega (arith, ok.above) in
        rw here (slice-store dout.mem dout.pos bytes)

-- The check makes room and keeps the content, or it fails and keeps the buffer.
pub record MakesRoom (dout : DataOutput) (sz : ℕ) (result : Bool × DataOutput) : Type 0 where
  pub valid : IsValid result.1
  pub same : content result.1 ≡ content dout
  pub room : result.0 ≡ true → result.1.pos + sz ≤ result.1.end

moved-content :
    (mem : Mem) (addr base osize : ℕ)
    → slice (store mem addr (slice mem base osize)) addr (addr + osize - addr)
      ≡ slice mem base osize
moved-content mem addr base osize =
    let len = length-slice mem base osize in
    let back : addr + osize - addr ≡ length (slice mem base osize) = omega (arith, len) in
    rw back (slice-store mem addr (slice mem base osize))

pub check-MakesRoom :
    (malloc : ℕ → ℕ → Option ℕ) (dout : DataOutput) (sz : ℕ)
    → 4 * sz < 2 ^ 64
    → IsValid dout
    → MakesRoom dout sz (check malloc dout sz)
unfolding check full incr content content_size size
check-MakesRoom malloc dout sz small ok =
    rw (mod-eq_of_lt small) (elim (Bool-cases (ltb dout.end (dout.pos + sz))) [
      | inr fits ↦ rw fits (record { valid = ok; same = refl; room = λ e. ltb-false→le _ _ fits })
      | inl short ↦ elim (Option-cases (malloc dout.mallocs (dout.end - dout.base + 4 * sz + 32))) [
        | inl no_memory ↦
            rw (short, incr, no_memory)
              (record {
                valid = record { above = ok.above; below = ok.below };
                same = refl;
                room = λ e. absurd (true_false e);
              })
        | inr (addr, memory) ↦
            rw (short, incr, memory)
              (record {
                valid = record { above = omega arith; below = omega (arith, ok.above, ok.below) };
                same = moved-content dout.mem addr dout.base (dout.pos - dout.base);
                room = λ e. omega (arith, ok.above, ok.below);
              })
      ]
    ])
  where
    true_false : false ≡ true → ⊥
    true_false e = cc

-- What a writer of some bytes does: it returns their number and appends them to the content, or it fails, where no
-- memory is left, and keeps the content. The cursor stays inside the buffer.
pub record Appends (dout : DataOutput) (bytes : List ℕ) (result : Option ℕ × DataOutput)
    : Type 0 where
  pub valid : IsValid result.1
  pub outcome :
      ((result.0 ≡ some (length bytes)) × (content result.1 ≡ content dout ++ bytes))
      ⊎ ((result.0 ≡ none) × (content result.1 ≡ content dout))

pub write_value-Appends :
    (malloc : ℕ → ℕ → Option ℕ) (sz v : ℕ) (dout : DataOutput)
    → 4 * sz < 2 ^ 64
    → IsValid dout
    → Appends dout (value_bytes sz v) (write_value malloc sz dout v)
unfolding write_value
write_value-Appends malloc sz v dout small ok =
    let m = check-MakesRoom malloc dout sz small ok in
    let len = length-value_bytes sz v in
    elim (Bool-cases (check malloc dout sz).0) [
      | inl made ↦
          let wide = m.room made in
          let w =
            dout_write-content malloc (check malloc dout sz).1 (value_bytes sz v) m.valid
              (omega (arith, wide, len)) in
          rw made (record {
            valid = w.0;
            outcome = inl (ap some (sym len), w.1 ∙ ap (λ t. t ++ value_bytes sz v) m.same);
          })
      | inr failed ↦ rw failed (record { valid = m.valid; outcome = inr (refl, m.same) })
    ]
