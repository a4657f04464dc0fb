-- ===== src/BinFormat/Frame.antt =====
-- What each operation of lib/shm/xm_bin_format.h leaves alone: the cursor stays inside the buffer and
-- the rest of the memory stays as it was.
use xmap.Base.{ℕ, ◌+◌, ◌<◌, ◌≤◌, ◌≡◌, refl, ◌⊎◌, inl, inr, Bool-cases, none, some, ltb, arith}
use xmap.BinFormat.{
  BinFormat, full, content_size, pos_update, skip, do_write, write_value, store, value_bytes,
}
use xmap.BinFormat.Memory.{store_outside, length-value_bytes}

pub record IsValid (bf : BinFormat) : Type 0 where
  pub above : bf.start ≤ bf.pos
  pub below : bf.pos ≤ bf.limit

-- A write that fits: its status, the bytes it stores, and the cursor behind them.
pub write_value_fits :
    (n : ℕ) (bf : BinFormat) (v : ℕ)
    → bf.pos + n ≤ bf.limit
    → write_value n bf v
      ≡ (some n, record bf { mem = store bf.mem bf.pos (value_bytes n v); pos = bf.pos + n })
unfolding write_value full do_write pos_update
write_value_fits n bf v h = ground (arith, length-value_bytes n v)

-- A write that does not fit changes nothing.
pub write_value_full :
    (n : ℕ) (bf : BinFormat) (v : ℕ) → bf.limit < bf.pos + n → write_value n bf v ≡ (none, bf)
unfolding write_value full
write_value_full n bf v h = ground arith

-- A writer of n bytes keeps the cursor inside the buffer, moves it by n or not at all, and changes
-- no byte outside the n bytes that it was at.
pub write_value_frame :
    (n : ℕ) (bf : BinFormat) (v q : ℕ)
    → IsValid bf
    → (q < bf.pos) ⊎ (bf.pos + n ≤ q)
    → IsValid (write_value n bf v).1
      × ((write_value n bf v).1.mem q ≡ bf.mem q)
      × (((write_value n bf v).0 ≡ some n)
            × (content_size (write_value n bf v).1 ≡ content_size bf + n)
          ⊎ (((write_value n bf v).0 ≡ none) × ((write_value n bf v).1 ≡ bf)))
unfolding content_size
write_value_frame n bf v q ok out = elim (Bool-cases (ltb bf.limit (bf.pos + n))) [
  | inl over ↦ rw (write_value_full n bf v (ground arith)) (ok, refl, inr (refl, refl))
  | inr fits ↦ rw (write_value_fits n bf v (ground arith)) (
    record { above = omega (arith, ok.above); below = ground arith },
    store_outside bf.mem bf.pos (value_bytes n v) q (ground (arith, length-value_bytes n v)),
    inl (refl, omega (arith, ok.above)),
  )
]

-- Skipping stops at the end of the buffer.
pub skip-IsValid : (bf : BinFormat) (size : ℕ) → IsValid bf → IsValid (skip bf size)
unfolding skip full pos_update
skip-IsValid bf size ok = ground arith
