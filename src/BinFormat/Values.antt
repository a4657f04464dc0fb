-- ===== src/BinFormat/Values.antt =====
-- Round trips of single numbers through lib/shm/xm_bin_format.h.
use xmap.Base.{ℕ, ◌+◌, ◌*◌, ◌%◌, ◌^◌, ◌≤◌, ◌≡◌, refl, ap, ◌∙◌, some, arith}
use native.Mathlib.Nat.{mod-mod}
use xmap.BinFormat.{
  BinFormat, full, pos_update, write_value, read_value, store, value_at, value_bytes,
}
use xmap.BinFormat.Memory.{value_at-value_bytes}
use xmap.BinFormat.Frame.{write_value_fits}

-- A read that fits.
pub read_value_fits :
    (n : ℕ) (bf : BinFormat)
    → bf.pos + n ≤ bf.limit
    → read_value n bf ≡ (value_at n bf.mem bf.pos % 2 ^ (n * 8), record bf { pos = bf.pos + n })
unfolding read_value full pos_update
read_value_fits n bf h = ground arith

-- The cursor before a write, over the memory after it.
abbrev pub rewound : BinFormat → BinFormat → BinFormat
rewound bf after = record after { pos = bf.pos }

-- What a writer of n bytes stored in a buffer with room for it, the reader of n bytes returns, modulo
-- the width; and it leaves the cursor where the writer did.
pub read-write :
    (n : ℕ) (bf : BinFormat) (v : ℕ)
    → bf.pos + n ≤ bf.limit
    → let (status, after) = write_value n bf v in
      (status ≡ some n) × (read_value n (rewound bf after) ≡ (v % 2 ^ (n * 8), after))
read-write n bf v h = rw (write_value_fits n bf v h) (
  refl,
  read_value_fits n (record bf { mem = store bf.mem bf.pos (value_bytes n v) }) h
      ∙ ap
          (λ (t : ℕ). (
            t % 2 ^ (n * 8),
            record bf { mem = store bf.mem bf.pos (value_bytes n v); pos = bf.pos + n },
          ))
          (value_at-value_bytes n v bf.mem bf.pos)
      ∙ ap
          (λ (t : ℕ).
            (t, record bf { mem = store bf.mem bf.pos (value_bytes n v); pos = bf.pos + n }))
          (mod-mod v (2 ^ (n * 8))),
)
