-- ===== src/BinFormat/Blobs.antt =====
-- Blobs of bytes, written and read through lib/shm/xm_bin_format.h.
use xmap.Base.{
  ℕ, ◌+◌, ◌%◌, ◌^◌, ◌<◌, ◌≤◌, ◌≡◌, refl, ap, ap₂, sym, subst, zero, suc, ◌∙◌, List, [], ◌∷◌, some,
  arith, inl, length,
}
use xmap.BinFormat.{
  BinFormat, Mem, poke, full, do_write, pos_update, value_at, store, value_bytes, bytes_write,
  bytes_read,
}
use xmap.BinFormat.Memory.{value_at-value_bytes, value_at_ext, store_outside, store_first}
use xmap.BinFormat.Frame.{write_value_fits}
use xmap.BinFormat.Values.{read_value_fits, rewound}
use native.Mathlib.Nat.{mod-mod, mod-eq_of_lt}

-- The bytes that stand at an address.
unfoldable pub bytes_at : Mem → ℕ → ℕ → List ℕ
bytes_at mem p zero = []
bytes_at mem p (suc n) = mem p ∷ bytes_at mem (p + 1) n

bytes_at-store :
    (bytes : List ℕ) (mem : Mem) (p : ℕ) → bytes_at (store mem p bytes) p (length bytes) ≡ bytes
unfolding bytes_at store
bytes_at-store [] mem p = refl
bytes_at-store (b ∷ bs) mem p =
    ap₂ (λ x xs. x ∷ xs) (store_first mem p b bs) (bytes_at-store bs (poke mem p b) (p + 1))

-- What a write of bytes leaves behind: a length word and the bytes after it.
pub bytes_write_fits :
    (bf : BinFormat) (bytes : List ℕ)
    → bf.pos + (length bytes + 8) ≤ bf.limit
    → bytes_write bf bytes ≡ (
      some (length bytes + 8),
      record bf {
        mem = store (store bf.mem bf.pos (value_bytes 8 (length bytes))) (bf.pos + 8) bytes;
        pos = bf.pos + 8 + length bytes;
      },
    )
unfolding bytes_write full do_write pos_update
bytes_write_fits bf bytes h = rw (write_value_fits 8 bf (length bytes) (omega arith)) (ground arith)

-- The length word, under the bytes.
length_word :
    (bf : BinFormat) (bytes : List ℕ)
    → length bytes < 2 ^ 64
    → let mem = store (store bf.mem bf.pos (value_bytes 8 (length bytes))) (bf.pos + 8) bytes in
      value_at 8 mem bf.pos % 2 ^ 64 ≡ length bytes
length_word bf bytes small =
    ap (λ (t : ℕ). t % 2 ^ 64)
      (value_at_ext 8 (store word (bf.pos + 8) bytes) word bf.pos
          (λ q lo hi. store_outside word (bf.pos + 8) bytes q (inl hi))
        ∙ value_at-value_bytes 8 (length bytes) bf.mem bf.pos)
    ∙ mod-mod (length bytes) (2 ^ 64)
    ∙ mod-eq_of_lt small
  where
    word : Mem
    word = store bf.mem bf.pos (value_bytes 8 (length bytes))

-- Bytes that fit with their length word, fewer than 2^64 of them, are read back: the reader finds
-- their number and an address at which they stand, and ends where the writer did.
pub bytes_read-bytes_write :
    (bf : BinFormat) (bytes : List ℕ)
    → bf.pos + (length bytes + 8) ≤ bf.limit
    → length bytes < 2 ^ 64
    → let (status, after) = bytes_write bf bytes in
      (status ≡ some (length bytes + 8))
      × (bytes_read (rewound bf after) ≡ ((some (bf.pos + 8), length bytes), after))
      × (bytes_at after.mem (bf.pos + 8) (length bytes) ≡ bytes)
unfolding bytes_read full pos_update
bytes_read-bytes_write bf bytes h small = rw (bytes_write_fits bf bytes h) (
  refl,
  rw (read_value_fits 8 before room, length_word bf bytes small) (ground arith),
  bytes_at-store bytes (store bf.mem bf.pos (value_bytes 8 (length bytes))) (bf.pos + 8),
)
  where
    before : BinFormat
    before = record bf {
      mem = store (store bf.mem bf.pos (value_bytes 8 (length bytes))) (bf.pos + 8) bytes;
    }

    room : before.pos + 8 ≤ before.limit
    room = omega arith

-- The memory before a write of bytes.
pub bytes_write-before :
    (bf : BinFormat) (bytes : List ℕ) (q : ℕ)
    → bf.pos + (length bytes + 8) ≤ bf.limit
    → q < bf.pos
    → (bytes_write bf bytes).1.mem q ≡ bf.mem q
bytes_write-before bf bytes q room lt =
    ap (λ w. w.1.mem q) (bytes_write_fits bf bytes room)
    ∙ store_outside (store bf.mem bf.pos (value_bytes 8 (length bytes))) (bf.pos + 8) bytes q
        (inl (omega arith))
    ∙ store_outside bf.mem bf.pos (value_bytes 8 (length bytes)) q (inl lt)

-- Where a write of bytes leaves the cursor: all else but the memory is as before.
pub bytes_write-after :
    (bf : BinFormat) (bytes : List ℕ)
    → bf.pos + (length bytes + 8) ≤ bf.limit
    → let after = (bytes_write bf bytes).1 in
      after ≡ record bf { mem = after.mem; pos = bf.pos + 8 + length bytes }
bytes_write-after bf bytes room =
    subst (λ w. w.1 ≡ record bf { mem = w.1.mem; pos = bf.pos + 8 + length bytes })
      (sym (bytes_write_fits bf bytes room)) refl
