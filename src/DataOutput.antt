-- ===== src/DataOutput.antt =====
-- lib/common/xm_data_output.h: an output buffer that grows, with the writers of lib/shm/xm_bin_format.h.
-- Addresses are numbers, memory gives the byte at each, and malloc is a parameter: what the n-th call
-- answers for a size. The sizes of a
-- write wrap at 2^64; the buffer with what it grows by is taken to be smaller than that. A returned -1 is `none`.
pub mod Typed
pub mod Appends
pub mod Strings
mod Tests
use xmap.Base.{
  ℕ, zero, suc, ◌+◌, ◌-◌, ◌*◌, ◌%◌, ◌^◌, Bool, true, false, Option, none, some, List, [], ◌∷◌, ltb,
  if◌then◌else◌, length,
}
use xmap.BinFormat.{Mem, store, value_bytes}

-- `struct xm_data_output_t`, with the memory that its pointers go into and the number of calls of malloc.
pub record DataOutput : Type 0 where
  pub mem : Mem
  pub base : ℕ
  pub pos : ℕ
  pub end : ℕ
  pub mallocs : ℕ

-- The bytes from an address on.
unfoldable pub slice : Mem → ℕ → ℕ → List ℕ
slice mem p zero = []
slice mem p (suc n) = mem p ∷ slice mem (p + 1) n

-- `XM_DOUT_FULL`, `XM_DOUT_SIZE`, `XM_DOUT_CONTENT_SIZE`, `XM_DOUT_POS_UPDATE` and `XM_DOUT_RESET`
unfoldable pub full : DataOutput → ℕ → Bool
full dout sz = ltb dout.end (dout.pos + sz)

unfoldable pub size : DataOutput → ℕ
size dout = dout.end - dout.base

unfoldable pub content_size : DataOutput → ℕ
content_size dout = dout.pos - dout.base

unfoldable pub pos_update : DataOutput → ℕ → DataOutput
pos_update dout sz = record dout { pos = dout.pos + sz }

unfoldable pub reset : DataOutput → DataOutput
reset dout = record dout { pos = dout.base }

-- `XM_DOUT_CONTENT`, as the bytes that have been written.
unfoldable pub content : DataOutput → List ℕ
content dout = slice dout.mem dout.base (content_size dout)

module _ (malloc : ℕ → ℕ → Option ℕ) where
  -- `xm_dout_init`: what it returns, and the buffer.
  unfoldable pub init : Mem → ℕ → Option DataOutput
  init mem mallocs = elim (malloc mallocs (64 * 1024 + 32)) [
    | none ↦ none
    | some addr ↦ some (record {
      mem = mem;
      base = addr;
      pos = addr;
      end = addr + 64 * 1024;
      mallocs = mallocs + 1;
    })
  ]

  -- `xm_dout_incr`: whether it succeeds, and the buffer.
  unfoldable pub incr : DataOutput → ℕ → Bool × DataOutput
  incr dout incr_size =
      let nsize = size dout + incr_size in
      let osize = content_size dout in
      elim (malloc dout.mallocs (nsize + 32)) [
        | none ↦ (false, record dout { mallocs = dout.mallocs + 1 })
        | some addr ↦ (
          true,
          record {
            mem = store dout.mem addr (slice dout.mem dout.base osize);
            base = addr;
            pos = addr + osize;
            end = addr + nsize;
            mallocs = dout.mallocs + 1;
          },
        )
      ]

  -- `DOUT_CHECK`
  unfoldable pub check : DataOutput → ℕ → Bool × DataOutput
  check dout sz = if full dout sz then incr dout (4 * sz % 2 ^ 64) else (true, dout)

  -- `dout_write`
  unfoldable pub dout_write : DataOutput → List ℕ → DataOutput
  dout_write dout bytes =
      pos_update (record dout { mem = store dout.mem dout.pos bytes }) (length bytes)

  -- The body that all the writers of a number share, for a value of `sz` bytes.
  unfoldable pub write_value : ℕ → DataOutput → ℕ → Option ℕ × DataOutput
  write_value sz dout v =
      let (ok, room) = check dout sz in
      if ok then (some sz, dout_write room (value_bytes sz v)) else (none, room)

  -- `xm_dout_bytes_write`, and `xm_dout_string_write` of the characters before the final zero. What the
  -- writer of the length returns is not looked at.
  unfoldable pub bytes_write : DataOutput → List ℕ → Option ℕ × DataOutput
  bytes_write dout bytes =
      let rlen = (length bytes + 8) % 2 ^ 64 in
      let (ok, room) = check dout rlen in
      if ok
      then (some rlen, dout_write (write_value 8 room (length bytes)).1 bytes)
      else (none, room)

  -- `xm_dout_string16_write` of a string and its length, which are added up in 16 bits.
  unfoldable pub string16_write : DataOutput → List ℕ → Option ℕ × DataOutput
  string16_write dout str =
      let rlen = (length str + 2) % 2 ^ 16 in
      let (ok, room) = check dout rlen in
      if ok then (some rlen, dout_write (write_value 2 room (length str)).1 str) else (none, room)
