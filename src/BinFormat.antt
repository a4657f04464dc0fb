-- ===== src/BinFormat.antt =====
-- lib/shm/xm_bin_format.h: the cursor over a byte buffer through which records are written and read,
-- big-endian. Addresses are numbers, memory gives the byte at each, and a signed value is its bit
-- pattern (LP64: long and size_t have 8 bytes). A returned -1 is `none`.
pub mod Typed
pub mod Memory
pub mod Frame
pub mod Values
pub mod Fields
pub mod Blobs
mod Tests
use xmap.Base.{
  ℕ, zero, suc, ◌+◌, ◌-◌, ◌*◌, ◌/◌, ◌%◌, ◌^◌, Bool, true, false, Option, none, some, List, [], ◌∷◌,
  ltb, ◌==◌, if◌then◌else◌, length,
}

abbrev pub Mem : Type 0
Mem = ℕ → ℕ

-- `struct xm_bin_format_t` with the memory that its pointers go into.
pub record BinFormat : Type 0 where
  pub mem : Mem
  pub start : ℕ
  pub pos : ℕ
  pub limit : ℕ

unfoldable pub content_size : BinFormat → ℕ
content_size bf = bf.pos - bf.start

unfoldable pub full : BinFormat → ℕ → Bool
full bf size = ltb bf.limit (bf.pos + size)

unfoldable pub empty : BinFormat → Bool
empty bf = bf.pos == bf.start

unfoldable pub pos_update : BinFormat → ℕ → BinFormat
pos_update bf size = record bf { pos = bf.pos + size }

unfoldable pub init : Mem → ℕ → ℕ → BinFormat
init mem start limit = record { mem = mem; start = start; pos = start; limit = limit }

unfoldable pub init_with_len : Mem → ℕ → ℕ → BinFormat
init_with_len mem start len = record { mem = mem; start = start; pos = start; limit = start + len }

unfoldable pub reset : BinFormat → BinFormat
reset bf = record bf { pos = bf.start }

unfoldable pub skip : BinFormat → ℕ → BinFormat
skip bf size = if full bf size then record bf { pos = bf.limit } else pos_update bf size

-- `DO_VALUE_WRITE`: the bytes of a value of `left` bytes, the highest first.
unfoldable pub value_bytes : ℕ → ℕ → List ℕ
value_bytes zero value = []
value_bytes (suc left) value = (value / 2 ^ (left * 8) % 256) ∷ value_bytes left value

-- A store of one byte.
abbrev pub poke : Mem → ℕ → ℕ → Mem
poke mem p b q = if p == q then b else mem q

-- `memcpy` of a list of bytes.
unfoldable pub store : Mem → ℕ → List ℕ → Mem
store mem p [] = mem
store mem p (b ∷ bs) = store (poke mem p b) (p + 1) bs

unfoldable pub do_write : BinFormat → List ℕ → BinFormat
do_write bf bytes = pos_update (record bf { mem = store bf.mem bf.pos bytes }) (length bytes)

-- The body that all the writers of a number share, for a value of `size` bytes.
unfoldable pub write_value : ℕ → BinFormat → ℕ → Option ℕ × BinFormat
write_value size bf value =
    if full bf size then (none, bf) else (some size, do_write bf (value_bytes size value))

-- `DO_VALUE_READ`: the sum of the bytes from p on, each at its place.
unfoldable pub value_at : ℕ → Mem → ℕ → ℕ
value_at zero mem p = 0
value_at (suc left) mem p = mem p % 256 * 2 ^ (left * 8) + value_at left mem (p + 1)

-- The body that all the readers of a number share; a buffer with too few bytes left reads as 0.
unfoldable pub read_value : ℕ → BinFormat → ℕ × BinFormat
read_value size bf =
    if full bf size
    then (0, bf)
    else (value_at size bf.mem bf.pos % 2 ^ (size * 8), pos_update bf size)

-- `xm_bf_bytes_write`, and `xm_bf_string_write` of the characters before the final zero.
unfoldable pub bytes_write : BinFormat → List ℕ → Option ℕ × BinFormat
bytes_write bf bytes =
    let rlen = length bytes + 8 in
    if full bf rlen
    then (none, bf)
    else (some rlen, do_write (write_value 8 bf (length bytes)).1 bytes)

-- `xm_bf_bytes_read`: the address of the bytes (none for a null pointer) and their number. The
-- length that was read is not compared with the end of the buffer.
unfoldable pub bytes_read : BinFormat → (Option ℕ × ℕ) × BinFormat
bytes_read bf =
    if full bf 8
    then ((none, 0), bf)
    else (let (len, bf') = read_value 8 bf in ((some bf'.pos, len), pos_update bf' len))
