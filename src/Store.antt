-- ===== src/Store.antt =====
-- src/xm_store.h and src/xm_store.c: the results, packed by msgpack into a buffer that is put into the
-- ring as one record. The buffer is the list of the msgpack calls; what msgpack makes of them is a
-- parameter. A key is none for a null pointer.
pub mod Object
use Prim.Native.String.{String}
use Prim.Native.String
use xmap.Base.{
  ℕ, ◌+◌, ◌-◌, ◌%◌, ◌/◌, ◌^◌, Bool, true, false, Option, none, some, List, [], ◌∷◌, ◌++◌, ltb,
  if◌then◌else◌,
}
use xmap.Shm.{Header}
use xmap.Shm.Format.{Format, Status, filled, entry_record_put}
use xmap.Shm.Format as Fmt

-- A call of msgpack: a text or a blob, the head of a map or of an array, a number.
pub data Token : Type 0 where
  str : String → Token
  bin : List ℕ → Token
  map_head : ℕ → Token
  array_head : ℕ → Token
  uint : ℕ → Token

-- `struct xm_store_t`
pub record Store : Type 0 where
  pub pk_buf : List Token
  pub shm_fmt : Format
  pub shm_last_time : ℕ
  pub shm_flush_timeout : ℕ

abbrev pack : Store → Token → Store
pack xstore token = record xstore { pk_buf = xstore.pk_buf ++ (token ∷ []) }

-- `_str_empty`
abbrev pub str_empty : Option String → Bool
str_empty none = true
str_empty (some String.[]) = true
str_empty (some (String.◌∷◌ c s)) = false

-- `xm_store_write_str`
abbrev pub write_str : Store → String → Store
write_str xstore s = pack xstore (Token.str s)

-- The key that the writers put first, if there is one.
abbrev write_key : Store → Option String → Store
write_key xstore none = xstore
write_key xstore (some String.[]) = xstore
write_key xstore (some (String.◌∷◌ c s)) = write_str xstore (String.◌∷◌ c s)

-- `xm_store_write_bin` and `xm_store_write_bin_kv`
abbrev pub write_bin : Store → List ℕ → Store
write_bin xstore bytes = pack xstore (bin bytes)

abbrev pub write_bin_kv : Store → Option String → List ℕ → Store
write_bin_kv xstore k bytes = write_bin (write_key xstore k) bytes

-- `xm_store_write_kv`; a null value is written as the empty text.
abbrev pub write_kv : Store → String → Option String → Store
write_kv xstore k v = write_str (write_str xstore k) (elim v [ none ↦ "" | some s ↦ s ])

-- `xm_store_map_start` and `xm_store_array_start`
abbrev pub map_start : Store → Option String → ℕ → Store
map_start xstore k n = pack (write_key xstore k) (map_head n)

abbrev pub array_start : Store → Option String → ℕ → Store
array_start xstore k n = pack (write_key xstore k) (array_head n)

-- The writers of a number, each with the width of its argument.
abbrev write_number : ℕ → Store → Option String → ℕ → Store
write_number bits xstore k v = pack (write_key xstore k) (uint (v % 2 ^ bits))

abbrev pub write_uint : Store → Option String → ℕ → Store
write_uint = write_number 32

abbrev pub write_uint8 : Store → Option String → ℕ → Store
write_uint8 = write_number 8

abbrev pub write_uint16 : Store → Option String → ℕ → Store
write_uint16 = write_number 16

abbrev pub write_uint32 : Store → Option String → ℕ → Store
write_uint32 = write_number 32

abbrev pub write_uint64 : Store → Option String → ℕ → Store
write_uint64 = write_number 64

-- `_xstore_shm_flush` at a time in milliseconds; the difference wraps around.
unfoldable pub shm_flush : ℕ → Store → Store
shm_flush time xstore =
    let cur_time = time / 1000 in
    if ltb xstore.shm_flush_timeout ((cur_time + 2 ^ 64 - xstore.shm_last_time) % 2 ^ 64)
    then record xstore { shm_fmt = Fmt.flush time xstore.shm_fmt; shm_last_time = cur_time }
    else xstore

-- `xm_store_flush`: the buffer goes into the ring as one record and is cleared. `packed` is msgpack's
-- encoding; the attempts are those of `xm_shm_entry_record_put`. A status of none is a ring that all of
-- them found full: the code then goes on to try.
unfoldable pub store_flush :
    (List Token → List ℕ) → List (ℕ × (Header → Header)) → ℕ → ℕ → Store → Option Status × Store
store_flush packed attempts time type xstore =
    let (status, fmt) =
      entry_record_put attempts xstore.shm_fmt (filled type (packed xstore.pk_buf)) in
    (status, shm_flush time (record xstore { shm_fmt = fmt; pk_buf = [] }))
