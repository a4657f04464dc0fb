-- ===== src/BinFormat/Typed.antt =====
-- The writers and readers of lib/shm/xm_bin_format.h by C type, under the names of the source less
-- the prefix `xm_bf_`. A float is its bit pattern; a NaN is written in its canonical form.
use Prim.Native.Nat.{bit_and}
use xmap.Base.{ℕ, ◌&&◌, not, Option, ◌==◌, if◌then◌else◌}
use xmap.BinFormat.{BinFormat, write_value, read_value}

unfoldable pub bool_write : BinFormat → ℕ → Option ℕ × BinFormat
bool_write = write_value 1

unfoldable pub short_write : BinFormat → ℕ → Option ℕ × BinFormat
short_write = write_value 2

unfoldable pub int_write : BinFormat → ℕ → Option ℕ × BinFormat
int_write = write_value 4

unfoldable pub long_write : BinFormat → ℕ → Option ℕ × BinFormat
long_write = write_value 8

unfoldable pub ushort_write : BinFormat → ℕ → Option ℕ × BinFormat
ushort_write = write_value 2

unfoldable pub uint_write : BinFormat → ℕ → Option ℕ × BinFormat
uint_write = write_value 4

unfoldable pub ulong_write : BinFormat → ℕ → Option ℕ × BinFormat
ulong_write = write_value 8

unfoldable pub size_write : BinFormat → ℕ → Option ℕ × BinFormat
size_write = write_value 8

unfoldable pub ssize_write : BinFormat → ℕ → Option ℕ × BinFormat
ssize_write = write_value 8

unfoldable pub off_write : BinFormat → ℕ → Option ℕ × BinFormat
off_write = write_value 8

unfoldable pub int8_write : BinFormat → ℕ → Option ℕ × BinFormat
int8_write = write_value 1

unfoldable pub int16_write : BinFormat → ℕ → Option ℕ × BinFormat
int16_write = write_value 2

unfoldable pub int32_write : BinFormat → ℕ → Option ℕ × BinFormat
int32_write = write_value 4

unfoldable pub int64_write : BinFormat → ℕ → Option ℕ × BinFormat
int64_write = write_value 8

unfoldable pub uint8_write : BinFormat → ℕ → Option ℕ × BinFormat
uint8_write = write_value 1

unfoldable pub uint16_write : BinFormat → ℕ → Option ℕ × BinFormat
uint16_write = write_value 2

unfoldable pub uint32_write : BinFormat → ℕ → Option ℕ × BinFormat
uint32_write = write_value 4

unfoldable pub uint64_write : BinFormat → ℕ → Option ℕ × BinFormat
uint64_write = write_value 8

-- `float2_raw_int_bits`
unfoldable pub float_raw_int_bits : ℕ → ℕ
float_raw_int_bits bits =
    if bit_and bits 2139095040 == 2139095040 && not (bit_and bits 8388607 == 0)
    then 0x7fc0_0000
    else bits

-- `double2_raw_int_bits`
unfoldable pub double_raw_int_bits : ℕ → ℕ
double_raw_int_bits bits =
    if bit_and bits 9218868437227405312 == 9218868437227405312
      && not (bit_and bits 4503599627370495 == 0)
    then 0x7ff8_0000_0000_0000
    else bits

unfoldable pub float_write : BinFormat → ℕ → Option ℕ × BinFormat
float_write bf bits = int_write bf (float_raw_int_bits bits)

unfoldable pub double_write : BinFormat → ℕ → Option ℕ × BinFormat
double_write bf bits = int64_write bf (double_raw_int_bits bits)

unfoldable pub bool_read : BinFormat → ℕ × BinFormat
bool_read = read_value 1

unfoldable pub short_read : BinFormat → ℕ × BinFormat
short_read = read_value 2

unfoldable pub int_read : BinFormat → ℕ × BinFormat
int_read = read_value 4

unfoldable pub long_read : BinFormat → ℕ × BinFormat
long_read = read_value 8

unfoldable pub float_read : BinFormat → ℕ × BinFormat
float_read = read_value 4

unfoldable pub double_read : BinFormat → ℕ × BinFormat
double_read = read_value 8

unfoldable pub ushort_read : BinFormat → ℕ × BinFormat
ushort_read = read_value 2

unfoldable pub uint_read : BinFormat → ℕ × BinFormat
uint_read = read_value 4

unfoldable pub ulong_read : BinFormat → ℕ × BinFormat
ulong_read = read_value 8

unfoldable pub size_read : BinFormat → ℕ × BinFormat
size_read = read_value 8

unfoldable pub ssize_read : BinFormat → ℕ × BinFormat
ssize_read = read_value 8

unfoldable pub off_read : BinFormat → ℕ × BinFormat
off_read = read_value 8

unfoldable pub int8_read : BinFormat → ℕ × BinFormat
int8_read = read_value 1

unfoldable pub int16_read : BinFormat → ℕ × BinFormat
int16_read = read_value 2

unfoldable pub int32_read : BinFormat → ℕ × BinFormat
int32_read = read_value 4

unfoldable pub int64_read : BinFormat → ℕ × BinFormat
int64_read = read_value 8

unfoldable pub uint8_read : BinFormat → ℕ × BinFormat
uint8_read = read_value 1

unfoldable pub uint16_read : BinFormat → ℕ × BinFormat
uint16_read = read_value 2

unfoldable pub uint32_read : BinFormat → ℕ × BinFormat
uint32_read = read_value 4

unfoldable pub uint64_read : BinFormat → ℕ × BinFormat
uint64_read = read_value 8
