-- ===== src/DataOutput/Typed.antt =====
-- The writers of lib/common/xm_data_output.h by C type, under the names of the source less the prefix
-- `xm_dout_`; a signed value is its bit pattern.
use xmap.Base.{ℕ, Option}
use xmap.DataOutput.{DataOutput, write_value}

module _ (malloc : ℕ → ℕ → Option ℕ) where
  unfoldable pub bool_write : DataOutput → ℕ → Option ℕ × DataOutput
  bool_write = write_value malloc 1

  unfoldable pub short_write : DataOutput → ℕ → Option ℕ × DataOutput
  short_write = write_value malloc 2

  unfoldable pub int_write : DataOutput → ℕ → Option ℕ × DataOutput
  int_write = write_value malloc 4

  unfoldable pub long_write : DataOutput → ℕ → Option ℕ × DataOutput
  long_write = write_value malloc 8

  unfoldable pub ushort_write : DataOutput → ℕ → Option ℕ × DataOutput
  ushort_write = write_value malloc 2

  unfoldable pub uint_write : DataOutput → ℕ → Option ℕ × DataOutput
  uint_write = write_value malloc 4

  unfoldable pub ulong_write : DataOutput → ℕ → Option ℕ × DataOutput
  ulong_write = write_value malloc 8

  unfoldable pub size_write : DataOutput → ℕ → Option ℕ × DataOutput
  size_write = write_value malloc 8

  unfoldable pub ssize_write : DataOutput → ℕ → Option ℕ × DataOutput
  ssize_write = write_value malloc 8

  unfoldable pub off_write : DataOutput → ℕ → Option ℕ × DataOutput
  off_write = write_value malloc 8

  unfoldable pub int8_write : DataOutput → ℕ → Option ℕ × DataOutput
  int8_write = write_value malloc 1

  unfoldable pub int16_write : DataOutput → ℕ → Option ℕ × DataOutput
  int16_write = write_value malloc 2

  unfoldable pub int32_write : DataOutput → ℕ → Option ℕ × DataOutput
  int32_write = write_value malloc 4

  unfoldable pub int64_write : DataOutput → ℕ → Option ℕ × DataOutput
  int64_write = write_value malloc 8

  unfoldable pub uint8_write : DataOutput → ℕ → Option ℕ × DataOutput
  uint8_write = write_value malloc 1

  unfoldable pub uint16_write : DataOutput → ℕ → Option ℕ × DataOutput
  uint16_write = write_value malloc 2

  unfoldable pub uint32_write : DataOutput → ℕ → Option ℕ × DataOutput
  uint32_write = write_value malloc 4

  unfoldable pub uint64_write : DataOutput → ℕ → Option ℕ × DataOutput
  uint64_write = write_value malloc 8
