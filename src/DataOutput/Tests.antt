-- ===== src/DataOutput/Tests.antt =====
-- Runs of lib/common/xm_data_output.h.
use xmap.Base.{
  ℕ, ◌*◌, ◌+◌, ◌<◌, ◌≡◌, Option, some, List, [], ◌∷◌, ◌++◌, length, replicate, length-replicate,
  arith,
}
use xmap.BinFormat.{value_bytes}
use xmap.DataOutput.{DataOutput, bytes_write, string16_write}
use xmap.DataOutput.Appends.{IsValid, Appends}
use xmap.DataOutput.Strings.{bytes_write-Appends, string16_write-Appends, string16_write_overrun}

abbrev malloc : ℕ → ℕ → Option ℕ
malloc n sz = some (1000000 * (n + 1))

-- A buffer of ten bytes with four left.
abbrev dout : DataOutput
dout = record { mem = λ p. p; base = 100; pos = 106; end = 110; mallocs = 0 }

dout-IsValid : IsValid dout
dout-IsValid = record { above = omega arith; below = omega arith }

bytes_write-Appends_example :
    Appends dout (value_bytes 8 2 ++ 7 ∷ 9 ∷ []) (bytes_write malloc dout (7 ∷ 9 ∷ []))
bytes_write-Appends_example =
    bytes_write-Appends malloc (7 ∷ 9 ∷ []) dout dout-IsValid (omega arith)

string16_write-Appends_example :
    Appends dout (value_bytes 2 3 ++ 7 ∷ 9 ∷ 11 ∷ []) (string16_write malloc dout (7 ∷ 9 ∷ 11 ∷ []))
string16_write-Appends_example =
    string16_write-Appends malloc (7 ∷ 9 ∷ 11 ∷ []) dout dout-IsValid (omega arith)

unfoldable long_string : List ℕ
long_string = replicate 65534 0

length-long_string : length long_string ≡ 65534
unfolding long_string
length-long_string = length-replicate {A = ℕ} 65534 0

string16_write_overrun_example :
    (string16_write malloc dout long_string).1.end < (string16_write malloc dout long_string).1.pos
string16_write_overrun_example =
    string16_write_overrun malloc long_string dout (omega (arith, length-long_string))
      (omega (arith, length-long_string)) (omega arith) (omega (arith, length-long_string))
