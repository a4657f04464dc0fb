-- ===== src/DataOutput/Strings.antt =====
-- The writers of lib/common/xm_data_output.h that put a length before bytes.
use xmap.Base.{
  ℕ, ◌+◌, ◌-◌, ◌*◌, ◌%◌, ◌^◌, ◌<◌, ◌≤◌, ◌≡◌, refl, ap, ◌∙◌, true, false, Option, some, List, ◌++◌,
  ltb, length, length-append, arith, inl, inr, Bool-cases,
}
use mathlib.Core.List.{append_assoc}
use xmap.BinFormat.{value_bytes}
use xmap.BinFormat.Memory.{length-value_bytes}
use xmap.DataOutput.{
  DataOutput, full, pos_update, content, check, dout_write, write_value, bytes_write,
  string16_write,
}
use xmap.DataOutput.Appends.{IsValid, Appends, check-MakesRoom, dout_write-content}

-- Where there is room for a value the writer does not move the buffer.
write_value-room :
    (malloc : ℕ → ℕ → Option ℕ) (sz v : ℕ) (dout : DataOutput)
    → dout.pos + sz ≤ dout.end
    → (write_value malloc sz dout v).1 ≡ dout_write malloc dout (value_bytes sz v)
unfolding write_value check full
write_value-room malloc sz v dout room =
    let fits : ltb dout.end (dout.pos + sz) ≡ false = ground arith in rw fits refl

-- A value and then a copy of bytes, where there is room for both.
two_writes :
    (malloc : ℕ → ℕ → Option ℕ) (sz v : ℕ) (bytes : List ℕ) (dout : DataOutput)
    → IsValid dout
    → dout.pos + (length bytes + sz) ≤ dout.end
    → IsValid (dout_write malloc (write_value malloc sz dout v).1 bytes)
      × (content (dout_write malloc (write_value malloc sz dout v).1 bytes)
          ≡ content dout ++ (value_bytes sz v ++ bytes))
two_writes malloc sz v bytes dout ok room =
    let len = length-value_bytes sz v in
    let head = dout_write-content malloc dout (value_bytes sz v) ok (omega (arith, room, len)) in
    let rest =
      dout_write-content malloc (dout_write malloc dout (value_bytes sz v)) bytes head.0
        (still malloc dout (value_bytes sz v) (length bytes) (omega (arith, room, len))) in
    rw (write_value-room malloc sz v dout (omega (arith, room))) (
      rest.0,
      rest.1 ∙ ap (λ t. t ++ bytes) head.1 ∙ append_assoc (content dout) (value_bytes sz v) bytes,
    )
  where
    still :
        (malloc : ℕ → ℕ → Option ℕ) (dout : DataOutput) (first : List ℕ) (more : ℕ)
        → dout.pos + length first + more ≤ dout.end
        → (dout_write malloc dout first).pos + more ≤ (dout_write malloc dout first).end
    still malloc dout first more h = unfold dout_write in unfold pos_update in h

-- Where the buffer, grown by four times what is written, has a size of 64 bits, writing bytes, with their number before them in eight bytes, appends both, or fails and keeps the
-- content; in neither case does the cursor leave the buffer.
pub bytes_write-Appends :
    (malloc : ℕ → ℕ → Option ℕ) (bytes : List ℕ) (dout : DataOutput)
    → IsValid dout
    → 4 * (length bytes + 8) + (dout.end - dout.base) + 32 < 2 ^ 64
    → Appends dout (value_bytes 8 (length bytes) ++ bytes) (bytes_write malloc dout bytes)
unfolding bytes_write
bytes_write-Appends malloc bytes dout ok small =
    let whole : (length bytes + 8) % 2 ^ 64 ≡ length bytes + 8 = omega arith in
    let m = check-MakesRoom malloc dout (length bytes + 8) (omega arith) ok in
    let len = length-value_bytes 8 (length bytes) in
    let total : length bytes + 8 ≡ length (value_bytes 8 (length bytes) ++ bytes) =
      omega (arith, len, length-append (value_bytes 8 (length bytes)) bytes) in
    rw whole (elim (Bool-cases (check malloc dout (length bytes + 8)).0) [
      | inl made ↦
          let w =
            two_writes malloc 8 (length bytes) bytes (check malloc dout (length bytes + 8)).1
              m.valid (m.room made) in
          rw made (record {
            valid = w.0;
            outcome = inl (
              ap some total,
              w.1 ∙ ap (λ t. t ++ (value_bytes 8 (length bytes) ++ bytes)) m.same,
            );
          })
      | inr failed ↦ rw failed (record { valid = m.valid; outcome = inr (refl, m.same) })
    ])

-- The same for a string of at most 65533 bytes, with its length before it in two bytes.
pub string16_write-Appends :
    (malloc : ℕ → ℕ → Option ℕ) (str : List ℕ) (dout : DataOutput)
    → IsValid dout
    → length str < 65534
    → Appends dout (value_bytes 2 (length str) ++ str) (string16_write malloc dout str)
unfolding string16_write
string16_write-Appends malloc str dout ok short =
    let whole : (length str + 2) % 2 ^ 16 ≡ length str + 2 = omega arith in
    let m = check-MakesRoom malloc dout (length str + 2) (omega arith) ok in
    let len = length-value_bytes 2 (length str) in
    let total : length str + 2 ≡ length (value_bytes 2 (length str) ++ str) =
      omega (arith, len, length-append (value_bytes 2 (length str)) str) in
    rw whole (elim (Bool-cases (check malloc dout (length str + 2)).0) [
      | inl made ↦
          let w =
            two_writes malloc 2 (length str) str (check malloc dout (length str + 2)).1 m.valid
              (m.room made) in
          rw made (record {
            valid = w.0;
            outcome =
                inl
                  (ap some total, w.1 ∙ ap (λ t. t ++ (value_bytes 2 (length str) ++ str)) m.same);
          })
      | inr failed ↦ rw failed (record { valid = m.valid; outcome = inr (refl, m.same) })
    ])

-- For a string of 65534 or 65535 bytes the sum wraps to 0 or 1: with room for the two bytes of the
-- length, but not for the string, it is copied over the end of the buffer.
pub string16_write_overrun :
    (malloc : ℕ → ℕ → Option ℕ) (str : List ℕ) (dout : DataOutput)
    → 65534 ≤ length str
    → length str < 65536
    → dout.pos + 2 ≤ dout.end
    → dout.end < dout.pos + (length str + 2)
    → (string16_write malloc dout str).1.end < (string16_write malloc dout str).1.pos
unfolding string16_write
string16_write_overrun malloc str dout long short room over =
    let enough : check malloc dout ((length str + 2) % 2 ^ 16) ≡ (true, dout) =
      check-true malloc dout ((length str + 2) % 2 ^ 16) (omega arith) in
    rw (enough, write_value-room malloc 2 (length str) dout room)
      (behind malloc dout (value_bytes 2 (length str)) str
        (omega (arith, over, length-value_bytes 2 (length str))))
  where
    check-true :
        (malloc : ℕ → ℕ → Option ℕ) (dout : DataOutput) (sz : ℕ)
        → dout.pos + sz ≤ dout.end
        → check malloc dout sz ≡ (true, dout)
    check-true malloc dout sz room =
        let fits : ltb dout.end (dout.pos + sz) ≡ false = ground arith in
        unfold check in unfold full in rw fits refl

    behind :
        (malloc : ℕ → ℕ → Option ℕ) (dout : DataOutput) (first second : List ℕ)
        → dout.end < dout.pos + length first + length second
        → (dout_write malloc (dout_write malloc dout first) second).end
          < (dout_write malloc (dout_write malloc dout first) second).pos
    behind malloc dout first second h = unfold dout_write in unfold pos_update in h
