-- ===== src/Shm/Format/Trip.antt =====
-- Round trips of lib/shm/xm_shm_format.c: a record that is written to an entry is read back from it.
use xmap.Base.{
  ℕ, ◌+◌, ◌%◌, ◌^◌, ◌<◌, ◌≤◌, ◌≡◌, refl, ap, sym, subst, ◌∙◌, not, ◌==◌, Option, none, some, List,
  [], ◌∷◌, arith, length, if◌then◌else◌,
}
use xmap.BinFormat.{BinFormat, bytes_write, bytes_read, read_value}
use xmap.BinFormat.Typed.{uint32_write, uint8_write, uint32_read, uint8_read}
use xmap.BinFormat.Values.{rewound}
use xmap.BinFormat.Fields.{
  Field, Shape, write_fields, read_fields, total_width, stored_values, write_fields-Shape,
  read_fields-write_fields, read_fields_ext,
}
use xmap.BinFormat.Blobs.{bytes_at, bytes_read-bytes_write, bytes_write-before, bytes_write-after}
use xmap.Shm.Format.{Record, Format, eimagic, record_len, record_bytes_write}
use xmap.Shm.Format.Reader.{ReadRecord, record_read}

-- The fields of a record before its data.
unfoldable record_fields : Format → Record (List ℕ) → List Field
record_fields fmt rec =
    (4, eimagic) ∷ (4, record_len fmt rec) ∷ (1, rec.type) ∷ (4, rec.data_offset) ∷ []

-- The writes of a record are those of its fields and then its data.
record_bytes_write-fields :
    (fmt : Format) (bf : BinFormat) (rec : Record (List ℕ))
    → record_bytes_write fmt bf rec
      ≡ (bytes_write (write_fields (record_fields fmt rec) bf) rec.payload).1
unfolding record_bytes_write write_fields record_fields uint32_write uint8_write
record_bytes_write-fields fmt bf rec = refl

-- What `record_read` makes of the four fields before the data.
unfoldable finish : BinFormat → List ℕ → BinFormat → Option ReadRecord × BinFormat
finish b1 (m ∷ s ∷ t ∷ o ∷ []) after =
    if not (m == eimagic)
    then (none, b1)
    else (let (bytes, end) = bytes_read after in
        (
          some (record { magic = m; record_size = s; data_offset = o; payload = bytes; type = t }),
          end,
        ))
finish b1 _ after = (none, b1)

record_read-finish :
    (fmt : Format) (rec : Record (List ℕ)) (bf : BinFormat)
    → let (values, after) = read_fields (record_fields fmt rec) bf in
      record_read bf ≡ finish (read_value 4 bf).1 values after
unfolding record_read read_fields record_fields finish uint32_read uint8_read
record_read-finish fmt rec bf = refl

module _ (fmt : Format) (bf : BinFormat) (rec : Record (List ℕ))
    (room : bf.pos + (21 + length rec.payload) ≤ bf.limit)
    (small : length rec.payload < 2 ^ 64) where
  fields : BinFormat
  fields = write_fields (record_fields fmt rec) bf

  fields-Shape : Shape bf fields 13
  unfolding record_fields total_width fields
  fields-Shape = write_fields-Shape (record_fields fmt rec) bf (omega arith)

  data_room : fields.pos + (length rec.payload + 8) ≤ fields.limit
  data_room = omega (arith, fields-Shape.end, fields-Shape.same_limit)

  final : BinFormat
  final = (bytes_write fields rec.payload).1

  final-rewound : rewound bf final ≡ record (rewound bf fields) { mem = final.mem }
  unfolding final
  final-rewound = ap (λ w. rewound bf w) (bytes_write-after fields rec.payload data_room)

  -- The four fields, read from the memory as it is in the end.
  fields_read :
      read_fields (record_fields fmt rec) (rewound bf final)
      ≡ (stored_values (record_fields fmt rec), rewound fields final)
  unfolding record_fields total_width fields final
  fields_read =
      ap (read_fields (record_fields fmt rec)) final-rewound
      ∙ read_fields_ext (record_fields fmt rec) (rewound bf fields) final.mem
          (omega (arith, fields-Shape.same_limit))
          (λ q lt.
            bytes_write-before fields rec.payload q data_room (omega (arith, fields-Shape.end)))
      ∙ ap (λ r. (r.0, record (r.1) { mem = final.mem }))
          (read_fields-write_fields (record_fields fmt rec) bf (omega arith))
      ∙ ap (λ w. (stored_values (record_fields fmt rec), rewound fields w))
          (sym (bytes_write-after fields rec.payload data_room))

  whole : record_bytes_write fmt bf rec ≡ final
  unfolding fields final
  whole = record_bytes_write-fields fmt bf rec

  -- What the record reads back as, its data at an address.
  abbrev as_read : (Option ℕ × ℕ) → ReadRecord
  as_read bytes = record {
    magic = eimagic;
    record_size = record_len fmt rec % 2 ^ 32;
    data_offset = rec.data_offset % 2 ^ 32;
    payload = bytes;
    type = rec.type % 2 ^ 8;
  }

  record_read-final :
      record_read (rewound bf final)
      ≡ (some (as_read (some (bf.pos + 21), length rec.payload)), final)
  unfolding finish stored_values record_fields final
  record_read-final =
      record_read-finish fmt rec (rewound bf final)
      ∙ ap (λ r. finish (read_value 4 (rewound bf final)).1 r.0 r.1) fields_read
      ∙ ap (λ r. (some (as_read r.0), r.1))
          (bytes_read-bytes_write fields rec.payload data_room small).1
      ∙ ap (λ p. (some (as_read (some p, length rec.payload)), final))
          (omega (arith, fields-Shape.end))

  -- A record that fits at the cursor of an entry, with its 21 bytes of framing and data that a size_t
  -- can count, is read back from there: its magic number, its length, its type and its offset, each
  -- to its own width; the number of its data and an address at which they stand; and the reader ends
  -- where the writer did.
  pub record_read-record_bytes_write :
      let after = record_bytes_write fmt bf rec in
      (record_read (rewound bf after)
        ≡ (some (as_read (some (bf.pos + 21), length rec.payload)), after))
      × (bytes_at after.mem (bf.pos + 21) (length rec.payload) ≡ rec.payload)
  unfolding final
  record_read-record_bytes_write =
      subst
        (λ after.
          (record_read (rewound bf after)
            ≡ (some (as_read (some (bf.pos + 21), length rec.payload)), after))
          × (bytes_at after.mem (bf.pos + 21) (length rec.payload) ≡ rec.payload))
        (sym whole)
        (
          record_read-final,
          subst (λ p. bytes_at final.mem p (length rec.payload) ≡ rec.payload)
              (omega (arith, fields-Shape.end))
              (bytes_read-bytes_write fields rec.payload data_room small).2,
        )
