-- ===== src/BinFormat/Tests.antt =====
-- Runs of lib/shm/xm_bin_format.h on a buffer of 64 bytes.
use xmap.Base.{ℕ, ◌+◌, ◌*◌, ◌%◌, ◌^◌, ◌≡◌, none, some, List, [], ◌∷◌, arith, ◌⊎◌, inl, length}
use xmap.BinFormat.{BinFormat, content_size, write_value, read_value, skip, bytes_write, bytes_read}
use xmap.BinFormat.Frame.{IsValid, write_value_frame, skip-IsValid}
use xmap.BinFormat.Values.{read-write, rewound}
use xmap.BinFormat.Fields.{
  Field, write_fields, read_fields, total_width, stored_values, read_fields-write_fields,
}
use xmap.BinFormat.Blobs.{bytes_at, bytes_read-bytes_write}

abbrev buffer : BinFormat
buffer = record { mem = λ q. 0; start = 100; pos = 100; limit = 164 }

buffer-IsValid : IsValid buffer
buffer-IsValid = record { above = omega arith; below = omega arith }

written_back :
    ((write_value 4 buffer 70000).0 ≡ some 4)
    × (read_value 4 (rewound buffer (write_value 4 buffer 70000).1)
        ≡ (70000 % 2 ^ (4 * 8), (write_value 4 buffer 70000).1))
written_back = read-write 4 buffer 70000 (omega arith)

write_value_frame_example :
    IsValid (write_value 4 buffer 70000).1
    × ((write_value 4 buffer 70000).1.mem 99 ≡ buffer.mem 99)
    × (((write_value 4 buffer 70000).0 ≡ some 4)
          × (content_size (write_value 4 buffer 70000).1 ≡ content_size buffer + 4)
        ⊎ (((write_value 4 buffer 70000).0 ≡ none) × ((write_value 4 buffer 70000).1 ≡ buffer)))
write_value_frame_example = write_value_frame 4 buffer 70000 99 buffer-IsValid (inl (omega arith))

skip-IsValid_run : IsValid (skip buffer 100)
skip-IsValid_run = skip-IsValid buffer 100 buffer-IsValid

abbrev three : List Field
three = (4, 65530) ∷ (1, 300) ∷ (8, 7) ∷ []

read_fields-write_fields_example :
    read_fields three (rewound buffer (write_fields three buffer))
    ≡ (stored_values three, write_fields three buffer)
unfolding total_width
read_fields-write_fields_example = read_fields-write_fields three buffer (omega arith)

abbrev text : List ℕ
text = b'h' ∷ b'i' ∷ []

bytes_read-bytes_write_example :
    ((bytes_write buffer text).0 ≡ some (length text + 8))
    × (bytes_read (rewound buffer (bytes_write buffer text).1)
        ≡ ((some (100 + 8), length text), (bytes_write buffer text).1))
    × (bytes_at (bytes_write buffer text).1.mem (100 + 8) (length text) ≡ text)
bytes_read-bytes_write_example = bytes_read-bytes_write buffer text (omega arith) (omega arith)
