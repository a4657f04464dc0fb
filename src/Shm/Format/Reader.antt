-- ===== src/Shm/Format/Reader.antt =====
-- The reading half of lib/shm/xm_shm_format.c, with the record's own reader of xm_shm_entry_record.c.
use xmap.Base.{
  ℕ, ◌+◌, ◌%◌, ◌^◌, Bool, true, false, Option, none, some, leb, not, ◌==◌, if◌then◌else◌,
}
use xmap.BinFormat.{BinFormat, bytes_read}
use xmap.BinFormat as Bf
use xmap.BinFormat.Typed.{uint32_read, uint8_read}
use xmap.Shm.{entry_get, entry_commit}
use xmap.Shm.Format.{Record, EntryHeader, Format, eimagic, fimagic}

-- A record that was read: its data are an address in the entry, none for a null pointer, and a length.
abbrev pub ReadRecord : Type 0
ReadRecord = Record (Option ℕ × ℕ)

-- `struct xm_shm_entry_iterator_t`: whether its header pointer is set, and its count. Its header is
-- always the current one of its format.
pub record Iterator : Type 0 where
  pub has_header : Bool
  pub entries_count : ℕ

-- `_shm_entry_header_read`; false is its -1.
unfoldable pub entry_header_read : EntryHeader → Bool × EntryHeader
entry_header_read header =
    let (magic, b1) = uint32_read header.bfmt in
    if not (magic == fimagic)
    then (false, record header { magic = magic; bfmt = b1 })
    else (let (major, b2) = uint32_read b1 in
        let (minor, b3) = uint32_read b2 in
        let (number, b4) = uint32_read b3 in
        let (size, b5) = uint32_read b4 in
        (
          true,
          record header {
            bfmt = b5;
            magic = magic;
            major_version = major;
            minor_version = minor;
            entries_number = number;
            entries_size = size;
          },
        ))

-- `has_next`
unfoldable pub has_next : Format → Iterator → Bool
has_next fmt iter =
    if not iter.has_header
    then false
    else if leb fmt.cur_header.entries_number iter.entries_count
    then false
    else true

-- The reads of `_record_read`; none: the magic number is wrong.
unfoldable pub record_read : BinFormat → Option ReadRecord × BinFormat
record_read bf =
    let (magic, b1) = uint32_read bf in
    if not (magic == eimagic)
    then (none, b1)
    else (let (size, b2) = uint32_read b1 in
        let (type, b3) = uint8_read b2 in
        let (offset, b4) = uint32_read b3 in
        let (bytes, b5) = bytes_read b4 in
        (
          some (record {
            magic = magic;
            record_size = size;
            data_offset = offset;
            payload = bytes;
            type = type;
          }),
          b5,
        ))

-- `record_next`; a wrong magic number ends the iteration.
unfoldable pub record_next : Format → Iterator → Option ReadRecord × (Format × Iterator)
record_next fmt iter =
    if not (has_next fmt iter)
    then (none, (fmt, iter))
    else (let header = fmt.cur_header in
        let (result, bf) = record_read header.bfmt in
        let fmt1 = record fmt { cur_header = record header { bfmt = bf } } in
        elim result [
          | none ↦ (none, (fmt1, record iter { has_header = false }))
          | some rec ↦
              (some rec, (fmt1, record iter { entries_count = (iter.entries_count + 1) % 2 ^ 32 }))
        ])

-- `xm_shm_entry_iterator_prefare` at a time; a returned null pointer is false.
unfoldable pub iterator_prefare : ℕ → Format → Bool × (Format × Iterator)
iterator_prefare time fmt =
    let fresh : Iterator = record { has_header = false; entries_count = 0 } in
    let (entry, shm) = entry_get time fmt.shm in
    elim entry [
      | none ↦ (false, (record fmt { shm = shm }, fresh))
      | some e ↦
          let header = fmt.cur_header in
          let (ok, read) =
            entry_header_read
              (record header { shm_entry = e; bfmt = Bf.init header.bfmt.mem e.start e.end }) in
          (ok, (record fmt { shm = shm; cur_header = read }, record fresh { has_header = ok }))
    ]

-- `xm_shm_entry_iterator_commit`
unfoldable pub iterator_commit : Format → Iterator → Format × Iterator
iterator_commit fmt iter =
    if iter.has_header
    then (let header = fmt.cur_header in
        let (entry, shm) = entry_commit fmt.shm header.shm_entry in
        (
          record fmt { shm = shm; cur_header = record header { shm_entry = entry } },
          record { has_header = false; entries_count = 0 },
        ))
    else (fmt, iter)
