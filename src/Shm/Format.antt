-- ===== src/Shm/Format.antt =====
-- lib/shm/xm_shm_format.h, xm_shm_format.c and xm_shm_entry_record.c: records packed one after the
-- other into the entries of the ring. The buffer's memory is the memory of the process.
pub mod Reader
pub mod Trip
use xmap.Base.{
  ℕ, ◌+◌, ◌-◌, ◌*◌, ◌%◌, ◌^◌, Bool, true, false, Option, none, some, List, [], ◌∷◌, ltb, length,
  if◌then◌else◌,
}
use xmap.BinFormat.{BinFormat, Mem, content_size, bytes_write, skip, reset}
use xmap.BinFormat as Bf
use xmap.BinFormat.Typed.{uint32_write, uint8_write}
use xmap.Shm.{Shm, Header, Entry, entry_get, entry_commit}

-- `struct xm_shm_entry_record_t` with the record inside it. D stands for its data and data_len: the bytes
-- themselves in a record to write, an address and a length in a record that was read.
pub record Record (D : Type 0) : Type 0 where
  pub magic : ℕ
  pub record_size : ℕ
  pub data_offset : ℕ
  pub payload : D
  pub type : ℕ

-- `struct xm_shm_entry_header_t`
pub record EntryHeader : Type 0 where
  pub shm_entry : Entry
  pub bfmt : BinFormat
  pub magic : ℕ
  pub major_version : ℕ
  pub minor_version : ℕ
  pub entries_number : ℕ
  pub entries_size : ℕ

-- `struct xm_shm_format_t`
pub record Format : Type 0 where
  pub cur_header : EntryHeader
  pub shm : Shm
  pub has_header : Bool
  pub entry_size : ℕ
  pub record_header_size : ℕ

-- `FIMAGIC`, `EIMAGIC`, `XM_SHM_ENTRY_HEADER_LEN` and `XM_SHM_ENTRY_RECORD_HEADER_SIZE`
abbrev pub fimagic : ℕ
fimagic = 65530

abbrev pub eimagic : ℕ
eimagic = 65531

abbrev pub entry_header_len : ℕ
entry_header_len = 20

abbrev pub record_header_len : ℕ
record_header_len = 21

-- `xm_shm_record_len`
unfoldable pub record_len : Format → Record (List ℕ) → ℕ
record_len fmt rec = (length rec.payload + fmt.record_header_size) % 2 ^ 32

-- `_is_record_size_over`; the difference wraps around.
unfoldable pub is_record_size_over : Format → Record (List ℕ) → Bool
is_record_size_over fmt rec =
    ltb ((fmt.entry_size + 2 ^ 32 - entry_header_len) % 2 ^ 32) rec.record_size

-- `_is_need_create_entry_header`
unfoldable pub is_need_create_entry_header : Format → Record (List ℕ) → Bool
is_need_create_entry_header fmt rec =
    if fmt.has_header then Bf.full fmt.cur_header.bfmt rec.record_size else true

-- The writes of `_shm_entry_header_commit`.
unfoldable pub header_write : EntryHeader → BinFormat
header_write header =
    let b1 = (uint32_write (reset header.bfmt) header.magic).1 in
    let b2 = (uint32_write b1 header.major_version).1 in
    let b3 = (uint32_write b2 header.minor_version).1 in
    let b4 = (uint32_write b3 header.entries_number).1 in (uint32_write b4 header.entries_size).1

-- `_shm_entry_header_commit`
unfoldable pub entry_header_commit : Format → Format
entry_header_commit fmt =
    let (entry, shm) = entry_commit fmt.shm fmt.cur_header.shm_entry in
    record fmt {
      shm = shm;
      cur_header = record (fmt.cur_header) {
        bfmt = header_write fmt.cur_header;
        shm_entry = entry;
      };
    }

-- `_shm_entry_header_init`
unfoldable pub entry_header_init : EntryHeader → EntryHeader
entry_header_init header = record header {
  bfmt =
      skip (Bf.init header.bfmt.mem header.shm_entry.start header.shm_entry.end) entry_header_len;
  magic = fimagic;
  major_version = 1;
  minor_version = 0;
  entries_size = 0;
  entries_number = 0;
}

-- `_shm_entry_header_create` at a time; false is its -1.
unfoldable pub entry_header_create : ℕ → Format → Bool × Format
entry_header_create time fmt =
    let fmt1 =
      if fmt.has_header then record (entry_header_commit fmt) { has_header = false } else fmt in
    let (entry, shm) = entry_get time fmt1.shm in
    elim entry [
      | none ↦ (false, record fmt1 { shm = shm })
      | some e ↦ (
        true,
        record fmt1 {
          shm = shm;
          has_header = true;
          cur_header = entry_header_init (record (fmt1.cur_header) { shm_entry = e });
        },
      )
    ]

-- The writes of `_shm_record_write`, with `_shm_entry_record_write` as the record's own.
unfoldable pub record_bytes_write : Format → BinFormat → Record (List ℕ) → BinFormat
record_bytes_write fmt bf rec =
    let b1 = (uint32_write bf eimagic).1 in
    let b2 = (uint32_write b1 (record_len fmt rec)).1 in
    let b3 = (uint8_write b2 rec.type).1 in
    let b4 = (uint32_write b3 rec.data_offset).1 in (bytes_write b4 rec.payload).1

-- `_shm_record_write`
unfoldable pub record_write : Format → Record (List ℕ) → Format
record_write fmt rec =
    let header = fmt.cur_header in
    let bfmt = record_bytes_write fmt header.bfmt rec in
    let bsize = content_size header.bfmt % 2 ^ 32 in
    let asize = content_size bfmt % 2 ^ 32 in
    record fmt {
      cur_header = record header {
        bfmt = bfmt;
        entries_number = (header.entries_number + 1) % 2 ^ 32;
        entries_size = (header.entries_size + (asize + 2 ^ 32 - bsize)) % 2 ^ 32;
      };
    }

-- What `xm_shm_format_put` returns: 0, -1, -2.
pub data Status : Type 0 where
  stored : Status
  no_entry : Status
  too_large : Status

-- `xm_shm_format_put`
unfoldable pub put : ℕ → Format → Record (List ℕ) → Status × Format
put time fmt rec =
    if is_record_size_over fmt rec
    then (too_large, fmt)
    else if is_need_create_entry_header fmt rec
    then (let (ok, fmt1) = entry_header_create time fmt in
        if ok then (stored, record_write fmt1 rec) else (no_entry, fmt1))
    else (stored, record_write fmt rec)

-- `_can_been_flush`
unfoldable pub can_been_flush : Format → Bool
can_been_flush fmt =
    if fmt.has_header then (if Bf.empty fmt.cur_header.bfmt then false else true) else false

-- `xm_shm_format_flush`
unfoldable pub flush : ℕ → Format → Format
flush time fmt =
    if can_been_flush fmt
    then (let (ok, fmt1) = entry_header_create time fmt in
        if ok then fmt1 else record fmt1 { has_header = false })
    else fmt

-- The record that `xm_shm_entry_record_put` fills in; its size has 32 bits.
unfoldable pub filled : ℕ → List ℕ → Record (List ℕ)
filled type bytes = record {
  magic = eimagic;
  record_size = (record_header_len + length bytes) % 2 ^ 32;
  data_offset = 0;
  payload = bytes;
  type = type;
}

-- The loop of `xm_shm_entry_record_put` for as many attempts as the list has elements: the time of
-- each, and what the other process makes of the header while this one sleeps after it. none: all the
-- attempts found the ring full.
unfoldable pub entry_record_put :
    List (ℕ × (Header → Header)) → Format → Record (List ℕ) → Option Status × Format
entry_record_put [] fmt rec = (none, fmt)
entry_record_put ((time, meanwhile) ∷ attempts) fmt rec =
    let (status, fmt1) = put time fmt rec in
    elim status [
      | stored ↦ (some stored, fmt1)
      | too_large ↦ (some too_large, fmt1)
      | no_entry ↦
          let shm1 = fmt1.shm in
          entry_record_put attempts
            (record fmt1 { shm = record shm1 { header = meanwhile shm1.header } }) rec
    ]
