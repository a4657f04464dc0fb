-- ===== src/Shm.antt =====
-- lib/shm/xm_shm_interface.h and xm_shm_interface.c: a ring of entries in memory that a writer and a
-- reader process share through a header. Each process has its own interface onto the one header. The
-- backend's `shm_address_get` is a field, which gives none for a null pointer; `shm_address_free`
-- changes nothing here. Quantities of type uint64_t wrap at 2^64.
pub mod Ring
pub mod Steps
pub mod Fifo
pub mod Format
pub mod Tests
use xmap.Base.{
  ℕ, ◌+◌, ◌-◌, ◌*◌, ◌/◌, ◌%◌, ◌^◌, Bool, true, false, Option, none, some, ◌&&◌, not, ◌==◌,
  if◌then◌else◌,
}

-- `struct xm_shm_header_t`
pub record Header : Type 0 where
  pub entries_start : ℕ
  pub entries_count : ℕ
  pub entry_size : ℕ
  pub entries_count_cur : ℕ
  pub write_entry_pos : ℕ
  pub read_entry_pos : ℕ
  pub priv_data_size : ℕ
  pub last_write_time : ℕ
  pub last_read_time : ℕ
  pub last_write_ok_time : ℕ
  pub last_read_ok_time : ℕ

-- `struct xm_shm_interface_t`
pub record Shm : Type 0 where
  pub page_size : ℕ
  pub size : ℕ
  pub is_write : Bool
  pub header : Header
  pub address_get : ℕ → Option ℕ

-- `struct xm_shm_entry_t`, without the pointer to its interface; 0 stands for a null pointer.
pub record Entry : Type 0 where
  pub entry_index : ℕ
  pub start : ℕ
  pub pos : ℕ
  pub end : ℕ

-- `xm_shm_entry_pos_offset`
unfoldable pub entry_pos_offset : Header → ℕ → ℕ
entry_pos_offset h indx = (h.entry_size * indx + h.entries_start) % 2 ^ 64

-- `xm_shm_entry_pos_update`; c is added to the count as a 64-bit pattern.
unfoldable pub entry_pos_update : Bool → ℕ → ℕ → Header → Header
entry_pos_update true pos_c c h = record h {
  write_entry_pos = (h.write_entry_pos + pos_c) % 2 ^ 64 % h.entries_count;
  entries_count_cur = (h.entries_count_cur + c) % 2 ^ 64;
}
entry_pos_update false pos_c c h = record h {
  read_entry_pos = (h.read_entry_pos + pos_c) % 2 ^ 64 % h.entries_count;
  entries_count_cur = (h.entries_count_cur + c) % 2 ^ 64;
}

-- `xm_shm_empty`
unfoldable pub empty : Header → Bool
empty h = h.entries_count_cur == 0

-- `xm_shm_full`
unfoldable pub full : Header → Bool
full h = h.entries_count_cur == h.entries_count

-- `xm_align_up` for a power of two, where the mask clears what is below a multiple.
unfoldable pub align_up : ℕ → ℕ → ℕ
align_up d a = (d + (a - 1)) % 2 ^ 64 / a * a

-- `_shm_entries_count_get`; the difference wraps around.
unfoldable pub entries_count_get : ℕ → ℕ → ℕ → ℕ
entries_count_get size hsize entry_size = (size + 2 ^ 64 - hsize) % 2 ^ 64 / entry_size

-- `_shm_header_init`; the struct itself takes 88 bytes.
unfoldable pub header_init : ℕ → ℕ → ℕ → ℕ → Header
header_init size page_size entry_size priv_data_size =
    let hsize = align_up (88 + priv_data_size) page_size in
    record {
      entries_start = hsize;
      entries_count = entries_count_get size hsize entry_size;
      entry_size = entry_size;
      entries_count_cur = 0;
      write_entry_pos = 0;
      read_entry_pos = 0;
      priv_data_size = priv_data_size;
      last_write_time = 0;
      last_read_time = 0;
      last_write_ok_time = 0;
      last_read_ok_time = 0;
    }

-- `xm_shm_init`, given the header that stands at the address already.
unfoldable pub init : (ℕ → Option ℕ) → Header → ℕ → ℕ → ℕ → ℕ → Bool → Shm
init address_get there size entry_size priv_data_size page_size is_write = record {
  page_size = page_size;
  size = size;
  is_write = is_write;
  header = if is_write then header_init size page_size entry_size priv_data_size else there;
  address_get = address_get;
}

-- `_shm_entry_can_get`
unfoldable pub entry_can_get : Bool → Header → Bool
entry_can_get is_write h =
    if is_write && full h then false else if not is_write && empty h then false else true

-- `_shm_entry_index_get`
unfoldable pub entry_index_get : Bool → Header → ℕ
entry_index_get is_write h = if is_write then h.write_entry_pos else h.read_entry_pos

-- `_shm_entry_init`
unfoldable pub entry_init : Shm → ℕ → Option Entry
entry_init shm indx = elim (shm.address_get (entry_pos_offset shm.header indx)) [
  | none ↦ none
  | some addr ↦
      some (record {
        entry_index = indx;
        start = addr;
        pos = addr;
        end = addr + shm.header.entry_size;
      })
]

-- The two time stamps of `xm_shm_entry_get`.
unfoldable pub stamp : Bool → ℕ → Header → Header
stamp is_write time h =
    if is_write then record h { last_write_time = time } else record h { last_read_time = time }

unfoldable pub stamp_ok : Bool → ℕ → Header → Header
stamp_ok is_write time h =
    if is_write
    then record h { last_write_ok_time = time }
    else record h { last_read_ok_time = time }

-- `xm_shm_entry_get` at a time; none is its -1.
unfoldable pub entry_get : ℕ → Shm → Option Entry × Shm
entry_get time shm =
    let tried = record shm { header = stamp shm.is_write time shm.header } in
    if not (entry_can_get shm.is_write tried.header)
    then (none, tried)
    else (let got = record tried { header = stamp_ok shm.is_write time tried.header } in
        (entry_init got (entry_index_get shm.is_write tried.header), got))

-- `xm_shm_entry_commit`; the 64-bit pattern of -1 is 2^64 - 1.
unfoldable pub entry_commit : Shm → Entry → Entry × Shm
entry_commit shm entry = (
  record { entry_index = 0; start = 0; pos = 0; end = 0 },
  record shm {
    header = entry_pos_update shm.is_write 1 (if shm.is_write then 1 else 2 ^ 64 - 1) shm.header;
  },
)
