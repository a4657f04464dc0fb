-- ===== src/Shm/Tests.antt =====
-- A run of lib/shm on a ring of two entries.
use xmap.Base.{ℕ, ◌+◌, ◌%◌, ◌^◌, ◌≡◌, refl, Bool, true, none, some, List, [], ◌∷◌, arith}
use xmap.BinFormat.{BinFormat}
use xmap.BinFormat.Values.{rewound}
use xmap.BinFormat.Blobs.{bytes_at}
use xmap.Shm.{
  Shm, Header, Entry, entry_get, entry_commit, stamp, stamp_ok, entry_init, entry_can_get,
  entry_index_get, entry_pos_offset, full, empty,
}
use xmap.Shm.Ring.{queue, around, write_slot}
use xmap.Shm.Steps.{Run, Steps, write_get, write_fill, write_commit, done, next, IsSound}
use xmap.Shm.Fifo.{Steps-IsSound}
use xmap.Shm.Format.{Record, Format, record_bytes_write, record_len, eimagic}
use xmap.Shm.Format.Reader.{record_read}
use xmap.Shm.Format.Trip.{record_read-record_bytes_write}

abbrev two_entries : Header
two_entries = record {
  entries_start = 4096;
  entries_count = 2;
  entry_size = 4096;
  entries_count_cur = 0;
  write_entry_pos = 0;
  read_entry_pos = 0;
  priv_data_size = 0;
  last_write_time = 0;
  last_read_time = 0;
  last_write_ok_time = 0;
  last_read_ok_time = 0;
}

abbrev onto : Bool → Header → Shm
onto is_write h = record {
  page_size = 4096;
  size = 12288;
  is_write = is_write;
  header = h;
  address_get = λ offset. some (65536 + offset);
}

abbrev start : Run ℕ
start = record {
  header = two_entries;
  slots = λ i. 0;
  writer = none;
  reader = none;
  sent = [];
  received = [];
}

start-IsSound : IsSound start
unfolding queue around
start-IsSound = record {
  ring = record {
    some_entry = omega arith;
    machine = omega arith;
    bounded = omega arith;
    reading = omega arith;
    writing = refl;
  };
  writes = λ e q. cc;
  reads = λ e q. cc;
  in_order = refl;
}

abbrev held : Entry
held = record { entry_index = 0; start = 69632; pos = 69632; end = 73728 }

abbrev after_get : Shm
after_get = (entry_get 5 (onto true two_entries)).1

get_run : entry_get 5 (onto true two_entries) ≡ (some held, after_get)
unfolding entry_get entry_init entry_can_get entry_index_get entry_pos_offset full empty stamp
    stamp_ok
get_run = refl

abbrev got : Run ℕ
got = record start { header = after_get.header; writer = some held }

abbrev filled_run : Run ℕ
filled_run = record got { slots = write_slot got.slots 0 42 }

abbrev committed : Run ℕ
committed = record filled_run {
  header = (entry_commit (onto true filled_run.header) held).1.header;
  writer = none;
  sent = filled_run.slots 0 ∷ [];
}

one_entry : Steps start committed
one_entry =
    next start filled_run committed
      (next start got filled_run
        (next start start got (done start)
          (write_get start 5 (onto true two_entries) after_get held refl refl get_run))
        (write_fill got held 42 refl))
      (write_commit filled_run (onto true filled_run.header) held refl refl refl)

Steps-IsSound_example : IsSound committed
Steps-IsSound_example = Steps-IsSound start committed one_entry start-IsSound

abbrev buffer : BinFormat
buffer = record { mem = λ q. 0; start = 100; pos = 120; limit = 200 }

abbrev pub format : Format
format = record {
  cur_header = record {
    shm_entry = held;
    bfmt = buffer;
    magic = 0;
    major_version = 0;
    minor_version = 0;
    entries_number = 0;
    entries_size = 0;
  };
  shm = onto true two_entries;
  has_header = true;
  entry_size = 100;
  record_header_size = 21;
}

abbrev hello : Record (List ℕ)
hello = record {
  magic = 65531;
  record_size = 23;
  data_offset = 0;
  payload = b'h' ∷ b'i' ∷ [];
  type = 1;
}

record_read-record_bytes_write_example :
    (record_read (rewound buffer (record_bytes_write format buffer hello)) ≡ (
      some (record {
        magic = eimagic;
        record_size = record_len format hello % 2 ^ 32;
        data_offset = 0;
        payload = (some 141, 2);
        type = 1;
      }),
      record_bytes_write format buffer hello,
    ))
    × (bytes_at (record_bytes_write format buffer hello).mem 141 2 ≡ b'h' ∷ b'i' ∷ [])
record_read-record_bytes_write_example =
    record_read-record_bytes_write format buffer hello (omega arith) (omega arith)
