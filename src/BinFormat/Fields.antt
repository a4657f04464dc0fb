-- ===== src/BinFormat/Fields.antt =====
-- A record's fields, written one after the other through lib/shm/xm_bin_format.h and read back in order.
use xmap.Base.{
  ℕ, ◌+◌, ◌*◌, ◌%◌, ◌^◌, ◌<◌, ◌≤◌, ◌≡◌, refl, ap, sym, subst, ◌∙◌, List, [], ◌∷◌, arith, inl,
}
use xmap.BinFormat.{BinFormat, Mem, write_value, read_value, value_at, store, value_bytes}
use xmap.BinFormat.Memory.{value_at-value_bytes, value_at_ext, store_outside}
use xmap.BinFormat.Frame.{write_value_fits}
use xmap.BinFormat.Values.{read_value_fits, rewound}
use native.Mathlib.Nat.{mod-mod}

-- A field has a width in bytes and a value.
abbrev pub Field : Type 0
Field = ℕ × ℕ

unfoldable pub total_width : List Field → ℕ
total_width [] = 0
total_width ((n, v) ∷ fs) = n + total_width fs

unfoldable pub write_fields : List Field → BinFormat → BinFormat
write_fields [] bf = bf
write_fields ((n, v) ∷ fs) bf = write_fields fs (write_value n bf v).1

unfoldable pub read_fields : List Field → BinFormat → List ℕ × BinFormat
read_fields [] bf = ([], bf)
read_fields ((n, v) ∷ fs) bf =
    let (x, bf1) = read_value n bf in let (xs, bf2) = read_fields fs bf1 in (x ∷ xs, bf2)

-- The values as their widths can hold them.
unfoldable pub stored_values : List Field → List ℕ
stored_values [] = []
stored_values ((n, v) ∷ fs) = (v % 2 ^ (n * 8)) ∷ stored_values fs

-- The buffer after a write that fits.
abbrev written : BinFormat → ℕ → ℕ → BinFormat
written bf n v = record bf { mem = store bf.mem bf.pos (value_bytes n v); pos = bf.pos + n }

-- Where the fields end, and the memory before them.
pub record Shape (bf after : BinFormat) (width : ℕ) : Type 0 where
  pub end : after.pos ≡ bf.pos + width
  pub same_limit : after.limit ≡ bf.limit
  pub same_start : after.start ≡ bf.start
  pub before : (q : ℕ) → q < bf.pos → after.mem q ≡ bf.mem q

pub write_fields-Shape :
    (fs : List Field) (bf : BinFormat)
    → bf.pos + total_width fs ≤ bf.limit
    → Shape bf (write_fields fs bf) (total_width fs)
unfolding write_fields total_width
write_fields-Shape [] bf h = record {
  end = omega arith;
  same_limit = refl;
  same_start = refl;
  before = λ q lt. refl;
}
write_fields-Shape ((n, v) ∷ fs) bf h = rw (write_value_fits n bf v (omega arith)) (
    let rest = write_fields-Shape fs (written bf n v) (omega arith) in
    record {
      end = omega (arith, rest.end);
      same_limit = rest.same_limit;
      same_start = rest.same_start;
      before = λ q lt.
          rest.before q (omega arith) ∙ store_outside bf.mem bf.pos (value_bytes n v) q (inl lt);
    })

-- The first field, read after all of them are written.
first_field :
    (n v : ℕ) (fs : List Field) (bf : BinFormat)
    → bf.pos + (n + total_width fs) ≤ bf.limit
    → let after = write_fields fs (written bf n v) in
      read_value n (rewound bf after) ≡ (v % 2 ^ (n * 8), rewound (written bf n v) after)
first_field n v fs bf h =
    read_value_fits n (rewound bf after) (omega (arith, shape.same_limit))
    ∙ ap (λ (t : ℕ). (t % 2 ^ (n * 8), rewound (written bf n v) after))
        (value_at_ext n after.mem (written bf n v).mem bf.pos (λ q lo hi. shape.before q hi)
          ∙ value_at-value_bytes n v bf.mem bf.pos)
    ∙ ap (λ (t : ℕ). (t, rewound (written bf n v) after)) (mod-mod v (2 ^ (n * 8)))
  where
    after : BinFormat
    after = write_fields fs (written bf n v)

    shape : Shape (written bf n v) after (total_width fs)
    shape = write_fields-Shape fs (written bf n v) (omega arith)

-- Fields that fit in a buffer and are written in order are read back in order, each modulo its width,
-- and the reader ends where the writer did.
pub read_fields-write_fields :
    (fs : List Field) (bf : BinFormat)
    → bf.pos + total_width fs ≤ bf.limit
    → read_fields fs (rewound bf (write_fields fs bf)) ≡ (stored_values fs, write_fields fs bf)
unfolding write_fields read_fields total_width stored_values
read_fields-write_fields [] bf h = refl
read_fields-write_fields ((n, v) ∷ fs) bf h =
    subst
      (λ w.
        read_fields ((n, v) ∷ fs) (rewound bf (write_fields fs w.1))
        ≡ (stored_values ((n, v) ∷ fs), write_fields fs w.1))
      (sym (write_value_fits n bf v (omega arith)))
      (ap (λ r. (r.0 ∷ (read_fields fs r.1).0, (read_fields fs r.1).1)) (first_field n v fs bf h)
        ∙ ap (λ (r : List ℕ × BinFormat). (v % 2 ^ (n * 8) ∷ r.0, r.1))
            (read_fields-write_fields fs (written bf n v) (omega arith)))

-- Reading fields depends on their own bytes only.
pub read_fields_ext :
    (fs : List Field) (bf : BinFormat) (mem : Mem)
    → bf.pos + total_width fs ≤ bf.limit
    → ((q : ℕ) → q < bf.pos + total_width fs → mem q ≡ bf.mem q)
    → let (values, after) = read_fields fs bf in
      read_fields fs (record bf { mem = mem }) ≡ (values, record after { mem = mem })
unfolding read_fields total_width
read_fields_ext [] bf mem room same = refl
read_fields_ext ((n, v) ∷ fs) bf mem room same =
    subst
      (λ r.
        read_fields ((n, v) ∷ fs) (record bf { mem = mem })
        ≡ (r.0 ∷ (read_fields fs r.1).0, record ((read_fields fs r.1).1) { mem = mem }))
      (sym (read_value_fits n bf (omega arith)))
      (ap (λ r. (r.0 ∷ (read_fields fs r.1).0, (read_fields fs r.1).1))
          (read_value_fits n (record bf { mem = mem }) (omega arith)
            ∙ ap (λ (t : ℕ). (t % 2 ^ (n * 8), record bf { mem = mem; pos = bf.pos + n }))
                (value_at_ext n mem bf.mem bf.pos (λ q lo hi. same q (omega arith))))
        ∙ ap (λ (r : List ℕ × BinFormat). ((value_at n bf.mem bf.pos % 2 ^ (n * 8)) ∷ r.0, r.1))
            (read_fields_ext fs (record bf { pos = bf.pos + n }) mem (omega arith)
              (λ q hi. same q (omega arith))))
