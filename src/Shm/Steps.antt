-- ===== src/Shm/Steps.antt =====
-- The writer and the reader process on one ring of lib/shm/xm_shm_interface.c: any order of getting,
-- filling and committing entries, one call at a time.
use xmap.Base.{
  ℕ, ◌-◌, ◌^◌, ◌<◌, ◌≡◌, refl, ap, ap₂, sym, subst, ◌∙◌, Bool-cases, ◌==◌, inl, inr, Bool, true,
  false, Option, none, some, List, [], ◌∷◌, ◌++◌, arith, if◌then◌else◌,
}
use xmap.Shm.{
  Header, Shm, Entry, entry_get, entry_commit, entry_init, entry_can_get, entry_index_get,
  entry_pos_update, stamp, stamp_ok, full, empty,
}
use xmap.Shm.Ring.{IsValid, queue, write_slot}

-- The header and the contents of the entries, the entry that each process holds, and all that was
-- committed by the writer and by the reader, oldest first.
pub record Run {ℓ} (A : Type ℓ) : Type ℓ where
  pub header : Header
  pub slots : ℕ → A
  pub writer : Option Entry
  pub reader : Option Entry
  pub sent : List A
  pub received : List A

pub data Step {ℓ} {A : Type ℓ} : Run A → Run A → Type ℓ where
  write_get :
      (r : Run A) (time : ℕ) (shm after : Shm) (e : Entry)
      → shm.is_write ≡ true
      → shm.header ≡ r.header
      → entry_get time shm ≡ (some e, after)
      → Step r (record r { header = after.header; writer = some e })
  write_fill :
      (r : Run A) (e : Entry) (a : A)
      → r.writer ≡ some e
      → Step r (record r { slots = write_slot r.slots e.entry_index a })
  write_commit :
      (r : Run A) (shm : Shm) (e : Entry)
      → r.writer ≡ some e
      → shm.is_write ≡ true
      → shm.header ≡ r.header
      → Step r (record r {
        header = (entry_commit shm e).1.header;
        writer = none;
        sent = r.sent ++ (r.slots e.entry_index ∷ []);
      })
  read_get :
      (r : Run A) (time : ℕ) (shm after : Shm) (e : Entry)
      → shm.is_write ≡ false
      → shm.header ≡ r.header
      → entry_get time shm ≡ (some e, after)
      → Step r (record r { header = after.header; reader = some e })
  read_commit :
      (r : Run A) (shm : Shm) (e : Entry)
      → r.reader ≡ some e
      → shm.is_write ≡ false
      → shm.header ≡ r.header
      → Step r (record r {
        header = (entry_commit shm e).1.header;
        reader = none;
        received = r.received ++ (r.slots e.entry_index ∷ []);
      })

-- Any number of steps.
pub data Steps {ℓ} {A : Type ℓ} : Run A → Run A → Type ℓ where
  done : (r : Run A) → Steps r r
  next : (r s t : Run A) → Steps r s → Step s t → Steps r t

-- What a process that holds an entry may rely on.
pub record Holds (h : Header) (is_write : Bool) (e : Entry) : Type 0 where
  pub here : e.entry_index ≡ entry_index_get is_write h
  pub room : if is_write then h.entries_count_cur < h.entries_count else 0 < h.entries_count_cur

pub record IsSound {ℓ} {A : Type ℓ} (r : Run A) : Type ℓ where
  pub ring : IsValid r.header
  pub writes : (e : Entry) → r.writer ≡ some e → Holds r.header true e
  pub reads : (e : Entry) → r.reader ≡ some e → Holds r.header false e
  pub in_order : r.received ++ queue r.slots r.header ≡ r.sent

-- The header that a successful get leaves behind.
abbrev pub stamped : Bool → ℕ → Header → Header
stamped w time h = stamp_ok w time (stamp w time h)

entry_init-index :
    (shm : Shm) (indx : ℕ) (e : Entry) → entry_init shm indx ≡ some e → e.entry_index ≡ indx
unfolding entry_init
entry_init-index shm indx e h = ground arith

-- A get that succeeds: there was room, and the entry is the process's own.
entry_get-Holds_of :
    (w : Bool) (time : ℕ) (shm after : Shm) (e : Entry)
    → IsValid shm.header
    → entry_get time (record shm { is_write = w }) ≡ (some e, after)
    → Holds shm.header w e × (after.header ≡ stamped w time shm.header)
unfolding entry_get entry_can_get entry_index_get full empty stamp stamp_ok
entry_get-Holds_of true time shm after e ok h =
    elim (Bool-cases (shm.header.entries_count_cur == shm.header.entries_count)) [
      | inl over ↦ ground arith
      | inr room ↦
          let got = record shm { is_write = true; header = stamped true time shm.header } in
          let computed : entry_get time (record shm { is_write = true })
              ≡ (entry_init got (entry_index_get true shm.header), got) =
            rw room refl in
          let e_get = sym computed ∙ h in
          (
            record {
              here = entry_init-index got (entry_index_get true shm.header) e (ap (λ p. p.0) e_get);
              room = grind (arith, ok.bounded);
            },
            sym (ap (λ p. p.1.header) e_get),
          )
    ]
entry_get-Holds_of false time shm after e ok h =
    elim (Bool-cases (shm.header.entries_count_cur == 0)) [
      | inl none_left ↦ ground arith
      | inr room ↦
          let got = record shm { is_write = false; header = stamped false time shm.header } in
          let computed : entry_get time (record shm { is_write = false })
              ≡ (entry_init got (entry_index_get false shm.header), got) =
            rw room refl in
          let e_get = sym computed ∙ h in
          (
            record {
              here =
                  entry_init-index got (entry_index_get false shm.header) e (ap (λ p. p.0) e_get);
              room = grind arith;
            },
            sym (ap (λ p. p.1.header) e_get),
          )
    ]

entry_get-Holds :
    (time : ℕ) (shm after : Shm) (e : Entry)
    → IsValid shm.header
    → entry_get time shm ≡ (some e, after)
    → Holds shm.header shm.is_write e × (after.header ≡ stamped shm.is_write time shm.header)
entry_get-Holds time shm = entry_get-Holds_of shm.is_write time shm

-- Only the time stamps differ.
pub stamped-IsValid : (w : Bool) (time : ℕ) (h : Header) → IsValid h → IsValid (stamped w time h)
unfolding stamp stamp_ok
stamped-IsValid true time h ok = record {
  some_entry = ok.some_entry;
  machine = ok.machine;
  bounded = ok.bounded;
  reading = ok.reading;
  writing = ok.writing;
}
stamped-IsValid false time h ok = record {
  some_entry = ok.some_entry;
  machine = ok.machine;
  bounded = ok.bounded;
  reading = ok.reading;
  writing = ok.writing;
}

pub stamped-Holds :
    (w v : Bool) (time : ℕ) (h : Header) (e : Entry) → Holds h v e → Holds (stamped w time h) v e
unfolding stamp stamp_ok entry_index_get
stamped-Holds true true time h e held = record { here = held.here; room = held.room }
stamped-Holds true false time h e held = record { here = held.here; room = held.room }
stamped-Holds false true time h e held = record { here = held.here; room = held.room }
stamped-Holds false false time h e held = record { here = held.here; room = held.room }

pub queue-stamped {ℓ} :
    {A : Type ℓ} (slots : ℕ → A) (w : Bool) (time : ℕ) (h : Header)
    → queue slots (stamped w time h) ≡ queue slots h
unfolding queue stamp stamp_ok
queue-stamped slots true time h = refl
queue-stamped slots false time h = refl

-- A get onto a known header, by a known process.
pub own_get :
    (w : Bool) (h : Header) (time : ℕ) (shm after : Shm) (e : Entry)
    → shm.is_write ≡ w
    → shm.header ≡ h
    → IsValid h
    → entry_get time shm ≡ (some e, after)
    → Holds h w e × (after.header ≡ stamped w time h)
own_get w h time shm after e is_w is_h ok got =
    subst (λ k. Holds k w e × (after.header ≡ stamped w time k)) is_h
      (subst (λ v. Holds shm.header v e × (after.header ≡ stamped v time shm.header)) is_w
        (entry_get-Holds time shm after e (subst IsValid (sym is_h) ok) got))

pub own_commit :
    (w : Bool) (h : Header) (shm : Shm) (e : Entry)
    → shm.is_write ≡ w
    → shm.header ≡ h
    → (entry_commit shm e).1.header ≡ entry_pos_update w 1 (if w then 1 else 2 ^ 64 - 1) h
unfolding entry_commit
own_commit w h shm e is_w is_h =
    ap₂ (λ v k. entry_pos_update v 1 (if v then 1 else 2 ^ 64 - 1) k) is_w is_h
