-- ===== src/Shm/Fifo.antt =====
-- The ring of lib/shm/xm_shm_interface.c hands entries from the writer to the reader in order.
use xmap.Base.{
  ℕ, ◌-◌, ◌^◌, ◌≡◌, refl, ap, ap₂, sym, subst, ◌∙◌, true, false, none, some, some_injective, List,
  [], ◌∷◌, ◌++◌, arith,
}
use xmap.Shm.{Header, Entry, entry_index_get, entry_pos_update}
use xmap.Shm.Ring.{
  IsValid, queue, around, around-suc, write_slot, queue-write_slot, commit_write-IsValid,
  commit_read-IsValid,
}
use xmap.Shm.Steps.{
  Run, Step, Steps, write_get, write_fill, write_commit, read_get, read_commit, done, next, Holds,
  IsSound, stamped, stamped-IsValid, stamped-Holds, queue-stamped, own_get, own_commit,
}

append_append {ℓ} : {A : Type ℓ} (xs ys zs : List A) → (xs ++ ys) ++ zs ≡ xs ++ (ys ++ zs)
append_append [] ys zs = refl
append_append (x ∷ xs) ys zs = ap (λ t. x ∷ t) (append_append xs ys zs)

module _ {ℓ} {A : Type ℓ} where
  -- A commit of the writer puts the entry that it holds at the end of the queue.
  pub queue-commit_write :
      (slots : ℕ → A) (h : Header) (e : Entry)
      → IsValid h
      → Holds h true e
      → queue slots (entry_pos_update true 1 1 h) ≡ queue slots h ++ (slots e.entry_index ∷ [])
  unfolding queue entry_index_get entry_pos_update
  queue-commit_write slots h e ok held =
      ap (around slots h.entries_count h.read_entry_pos) (commit_write-IsValid h ok held.room).1
      ∙ around-suc slots h.entries_count h.read_entry_pos h.entries_count_cur ok.reading
      ∙ ap (λ q. queue slots h ++ (slots q ∷ [])) (sym (held.here ∙ ok.writing))

  -- A commit of the reader takes the entry that it holds from the front of the queue.
  pub queue-commit_read :
      (slots : ℕ → A) (h : Header) (e : Entry)
      → IsValid h
      → Holds h false e
      → queue slots h ≡ slots e.entry_index ∷ queue slots (entry_pos_update false 1 (2 ^ 64 - 1) h)
  unfolding queue around entry_index_get entry_pos_update
  queue-commit_read slots h e ok held =
      let (_, position, one_less) = commit_read-IsValid h ok held.room in
      ap (around slots h.entries_count h.read_entry_pos) (sym one_less)
      ∙ ap₂
          (λ q p.
            slots q
            ∷ around slots h.entries_count p
                (entry_pos_update false 1 (2 ^ 64 - 1) h).entries_count_cur)
          (sym held.here) (sym position)

module _ {ℓ} {A : Type ℓ} (r : Run A) (s : IsSound r) where
  after_write_get :
      (time : ℕ) (e : Entry)
      → Holds r.header true e
      → IsSound (record r { header = stamped true time r.header; writer = some e })
  after_write_get time e held = record {
    ring = stamped-IsValid true time r.header s.ring;
    writes = λ e' q.
        stamped-Holds true true time r.header e'
          (subst (Holds r.header true) (some_injective e e' q) held);
    reads = λ e' q. stamped-Holds true false time r.header e' (s.reads e' q);
    in_order = ap (λ q. r.received ++ q) (queue-stamped r.slots true time r.header) ∙ s.in_order;
  }

  after_read_get :
      (time : ℕ) (e : Entry)
      → Holds r.header false e
      → IsSound (record r { header = stamped false time r.header; reader = some e })
  after_read_get time e held = record {
    ring = stamped-IsValid false time r.header s.ring;
    writes = λ e' q. stamped-Holds false true time r.header e' (s.writes e' q);
    reads = λ e' q.
        stamped-Holds false false time r.header e'
          (subst (Holds r.header false) (some_injective e e' q) held);
    in_order = ap (λ q. r.received ++ q) (queue-stamped r.slots false time r.header) ∙ s.in_order;
  }

  after_write_fill :
      (e : Entry) (a : A)
      → r.writer ≡ some e
      → IsSound (record r { slots = write_slot r.slots e.entry_index a })
  unfolding entry_index_get
  after_write_fill e a held = record {
    ring = s.ring;
    writes = s.writes;
    reads = s.reads;
    in_order =
        ap (λ i. r.received ++ queue (write_slot r.slots i a) r.header) (s.writes e held).here
        ∙ ap (λ q. r.received ++ q)
            (queue-write_slot r.slots r.header a s.ring (s.writes e held).room)
        ∙ s.in_order;
  }

  after_write_commit :
      (e : Entry)
      → r.writer ≡ some e
      → IsSound (record r {
        header = entry_pos_update true 1 1 r.header;
        writer = none;
        sent = r.sent ++ (r.slots e.entry_index ∷ []);
      })
  unfolding entry_index_get entry_pos_update
  after_write_commit e held = record {
    ring = (commit_write-IsValid r.header s.ring (s.writes e held).room).0;
    writes = λ e' q. ground arith;
    reads = λ e' q. record {
      here = (s.reads e' q).here;
      room = omega (arith, (commit_write-IsValid r.header s.ring (s.writes e held).room).1);
    };
    in_order =
        ap (λ q. r.received ++ q) (queue-commit_write r.slots r.header e s.ring (s.writes e held))
        ∙ sym (append_append r.received (queue r.slots r.header) (r.slots e.entry_index ∷ []))
        ∙ ap (λ q. q ++ (r.slots e.entry_index ∷ [])) s.in_order;
  }

  after_read_commit :
      (e : Entry)
      → r.reader ≡ some e
      → IsSound (record r {
        header = entry_pos_update false 1 (2 ^ 64 - 1) r.header;
        reader = none;
        received = r.received ++ (r.slots e.entry_index ∷ []);
      })
  unfolding entry_index_get entry_pos_update
  after_read_commit e held = record {
    ring = (commit_read-IsValid r.header s.ring (s.reads e held).room).0;
    writes = λ e' q. record {
      here = (s.writes e' q).here;
      room = omega (
        arith,
        (commit_read-IsValid r.header s.ring (s.reads e held).room).2,
        (s.writes e' q).room,
      );
    };
    reads = λ e' q. ground arith;
    in_order =
        append_append r.received (r.slots e.entry_index ∷ []) _
        ∙ ap (λ q. r.received ++ q)
            (sym (queue-commit_read r.slots r.header e s.ring (s.reads e held)))
        ∙ s.in_order;
  }

-- One step keeps a run sound.
Step-IsSound {ℓ} : {A : Type ℓ} (r t : Run A) → Step r t → IsSound r → IsSound t
Step-IsSound _ _ (write_get r time shm after e w k got) s =
    let (held, eq) = own_get true r.header time shm after e w k s.ring got in
    subst (λ h. IsSound (record r { header = h; writer = some e })) (sym eq)
      (after_write_get r s time e held)
Step-IsSound _ _ (write_fill r e a held) s = after_write_fill r s e a held
Step-IsSound _ _ (write_commit r shm e held w k) s =
    subst
      (λ h.
        IsSound
          (record r { header = h; writer = none; sent = r.sent ++ (r.slots e.entry_index ∷ []) }))
      (sym (own_commit true r.header shm e w k)) (after_write_commit r s e held)
Step-IsSound _ _ (read_get r time shm after e w k got) s =
    let (held, eq) = own_get false r.header time shm after e w k s.ring got in
    subst (λ h. IsSound (record r { header = h; reader = some e })) (sym eq)
      (after_read_get r s time e held)
Step-IsSound _ _ (read_commit r shm e held w k) s =
    subst
      (λ h. IsSound (record r {
        header = h;
        reader = none;
        received = r.received ++ (r.slots e.entry_index ∷ []);
      }))
      (sym (own_commit false r.header shm e w k)) (after_read_commit r s e held)

-- In whatever order a writer and a reader get, fill and commit entries of one ring, the state stays
-- sound: the ring's header is valid, a process that holds an entry holds the one at its own position,
-- and what was received, followed by the queue in the ring, is what was sent, in order.
pub Steps-IsSound {ℓ} : {A : Type ℓ} (r t : Run A) → Steps r t → IsSound r → IsSound t
Steps-IsSound _ _ (done r) s = s
Steps-IsSound _ _ (next r m t before step) s = Step-IsSound m t step (Steps-IsSound r m before s)
