-- ===== src/Shm/Ring.antt =====
-- The ring of lib/shm/xm_shm_interface.c as a bounded queue: the entries that are committed and not
-- yet read, oldest first, and what getting and committing an entry does to them.
use xmap.Base.{
  ℕ, zero, suc, ◌+◌, ◌-◌, ◌%◌, ◌^◌, ◌<◌, ◌≤◌, ◌≡◌, ◌≢◌, refl, ap, ap₂, sym, subst, ◌∙◌, true, false,
  ◌==◌, ==_iff, Bool-cases, List, [], ◌∷◌, ◌++◌, arith, if◌then◌else◌, inl, inr,
}
use native.Mathlib.Nat.{mod-lt, mod-eq_of_lt, mod-add-mod}
use xmap.Base.Modular.{mod_wrap}
use xmap.Shm.{Header, entry_pos_update}

-- The entries at n positions from p on, around a ring of count entries.
unfoldable pub around {ℓ} : {A : Type ℓ} → (ℕ → A) → ℕ → ℕ → ℕ → List A
around slots count p zero = []
around slots count p (suc n) = slots p ∷ around slots count ((p + 1) % count) n

-- The queue that a header describes over the contents of the entries.
unfoldable pub queue {ℓ} : {A : Type ℓ} → (ℕ → A) → Header → List A
queue slots h = around slots h.entries_count h.read_entry_pos h.entries_count_cur

pub record IsValid (h : Header) : Type 0 where
  pub some_entry : 0 < h.entries_count
  pub machine : h.entries_count < 2 ^ 64
  pub bounded : h.entries_count_cur ≤ h.entries_count
  pub reading : h.read_entry_pos < h.entries_count
  pub writing : h.write_entry_pos ≡ (h.read_entry_pos + h.entries_count_cur) % h.entries_count

-- A position after one more, without the wrap of the 64 bits.
wrap_none : (p count : ℕ) → p < count → count < 2 ^ 64 → (p + 1) % 2 ^ 64 % count ≡ (p + 1) % count
wrap_none p count lt small = ap (λ (t : ℕ). t % count) (mod-eq_of_lt (omega arith))

-- Two positions less than a round apart are different.
positions_apart :
    (p i n count : ℕ) → p < count → i < n → n < count → (p + i) % count ≢ (p + n) % count
positions_apart p i n count lt lt_n lt_count e = elim (mod_wrap (p + i) count (omega arith)) [
  | inl a ↦ elim (mod_wrap (p + n) count (omega arith)) [
    | inl b ↦ omega (arith, a, b, e)
    | inr b ↦ omega (arith, a, b, e)
  ]
  | inr a ↦ elim (mod_wrap (p + n) count (omega arith)) [
    | inl b ↦ omega (arith, a, b, e)
    | inr b ↦ omega (arith, a, b, e)
  ]
]

-- The position i after the next one.
next_position : (p i count : ℕ) → ((p + 1) % count + i) % count ≡ (p + suc i) % count
next_position p i count = mod-add-mod (p + 1) count i ∙ ap (λ (t : ℕ). t % count) (omega arith)

-- The queue depends on its own entries only.
pub around_ext {ℓ} :
    {A : Type ℓ}
    → (f g : ℕ → A) (count p n : ℕ) → p < count
    → ((i : ℕ) → i < n → f ((p + i) % count) ≡ g ((p + i) % count))
    → around f count p n ≡ around g count p n
unfolding around
around_ext f g count p zero lt h = refl
around_ext f g count p (suc n) lt h =
    ap₂ (λ x xs. x ∷ xs) (subst (λ q. f q ≡ g q) here (h 0 (omega arith)))
      (around_ext f g count ((p + 1) % count) n (mod-lt (p + 1) (omega arith)) (λ i lt_n.
        subst (λ q. f q ≡ g q) (sym (next_position p i count)) (h (suc i) (omega arith))))
  where
    here : (p + 0) % count ≡ p
    here = ap (λ (t : ℕ). t % count) (omega arith) ∙ mod-eq_of_lt lt

-- One more entry joins at the end.
pub around-suc {ℓ} :
    {A : Type ℓ}
    → (f : ℕ → A) (count p n : ℕ) → p < count
    → around f count p (suc n) ≡ around f count p n ++ (f ((p + n) % count) ∷ [])
unfolding around
around-suc f count p zero lt =
    ap (λ q. f q ∷ []) (sym (ap (λ (t : ℕ). t % count) (omega arith) ∙ mod-eq_of_lt lt))
around-suc f count p (suc n) lt =
    ap (λ xs. f p ∷ xs)
      (around-suc f count ((p + 1) % count) n (mod-lt (p + 1) (omega arith))
        ∙ ap (λ q. around f count ((p + 1) % count) n ++ (f q ∷ [])) (next_position p n count))

-- The contents of the entries after one of them is written.
unfoldable pub write_slot {ℓ} : {A : Type ℓ} → (ℕ → A) → ℕ → A → ℕ → A
write_slot slots p a q = if q == p then a else slots q

-- Writing the entry that a writer gets leaves the queue as it is.
pub queue-write_slot {ℓ} :
    {A : Type ℓ}
    → (slots : ℕ → A) (h : Header) (a : A) → IsValid h
    → h.entries_count_cur < h.entries_count
    → queue (write_slot slots h.write_entry_pos a) h ≡ queue slots h
unfolding queue write_slot
queue-write_slot slots h a ok room =
    around_ext _ slots h.entries_count h.read_entry_pos h.entries_count_cur ok.reading (λ i lt.
      elim (Bool-cases ((h.read_entry_pos + i) % h.entries_count == h.write_entry_pos)) [
        | inr other ↦ ground arith
        | inl same ↦
            elim (positions_apart h.read_entry_pos i h.entries_count_cur h.entries_count ok.reading
              lt room ((==_iff _ _).0 same ∙ ok.writing)) [ ]
      ])

-- What a commit of the writer does to the header: one more entry, the position after the next.
pub commit_write-IsValid :
    (h : Header)
    → IsValid h
    → h.entries_count_cur < h.entries_count
    → IsValid (entry_pos_update true 1 1 h)
      × ((entry_pos_update true 1 1 h).entries_count_cur ≡ suc h.entries_count_cur)
unfolding entry_pos_update
commit_write-IsValid h ok room = (
  record {
    some_entry = ok.some_entry;
    machine = ok.machine;
    bounded = omega (arith, one_more);
    reading = ok.reading;
    writing =
        wrap_none h.write_entry_pos h.entries_count
          (subst (λ q. q < h.entries_count) (sym ok.writing) (mod-lt _ ok.some_entry)) ok.machine
        ∙ ap (λ (t : ℕ). (t + 1) % h.entries_count) ok.writing
        ∙ mod-add-mod (h.read_entry_pos + h.entries_count_cur) h.entries_count 1
        ∙ ap (λ (t : ℕ). t % h.entries_count) (omega (arith, one_more));
  },
  one_more,
)
  where
    one_more : (h.entries_count_cur + 1) % 2 ^ 64 ≡ suc h.entries_count_cur
    one_more = mod-eq_of_lt (omega (arith, ok.machine)) ∙ omega arith

-- What a commit of the reader does to the header: one entry fewer.
pub commit_read-IsValid :
    (h : Header)
    → IsValid h
    → 0 < h.entries_count_cur
    → IsValid (entry_pos_update false 1 (2 ^ 64 - 1) h)
      × ((entry_pos_update false 1 (2 ^ 64 - 1) h).read_entry_pos
          ≡ (h.read_entry_pos + 1) % h.entries_count)
      × (suc (entry_pos_update false 1 (2 ^ 64 - 1) h).entries_count_cur ≡ h.entries_count_cur)
unfolding entry_pos_update
commit_read-IsValid h ok held = (
  record {
    some_entry = ok.some_entry;
    machine = ok.machine;
    bounded = omega (arith, one_less, ok.bounded);
    reading = mod-lt _ ok.some_entry;
    writing =
        ok.writing
        ∙ ap (λ (t : ℕ). t % h.entries_count) (omega (arith, one_less))
        ∙ sym (
            mod-add-mod (h.read_entry_pos + 1) h.entries_count
              ((h.entries_count_cur + (2 ^ 64 - 1)) % 2 ^ 64))
        ∙ ap (λ (t : ℕ). (t + (h.entries_count_cur + (2 ^ 64 - 1)) % 2 ^ 64) % h.entries_count)
            (sym next);
  },
  next,
  one_less,
)
  where
    next :
        (h.read_entry_pos + 1) % 2 ^ 64 % h.entries_count ≡ (h.read_entry_pos + 1) % h.entries_count
    next = wrap_none h.read_entry_pos h.entries_count ok.reading ok.machine

    one_less : suc ((h.entries_count_cur + (2 ^ 64 - 1)) % 2 ^ 64) ≡ h.entries_count_cur
    one_less = omega (arith, ok.machine, ok.bounded)
