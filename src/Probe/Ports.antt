-- ===== src/Probe/Ports.antt =====
-- The ports of src/probe/xm_packet.h: which answers `xm_check_dst_port` lets through, against the
-- ports that `xm_get_src_port` chooses.
use xmap.Base.{
  ℕ, suc, ◌+◌, ◌-◌, ◌%◌, ◌^◌, ◌<◌, ◌≤◌, ◌≡◌, refl, ap₂, ◌∙◌, arith, Bool-cases, inl, inr, true,
  false, ◌||◌, ◌&&◌, ltb, leb,
}
use native.Mathlib.Nat.{mod-lt, mod-eq_of_lt, mod-add-mod}
use xmap.Base.Modular.{mod_wrap, mod-add_small}
use xmap.Base.Int.{sub_ℕ, rem, leb_ℤ}
use xmap.Probe.{check_dst_port, get_src_port}

-- Between residues the signed remainder changes nothing.
rem-sub_ℕ : (a b n : ℕ) → a < n → b < n → rem (sub_ℕ a b) n ≡ sub_ℕ a b
rem-sub_ℕ a b n ha hb = elim (Bool-cases (leb b a)) [
  | inl up ↦ rw (up, mod-eq_of_lt (le_lt a b n ha)) refl
  | inr down ↦
      let less : a < b = ground arith in
      let e : b - a - 1 + 1 ≡ suc (b - a - 1) = omega arith in
      rw (down, e, mod-eq_of_lt (lt_lt a b n hb less)) refl
]
  where
    le_lt : (a b n : ℕ) → a < n → a - b < n
    le_lt a b n h = omega arith

    lt_lt : (a b n : ℕ) → b < n → a < b → suc (b - a - 1) < n
    lt_lt a b n h less = omega arith

-- The test of a port in the range, on residues.
check_dst_port-leb :
    (port first last n streams v : ℕ)
    → port ≤ last
    → first ≤ port
    → n + first ≡ last + 1
    → check_dst_port port n first last streams v
      ≡ leb_ℤ
          (sub_ℕ (port - first) (v % n))
          (sub_ℕ ((v + streams + 2 ^ 32 - 1) % 2 ^ 32 % n) (v % n))
unfolding check_dst_port
check_dst_port-leb port first last n streams v hp hf hn =
    let above : ltb last port ≡ false = ground arith in
    let below : ltb port first ≡ false = ground arith in
    let pos_n : 0 < n = omega arith in
    rw (above, below)
      (ap₂ leb_ℤ (rem-sub_ℕ (port - first) (v % n) n (omega arith) (mod-lt v pos_n)) (
        rem-sub_ℕ ((v + streams + 2 ^ 32 - 1) % 2 ^ 32 % n) (v % n) n (mod-lt _ pos_n)
          (mod-lt v pos_n)))

check_dst_port_outside :
    (port first last n streams v : ℕ)
    → (ltb last port || ltb port first) ≡ true
    → check_dst_port port n first last streams v ≡ false
unfolding check_dst_port
check_dst_port_outside port first last n streams v out = rw out refl

-- The port of a stream whose residue does not wrap round, and the residue of the last one.
get_src_port_small :
    (first n k v : ℕ)
    → v + k < 2 ^ 32
    → v % n + k < n
    → first + (v % n + k) < 2 ^ 16
    → get_src_port n k first v ≡ first + (v % n + k)
unfolding get_src_port
get_src_port_small first n k v h low small =
    let same : (v + k) % 2 ^ 32 ≡ v + k = mod-eq_of_lt h in
    rw (same, mod-add_small v k n low) (mod-eq_of_lt small)

max_port :
    (v streams : ℕ)
    → 0 < streams
    → v + streams ≤ 2 ^ 32
    → (v + streams + 2 ^ 32 - 1) % 2 ^ 32 ≡ v + (streams - 1)
max_port v streams pos h = omega arith

-- With one packet stream every port of the range up to the probe's own passes, and none above it.
pub check_dst_port_single :
    (port first last n v : ℕ)
    → n + first ≡ last + 1
    → v < 2 ^ 32
    → 0 < n
    → check_dst_port port n first last 1 v ≡ (leb first port && leb port (first + v % n))
check_dst_port_single port first last n v hn hv hp =
    elim (Bool-cases (ltb last port || ltb port first)) [
      | inl out ↦ check_dst_port_outside port first last n 1 v out ∙ ground (arith, mod-lt v hp)
      | inr within ↦
          check_dst_port-leb port first last n 1 v (ground arith) (ground arith) hn
          ∙ rw same (ground arith)
    ]
  where
    same : (v + 1 + 2 ^ 32 - 1) % 2 ^ 32 ≡ v
    same = omega arith

-- Where the ports of the streams do not wrap round, each of them passes.
pub check_dst_port-get_src_port :
    (first last n streams k v : ℕ)
    → n + first ≡ last + 1
    → last < 2 ^ 16
    → k < streams
    → v % n + streams ≤ n
    → v + streams ≤ 2 ^ 32
    → check_dst_port (get_src_port n k first v) n first last streams v ≡ true
check_dst_port-get_src_port first last n streams k v hn hl hk fits small =
    rw (get_src_port_small first n k v (omega arith) (omega arith) (omega arith)) (
      check_dst_port-leb (first + (v % n + k)) first last n streams v (omega arith) (omega arith) hn
      ∙ rw (max_port v streams (omega arith) small, mod-add_small v (streams - 1) n (omega arith))
          (ground arith))

-- Where they wrap round, the port of the first stream does not pass.
pub check_dst_port_wrapped :
    (first last n streams v : ℕ)
    → n + first ≡ last + 1
    → last < 2 ^ 16
    → 0 < n
    → streams ≤ n
    → n < v % n + streams
    → v + streams ≤ 2 ^ 32
    → check_dst_port (get_src_port n 0 first v) n first last streams v ≡ false
check_dst_port_wrapped first last n streams v hn hl pos enough wraps small =
    rw
      (get_src_port_small first n 0 v (omega arith) (omega (arith, mod-lt v pos))
        (omega (arith, mod-lt v pos)))
      (check_dst_port-leb (first + (v % n + 0)) first last n streams v (omega (arith, mod-lt v pos))
          (omega arith) hn
        ∙ rw (max_port v streams (omega (arith, mod-lt v pos)) small, later)
            (ground (arith, mod-lt v pos)))
  where
    later : (v + (streams - 1)) % n ≡ v % n + streams - 1 - n
    later = elim (mod_wrap (v % n + (streams - 1)) n (omega (arith, mod-lt v pos))) [
      | inl a ↦ absurd (omega (arith, a))
      | inr a ↦ omega (arith, a, mod-add-mod v n (streams - 1))
    ]
