-- ===== src/Probe/Results.antt =====
-- What src/probe packs of a packet that was received.
use Prim.Native.String.{String}
use text.Mathlib.Text.{◌==◌ as str_eq}
use xmap.Base.{
  ℕ, ◌*◌, ◌≡◌, refl, subst, some_injective, Bool-cases, inl, inr, Option, none, some, List, [], ◌∷◌,
  arith,
}
use xmap.Base.Bits.{test_bit}
use xmap.Probe.{ByteOrder, Received}
use xmap.Probe.Tcp.{ProbeContext, synscan_process, synackscan_process, th_rst}
use xmap.Probe.Icmp.{icmp_process, icmp_time_process}
use xmap.Probe.Table.{
  Probe, probe_get_by_name, find_probe, probes, probe_ip_store, probe_tcp_synscan,
  probe_tcp_synackscan, probe_icmp_echo, probe_icmp_echo_time,
}
use xmap.Store.{Store}
use xmap.Store.Object.{pending}

module _ (order : ByteOrder) (context : ProbeContext) (validate_gen : ℕ → ℕ → ℕ → ℕ) where
  -- The results of a probe, packed into a buffer that was empty.
  abbrev pub PacksResult : Probe → Type 0
  PacksResult probe =
      (xstore : Store) (received : Received)
      → xstore.pk_buf ≡ []
      → pending 1
          (probe.probe_process_packet (probe_ip_store order probe xstore received.ip)
            received).pk_buf
        ≡ some 0

  synscan-PacksResult : PacksResult (probe_tcp_synscan order context validate_gen)
  unfolding synscan_process probe_ip_store pending
  synscan-PacksResult xstore received empty =
      elim (Bool-cases (test_bit (received.tcp_at (4 * received.ip.ip_hl)).th_flags th_rst)) [
        | inl e ↦ rw (e, empty) refl
        | inr e ↦ rw (e, empty) refl
      ]

  synackscan-PacksResult : PacksResult (probe_tcp_synackscan order context validate_gen)
  unfolding synackscan_process probe_ip_store pending
  synackscan-PacksResult xstore received empty = rw empty refl

  icmp-PacksResult : PacksResult (probe_icmp_echo order context validate_gen)
  unfolding icmp_process probe_ip_store pending
  icmp-PacksResult xstore received empty = rw empty refl

  icmp_time-PacksResult : PacksResult (probe_icmp_echo_time order context validate_gen)
  unfolding icmp_time_process probe_ip_store pending
  icmp_time-PacksResult xstore received empty = rw empty refl

  -- What is found in a table is its first probe, or is found in the rest of it.
  find_probe-cons :
      (name : String) (p : Probe) (table : List Probe) (probe : Probe)
      → PacksResult p
      → (find_probe order context validate_gen name table ≡ some probe → PacksResult probe)
      → find_probe order context validate_gen name (p ∷ table) ≡ some probe
      → PacksResult probe
  unfolding find_probe
  find_probe-cons name p table probe first later found = elim (Bool-cases (str_eq p.name name)) [
    | inl e ↦ let same = rw e at found in subst PacksResult (some_injective p probe same) first
    | inr e ↦ let next = rw e at found in later next
  ]

  find_probe-packs :
      (name : String) (probe : Probe)
      → find_probe order context validate_gen name (probes order context validate_gen) ≡ some probe
      → PacksResult probe
  unfolding find_probe
  find_probe-packs name probe =
      let p1 = probe_tcp_synscan order context validate_gen in
      let p2 = probe_tcp_synackscan order context validate_gen in
      let p3 = probe_icmp_echo order context validate_gen in
      let p4 = probe_icmp_echo_time order context validate_gen in
      find_probe-cons name p1 (p2 ∷ p3 ∷ p4 ∷ []) probe synscan-PacksResult (
        find_probe-cons name p2 (p3 ∷ p4 ∷ []) probe synackscan-PacksResult (
          find_probe-cons name p3 (p4 ∷ []) probe icmp-PacksResult (
            find_probe-cons name p4 [] probe icmp_time-PacksResult
              (λ missing. absurd (ground (arith, missing))))))

  -- Whichever probe has been chosen by its name, a packet that is received is packed as one msgpack
  -- object, nothing missing from its maps and nothing after it.
  pub probe_get_by_name-packs :
      (name : Option String) (probe : Probe) (xstore : Store) (received : Received)
      → probe_get_by_name order context validate_gen name ≡ some probe
      → xstore.pk_buf ≡ []
      → pending 1
          (probe.probe_process_packet
            (probe_ip_store order probe xstore received.ip)
            received).pk_buf
        ≡ some 0
  unfolding probe_get_by_name
  probe_get_by_name-packs none probe xstore received found empty = absurd (ground (arith, found))
  probe_get_by_name-packs (some String.[]) probe xstore received found empty =
      absurd (ground (arith, found))
  probe_get_by_name-packs (some (String.◌∷◌ c s)) probe xstore received found empty =
      find_probe-packs (String.◌∷◌ c s) probe found xstore received empty
