-- ===== src/Probe/Icmp.antt =====
-- src/probe/xm_probe_icmp.c and xm_probe_icmp_time.c. `validation` gives the words of the array, and
-- `validate_gen` is `xm_validate_gen`, AES over the two addresses. The time of day is an argument.
pub mod Reply
use Prim.Native.String.{String}
use xmap.Base.{ℕ, ◌+◌, ◌*◌, ◌%◌, ◌^◌, Bool, true, false, ◌||◌, not, ltb, ◌==◌, if◌then◌else◌, some}
use xmap.Probe.{
  ByteOrder, EthHeader, IpHeader, IcmpHeader, Received, Verdict, zero_ip, zero_icmp, ip_words,
  icmp_words, ip_checksum, icmp_checksum, make_eth_header, make_ip_header, make_icmp_header,
}
use xmap.Store.{Store, map_start, write_kv, write_uint8, write_uint32, write_uint64}

-- The headers that the packet buffer holds one after the other.
pub record IcmpPacket : Type 0 where
  pub eth : EthHeader
  pub ip : IpHeader
  pub icmp : IcmpHeader

-- The types of ICMP that the code names.
abbrev pub echoreply : ℕ
echoreply = 0

abbrev pub unreach : ℕ
unreach = 3

abbrev pub sourcequench : ℕ
sourcequench = 4

abbrev pub redirect : ℕ
redirect = 5

abbrev pub timxceed : ℕ
timxceed = 11

-- Where the ICMP header is, the header that it quotes, and the ICMP header after that one, which the
-- code looks for behind the outer header's length.
abbrev pub icmp_offset : IpHeader → ℕ
icmp_offset ip = 4 * ip.ip_hl

abbrev pub inner_ip_offset : IpHeader → ℕ
inner_ip_offset ip = icmp_offset ip + 8

abbrev pub inner_icmp_offset : IpHeader → ℕ
inner_icmp_offset ip = inner_ip_offset ip + 4 * ip.ip_hl

-- The comparison at the end of a validation.
unfoldable pub ids_match : ℕ → ℕ → (ℕ → ℕ) → Bool
ids_match icmp_idnum icmp_seqnum validation =
    if not (icmp_idnum == validation 1 % 2 ^ 16)
    then false
    else if not (icmp_seqnum == validation 2 % 2 ^ 16)
    then false
    else true

-- `icmp_probe_validate_packet`, and `icmp_time_probe_validate_packet` after it.
unfoldable pub icmp_validate : (ℕ → ℕ → ℕ → ℕ) → Received → ℕ → ℕ → (ℕ → ℕ) → Verdict
icmp_validate validate_gen received len sip validation =
    let ip_hdr = received.ip in
    let icmp_h = received.icmp_at (icmp_offset ip_hdr) in
    let ip_inner = received.ip_at (inner_ip_offset ip_hdr) in
    let icmp_inner = received.icmp_at (inner_icmp_offset ip_hdr) in
    let invalid : Verdict = record { valid = false; sip = sip; validation = validation } in
    let regenerated = validate_gen ip_hdr.ip_dst ip_inner.ip_dst in
    if not (ip_hdr.ip_p == 1)
    then invalid
    else if ltb len (4 * ip_hdr.ip_hl + 5)
    then invalid
    else if icmp_h.icmp_type == timxceed || icmp_h.icmp_type == unreach
    then (if ltb len (4 * ip_hdr.ip_hl + 8 + 20)
        then invalid
        else if ltb len (4 * ip_hdr.ip_hl + 8 + 4 * ip_inner.ip_hl + 8)
        then invalid
        else record {
          valid = ids_match icmp_inner.icmp_id icmp_inner.icmp_seq regenerated;
          sip = ip_hdr.ip_dst;
          validation = regenerated;
        })
    else record {
      valid = ids_match icmp_h.icmp_id icmp_h.icmp_seq validation;
      sip = sip;
      validation = validation;
    }

module _ (order : ByteOrder) where
  -- The two `probe_thread_init`
  unfoldable pub thread_init : ℕ → ℕ → IcmpPacket
  thread_init smac dmac = record {
    eth = make_eth_header order smac dmac;
    ip = make_ip_header order zero_ip 1 (order.htons 40);
    icmp = make_icmp_header zero_icmp;
  }

  -- The end of both `probe_make_packet`: the ICMP checksum, and then the one of the IP header.
  abbrev fill_checksums : IcmpPacket → IcmpPacket
  fill_checksums packet =
      let ip0 = packet.ip in
      let icmp0 = packet.icmp in
      let icmp1 = record icmp0 { icmp_cksum = 0 } in
      let ip1 = record ip0 { ip_sum = 0 } in
      record packet {
        icmp = record icmp1 { icmp_cksum = icmp_checksum (icmp_words icmp1) };
        ip = record ip1 { ip_sum = ip_checksum (ip_words ip1) };
      }

  -- `icmp_probe_make_packet`
  unfoldable pub make_packet : IcmpPacket → ℕ → ℕ → ℕ → (ℕ → ℕ) → IcmpPacket
  make_packet packet sip dip ttl validation =
      let ip0 = packet.ip in
      let icmp0 = packet.icmp in
      fill_checksums (record packet {
        ip = record ip0 { ip_src = sip; ip_dst = dip; ip_ttl = ttl };
        icmp = record icmp0 { icmp_id = validation 1 % 2 ^ 16; icmp_seq = validation 2 % 2 ^ 16 };
      })

  -- `icmp_time_probe_make_packet` at a time of day in seconds and microseconds
  unfoldable pub time_make_packet : ℕ → ℕ → IcmpPacket → ℕ → ℕ → ℕ → (ℕ → ℕ) → IcmpPacket
  time_make_packet tv_sec tv_usec packet sip dip ttl validation =
      let ip0 = packet.ip in
      let icmp0 = packet.icmp in
      fill_checksums (record packet {
        ip = record ip0 { ip_src = sip; ip_dst = dip; ip_ttl = ttl };
        icmp = record icmp0 {
          icmp_id = validation 1 % 2 ^ 16;
          icmp_seq = validation 2 % 2 ^ 16;
          sent_tv_sec = tv_sec % 2 ^ 32;
          sent_tv_usec = tv_usec % 2 ^ 32;
          dst = dip;
        };
      })

  -- The switch over the type, which both `probe_process_packet` begin with.
  abbrev success_msg : ℕ → ℕ × String
  success_msg icmp_type =
      if icmp_type == echoreply
      then (1, "echoreply")
      else if icmp_type == unreach
      then (0, "unreach")
      else if icmp_type == sourcequench
      then (0, "sourcequench")
      else if icmp_type == redirect
      then (0, "redirect")
      else if icmp_type == timxceed
      then (0, "timxceed")
      else (0, "other")

  -- The six pairs that both pack.
  abbrev icmp_process_pairs : Store → IcmpHeader → Store
  icmp_process_pairs xstore icmp =
      let (success, msg) = success_msg icmp.icmp_type in
      let s1 = write_kv (write_uint8 xstore (some "success") success) "msg" (some msg) in
      let s2 = write_uint8 s1 (some "type") icmp.icmp_type in
      let s3 = write_uint8 s2 (some "code") icmp.icmp_code in
      let s4 = write_uint32 s3 (some "id") (order.htons icmp.icmp_id) in
      write_uint32 s4 (some "seq") (order.htons icmp.icmp_seq)

  -- `icmp_probe_process_packet`
  unfoldable pub icmp_process : Store → Received → Store
  icmp_process xstore received =
      icmp_process_pairs (map_start xstore (some "icmp") 6)
        (received.icmp_at (icmp_offset received.ip))

  -- `icmp_time_probe_process_packet`
  unfoldable pub icmp_time_process : Store → Received → Store
  icmp_time_process xstore received =
      let icmp = received.icmp_at (icmp_offset received.ip) in
      let s1 = icmp_process_pairs (map_start xstore (some "icmpTime") 9) icmp in
      let s2 = write_uint64 s1 (some "sentTimestampTS") icmp.sent_tv_sec in
      let s3 = write_uint64 s2 (some "sentTimestampUS") icmp.sent_tv_usec in
      write_uint64 s3 (some "dstRaw") icmp.dst
