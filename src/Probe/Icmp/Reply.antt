-- ===== src/Probe/Icmp/Reply.antt =====
-- The ICMP probes of src/probe, sent and answered.
use xmap.Base.{ℕ, ◌+◌, ◌*◌, ◌^◌, ◌<◌, ◌≤◌, ◌≡◌, ap, ◌∙◌, arith, true, false, ◌||◌, ltb, ◌==◌}
use xmap.Probe.{
  ByteOrder, IcmpHeader, Received, word_sum, in_checksum, icmp_checksum, ip_checksum, icmp_words,
  ip_words, complement, make_icmp_header, make_ip_header,
}
use xmap.Probe.Checksum.{complement-complement, ip_checksum-ip_checksum}
use xmap.Probe.Icmp.{
  IcmpPacket, echoreply, unreach, timxceed, icmp_offset, inner_ip_offset, inner_icmp_offset,
  ids_match, icmp_validate, thread_init, make_packet, time_make_packet,
}

-- An answer that gives back the number and the sequence number of the request.
pub record Echoes (packet : IcmpPacket) (received : Received) (len : ℕ) : Type 0 where
  pub protocol : received.ip.ip_p ≡ 1
  pub whole : 4 * received.ip.ip_hl + 8 ≤ len
  pub kind : (received.icmp_at (icmp_offset received.ip)).icmp_type ≡ echoreply
  pub id : (received.icmp_at (icmp_offset received.ip)).icmp_id ≡ packet.icmp.icmp_id
  pub seq : (received.icmp_at (icmp_offset received.ip)).icmp_seq ≡ packet.icmp.icmp_seq

-- An error that a router on the way gives: it goes to the sender, and quotes the header of the request
-- and the first 8 bytes after it. The router's own header has no options, like the request's.
pub record Quotes (packet : IcmpPacket) (received : Received) (len kind : ℕ) : Type 0 where
  pub protocol : received.ip.ip_p ≡ 1
  pub outer : received.ip.ip_hl ≡ 5
  pub to : received.ip.ip_dst ≡ packet.ip.ip_src
  pub whole : 20 + 8 + 20 + 8 ≤ len
  pub type : (received.icmp_at (icmp_offset received.ip)).icmp_type ≡ kind
  pub quoted : (received.ip_at (inner_ip_offset received.ip)).ip_dst ≡ packet.ip.ip_dst
  pub length : (received.ip_at (inner_ip_offset received.ip)).ip_hl ≡ packet.ip.ip_hl
  pub id : (received.icmp_at (inner_icmp_offset received.ip)).icmp_id ≡ packet.icmp.icmp_id
  pub seq : (received.icmp_at (inner_icmp_offset received.ip)).icmp_seq ≡ packet.icmp.icmp_seq

icmp_words-sum :
    (icmp : IcmpHeader) (c : ℕ)
    → word_sum 14 (icmp_words (record icmp { icmp_cksum = c }))
      ≡ word_sum 14 (icmp_words (record icmp { icmp_cksum = 0 })) + c
unfolding word_sum
icmp_words-sum icmp c = omega arith

-- An ICMP header with its checksum filled in.
icmp_checksum-icmp_checksum :
    (icmp : IcmpHeader)
    → word_sum 14 (icmp_words (record icmp { icmp_cksum = 0 })) < 2 ^ 22
    → icmp_checksum (
        icmp_words (record icmp {
          icmp_cksum = icmp_checksum (icmp_words (record icmp { icmp_cksum = 0 }));
        }))
      ≡ 0
unfolding icmp_checksum in_checksum
icmp_checksum-icmp_checksum icmp h =
    ap complement
      (icmp_words-sum icmp (complement (word_sum 14 (icmp_words (record icmp { icmp_cksum = 0 })))))
    ∙ complement-complement _ h

module _ (order : ByteOrder) (smac dmac sip dip ttl : ℕ) (validate_gen : ℕ → ℕ → ℕ → ℕ) where
  -- The request to an address, with the words that the addresses generate.
  abbrev pub echo_probe : IcmpPacket
  echo_probe = make_packet order (thread_init order smac dmac) sip dip ttl (validate_gen sip dip)

  -- The same with a time of day.
  abbrev pub time_probe : ℕ → ℕ → IcmpPacket
  time_probe tv_sec tv_usec =
      time_make_packet order tv_sec tv_usec (thread_init order smac dmac) sip dip ttl
        (validate_gen sip dip)

  -- An echo reply is valid, and the words and the source stay what they were.
  pub icmp_validate-echo_probe :
      (received : Received) (len src : ℕ)
      → Echoes echo_probe received len
      → icmp_validate validate_gen received len src (validate_gen sip dip)
        ≡ record { valid = true; sip = src; validation = validate_gen sip dip }
  unfolding icmp_validate make_packet ids_match
  icmp_validate-echo_probe received len src answer =
      let protocol : (received.ip.ip_p == 1) ≡ true = ground (arith, answer.protocol) in
      let room : ltb len (4 * received.ip.ip_hl + 5) ≡ false = ground (arith, answer.whole) in
      rw (protocol, room, answer.kind, answer.id, answer.seq) (ground arith)

  -- A time exceeded or unreachable error that quotes a probe is valid, and the source that it leaves
  -- is the scanner's own address and not the one probed.
  pub icmp_validate-quoted :
      (received : Received) (len src kind : ℕ) (validation : ℕ → ℕ)
      → (kind == timxceed || kind == unreach) ≡ true
      → Quotes echo_probe received len kind
      → icmp_validate validate_gen received len src validation
        ≡ record { valid = true; sip = sip; validation = validate_gen sip dip }
  unfolding icmp_validate make_packet thread_init make_ip_header ids_match
  icmp_validate-quoted received len src kind validation error answer =
      let protocol : (received.ip.ip_p == 1) ≡ true = ground (arith, answer.protocol) in
      let smallest : ltb len (4 * received.ip.ip_hl + 5) ≡ false =
        ground (arith, answer.whole, answer.outer) in
      let inner : ltb len (4 * received.ip.ip_hl + 8 + 20) ≡ false =
        ground (arith, answer.whole, answer.outer) in
      let whole : ltb len (
            4 * received.ip.ip_hl
            + 8
            + 4 * (received.ip_at (inner_ip_offset received.ip)).ip_hl
            + 8)
          ≡ false =
        ground (arith, answer.whole, answer.outer, answer.length) in
      rw
        (
          protocol, smallest, inner, whole, answer.type, error, answer.id, answer.seq,
          answer.quoted, answer.to,
        )
        (ground arith)

  -- The checksums of both requests verify, whatever the words, the addresses and the time are.
  pub icmp_make_packet-checksum :
      (tv_sec tv_usec : ℕ)
      → sip < 2 ^ 32
      → dip < 2 ^ 32
      → ttl < 2 ^ 8
      → ((icmp_checksum (icmp_words echo_probe.icmp) ≡ 0)
          × (ip_checksum (ip_words echo_probe.ip) ≡ 0))
        × ((icmp_checksum (icmp_words (time_probe tv_sec tv_usec).icmp) ≡ 0)
            × (ip_checksum (ip_words (time_probe tv_sec tv_usec).ip) ≡ 0))
  unfolding make_packet time_make_packet thread_init make_ip_header make_icmp_header word_sum
  icmp_make_packet-checksum tv_sec tv_usec hs hd ht = (
    (
      icmp_checksum-icmp_checksum echo_probe.icmp (omega arith),
      ip_checksum-ip_checksum echo_probe.ip
          (omega (arith, order.htons-lt 40, order.htons-lt 54321)),
    ),
    (
      icmp_checksum-icmp_checksum (time_probe tv_sec tv_usec).icmp (omega arith),
      ip_checksum-ip_checksum (time_probe tv_sec tv_usec).ip
          (omega (arith, order.htons-lt 40, order.htons-lt 54321)),
    ),
  )
