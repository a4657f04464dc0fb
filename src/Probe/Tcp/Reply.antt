-- ===== src/Probe/Tcp/Reply.antt =====
-- The TCP probes of src/probe, sent and answered: the packet that is made, and the answer that a host
-- gives to it.
use xmap.Base.{◌++◌, ℕ, ◌+◌, ◌*◌, ◌%◌, ◌^◌, ◌<◌, ◌≤◌, ◌≡◌, ap, ◌∙◌, arith, true, false, ltb, ◌==◌}
use xmap.Probe.{
  ByteOrder, Received, ip_words, tcp_words, word_sum, tcp_sum, get_src_port, make_ip_header,
  make_tcp_header,
}
use xmap.Probe.Checksum.{Verifies, pseudo_header, ip_checksum-Verifies, tcp_checksum-Verifies}
use xmap.Probe.Ports.{check_dst_port-get_src_port}
use xmap.Probe.Tcp.{
  ProbeContext, TcpPacket, thread_init, synscan_thread_init, make_packet, valid_ports, next_number,
  synscan_validate,
}

module _ (order : ByteOrder) where
  -- An answer to a packet, which a host addresses to its source port and whose acknowledgement
  -- follows its sequence number.
  pub record Answers (packet : TcpPacket) (received : Received) (len : ℕ) : Type 0 where
    pub protocol : received.ip.ip_p ≡ 6
    pub whole : 4 * received.ip.ip_hl + 20 ≤ len
    pub from : (received.tcp_at (4 * received.ip.ip_hl)).th_sport ≡ packet.tcp.th_dport
    pub to : (received.tcp_at (4 * received.ip.ip_hl)).th_dport ≡ packet.tcp.th_sport
    pub acknowledges :
        order.htonl (received.tcp_at (4 * received.ip.ip_hl)).th_ack
        ≡ next_number order packet.tcp.th_seq

  -- The context of a range of ports, and a random word whose streams do not wrap round in it.
  pub record Fits (context : ProbeContext) (v : ℕ) : Type 0 where
    pub range : context.num_ports + context.source_port_first ≡ context.source_port_last + 1
    pub last : context.source_port_last < 2 ^ 16
    pub target : context.target_port < 2 ^ 16
    pub streams : v % context.num_ports + context.packet_streams ≤ context.num_ports
    pub word : v + context.packet_streams ≤ 2 ^ 32

  get_src_port-lt : (n k first v : ℕ) → get_src_port n k first v < 2 ^ 16
  unfolding get_src_port
  get_src_port-lt n k first v = omega arith

  module _ (context : ProbeContext) (random smac dmac sip dip ttl : ℕ) (validation : ℕ → ℕ)
      (probe_num : ℕ) where
    -- The probe of a stream.
    abbrev pub synscan_probe : TcpPacket
    synscan_probe =
        make_packet order context (synscan_thread_init order random smac dmac context.target_port)
          sip dip ttl validation probe_num

    valid_ports_answer :
        (received : Received) (len : ℕ)
        → Fits context (validation 1)
        → probe_num < context.packet_streams
        → Answers synscan_probe received len
        → valid_ports order context received len validation ≡ true
    unfolding valid_ports make_packet synscan_thread_init thread_init make_tcp_header
    valid_ports_answer received len fits low answer =
        let protocol : (received.ip.ip_p == 6) ≡ true = ground (arith, answer.protocol) in
        let room : ltb len (4 * received.ip.ip_hl + 20) ≡ false = ground (arith, answer.whole) in
        let from : order.htons (received.tcp_at (4 * received.ip.ip_hl)).th_sport
            ≡ context.target_port =
          ap order.htons answer.from ∙ order.htons-htons context.target_port fits.target in
        let same : (order.htons (received.tcp_at (4 * received.ip.ip_hl)).th_sport
              == context.target_port)
            ≡ true =
          ground (arith, from) in
        let to : order.htons (received.tcp_at (4 * received.ip.ip_hl)).th_dport
            ≡ get_src_port context.num_ports probe_num context.source_port_first (validation 1) =
          ap order.htons answer.to
          ∙ order.htons-htons _ (
              get_src_port-lt context.num_ports probe_num context.source_port_first
                (validation 1)) in
        rw (protocol, room, same, to)
          (check_dst_port-get_src_port context.source_port_first context.source_port_last
            context.num_ports context.packet_streams probe_num (validation 1) fits.range fits.last
            low fits.streams fits.word)

    -- Whatever its flags, an answer to a SYN probe is valid, if the ports of the streams do not wrap
    -- round in the range.
    pub synscan_validate-make_packet :
        (received : Received) (len : ℕ)
        → Fits context (validation 1)
        → probe_num < context.packet_streams
        → Answers synscan_probe received len
        → synscan_validate order context received len validation ≡ true
    unfolding synscan_validate make_packet
    synscan_validate-make_packet received len fits low answer =
        let ports = valid_ports_answer received len fits low answer in
        let ack : (order.htonl (received.tcp_at (4 * received.ip.ip_hl)).th_ack
              == next_number order (validation 0))
            ≡ true =
          ground (arith, answer.acknowledges) in
        rw (ports, ack) (ground arith)

    -- The checksums of a SYN probe verify: the one's complement sum of the words of the IP header, and
    -- that of the pseudo-header and the words of the TCP header, are 0xFFFF.
    pub make_packet-checksum :
        sip < 2 ^ 32
        → dip < 2 ^ 32
        → ttl < 2 ^ 8
        → validation 0 < 2 ^ 32
        → Verifies (ip_words synscan_probe.ip)
          × Verifies (pseudo_header order.htons sip dip 20 ++ tcp_words synscan_probe.tcp)
    unfolding make_packet synscan_thread_init thread_init make_ip_header make_tcp_header word_sum
        tcp_sum
    make_packet-checksum hs hd ht hv = (
      ip_checksum-Verifies synscan_probe.ip
          (omega (arith, order.htons-lt 40, order.htons-lt 54321)),
      tcp_checksum-Verifies order.htons sip dip synscan_probe.tcp
          (omega (
            arith,
            order.htons-lt 65535,
            order.htons-lt context.target_port,
            order.htons-lt
                (get_src_port context.num_ports probe_num context.source_port_first (validation 1)),
          ))
          hs hd (order.htons-lt 20) (order.htons-lt 6),
    )
