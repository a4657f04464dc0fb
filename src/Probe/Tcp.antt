-- ===== src/Probe/Tcp.antt =====
-- src/probe/xm_probe_tcpsynscan.c and xm_probe_tcpsynackscan.c. The static `gcontext` and `num_ports`
-- are one record; `validation` gives the words of the array.
pub mod Reply
use Prim.Native.String.{String}
use xmap.Base.{
  ℕ, ◌+◌, ◌-◌, ◌*◌, ◌/◌, ◌%◌, ◌^◌, Bool, true, false, ◌&&◌, ◌||◌, not, ltb, ◌==◌, if◌then◌else◌,
  some,
}
use xmap.Base.Bits.{test_bit}
use xmap.Probe.{
  ByteOrder, EthHeader, IpHeader, TcpHeader, Received, zero_ip, zero_tcp, ip_words, tcp_words,
  ip_checksum, tcp_checksum, check_dst_port, get_src_port, make_eth_header, make_ip_header,
  make_tcp_header,
}
use xmap.Store.{Store, map_start, write_kv, write_uint8, write_uint16, write_uint32}

-- What the probes read of the context, with `num_ports`.
pub record ProbeContext : Type 0 where
  pub source_port_first : ℕ
  pub source_port_last : ℕ
  pub packet_streams : ℕ
  pub target_port : ℕ
  pub num_ports : ℕ

-- `synscan_probe_context_init`
unfoldable pub context_init : ProbeContext → ProbeContext
context_init context = record context {
  num_ports = (context.source_port_last + 2 ^ 32 - context.source_port_first + 1) % 2 ^ 32;
}

-- The headers that the packet buffer holds one after the other.
pub record TcpPacket : Type 0 where
  pub eth : EthHeader
  pub ip : IpHeader
  pub tcp : TcpHeader

-- `TH_SYN`, `TH_RST` and `TH_ACK`
abbrev pub th_syn : ℕ
th_syn = 2

abbrev pub th_rst : ℕ
th_rst = 4

abbrev pub th_ack : ℕ
th_ack = 16

module _ (order : ByteOrder) where
  -- The two `probe_thread_init`, which differ in the flags.
  unfoldable pub thread_init : ℕ → ℕ → ℕ → ℕ → ℕ → TcpPacket
  thread_init flags random smac dmac dport = record {
    eth = make_eth_header order smac dmac;
    ip = make_ip_header order zero_ip 6 (order.htons 40);
    tcp = make_tcp_header order zero_tcp random dport flags;
  }

  unfoldable pub synscan_thread_init : ℕ → ℕ → ℕ → ℕ → TcpPacket
  synscan_thread_init = thread_init th_syn

  unfoldable pub synackscan_thread_init : ℕ → ℕ → ℕ → ℕ → TcpPacket
  synackscan_thread_init = thread_init (th_syn + th_ack)

  -- `synscan_probe_make_packet`, and `synackscan_probe_make_packet` after it: the addresses, the
  -- port, the sequence number, and then the two checksums.
  unfoldable pub make_packet : ProbeContext → TcpPacket → ℕ → ℕ → ℕ → (ℕ → ℕ) → ℕ → TcpPacket
  make_packet context packet sip dip ttl validation probe_num =
      let ip0 = packet.ip in
      let tcp0 = packet.tcp in
      let ip1 = record ip0 { ip_src = sip; ip_dst = dip; ip_ttl = ttl; ip_sum = 0 } in
      let tcp1 = record tcp0 {
        th_sport =
            order.htons
              (get_src_port context.num_ports probe_num context.source_port_first (validation 1));
        th_seq = validation 0;
        th_sum = 0;
      } in
      record packet {
        ip = record ip1 { ip_sum = ip_checksum (ip_words ip1) };
        tcp = record tcp1 { th_sum = tcp_checksum order.htons 20 sip dip (tcp_words tcp1) };
      }

  -- The tests before the sequence numbers, which both `probe_validate_packet` share.
  unfoldable pub valid_ports : ProbeContext → Received → ℕ → (ℕ → ℕ) → Bool
  valid_ports context received len validation =
      let ip = received.ip in
      let tcp = received.tcp_at (4 * ip.ip_hl) in
      if not (ip.ip_p == 6)
      then false
      else if ltb len (4 * ip.ip_hl + 20)
      then false
      else if not (order.htons tcp.th_sport == context.target_port)
      then false
      else check_dst_port (order.htons tcp.th_dport) context.num_ports context.source_port_first
          context.source_port_last context.packet_streams (validation 1)

  -- `htonl(x) + 1`, of 32 bits
  abbrev pub next_number : ℕ → ℕ
  next_number x = (order.htonl x + 1) % 2 ^ 32

  -- `synscan_probe_validate_packet`
  unfoldable pub synscan_validate : ProbeContext → Received → ℕ → (ℕ → ℕ) → Bool
  synscan_validate context received len validation =
      let tcp = received.tcp_at (4 * received.ip.ip_hl) in
      let ack = order.htonl tcp.th_ack in
      if not (valid_ports context received len validation)
      then false
      else if test_bit tcp.th_flags th_rst
      then (if not (ack == order.htonl (validation 0)) && not (ack == next_number (validation 0))
          then false
          else true)
      else (if not (ack == next_number (validation 0)) then false else true)

  -- `synackscan_probe_validate_packet`
  unfoldable pub synackscan_validate : ProbeContext → Received → ℕ → (ℕ → ℕ) → Bool
  synackscan_validate context received len validation =
      let tcp = received.tcp_at (4 * received.ip.ip_hl) in
      let ack = order.htonl tcp.th_ack in
      let seq = order.htonl tcp.th_seq in
      if not (valid_ports context received len validation)
      then false
      else if test_bit tcp.th_flags th_rst
      then (if not (ack == next_number (validation 0))
            && (not (seq == order.htonl (validation 2)) && not (seq == next_number (validation 2)))
          then false
          else true)
      else (if not (ack == next_number (validation 0)) then false else true)

  -- What both `probe_process_packet` pack after the verdict.
  abbrev tcp_process : Store → TcpHeader → ℕ → String → Store
  tcp_process xstore tcp success msg =
      let s1 = map_start xstore (some "tcp") 7 in
      let s2 = write_kv (write_uint8 s1 (some "success") success) "msg" (some msg) in
      let s3 = write_uint16 s2 (some "sport") (order.htons tcp.th_sport) in
      let s4 = write_uint16 s3 (some "dport") (order.htons tcp.th_dport) in
      let s5 = write_uint32 s4 (some "seqnum") (order.htonl tcp.th_seq) in
      let s6 = write_uint32 s5 (some "acknum") (order.htonl tcp.th_ack) in
      write_uint32 s6 (some "window") (order.htons tcp.th_win)

  -- `synscan_probe_process_packet`
  unfoldable pub synscan_process : Store → Received → Store
  synscan_process xstore received =
      let tcp = received.tcp_at (4 * received.ip.ip_hl) in
      if test_bit tcp.th_flags th_rst
      then tcp_process xstore tcp 0 "rst"
      else tcp_process xstore tcp 1 "synacn"

  -- `synackscan_probe_process_packet`
  unfoldable pub synackscan_process : Store → Received → Store
  synackscan_process xstore received =
      let tcp = received.tcp_at (4 * received.ip.ip_hl) in
      tcp_process xstore tcp 1 (if test_bit tcp.th_flags th_rst then "rst" else "synack")
