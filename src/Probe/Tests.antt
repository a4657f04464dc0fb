-- ===== src/Probe/Tests.antt =====
-- src/probe on a little-endian host: a port range of 40000 to 40009, three streams.
use xmap.Base.{
  ◌++◌, false, ◌==◌, if◌then◌else◌, ℕ, ◌+◌, ◌*◌, ◌/◌, ◌%◌, ◌^◌, ◌≡◌, refl, arith, true, some, [],
}
use xmap.Probe.Ports.{check_dst_port_single, check_dst_port-get_src_port, check_dst_port_wrapped}
use xmap.Probe.Tcp.{
  ProbeContext, context_init, make_packet, next_number, thread_init, synscan_thread_init,
  synscan_validate,
}
use xmap.Probe.Checksum.{Verifies, pseudo_header}
use xmap.Probe.Tcp.Reply.{
  Answers, Fits, synscan_probe, synscan_validate-make_packet, make_packet-checksum,
}
use xmap.Probe.Icmp.{icmp_validate}
use xmap.Probe.Icmp as Icmp
use xmap.Probe.Icmp.Reply.{
  Echoes, Quotes, echo_probe, time_probe, icmp_validate-echo_probe, icmp_validate-quoted,
  icmp_make_packet-checksum,
}
use xmap.Probe.Table.{probe_get_by_name, find_probe, probe_icmp_echo, probe_ip_store}
use xmap.Probe.Results.{probe_get_by_name-packs}
use xmap.Shm.Tests.{format}
use xmap.Store.{Store}
use xmap.Store.Object.{pending}
use xmap.Probe.{
  check_dst_port, get_src_port, make_tcp_header, make_ip_header, tcp_words, ip_words, icmp_words,
  ip_checksum, icmp_checksum, ByteOrder, Received, IcmpHeader, zero_ip, zero_tcp, zero_icmp,
}

abbrev swap16 : ℕ → ℕ
swap16 x = x % 2 ^ 8 * 2 ^ 8 + x / 2 ^ 8 % 2 ^ 8

abbrev swap32 : ℕ → ℕ
swap32 x =
    x % 2 ^ 8 * 2 ^ 24
    + x / 2 ^ 8 % 2 ^ 8 * 2 ^ 16
    + x / 2 ^ 16 % 2 ^ 8 * 2 ^ 8
    + x / 2 ^ 24 % 2 ^ 8

abbrev pub little_endian : ByteOrder
little_endian = record {
  htons = swap16;
  htonl = swap32;
  htons-htons = λ x h. omega arith;
  htonl-htonl = λ x h. omega arith;
  htons-lt = λ x. omega arith;
  htonl-lt = λ x. omega arith;
}

-- Ports
one_stream : check_dst_port 40002 10 40000 40009 1 3 ≡ true
one_stream = check_dst_port_single 40002 40000 40009 10 3 refl (omega arith) (omega arith)

check_dst_port-get_src_port_example :
    check_dst_port (get_src_port 10 1 40000 3) 10 40000 40009 3 3 ≡ true
check_dst_port-get_src_port_example =
    check_dst_port-get_src_port 40000 40009 10 3 1 3 refl (omega arith) (omega arith) (omega arith)
      (omega arith)

check_dst_port_wrapped_run : check_dst_port (get_src_port 10 0 40000 8) 10 40000 40009 3 8 ≡ false
check_dst_port_wrapped_run =
    check_dst_port_wrapped 40000 40009 10 3 8 refl (omega arith) (omega arith) (omega arith)
      (omega arith) (omega arith)

abbrev pub context : ProbeContext
context = record {
  source_port_first = 40000;
  source_port_last = 40009;
  packet_streams = 3;
  target_port = 80;
  num_ports = 10;
}

context_run : context_init (record context { num_ports = 0 }) ≡ context
unfolding context_init
context_run = refl

abbrev words : ℕ → ℕ
words i = if i == 0 then 305419896 else if i == 1 then 3 else 7

-- A SYN-ACK to the probe of the second stream.
abbrev syn_ack : Received
syn_ack = record {
  ip = record zero_ip { ip_v = 4; ip_hl = 5; ip_p = 6 };
  tcp_at = λ i. record zero_tcp {
    th_sport = swap16 80;
    th_dport = swap16 40004;
    th_ack = swap32 (next_number little_endian 305419896);
    th_flags = 18;
  };
  icmp_at = λ i. zero_icmp;
  ip_at = λ i. zero_ip;
}

syn_ack-Answers :
    Answers little_endian
      (synscan_probe little_endian context 1 2 3 16777343 33554559 255 words 1)
      syn_ack
      40
unfolding make_packet synscan_thread_init thread_init make_tcp_header get_src_port
syn_ack-Answers = record {
  protocol = refl;
  whole = omega arith;
  from = refl;
  to = refl;
  acknowledges = refl;
}

context-Fits : Fits little_endian context 3
context-Fits = record {
  range = refl;
  last = omega arith;
  target = omega arith;
  streams = omega arith;
  word = omega arith;
}

synscan_validate-make_packet_example :
    synscan_validate little_endian context syn_ack 40 words ≡ true
synscan_validate-make_packet_example =
    synscan_validate-make_packet little_endian context 1 2 3 16777343 33554559 255 words 1 syn_ack
      40 context-Fits (omega arith) syn_ack-Answers

make_packet-checksum_example :
    let probe = synscan_probe little_endian context 1 2 3 16777343 33554559 255 words 1 in
    Verifies (ip_words probe.ip)
    × Verifies (pseudo_header swap16 16777343 33554559 20 ++ tcp_words probe.tcp)
make_packet-checksum_example =
    make_packet-checksum little_endian context 1 2 3 16777343 33554559 255 words 1 (omega arith)
      (omega arith) (omega arith) (omega arith)

-- ICMP
abbrev pub generate : ℕ → ℕ → ℕ → ℕ
generate src dst i = src + 3 * dst + i

abbrev echo : IcmpHeader
echo = record zero_icmp { icmp_id = generate 5 9 1 % 2 ^ 16; icmp_seq = generate 5 9 2 % 2 ^ 16 }

abbrev echo_reply : Received
echo_reply = record {
  ip = record zero_ip { ip_v = 4; ip_hl = 5; ip_p = 1; ip_src = 9; ip_dst = 5 };
  tcp_at = λ i. zero_tcp;
  icmp_at = λ i. echo;
  ip_at = λ i. zero_ip;
}

echo_reply-Echoes : Echoes (echo_probe little_endian 2 3 5 9 64 generate) echo_reply 28
unfolding Icmp.make_packet
echo_reply-Echoes = record {
  protocol = refl;
  whole = omega arith;
  kind = refl;
  id = refl;
  seq = refl;
}

icmp_validate-echo_probe_example :
    icmp_validate generate echo_reply 28 9 (generate 5 9)
    ≡ record { valid = true; sip = 9; validation = generate 5 9 }
icmp_validate-echo_probe_example =
    icmp_validate-echo_probe little_endian 2 3 5 9 64 generate echo_reply 28 9 echo_reply-Echoes

-- The router 77 gives up on the probe of 9.
abbrev exceeded : Received
exceeded = record {
  ip = record zero_ip { ip_v = 4; ip_hl = 5; ip_p = 1; ip_src = 77; ip_dst = 5 };
  tcp_at = λ i. zero_tcp;
  icmp_at = λ i. if i == 20 then record zero_icmp { icmp_type = 11 } else echo;
  ip_at = λ i. record zero_ip { ip_v = 4; ip_hl = 5; ip_p = 1; ip_src = 5; ip_dst = 9 };
}

exceeded-Quotes : Quotes (echo_probe little_endian 2 3 5 9 64 generate) exceeded 56 11
unfolding Icmp.make_packet Icmp.thread_init make_ip_header
exceeded-Quotes = record {
  protocol = refl;
  outer = refl;
  to = refl;
  whole = omega arith;
  type = refl;
  quoted = refl;
  length = refl;
  id = refl;
  seq = refl;
}

icmp_validate-quoted_example :
    icmp_validate generate exceeded 56 77 (generate 5 77)
    ≡ record { valid = true; sip = 5; validation = generate 5 9 }
icmp_validate-quoted_example =
    icmp_validate-quoted little_endian 2 3 5 9 64 generate exceeded 56 77 11 (generate 5 77) refl
      exceeded-Quotes

icmp_make_packet-checksum_run :
    let echo_packet = echo_probe little_endian 2 3 5 9 64 generate in
    let time_packet = time_probe little_endian 2 3 5 9 64 generate 1574200000 250000 in
    ((icmp_checksum (icmp_words echo_packet.icmp) ≡ 0)
      × (ip_checksum (ip_words echo_packet.ip) ≡ 0))
    × ((icmp_checksum (icmp_words time_packet.icmp) ≡ 0)
        × (ip_checksum (ip_words time_packet.ip) ≡ 0))
icmp_make_packet-checksum_run =
    icmp_make_packet-checksum little_endian 2 3 5 9 64 generate 1574200000 250000 (omega arith)
      (omega arith) (omega arith)

-- Results
abbrev pub store : Store
store = record { pk_buf = []; shm_fmt = format; shm_last_time = 0; shm_flush_timeout = 60 }

icmp_chosen :
    probe_get_by_name little_endian context generate (some "icmp_echoscan")
    ≡ some (probe_icmp_echo little_endian context generate)
unfolding probe_get_by_name find_probe
icmp_chosen = refl

probe_get_by_name-packs_example :
    let probe = probe_icmp_echo little_endian context generate in
    pending 1
      (probe.probe_process_packet
        (probe_ip_store little_endian probe store echo_reply.ip)
        echo_reply).pk_buf
    ≡ some 0
probe_get_by_name-packs_example =
    probe_get_by_name-packs little_endian context generate (some "icmp_echoscan")
      (probe_icmp_echo little_endian context generate) store echo_reply icmp_chosen refl
