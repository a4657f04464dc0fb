-- ===== src/Probe.antt =====
-- src/probe/xm_packet.h and xm_packet.c, and the types that the probes share. A field of a header is
-- the number that the host reads from memory; a header is summed up as its 16-bit words on a
-- little-endian host. Byte order is libc's; `random` is an argument.
pub mod Checksum
pub mod Ports
pub mod Tcp
pub mod Icmp
pub mod Table
pub mod Results
pub mod Tests
use Prim.Native.Nat.{bit_and}
use xmap.Base.{
  ℕ, zero, suc, ◌+◌, ◌-◌, ◌*◌, ◌/◌, ◌%◌, ◌^◌, ◌<◌, ◌≡◌, Bool, true, false, ◌||◌, ltb, leb, ◌==◌,
  if◌then◌else◌, List, [], ◌∷◌,
}
use xmap.Base.Int.{ℤ, sub_ℕ, rem, leb_ℤ}

-- htons and htonl, which are also ntohs and ntohl.
pub record ByteOrder : Type 0 where
  pub htons : ℕ → ℕ
  pub htonl : ℕ → ℕ
  pub htons-htons : (x : ℕ) → x < 2 ^ 16 → htons (htons x) ≡ x
  pub htonl-htonl : (x : ℕ) → x < 2 ^ 32 → htonl (htonl x) ≡ x
  pub htons-lt : (x : ℕ) → htons x < 2 ^ 16
  pub htonl-lt : (x : ℕ) → htonl x < 2 ^ 32

-- `struct ether_header`, an address as a number of 48 bits.
pub record EthHeader : Type 0 where
  pub ether_dhost : ℕ
  pub ether_shost : ℕ
  pub ether_type : ℕ

-- `struct ip`
pub record IpHeader : Type 0 where
  pub ip_v : ℕ
  pub ip_hl : ℕ
  pub ip_tos : ℕ
  pub ip_len : ℕ
  pub ip_id : ℕ
  pub ip_off : ℕ
  pub ip_ttl : ℕ
  pub ip_p : ℕ
  pub ip_sum : ℕ
  pub ip_src : ℕ
  pub ip_dst : ℕ

-- `struct tcphdr`
pub record TcpHeader : Type 0 where
  pub th_sport : ℕ
  pub th_dport : ℕ
  pub th_seq : ℕ
  pub th_ack : ℕ
  pub th_x2 : ℕ
  pub th_off : ℕ
  pub th_flags : ℕ
  pub th_win : ℕ
  pub th_sum : ℕ
  pub th_urp : ℕ

-- `struct icmp`, its data read as `struct icmp_payload_for_rtt` and the words after it.
pub record IcmpHeader : Type 0 where
  pub icmp_type : ℕ
  pub icmp_code : ℕ
  pub icmp_cksum : ℕ
  pub icmp_id : ℕ
  pub icmp_seq : ℕ
  pub sent_tv_sec : ℕ
  pub sent_tv_usec : ℕ
  pub dst : ℕ
  pub rest : List ℕ

-- A received IP header, and what the memory from it on holds at an offset, read as a header.
pub record Received : Type 0 where
  pub ip : IpHeader
  pub tcp_at : ℕ → TcpHeader
  pub icmp_at : ℕ → IcmpHeader
  pub ip_at : ℕ → IpHeader

-- What a validation leaves: whether the packet is valid, `*sip`, and the words of `validation`.
pub record Verdict : Type 0 where
  pub valid : Bool
  pub sip : ℕ
  pub validation : ℕ → ℕ

-- A buffer of zeros.
abbrev pub zero_ip : IpHeader
zero_ip = record {
  ip_v = 0;
  ip_hl = 0;
  ip_tos = 0;
  ip_len = 0;
  ip_id = 0;
  ip_off = 0;
  ip_ttl = 0;
  ip_p = 0;
  ip_sum = 0;
  ip_src = 0;
  ip_dst = 0;
}

abbrev pub zero_tcp : TcpHeader
zero_tcp = record {
  th_sport = 0;
  th_dport = 0;
  th_seq = 0;
  th_ack = 0;
  th_x2 = 0;
  th_off = 0;
  th_flags = 0;
  th_win = 0;
  th_sum = 0;
  th_urp = 0;
}

abbrev pub zero_icmp : IcmpHeader
zero_icmp = record {
  icmp_type = 0;
  icmp_code = 0;
  icmp_cksum = 0;
  icmp_id = 0;
  icmp_seq = 0;
  sent_tv_sec = 0;
  sent_tv_usec = 0;
  dst = 0;
  rest = 0 ∷ 0 ∷ 0 ∷ 0 ∷ [];
}

-- The words of the headers in memory.
abbrev pub ip_words : IpHeader → List ℕ
ip_words ip =
    (ip.ip_v * 16 + ip.ip_hl + 256 * ip.ip_tos)
    ∷ ip.ip_len
    ∷ ip.ip_id
    ∷ ip.ip_off
    ∷ (ip.ip_ttl + 256 * ip.ip_p)
    ∷ ip.ip_sum
    ∷ (ip.ip_src % 2 ^ 16)
    ∷ (ip.ip_src / 2 ^ 16)
    ∷ (ip.ip_dst % 2 ^ 16)
    ∷ (ip.ip_dst / 2 ^ 16)
    ∷ []

abbrev pub tcp_words : TcpHeader → List ℕ
tcp_words tcp =
    tcp.th_sport
    ∷ tcp.th_dport
    ∷ (tcp.th_seq % 2 ^ 16)
    ∷ (tcp.th_seq / 2 ^ 16)
    ∷ (tcp.th_ack % 2 ^ 16)
    ∷ (tcp.th_ack / 2 ^ 16)
    ∷ (tcp.th_off * 16 + tcp.th_x2 + 256 * tcp.th_flags)
    ∷ tcp.th_win
    ∷ tcp.th_sum
    ∷ tcp.th_urp
    ∷ []

abbrev pub icmp_words : IcmpHeader → List ℕ
icmp_words icmp =
    (icmp.icmp_type + 256 * icmp.icmp_code)
    ∷ icmp.icmp_cksum
    ∷ icmp.icmp_id
    ∷ icmp.icmp_seq
    ∷ (icmp.sent_tv_sec % 2 ^ 16)
    ∷ (icmp.sent_tv_sec / 2 ^ 16)
    ∷ (icmp.sent_tv_usec % 2 ^ 16)
    ∷ (icmp.sent_tv_usec / 2 ^ 16)
    ∷ (icmp.dst % 2 ^ 16)
    ∷ (icmp.dst / 2 ^ 16)
    ∷ icmp.rest

-- The loop of `xm_in_checksum` over len / 2 words.
unfoldable pub word_sum : ℕ → List ℕ → ℕ
word_sum zero ws = 0
word_sum (suc nwords) [] = 0
word_sum (suc nwords) (w ∷ ws) = w + word_sum nwords ws

-- The two folds at the end of a checksum, and the complement, of an unsigned long.
unfoldable pub complement : ℕ → ℕ
complement sum =
    let once = sum / 2 ^ 16 + sum % 2 ^ 16 in
    let twice = once + once / 2 ^ 16 in (2 ^ 64 - 1 - twice) % 2 ^ 16

-- `xm_in_checksum` of memory that holds the words
unfoldable pub in_checksum : List ℕ → ℕ → ℕ
in_checksum ws len = complement (word_sum (len / 2) ws)

-- `xm_ip_checksum`, with sizeof(struct ip).
unfoldable pub ip_checksum : List ℕ → ℕ
ip_checksum ws = in_checksum ws 20

-- `xm_icmp_checksum`, with sizeof(struct icmp).
unfoldable pub icmp_checksum : List ℕ → ℕ
icmp_checksum ws = in_checksum ws 28

-- The loop of `xm_tcp_checksum` over the bytes left; an odd one is what the mask leaves of its word.
unfoldable pub tcp_sum : (ℕ → ℕ) → ℕ → List ℕ → ℕ
tcp_sum ntohs nleft [] = 0
tcp_sum ntohs zero (w ∷ ws) = 0
tcp_sum ntohs (suc zero) (w ∷ ws) = bit_and w (ntohs 0xFF00)
tcp_sum ntohs (suc (suc nleft)) (w ∷ ws) = w + tcp_sum ntohs nleft ws

-- `xm_tcp_checksum`
unfoldable pub tcp_checksum : (ℕ → ℕ) → ℕ → ℕ → ℕ → List ℕ → ℕ
tcp_checksum htons len_tcp saddr daddr ws = complement (
    tcp_sum htons len_tcp ws
    + saddr % 2 ^ 16
    + saddr / 2 ^ 16
    + daddr % 2 ^ 16
    + daddr / 2 ^ 16
    + htons len_tcp
    + htons 6)

-- `xm_check_dst_port`: `validation` is validation[1]; the sums of unsigned numbers wrap around, and
-- the differences and their remainders are signed.
unfoldable pub check_dst_port : ℕ → ℕ → ℕ → ℕ → ℕ → ℕ → Bool
check_dst_port port num_ports source_port_first source_port_last packet_streams validation =
    if ltb source_port_last port || ltb port source_port_first
    then false
    else (let to_validate = port - source_port_first in
        let min = validation % num_ports in
        let max = (validation + packet_streams + 2 ^ 32 - 1) % 2 ^ 32 % num_ports in
        leb_ℤ (rem (sub_ℕ to_validate min) num_ports) (rem (sub_ℕ max min) num_ports))

-- `xm_get_src_port`
unfoldable pub get_src_port : ℕ → ℕ → ℕ → ℕ → ℕ
get_src_port num_ports probe_num source_port_first validation =
    (source_port_first + (validation + probe_num) % 2 ^ 32 % num_ports) % 2 ^ 16

-- `xm_make_icmp_header` over a header
unfoldable pub make_icmp_header : IcmpHeader → IcmpHeader
make_icmp_header buf = record buf { icmp_type = 8; icmp_code = 0; icmp_seq = 0 }

module _ (order : ByteOrder) where
  -- `xm_make_eth_header`
  unfoldable pub make_eth_header : ℕ → ℕ → EthHeader
  make_eth_header src dst = record {
    ether_dhost = dst;
    ether_shost = src;
    ether_type = order.htons 0x0800;
  }

  -- `xm_make_ip_header` over a header
  unfoldable pub make_ip_header : IpHeader → ℕ → ℕ → IpHeader
  make_ip_header iph protocol len = record iph {
    ip_hl = 5;
    ip_v = 4;
    ip_tos = 0;
    ip_len = len;
    ip_id = order.htons 54321;
    ip_off = 0;
    ip_ttl = 255;
    ip_p = protocol;
    ip_sum = 0;
  }

  -- `xm_make_tcp_header` over a header, with what `random` returns.
  unfoldable pub make_tcp_header : TcpHeader → ℕ → ℕ → ℕ → TcpHeader
  make_tcp_header tcp random dest_port th_flags = record tcp {
    th_seq = random % 2 ^ 32;
    th_ack = 0;
    th_x2 = 0;
    th_off = 5;
    th_flags = th_flags % 2 ^ 8;
    th_win = order.htons 65535;
    th_sum = 0;
    th_urp = 0;
    th_dport = order.htons dest_port;
  }
