-- ===== src/Probe/Table.antt =====
-- src/probe/xm_probe.h and xm_probe.c: the record of functions that a probe is, and the table of the
-- probes. The TCP probes leave the source and the words as they are.
use Prim.Native.String.{String}
use text.Mathlib.Text.{◌==◌ as str_eq}
use xmap.Base.{ℕ, List, [], ◌∷◌, Option, none, some, if◌then◌else◌}
use xmap.Probe.{ByteOrder, IpHeader, Received, Verdict}
use xmap.Probe.Tcp.{
  ProbeContext, synscan_validate, synackscan_validate, synscan_process, synackscan_process,
}
use xmap.Probe.Icmp.{icmp_validate, icmp_process, icmp_time_process}
use xmap.Store.{Store, map_start, write_uint8, write_uint32}

-- `struct xm_probe_t`, with the two functions that the receiver calls.
pub record Probe : Type 0 where
  pub name : String
  pub packet_length : ℕ
  pub probe_type : ℕ
  pub port_args : ℕ
  pub probe_validate_packet : Received → ℕ → ℕ → (ℕ → ℕ) → Verdict
  pub probe_process_packet : Store → Received → Store

-- `PROBE_TCP_SYN`, `PROBE_ICMP_ECHO` and `PROBE_ICMP_ECHO_TIME`
abbrev probe_type_tcp_syn : ℕ
probe_type_tcp_syn = 1

abbrev probe_type_icmp_echo : ℕ
probe_type_icmp_echo = 2

abbrev probe_type_icmp_echo_time : ℕ
probe_type_icmp_echo_time = 3

module _ (order : ByteOrder) (context : ProbeContext) (validate_gen : ℕ → ℕ → ℕ → ℕ) where
  abbrev pub probe_tcp_synscan : Probe
  probe_tcp_synscan = record {
    name = "tcp_synscan";
    packet_length = 54;
    probe_type = probe_type_tcp_syn;
    port_args = 1;
    probe_validate_packet = λ received len sip validation. record {
      valid = synscan_validate order context received len validation;
      sip = sip;
      validation = validation;
    };
    probe_process_packet = synscan_process order;
  }

  abbrev pub probe_tcp_synackscan : Probe
  probe_tcp_synackscan = record {
    name = "tcp_synackscan";
    packet_length = 54;
    probe_type = probe_type_tcp_syn;
    port_args = 1;
    probe_validate_packet = λ received len sip validation. record {
      valid = synackscan_validate order context received len validation;
      sip = sip;
      validation = validation;
    };
    probe_process_packet = synackscan_process order;
  }

  abbrev pub probe_icmp_echo : Probe
  probe_icmp_echo = record {
    name = "icmp_echoscan";
    packet_length = 62;
    probe_type = probe_type_icmp_echo;
    port_args = 0;
    probe_validate_packet = icmp_validate validate_gen;
    probe_process_packet = icmp_process order;
  }

  abbrev pub probe_icmp_echo_time : Probe
  probe_icmp_echo_time = record {
    name = "icmp_echo_time";
    packet_length = 62;
    probe_type = probe_type_icmp_echo_time;
    port_args = 0;
    probe_validate_packet = icmp_validate validate_gen;
    probe_process_packet = icmp_time_process order;
  }

  -- `probes`
  abbrev pub probes : List Probe
  probes = probe_tcp_synscan ∷ probe_tcp_synackscan ∷ probe_icmp_echo ∷ probe_icmp_echo_time ∷ []

  -- The loop of `xm_probe_get_by_name`
  unfoldable pub find_probe : String → List Probe → Option Probe
  find_probe name [] = none
  find_probe name (probe ∷ rest) =
      if str_eq probe.name name then some probe else find_probe name rest

  -- `xm_probe_get_by_name`
  unfoldable pub probe_get_by_name : Option String → Option Probe
  probe_get_by_name none = none
  probe_get_by_name (some String.[]) = none
  probe_get_by_name (some (String.◌∷◌ c s)) = find_probe (String.◌∷◌ c s) probes

-- `xm_probe_ip_store`
unfoldable pub probe_ip_store : ByteOrder → Probe → Store → IpHeader → Store
probe_ip_store order probe xstore ip =
    let s1 = map_start xstore none 3 in
    let s2 = write_uint8 s1 (some "type") probe.probe_type in
    let s3 = map_start s2 (some "ip") 4 in
    let s4 = write_uint32 s3 (some "srcIP") ip.ip_src in
    let s5 = write_uint32 s4 (some "dstIP") ip.ip_dst in
    let s6 = write_uint32 s5 (some "ipid") (order.htons ip.ip_id) in
    write_uint32 s6 (some "ttl") ip.ip_ttl
