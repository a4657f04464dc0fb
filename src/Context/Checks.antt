-- ===== src/Context/Checks.antt =====
-- The checks of `_context_set` (src/xm_context.c), in their order.
use xmap.Base.{
  ℕ, ◌*◌, ◌%◌, ◌^◌, Bool, true, false, ◌&&◌, ◌||◌, not, Option, none, some, List, [], ◌∷◌, ltb, leb,
  ◌==◌, if◌then◌else◌, length, replicate,
}
use xmap.Base.Int.{ℤ, pos, leb_ℤ}
use xmap.Wblist.{Wblist, count_allowed, count_not_allowed}
use xmap.Wblist as Wb
use xmap.Context.{strchr, dash, parse_source_ip_addresses}
use xmap.Context.Mac.{parse_mac}
use xmap.Context.Setting.{
  Context, context_init, Args, Host, Outcome, refused, exits, unfinished, done, and_then, unsigned,
  in_range, atoi,
}

-- The option, or what is there, and a default where that is 0.
unfoldable pub size_or : Option ℤ → ℕ → ℕ → ℕ
size_or option old default =
    let size : ℕ = elim option [ none ↦ old | some v ↦ unsigned 64 v ] in
    if size == 0 then default else size

-- The probe and the interface to send on: without the option it is the default one.
unfoldable pub set_names : Host → Args → Context → Outcome
set_names host args context =
    if not host.probe_found
    then refused
    else if args.interface_send || host.default_iface
    then done context
    else refused

-- Sending without the link layer, the number of retries and the sizes of the results' file.
unfoldable pub set_sizes : Args → Context → Outcome
set_sizes args context =
    let num_retries : ℤ = elim args.retries [ none ↦ context.num_retries | some v ↦ v ] in
    let sized = record context {
      send_ip_pkts = args.iplayer || context.send_ip_pkts;
      gw_mac_set = args.iplayer || context.gw_mac_set;
      gw_mac = if args.iplayer then replicate 6 0 else context.gw_mac;
      num_retries = num_retries;
      shm_fentry_size = size_or args.shm_fentry_size context.shm_fentry_size 65536;
      shm_fsize = size_or args.shm_fsize context.shm_fsize 4294967296;
      shm_flush_timeout = size_or args.shm_flush_timeout context.shm_flush_timeout 60;
    } in
    if leb_ℤ (pos 0) num_retries then done sized else refused

-- The source ports. The two ends of a range are cut to 16 bits before they are tested.
unfoldable pub set_source_ports : Option (List ℕ) → Context → Outcome
set_source_ports none context = done context
set_source_ports (some arg) context = elim (strchr dash arg) [
  | some (first, last) ↦
      let source_port_first = unsigned 16 (atoi first) in
      let source_port_last = unsigned 16 (atoi last) in
      if not (in_range (pos source_port_first) 0 0xFFFF && in_range (pos source_port_last) 0 0xFFFF)
      then exits
      else if ltb source_port_last source_port_first
      then refused
      else done (record context {
        source_port_first = source_port_first;
        source_port_last = source_port_last;
      })
  | none ↦
      let port = atoi arg in
      if in_range port 0 0xFFFF
      then done (record context {
        source_port_first = unsigned 16 port;
        source_port_last = unsigned 16 port;
      })
      else exits
]

unfoldable pub set_target_port : Option ℤ → Context → Outcome
set_target_port none context = refused
set_target_port (some port) context =
    if in_range port 0 0xFFFF
    then done (record context { target_port = unsigned 16 port })
    else exits

-- Both, for a probe that takes ports.
unfoldable pub set_ports : Bool → Args → Context → Outcome
set_ports port_args args context =
    if port_args
    then and_then (set_source_ports args.source_port context) (set_target_port args.target_port)
    else done context

-- The address of the interface, where no source address has been stored.
unfoldable pub default_source_ip : Host → Context → Outcome
default_source_ip host context =
    if length context.source_ips == 0
    then elim host.iface_ip [
      | none ↦ refused
      | some ip ↦ done (record context { source_ips = ip ∷ [] })
    ]
    else done context

unfoldable pub set_source_ips : Host → ℕ → Args → Context → Outcome
set_source_ips host fuel args context = elim args.source_ip [
  | none ↦ default_source_ip host context
  | some given ↦ elim (parse_source_ip_addresses host.inet fuel given context.source_ips) [
    | none ↦ unfinished
    | some ips ↦ default_source_ip host (record context { source_ips = ips })
  ]
]

-- The gateway's hardware address, from the option, or from the machine where it is not set.
unfoldable pub find_gateway : Host → Context → Outcome
find_gateway host context = if context.gw_mac_set then done context else elim host.default_gw [
  | none ↦ refused
  | some gw_ip ↦ elim (host.hw_addr gw_ip) [
    | none ↦ refused
    | some mac ↦ done (record context { gw_ip = gw_ip; gw_mac = mac; gw_mac_set = true })
  ]
]

unfoldable pub set_gateway : Host → Args → Context → Outcome
set_gateway host args context = elim args.gateway_mac [
  | none ↦ find_gateway host context
  | some arg ↦ elim (parse_mac arg) [
    | none ↦ refused
    | some mac ↦ find_gateway host (record context { gw_mac = mac; gw_mac_set = true })
  ]
]

-- The own hardware address.
unfoldable pub set_source_mac : Host → Args → Context → Outcome
set_source_mac host args context = elim args.source_mac [
  | some arg ↦ elim (parse_mac arg) [
    | none ↦ refused
    | some mac ↦ done (record context { hw_mac = mac; hw_mac_set = true })
  ]
  | none ↦ if context.hw_mac_set then done context else elim host.iface_hw_addr [
    | none ↦ refused
    | some mac ↦ done (record context { hw_mac = mac; hw_mac_set = true })
  ]
]

unfoldable pub set_seed : Host → Args → Context → Outcome
set_seed host args context = elim args.seed [
  | some seed ↦
      if host.aesrand seed
      then done (record context { seed = seed; seed_provided = true })
      else refused
  | none ↦ elim host.random_seed [
    | none ↦ refused
    | some seed ↦
        if host.aesrand seed
        then done (record context { seed = seed; seed_provided = false })
        else refused
  ]
]

-- The share of the scan: both numbers or none, and a seed with them.
unfoldable pub set_shards : Args → Context → Outcome
set_shards args context = elim args.shard [
  | none ↦ elim args.shards [
    | none ↦ done (record context { shard_num = 0; total_shards = 1 })
    | some shards ↦ refused
  ]
  | some shard ↦ elim args.shards [
    | none ↦ refused
    | some shards ↦ elim args.seed [
      | none ↦ refused
      | some seed ↦
          if not (in_range shard 0 65534 && in_range shards 1 65535)
          then exits
          else if leb (unsigned 16 shards) (unsigned 16 shard)
          then refused
          else done
              (record context { shard_num = unsigned 16 shard; total_shards = unsigned 16 shards })
    ]
  ]
]

unfoldable pub skip_digits : List ℕ → List ℕ
skip_digits [] = []
skip_digits (c ∷ s) = let rest = skip_digits s in if leb 48 c && leb c 57 then rest else c ∷ s

-- The factor of a suffix: G, M or K, in either case.
unfoldable pub suffix_factor : List ℕ → Option ℕ
suffix_factor [] = some 1
suffix_factor (c ∷ s) =
    if c == 71 || c == 103
    then some 1000000000
    else if c == 77 || c == 109
    then some 1000000
    else if c == 75 || c == 107
    then some 1000
    else none

unfoldable pub set_bandwidth : Args → Context → Outcome
set_bandwidth args context = elim args.bandwidth [
  | none ↦ done context
  | some arg ↦ elim (suffix_factor (skip_digits arg)) [
    | none ↦ refused
    | some factor ↦ done (record context { bandwidth = unsigned 64 (atoi arg) * factor % 2 ^ 64 })
  ]
]

-- The lists, and how many addresses they allow. A count that was never written is `unfinished`.
unfoldable pub set_wblist : Host → Args → Context → Outcome
set_wblist host args context =
    elim (Wb.create host.inet.ntohl host.unset args.whitelist_file args.blacklist_file args.inputs
      []) [
        | none ↦ refused
        | some wblist ↦ elim (count_allowed host.inet.ntohl wblist) [
          | none ↦ unfinished
          | some allowed ↦ elim (count_not_allowed host.inet.ntohl wblist) [
            | none ↦ unfinished
            | some not_allowed ↦
                if ltb (2 ^ 32) allowed || allowed == 0
                then refused
                else done (record context {
                  wblist = some wblist;
                  total_allowed = allowed;
                  total_disallowed = not_allowed;
                })
          ]
        ]
      ]

-- The number of targets and of senders, of 8 bits.
unfoldable pub set_senders : Args → Context → Outcome
set_senders args context =
    let max_targets : ℕ = elim args.max_targets [ none ↦ context.max_targets | some n ↦ n ] in
    let sent_max_targets = if max_targets == 0 then context.sent_max_targets else max_targets in
    let senders : ℕ = elim args.sender_threads [ none ↦ 1 | some v ↦ unsigned 8 v ] in
    done (record context {
      max_targets = max_targets;
      sent_max_targets = sent_max_targets;
      senders = if leb sent_max_targets (2 * senders) then 1 else senders;
    })

unfoldable pub set_interfaces : Host → Context → Outcome
set_interfaces host context =
    if host.send_interface && host.recv_interface then done context else refused

-- `_context_set`, for a probe that takes ports or not, and `xm_context_create`.
unfoldable pub context_set : Host → Bool → ℕ → Args → Context → Outcome
context_set host port_args fuel args context = and_then (set_names host args context) (λ c.
    and_then (set_sizes args c) (λ c. and_then (set_ports port_args args c) (λ c.
      and_then (set_source_ips host fuel args c) (λ c. and_then (set_gateway host args c) (λ c.
        and_then (set_source_mac host args c) (λ c. and_then (set_seed host args c) (λ c.
          and_then (set_shards args c) (λ c. and_then (set_bandwidth args c) (λ c.
            and_then (set_wblist host args c)
              (λ c. and_then (set_senders args c) (set_interfaces host)))))))))))

unfoldable pub context_create : Host → Bool → ℕ → Args → Outcome
context_create host port_args fuel args = context_set host port_args fuel args context_init
