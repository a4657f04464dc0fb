-- ===== src/Context/Valid.antt =====
-- What holds of a context that `xm_context_create` (src/xm_context.c) makes.
use xmap.Base.{
  ℕ, ◌*◌, ◌^◌, ◌<◌, ◌≤◌, ◌≡◌, refl, Bool, true, ◌&&◌, ◌||◌, not, Option, none, some, [], ltb, leb,
  ◌==◌, if◌then◌else◌, length, leb-false→lt, arith, inl, inr, ◌⊎◌, Bool-cases, Option-cases,
}
use xmap.Base.Int.{ℤ, pos, negsuc, leb_ℤ}
use xmap.Base.Tally.{tally}
use xmap.Iptree.Lookup.{has_value}
use xmap.Iptree.Paint.{count_ips-eq-tally}
use xmap.Wblist.{Wblist, allowed, disallowed, count_allowed, count_not_allowed}
use xmap.Wblist as Wb
use xmap.Wblist.Laws.{create-IsReady}
use xmap.Context.Setting.{Context, context_init, Args, Host, unsigned, in_range}
use xmap.Context.Checks.{
  set_names, set_sizes, set_ports, set_source_ips, set_gateway, set_source_mac, set_seed,
  set_shards, suffix_factor, skip_digits, set_bandwidth, set_wblist, set_senders, set_interfaces,
  context_set, context_create,
}
use xmap.Context.Stages.{
  Ends, and_then-Ends, Sized, Addressed, Linked, Sourced, Shared, IsListed, unsigned_lt, Begun,
  set_names-Ends, set_sizes-Ends, set_ports-Ends,
}
use xmap.Context.Addresses.{
  IsHost, fuel_for, set_source_ips-Ends, set_gateway-Ends, set_source_mac-Ends, set_seed-Ends,
}

set_shards-Ends : (args : Args) (c : Context) → Sourced c → Ends Shared (set_shards args c)
unfolding set_shards
set_shards-Ends args c s = elim (Option-cases args.shard) [
  | inl absent ↦ elim (Option-cases args.shards) [
    | inl absent' ↦ rw (absent, set_shards, absent') ((omega arith, omega arith), s)
    | inr (shards, given) ↦ rw (absent, set_shards, given) tt
  ]
  | inr (shard, given) ↦ elim (Option-cases args.shards) [
    | inl absent ↦ rw (given, set_shards, absent) tt
    | inr (shards, given') ↦ elim (Option-cases args.seed) [
      | inl no_seed ↦ rw (given, set_shards, given', no_seed) tt
      | inr (seed, seeded) ↦
          elim (Bool-cases (not (in_range shard 0 65534 && in_range shards 1 65535))) [
            | inl outside ↦ rw (given, set_shards, given', seeded, outside) tt
            | inr inside ↦ elim (Bool-cases (leb (unsigned 16 shards) (unsigned 16 shard))) [
              | inl few ↦ rw (given, set_shards, given', seeded, inside, few) tt
              | inr share ↦
                  rw (given, set_shards, given', seeded, inside, share)
                    ((leb-false→lt _ _ share, unsigned_lt shards), s)
            ]
          ]
    ]
  ]
]

set_bandwidth-Ends : (args : Args) (c : Context) → Shared c → Ends Shared (set_bandwidth args c)
unfolding set_bandwidth
set_bandwidth-Ends args c s = elim (Option-cases args.bandwidth) [
  | inl absent ↦ rw (absent, set_bandwidth) s
  | inr (arg, given) ↦ elim (Option-cases (suffix_factor (skip_digits arg))) [
    | inl unknown ↦ rw (given, set_bandwidth, unknown) tt
    | inr (factor, known) ↦ rw (given, set_bandwidth, known) s
  ]
]

set_wblist-Ends :
    (host : Host) (args : Args) (c : Context)
    → Shared c
    → Ends (λ c. IsListed c × Shared c) (set_wblist host args c)
unfolding set_wblist count_allowed count_not_allowed
set_wblist-Ends host args c s =
    elim (Option-cases (
      Wb.create host.inet.ntohl host.unset args.whitelist_file args.blacklist_file args.inputs
        [])) [
          | inl none_made ↦ rw (none_made, set_wblist) tt
          | inr (wblist, made) ↦
              let (ready, _, _) =
                create-IsReady host.inet.ntohl host.unset args.whitelist_file args.blacklist_file
                  args.inputs [] wblist made in
              let n = tally (has_value wblist.wb_iptree.root allowed) (2 ^ 32) in
              let counted : count_allowed host.inet.ntohl wblist ≡ some n =
                count_ips-eq-tally wblist.wb_iptree allowed ready.tree in
              let rest : count_not_allowed host.inet.ntohl wblist
                  ≡ some (tally (has_value wblist.wb_iptree.root disallowed) (2 ^ 32)) =
                count_ips-eq-tally wblist.wb_iptree disallowed ready.tree in
              elim (Bool-cases (ltb (2 ^ 32) n || n == 0)) [
                | inl unfit ↦ rw (made, set_wblist, counted, rest, unfit) tt
                | inr fit ↦
                    rw (made, set_wblist, counted, rest, fit)
                      (
                        record {
                          wblist = wblist;
                          set = refl;
                          ready = ready;
                          count = refl;
                          some_left = ground (arith, fit);
                        },
                        s,
                      )
              ]
        ]

abbrev Manned : Context → Type 0
Manned c =
    ((c.senders < 2 ^ 8) × ((c.senders ≡ 1) ⊎ (2 * c.senders < c.sent_max_targets)))
    × (IsListed c × Shared c)

unsigned_8_lt : (v : ℤ) → unsigned 8 v < 2 ^ 8
unfolding unsigned
unsigned_8_lt (pos n) = omega arith
unsigned_8_lt (negsuc n) = omega arith

set_senders-Ends :
    (args : Args) (c : Context) → IsListed c × Shared c → Ends Manned (set_senders args c)
unfolding set_senders
set_senders-Ends args c (listed, s) = (
  number,
  (
    record {
      wblist = listed.wblist;
      set = listed.set;
      ready = listed.ready;
      count = listed.count;
      some_left = listed.some_left;
    },
    s,
  ),
)
  where
    senders : ℕ
    senders = elim args.sender_threads [ none ↦ 1 | some v ↦ unsigned 8 v ]

    targets : ℕ
    targets =
        let max_targets : ℕ = elim args.max_targets [ none ↦ c.max_targets | some n ↦ n ] in
        if max_targets == 0 then c.sent_max_targets else max_targets

    narrow : (o : Option ℤ) → (elim o [ none ↦ 1 | some v ↦ unsigned 8 v ]) < 2 ^ 8
    narrow none = omega arith
    narrow (some v) = unsigned_8_lt v

    number :
        ((if leb targets (2 * senders) then 1 else senders) < 2 ^ 8)
        × (((if leb targets (2 * senders) then 1 else senders) ≡ 1)
            ⊎ (2 * (if leb targets (2 * senders) then 1 else senders) < targets))
    number = elim (Bool-cases (leb targets (2 * senders))) [
      | inl few ↦ rw few (omega arith, inl refl)
      | inr many ↦
          rw many (narrow args.sender_threads, inr (leb-false→lt targets (2 * senders) many))
    ]

-- A context that the scan can be run with.
pub record IsScan (c : Context) : Type 0 where
  pub sizes : (0 < c.shm_fsize) × (0 < c.shm_fentry_size) × (0 < c.shm_flush_timeout)
  pub retries : leb_ℤ (pos 0) c.num_retries ≡ true
  pub ports : (c.source_port_first ≤ c.source_port_last) × (c.source_port_last < 2 ^ 16)
  pub target : c.target_port < 2 ^ 16
  pub source_ips : (0 < length c.source_ips) × (length c.source_ips ≤ 256)
  pub macs : (length c.gw_mac ≡ 6) × (length c.hw_mac ≡ 6)
  pub macs_set : (c.gw_mac_set ≡ true) × (c.hw_mac_set ≡ true)
  pub share : (c.shard_num < c.total_shards) × (c.total_shards < 2 ^ 16)
  pub listed : IsListed c
  pub senders : (c.senders < 2 ^ 8) × ((c.senders ≡ 1) ⊎ (2 * c.senders < c.sent_max_targets))

set_interfaces-IsScan : (host : Host) (c : Context) → Manned c → Ends IsScan (set_interfaces host c)
unfolding set_interfaces
set_interfaces-IsScan host c
      (
        number,
        (
          listed,
          (
            (share),
            (hw_set, (gw_set, (some_ip, (sizes, (ok, (first, (last, (target, (few, macs))))))))),
          ),
        ),
      ) =
    elim (Bool-cases (host.send_interface && host.recv_interface)) [
      | inr failed ↦ rw failed tt
      | inl good ↦ rw good (record {
        sizes = (sizes.0, sizes.1.0, sizes.1.1);
        retries = ok;
        ports = (first, last);
        target = target;
        source_ips = (some_ip, few);
        macs = macs;
        macs_set = (gw_set, hw_set);
        share = share;
        listed = listed;
        senders = number;
      })
    ]

-- Setting up the context ends, with fuel for the loops over the source addresses. It is refused, the
-- process exits, or the context is one that the scan can be run with: the sizes of the results' file are positive, the
-- source ports are a range of 16-bit ports, there is a source address and at most 256, both hardware addresses are set and have
-- six bytes, the shard's number is below the number of shards, the list is ready and counts an address,
-- and the number of senders is 1 or has more than twice as many targets.
pub context_create-IsScan :
    (host : Host) (port_args : Bool) (fuel : ℕ) (args : Args)
    → IsHost host
    → fuel_for args.source_ip < fuel
    → Ends IsScan (context_create host port_args fuel args)
unfolding context_create context_set context_init
context_create-IsScan host port_args fuel args h enough =
    and_then-Ends Begun IsScan (set_names host args context_init) _
      (set_names-Ends host args context_init
        (omega arith, (omega arith, (omega arith, (omega arith, (refl, refl))))))
      (λ c b. and_then-Ends Sized IsScan (set_sizes args c) _ (set_sizes-Ends args c b) (λ c s.
        and_then-Ends Sized IsScan (set_ports port_args args c) _
          (set_ports-Ends port_args args c s)
          (λ c s.
            and_then-Ends Addressed IsScan (set_source_ips host fuel args c) _
              (set_source_ips-Ends host fuel args c h enough s)
              (λ c s.
                and_then-Ends Linked IsScan (set_gateway host args c) _
                  (set_gateway-Ends host args c h s)
                  (λ c s.
                    and_then-Ends Sourced IsScan (set_source_mac host args c) _
                      (set_source_mac-Ends host args c h s)
                      (λ c s.
                        and_then-Ends Sourced IsScan (set_seed host args c) _
                          (set_seed-Ends host args c s)
                          (λ c s.
                            and_then-Ends Shared IsScan (set_shards args c) _
                              (set_shards-Ends args c s)
                              (λ c s.
                                and_then-Ends Shared IsScan (set_bandwidth args c) _
                                  (set_bandwidth-Ends args c s)
                                  (λ c s.
                                    and_then-Ends (λ c. IsListed c × Shared c) IsScan
                                      (set_wblist host args c) _ (set_wblist-Ends host args c s)
                                      (λ c s.
                                        and_then-Ends Manned IsScan (set_senders args c) _
                                          (set_senders-Ends args c s)
                                          (set_interfaces-IsScan host)))))))))))
