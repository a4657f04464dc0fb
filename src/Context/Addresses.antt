-- ===== src/Context/Addresses.antt =====
-- What the checks of the addresses in `_context_set` (src/xm_context.c) add to what holds of the context.
use xmap.Base.{
  ℕ, ◌+◌, ◌^◌, ◌<◌, ◌≤◌, ◌≡◌, refl, true, Option, none, some, List, ◌++◌, ◌==◌, length, take,
  length-take, take_all, arith, inl, inr, Bool-cases, Option-cases,
}
use xmap.Context.SourceIps.{denotes, parse_source_ip_addresses-take}
use xmap.Context.Parts.{parts}
use xmap.Context.Mac.{parse_mac, length-parse_mac}
use xmap.Context.Setting.{Context, Args, Host}
use xmap.Context.Checks.{
  default_source_ip, set_source_ips, find_gateway, set_gateway, set_source_mac, set_seed,
}
use xmap.Context.Stages.{Ends, Sized, Addressed, Linked, Sourced}

pub default_source_ip-Ends :
    (host : Host) (c : Context) → Sized c → Ends Addressed (default_source_ip host c)
unfolding default_source_ip
default_source_ip-Ends host c (sizes, (ok, (first, (last, (target, (few, rest)))))) =
    elim (Bool-cases (length c.source_ips == 0)) [
      | inl empty ↦ elim (Option-cases host.iface_ip) [
        | inl unknown ↦ rw (empty, unknown) tt
        | inr (ip, known) ↦
            rw (empty, known)
              (omega arith, (sizes, (ok, (first, (last, (target, (omega arith, rest)))))))
      ]
      | inr some_given ↦
          rw some_given
            (ground (arith, some_given), (sizes, (ok, (first, (last, (target, (few, rest)))))))
    ]

-- What is relied on of the machine: inet_addr reads what inet_ntoa writes of 32 bits, htonl and ntohl
-- give 32 bits, and a hardware address has six bytes.
pub record IsHost (host : Host) : Type 0 where
  pub back : (a : ℕ) → a < 2 ^ 32 → host.inet.inet_addr (host.inet.inet_ntoa a) ≡ a
  pub narrow : (a : ℕ) → host.inet.htonl a < 2 ^ 32
  pub bound : (a : ℕ) → host.inet.ntohl a < 2 ^ 32
  pub hw_addr : (ip : ℕ) (mac : List ℕ) → host.hw_addr ip ≡ some mac → length mac ≡ 6
  pub iface_hw_addr : (mac : List ℕ) → host.iface_hw_addr ≡ some mac → length mac ≡ 6

-- Fuel for the loops over the source addresses.
abbrev pub fuel_for : Option (List ℕ) → ℕ
fuel_for none = 0
fuel_for (some given) = 2 ^ 32 + length given + 1

pub set_source_ips-Ends :
    (host : Host) (fuel : ℕ) (args : Args) (c : Context)
    → IsHost host
    → fuel_for args.source_ip < fuel
    → Sized c
    → Ends Addressed (set_source_ips host fuel args c)
unfolding set_source_ips
set_source_ips-Ends host fuel args c h enough
      (sizes, (ok, (first, (last, (target, (few, rest)))))) =
    elim (Option-cases args.source_ip) [
      | inl absent ↦
          rw absent
            (default_source_ip-Ends host c (sizes, (ok, (first, (last, (target, (few, rest)))))))
      | inr (given, here) ↦
          let parsed =
            parse_source_ip_addresses-take host.inet h.back h.narrow h.bound fuel given c.source_ips
              (rw here at enough) in
          let all : take 256 c.source_ips ≡ c.source_ips = take_all 256 c.source_ips few in
          let result = rw all at parsed in
          let stored = c.source_ips ++ denotes host.inet (parts given) in
          let short : length (take 256 stored) ≤ 256 = omega (arith, length-take 256 stored) in
          rw (here, set_source_ips, result)
            (default_source_ip-Ends host _ (sizes, (ok, (first, (last, (target, (short, rest)))))))
    ]

pub find_gateway-Ends :
    (host : Host) (c : Context) → IsHost host → Addressed c → Ends Linked (find_gateway host c)
unfolding find_gateway
find_gateway-Ends host c h (some_ip, (sizes, (ok, (first, (last, (target, (few, (gw, hw)))))))) =
    elim (Bool-cases c.gw_mac_set) [
      | inl set ↦
          rw (set, find_gateway)
            (refl, (some_ip, (sizes, (ok, (first, (last, (target, (few, (gw, hw)))))))))
      | inr unset ↦ elim (Option-cases host.default_gw) [
        | inl unknown ↦ rw (unset, find_gateway, unknown) tt
        | inr (gw_ip, known) ↦ elim (Option-cases (host.hw_addr gw_ip)) [
          | inl no_mac ↦ rw (unset, find_gateway, known, no_mac) tt
          | inr (mac, found) ↦
              rw (unset, find_gateway, known, found)
                (
                  refl,
                  (
                    some_ip,
                    (
                      sizes,
                      (ok, (first, (last, (target, (few, (h.hw_addr gw_ip mac found, hw)))))),
                    ),
                  ),
                )
        ]
      ]
    ]

pub set_gateway-Ends :
    (host : Host) (args : Args) (c : Context)
    → IsHost host
    → Addressed c
    → Ends Linked (set_gateway host args c)
unfolding set_gateway
set_gateway-Ends host args c h
      (some_ip, (sizes, (ok, (first, (last, (target, (few, (gw, hw)))))))) =
    elim (Option-cases args.gateway_mac) [
      | inl absent ↦
          rw (absent, set_gateway)
            (find_gateway-Ends host c h
              (some_ip, (sizes, (ok, (first, (last, (target, (few, (gw, hw)))))))))
      | inr (arg, given) ↦ elim (Option-cases (parse_mac arg)) [
        | inl invalid ↦ rw (given, set_gateway, invalid) tt
        | inr (mac, parsed) ↦
            rw (given, set_gateway, parsed)
              (find_gateway-Ends host (record c { gw_mac = mac; gw_mac_set = true }) h
                (
                  some_ip,
                  (
                    sizes,
                    (ok, (first, (last, (target, (few, (length-parse_mac arg mac parsed, hw)))))),
                  ),
                ))
      ]
    ]

pub set_source_mac-Ends :
    (host : Host) (args : Args) (c : Context)
    → IsHost host
    → Linked c
    → Ends Sourced (set_source_mac host args c)
unfolding set_source_mac
set_source_mac-Ends host args c h
      (gw_set, (some_ip, (sizes, (ok, (first, (last, (target, (few, (gw, hw))))))))) =
    elim (Option-cases args.source_mac) [
      | inl absent ↦ elim (Bool-cases c.hw_mac_set) [
        | inl set ↦
            rw (absent, set_source_mac, set)
              (refl, (gw_set, (some_ip, (sizes, (ok, (first, (last, (target, (few, (gw, hw))))))))))
        | inr unset ↦ elim (Option-cases host.iface_hw_addr) [
          | inl no_mac ↦ rw (absent, set_source_mac, unset, no_mac) tt
          | inr (mac, found) ↦
              rw (absent, set_source_mac, unset, found)
                (
                  refl,
                  (
                    gw_set,
                    (
                      some_ip,
                      (
                        sizes,
                        (ok, (first, (last, (target, (few, (gw, h.iface_hw_addr mac found)))))),
                      ),
                    ),
                  ),
                )
        ]
      ]
      | inr (arg, given) ↦ elim (Option-cases (parse_mac arg)) [
        | inl invalid ↦ rw (given, set_source_mac, invalid) tt
        | inr (mac, parsed) ↦
            rw (given, set_source_mac, parsed)
              (
                refl,
                (
                  gw_set,
                  (
                    some_ip,
                    (
                      sizes,
                      (ok, (first, (last, (target, (few, (gw, length-parse_mac arg mac parsed)))))),
                    ),
                  ),
                ),
              )
      ]
    ]

pub set_seed-Ends :
    (host : Host) (args : Args) (c : Context) → Sourced c → Ends Sourced (set_seed host args c)
unfolding set_seed
set_seed-Ends host args c s = elim (Option-cases args.seed) [
  | inl absent ↦ elim (Option-cases host.random_seed) [
    | inl no_seed ↦ rw (absent, set_seed, no_seed) tt
    | inr (seed, drawn) ↦ elim (Bool-cases (host.aesrand seed)) [
      | inl ok ↦ rw (absent, set_seed, drawn, ok) s
      | inr failed ↦ rw (absent, set_seed, drawn, failed) tt
    ]
  ]
  | inr (seed, given) ↦ elim (Bool-cases (host.aesrand seed)) [
    | inl ok ↦ rw (given, set_seed, ok) s
    | inr failed ↦ rw (given, set_seed, failed) tt
  ]
]
