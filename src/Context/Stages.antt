-- ===== src/Context/Stages.antt =====
-- What the first checks of `_context_set` (src/xm_context.c), of sizes and ports, add to what holds of
-- the context.
use xmap.Base.{
  ◌||◌, ℕ, ◌^◌, ◌<◌, ◌≤◌, ◌≡◌, refl, Bool, true, false, ◌&&◌, not, Option, none, some, List, [],
  ◌∷◌, ltb, if◌then◌else◌, length, ltb-false→le, arith, inl, inr, Bool-cases, Option-cases,
}
use xmap.Base.Int.{ℤ, pos, negsuc, leb_ℤ}
use xmap.Base.Tally.{tally}
use xmap.Iptree.Lookup.{has_value}
use xmap.Wblist.{Wblist, allowed}
use xmap.Wblist.Laws.{IsReady}
use xmap.Context.{strchr, dash}
use xmap.Context.Setting.{
  Host, Context, Args, Outcome, refused, exits, unfinished, done, and_then, unsigned, in_range,
  atoi,
}
use xmap.Context.Checks.{
  size_or, set_names, set_sizes, set_source_ports, set_target_port, set_ports,
}

-- The outcome is a context with the property, or a refusal; no loop is left unfinished.
abbrev pub Ends : (Context → Type 0) → Outcome → Type 0
Ends P refused = Unit {0}
Ends P exits = Unit {0}
Ends P unfinished = ⊥
Ends P (done context) = P context

pub and_then-Ends :
    (P Q : Context → Type 0) (o : Outcome) (rest : Context → Outcome)
    → Ends P o
    → ((c : Context) → P c → Ends Q (rest c))
    → Ends Q (and_then o rest)
unfolding and_then
and_then-Ends P Q refused rest e next = tt
and_then-Ends P Q exits rest e next = tt
and_then-Ends P Q unfinished rest e next = e
and_then-Ends P Q (done context) rest e next = next context e

abbrev pub Few : Context → Type 0
Few c = length c.source_ips ≤ 256

-- What holds from the start, and what each check adds.
abbrev pub Begun : Context → Type 0
Begun c =
    (c.source_port_first ≤ c.source_port_last)
    × ((c.source_port_last < 2 ^ 16)
        × ((c.target_port < 2 ^ 16) × (Few c × ((length c.gw_mac ≡ 6) × (length c.hw_mac ≡ 6)))))

abbrev pub Sized : Context → Type 0
Sized c =
    ((0 < c.shm_fsize) × ((0 < c.shm_fentry_size) × (0 < c.shm_flush_timeout)))
    × ((leb_ℤ (pos 0) c.num_retries ≡ true) × Begun c)

abbrev pub Addressed : Context → Type 0
Addressed c = (0 < length c.source_ips) × Sized c

abbrev pub Linked : Context → Type 0
Linked c = (c.gw_mac_set ≡ true) × Addressed c

abbrev pub Sourced : Context → Type 0
Sourced c = (c.hw_mac_set ≡ true) × Linked c

abbrev pub Shared : Context → Type 0
Shared c = ((c.shard_num < c.total_shards) × (c.total_shards < 2 ^ 16)) × Sourced c

-- The list is ready, and the count is that of the addresses that its tree allows within 32 bits.
pub record IsListed (c : Context) : Type 0 where
  pub wblist : Wblist
  pub set : c.wblist ≡ some wblist
  pub ready : IsReady wblist
  pub count : c.total_allowed ≡ tally (has_value wblist.wb_iptree.root allowed) (2 ^ 32)
  pub some_left : 0 < c.total_allowed

positive_or : (option : Option ℤ) (old default : ℕ) → 0 < default → 0 < size_or option old default
unfolding size_or
positive_or none old default h = ground arith
positive_or (some v) old default h = ground arith

pub set_names-Ends :
    (host : Host) (args : Args) (c : Context) → Begun c → Ends Begun (set_names host args c)
unfolding set_names
set_names-Ends host args c b = elim (Bool-cases host.probe_found) [
  | inr unknown ↦ rw unknown tt
  | inl found ↦ elim (Bool-cases (args.interface_send || host.default_iface)) [
    | inl on ↦ rw (found, on) b
    | inr off ↦ rw (found, off) tt
  ]
]

pub set_sizes-Ends : (args : Args) (c : Context) → Begun c → Ends Sized (set_sizes args c)
unfolding set_sizes
set_sizes-Ends args c (first, (last, (target, (few, (gw, hw))))) =
    elim (Bool-cases (leb_ℤ (pos 0) retries)) [
      | inl ok ↦ rw ok (
        (
          positive_or args.shm_fsize c.shm_fsize 4294967296 (omega arith),
          (
            positive_or args.shm_fentry_size c.shm_fentry_size 65536 (omega arith),
            positive_or args.shm_flush_timeout c.shm_flush_timeout 60 (omega arith),
          ),
        ),
        (ok, (first, (last, (target, (few, (gateway args.iplayer, hw)))))),
      )
      | inr negative ↦ rw negative tt
    ]
  where
    retries : ℤ
    retries = elim args.retries [ none ↦ c.num_retries | some v ↦ v ]

    gateway : (b : Bool) → length (if b then 0 ∷ 0 ∷ 0 ∷ 0 ∷ 0 ∷ 0 ∷ [] else c.gw_mac) ≡ 6
    gateway true = refl
    gateway false = gw

pub in_range-lt : (v : ℤ) (hi : ℕ) → in_range v 0 hi ≡ true → hi < 2 ^ 16 → unsigned 16 v ≤ hi
unfolding in_range unsigned
in_range-lt (pos n) hi e h = ground arith
in_range-lt (negsuc n) hi e h = ground arith

pub unsigned_lt : (v : ℤ) → unsigned 16 v < 2 ^ 16
unfolding unsigned
unsigned_lt (pos n) = omega arith
unsigned_lt (negsuc n) = omega arith

pub set_source_ports-Ends :
    (arg : Option (List ℕ)) (c : Context) → Sized c → Ends Sized (set_source_ports arg c)
unfolding set_source_ports
set_source_ports-Ends none c s = s
set_source_ports-Ends (some arg) c (sizes, (ok, (first, (last, rest)))) =
    elim (Option-cases (strchr dash arg)) [
      | inl single ↦ elim (Bool-cases (in_range (atoi arg) 0 0xFFFF)) [
        | inl inside ↦
            rw (single, set_source_ports, inside)
              (sizes, (ok, (omega arith, (unsigned_lt (atoi arg), rest))))
        | inr outside ↦ rw (single, set_source_ports, outside) tt
      ]
      | inr ((from, upto), range) ↦
          elim (Bool-cases (
            not (
              in_range (pos (unsigned 16 (atoi from))) 0 0xFFFF
              && in_range (pos (unsigned 16 (atoi upto))) 0 0xFFFF))) [
                | inl outside ↦ rw (range, set_source_ports, outside) tt
                | inr inside ↦
                    elim (Bool-cases (ltb (unsigned 16 (atoi upto)) (unsigned 16 (atoi from)))) [
                      | inl less ↦ rw (range, set_source_ports, inside, less) tt
                      | inr ordered ↦
                          rw (range, set_source_ports, inside, ordered)
                            (
                              sizes,
                              (ok, (ltb-false→le _ _ ordered, (unsigned_lt (atoi upto), rest))),
                            )
                    ]
              ]
    ]

pub set_target_port-Ends :
    (arg : Option ℤ) (c : Context) → Sized c → Ends Sized (set_target_port arg c)
unfolding set_target_port
set_target_port-Ends none c s = tt
set_target_port-Ends (some port) c (sizes, (ok, (first, (last, (target, rest))))) =
    elim (Bool-cases (in_range port 0 0xFFFF)) [
      | inl inside ↦ rw inside (sizes, (ok, (first, (last, (unsigned_lt port, rest)))))
      | inr outside ↦ rw outside tt
    ]

pub set_ports-Ends :
    (port_args : Bool) (args : Args) (c : Context)
    → Sized c
    → Ends Sized (set_ports port_args args c)
unfolding set_ports
set_ports-Ends false args c s = s
set_ports-Ends true args c s =
    and_then-Ends Sized Sized (set_source_ports args.source_port c) _
      (set_source_ports-Ends args.source_port c s) (set_target_port-Ends args.target_port)
