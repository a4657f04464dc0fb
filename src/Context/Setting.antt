-- ===== src/Context/Setting.antt =====
-- `_context_set` of src/xm_context.c: the options of the command line are checked and set one after the
-- other. An int is a signed number; what the interfaces of the machine answer is a parameter.
use xmap.Base.{
  ℕ, ◌+◌, ◌-◌, ◌*◌, ◌%◌, ◌^◌, Bool, false, ◌&&◌, Option, none, List, [], ◌∷◌, ltb, leb, ◌==◌,
  if◌then◌else◌, replicate, min,
}
use xmap.Base.Int.{ℤ, pos, negsuc, leb_ℤ}
use xmap.Wblist.{Wblist, Item}
use xmap.Context.{Inet}
use xmap.Context.Mac.{space}

-- The fields of `struct xm_context_t` that the checks are about; source_ips are the first
-- number_source_ips addresses, sent_max_targets is `xsend.max_targets`.
pub record Context : Type 0 where
  pub num_retries : ℤ
  pub shm_fsize : ℕ
  pub shm_fentry_size : ℕ
  pub shm_flush_timeout : ℕ
  pub source_port_first : ℕ
  pub source_port_last : ℕ
  pub target_port : ℕ
  pub source_ips : List ℕ
  pub gw_mac : List ℕ
  pub gw_mac_set : Bool
  pub gw_ip : ℕ
  pub hw_mac : List ℕ
  pub hw_mac_set : Bool
  pub send_ip_pkts : Bool
  pub seed : ℕ
  pub seed_provided : Bool
  pub shard_num : ℕ
  pub total_shards : ℕ
  pub bandwidth : ℕ
  pub max_targets : ℕ
  pub wblist : Option Wblist
  pub total_allowed : ℕ
  pub total_disallowed : ℕ
  pub sent_max_targets : ℕ
  pub senders : ℕ

-- `_context_init`, on memory that is zero.
unfoldable pub context_init : Context
context_init = record {
  num_retries = pos 0;
  shm_fsize = 0;
  shm_fentry_size = 0;
  shm_flush_timeout = 0;
  source_port_first = 32768;
  source_port_last = 61000;
  target_port = 0;
  source_ips = [];
  gw_mac = replicate 6 0;
  gw_mac_set = false;
  gw_ip = 0;
  hw_mac = replicate 6 0;
  hw_mac_set = false;
  send_ip_pkts = false;
  seed = 0;
  seed_provided = false;
  shard_num = 0;
  total_shards = 0;
  bandwidth = 0;
  max_targets = 0xFFFFFFFF;
  wblist = none;
  total_allowed = 0;
  total_disallowed = 0;
  sent_max_targets = 0;
  senders = 1;
}

-- The options that are given. For max_targets it is what `xm_parse_max_hosts` makes of the option; the
-- lists' entries are those of `xm_wblist_create`.
pub record Args : Type 0 where
  pub interface_send : Bool
  pub iplayer : Bool
  pub retries : Option ℤ
  pub shm_fsize : Option ℤ
  pub shm_fentry_size : Option ℤ
  pub shm_flush_timeout : Option ℤ
  pub source_port : Option (List ℕ)
  pub target_port : Option ℤ
  pub source_ip : Option (List ℕ)
  pub gateway_mac : Option (List ℕ)
  pub source_mac : Option (List ℕ)
  pub seed : Option ℕ
  pub shard : Option ℤ
  pub shards : Option ℤ
  pub bandwidth : Option (List ℕ)
  pub max_targets : Option ℕ
  pub whitelist_file : Option (Option (List (Option Item)))
  pub blacklist_file : Option (Option (List (Option Item)))
  pub inputs : List Item
  pub sender_threads : Option ℤ

-- What the machine answers: none is a failure; whether there is a probe of the given name and an
-- interface by default. `unset` is what `xm_wblist_create` finds in
-- memory that nothing was written to.
pub record Host : Type 0 where
  pub inet : Inet
  pub unset : ℕ
  pub probe_found : Bool
  pub default_iface : Bool
  pub iface_ip : Option ℕ
  pub default_gw : Option ℕ
  pub hw_addr : ℕ → Option (List ℕ)
  pub iface_hw_addr : Option (List ℕ)
  pub random_seed : Option ℕ
  pub aesrand : ℕ → Bool
  pub send_interface : Bool
  pub recv_interface : Bool

-- How a check ends: the function returns -1, the process exits, a loop has not ended, or it goes on.
pub data Outcome : Type 0 where
  refused : Outcome
  exits : Outcome
  unfinished : Outcome
  done : Context → Outcome

-- The rest, after a check.
unfoldable pub and_then : Outcome → (Context → Outcome) → Outcome
and_then refused rest = refused
and_then exits rest = exits
and_then unfinished rest = unfinished
and_then (done context) rest = rest context

-- What an int is in an unsigned field of w bits.
unfoldable pub unsigned : ℕ → ℤ → ℕ
unsigned w (pos n) = n % 2 ^ w
unsigned w (negsuc n) = (2 ^ w - (n + 1) % 2 ^ w) % 2 ^ w

-- `xm_check_range`, on which `xm_enforce_range` exits.
unfoldable pub in_range : ℤ → ℕ → ℕ → Bool
in_range v lo hi = leb_ℤ (pos lo) v && leb_ℤ v (pos hi)

-- `atoi`: the long that `strtol` finds, which is at most 2^63 - 1 (for a minus sign, 2^63), as an int.
unfoldable pub digits_value : List ℕ → ℕ → ℕ
digits_value [] acc = acc
digits_value (c ∷ s) acc =
    let later = digits_value s (acc * 10 + (c - 48)) in if leb 48 c && leb c 57 then later else acc

unfoldable pub skip_spaces : List ℕ → List ℕ
skip_spaces [] = []
skip_spaces (c ∷ s) = let rest = skip_spaces s in if space c then rest else c ∷ s

unfoldable pub to_int : ℕ → ℤ
to_int n = let low = n % 2 ^ 32 in if ltb low (2 ^ 31) then pos low else negsuc (2 ^ 32 - low - 1)

unfoldable pub signed_value : List ℕ → ℤ
signed_value [] = pos 0
signed_value (c ∷ s) =
    if c == 45
    then to_int (2 ^ 64 - min (digits_value s 0) (2 ^ 63))
    else if c == 43
    then to_int (min (digits_value s 0) (2 ^ 63 - 1))
    else to_int (min (digits_value (c ∷ s) 0) (2 ^ 63 - 1))

unfoldable pub atoi : List ℕ → ℤ
atoi s = signed_value (skip_spaces s)
