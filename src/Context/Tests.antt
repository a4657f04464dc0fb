-- ===== src/Context/Tests.antt =====
-- A scan that is set up by src/xm_context.c; an address is written as one character.
use xmap.Base.{
  ℕ, ◌%◌, ◌^◌, ◌≡◌, refl, true, false, none, some, List, [], ◌∷◌, ◌++◌, take, arith, length,
  replicate, some_injective, sym, ap,
}
use xmap.Base.Int.{pos}
use native.Mathlib.Nat.{mod-eq_of_lt}
use xmap.Wblist.{address, strtol}
use xmap.Context.{Inet, strchr, dash, comma, parse_source_ip_addresses}
use xmap.Context.Parts.{parts}
use xmap.Context.SourceIps.{denotes, part_denotes, addresses_from, parse_source_ip_addresses-take}
use xmap.Context.Mac.{
  parse_mac, print_octets, parse_mac-print_octets, parse_octets, octet, digit, space,
}
use xmap.Context.Setting.{Args, Host}
use xmap.Context.Checks.{context_create}
use xmap.Context.Stages.{Ends}
use xmap.Context.Addresses.{IsHost}
use xmap.Context.Valid.{IsScan, context_create-IsScan}

abbrev first_char : List ℕ → ℕ
first_char [] = 0
first_char (c ∷ s) = c % 2 ^ 32

abbrev inet : Inet
inet = record {
  inet_addr = first_char;
  inet_ntoa = λ a. a ∷ [];
  ntohl = λ a. a % 2 ^ 32;
  htonl = λ a. a % 2 ^ 32;
}

abbrev given : List ℕ
given = 9 ∷ comma ∷ 2 ∷ dash ∷ 4 ∷ []

parse_source_ip_addresses-take_example :
    parse_source_ip_addresses inet 4294967304 given (take 256 (1 ∷ []))
    ≡ some (take 256 (1 ∷ [] ++ denotes inet (parts given)))
parse_source_ip_addresses-take_example =
    parse_source_ip_addresses-take inet (λ a h. mod-eq_of_lt h) (λ a. omega arith)
      (λ a. omega arith) 4294967304 given (1 ∷ []) (omega arith)

denotes_run : denotes inet (parts given) ≡ 9 ∷ 2 ∷ 3 ∷ 4 ∷ []
unfolding denotes parts part_denotes addresses_from strchr
denotes_run = refl

abbrev mac : List ℕ
mac = 0 ∷ 26 ∷ 43 ∷ 60 ∷ 77 ∷ 255 ∷ []

parse_mac-print_octets_example : parse_mac (print_octets mac) ≡ some mac
parse_mac-print_octets_example =
    parse_mac-print_octets mac refl
      (omega arith, (omega arith, (omega arith, (omega arith, (omega arith, (omega arith, tt))))))

-- A sign or a blank passes for the first digit of an octet.
signed_run :
    parse_mac (
      b'+' ∷ b'1' ∷ b':' ∷ b'-' ∷ b'1' ∷ b':' ∷ b' ' ∷ b'5' ∷ b':' ∷ b'0' ∷ b'0' ∷ b':' ∷ b'0'
      ∷ b'0' ∷ b':' ∷ b'0' ∷ b'0' ∷ [])
    ≡ some (1 ∷ 255 ∷ 5 ∷ 0 ∷ 0 ∷ 0 ∷ [])
unfolding parse_mac parse_octets octet digit space
signed_run = refl

abbrev host : Host
host = record {
  inet = inet;
  unset = 0;
  probe_found = true;
  default_iface = true;
  iface_ip = some 7;
  default_gw = some 1;
  hw_addr = λ ip. some (replicate 6 ip);
  iface_hw_addr = some (replicate 6 3);
  random_seed = some 11;
  aesrand = λ seed. true;
  send_interface = true;
  recv_interface = true;
}

host-IsHost : IsHost host
host-IsHost = record {
  back = λ a h. mod-eq_of_lt h;
  narrow = λ a. omega arith;
  bound = λ a. omega arith;
  hw_addr = λ ip mac e. ap length (some_injective mac (replicate 6 ip) (sym e));
  iface_hw_addr = λ mac e. ap length (some_injective mac (replicate 6 3) (sym e));
}

abbrev args : Args
args = record {
  interface_send = false;
  iplayer = false;
  retries = some (pos 10);
  shm_fsize = none;
  shm_fentry_size = none;
  shm_flush_timeout = none;
  source_port = none;
  target_port = some (pos 80);
  source_ip = some given;
  gateway_mac = none;
  source_mac = some (print_octets mac);
  seed = some 5;
  shard = some (pos 1);
  shards = some (pos 3);
  bandwidth = none;
  max_targets = some 1000;
  whitelist_file = none;
  blacklist_file = none;
  inputs = record { host = address 10; prefix_length = strtol 8 } ∷ [];
  sender_threads = some (pos 4);
}

context_create-IsScan_example : Ends IsScan (context_create host true 4294967304 args)
context_create-IsScan_example =
    context_create-IsScan host true 4294967304 args host-IsHost (omega arith)
