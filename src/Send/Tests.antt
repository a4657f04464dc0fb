-- ===== src/Send/Tests.antt =====
-- A sender over the shard of 257 elements on the network 10.0.0.0/8, with two streams and one retry;
-- a packet is summed up by its addresses.
use xmap.Base.{ℕ, ◌≡◌, refl, ◌+◌, ◌%◌, ◌^◌, Bool, false, none, some, ◌==◌, ◌⊎◌, arith}
use xmap.Iptree.Lookup.{has_value}
use xmap.Wblist.{allowed}
use xmap.Cyclic.{Gmp}
use xmap.Shard.{Shard, State}
use xmap.Shard.Tests.{shard-Walks, tree, shard, same_order, tree-IsConsistent, tree_tally}
use xmap.Send.{SendContext, Machine, send_task_run}
use xmap.Send.Creation.{max_index_of, Share, create_shard}
use xmap.Send.Shares.{create_shard-SendsOnly}
use xmap.Send.Targets.{SendsOnly, send_task_run-SendsOnly}

abbrev machine : Machine (ℕ × ℕ)
machine = record {
  ntohl = same_order;
  send = λ n. n % 3 == 0;
  validate_gen = λ src dst i. src + dst + i;
  make_packet = λ buf length src dst ttl validation probe_num. (length, (src, dst));
}

abbrev context : SendContext
context = record {
  number_source_ips = 1;
  source_ip_addresses = λ i. 5;
  srcip_offset = 0;
  packet_streams = 2;
  num_retries = 1;
  probe_ttl = 255;
  packet_length = 54;
  list_of_ips_pbm = none;
}

abbrev quiet : ℕ → Bool × Bool
quiet turn = (false, false)

send_task_run-SendsOnly_example :
    SendsOnly machine context
      (has_value tree.root allowed)
      (send_task_run machine context quiet 7 shard (0, 0))
send_task_run-SendsOnly_example =
    send_task_run-SendsOnly machine context (has_value tree.root allowed) quiet 7 3 shard (0, 0)
      (omega arith) shard-Walks (omega arith) refl (omega arith)

-- The number of all addresses has no index left.
all_addresses : max_index_of (2 ^ 32) ≡ 0
unfolding max_index_of
all_addresses = refl

abbrev gmp : Gmp
gmp = record { powm = λ b e m. b ^ e % m; powm_lem = λ b e m. refl }

abbrev share : Share
share = record {
  shard_num = 0;
  total_shards = 1;
  senders = 2;
  max_targets = 1000;
  word_1 = 123456;
  word_2 = 77;
}

abbrev unset : State
unset = record {
  sent = 0;
  tried_sent = 0;
  blacklisted = 0;
  whitelisted = 0;
  failures = 0;
  first_scanned = 0;
  max_targets = 0;
}

create_shard-SendsOnly_example :
    (s : Shard) × (create_shard same_order gmp 268435468 unset share (record { wb_iptree = tree }) 1
      ≡ some s)
    × ((s.current ≡ 0)
        ⊎ SendsOnly machine context
            (has_value tree.root allowed)
            (send_task_run machine context quiet 268435468 s (0, 0)))
create_shard-SendsOnly_example =
    create_shard-SendsOnly machine context quiet gmp 268435468 unset share
      (record { wb_iptree = tree }) 1 (0, 0) (record { tree = tree-IsConsistent })
      (omega (arith, tree_tally)) (omega arith) (omega arith) (omega arith) (omega arith) refl
