-- ===== src/Send/Creation.antt =====
-- `_create_shard` of src/xm_send_task.c: what a sending task is given to walk through.
use xmap.Base.{ℕ, ◌-◌, ◌%◌, ◌^◌, Option, none, some, ltb, if◌then◌else◌}
use xmap.Cyclic.{Gmp, groups, get_cyclic_group, make_cycle}
use xmap.Shard.{Shard, State}
use xmap.Shard as Walked
use xmap.Wblist.{Wblist, count_allowed}

-- What the function reads of the context, with the random words of the cycle.
pub record Share : Type 0 where
  pub shard_num : ℕ
  pub total_shards : ℕ
  pub senders : ℕ
  pub max_targets : ℕ
  pub word_1 : ℕ
  pub word_2 : ℕ

-- The maximal index for a number of addresses.
unfoldable pub max_index_of : ℕ → ℕ
max_index_of num_addrs = if ltb (2 ^ 32) num_addrs then 2 ^ 32 - 1 else num_addrs % 2 ^ 32

-- `_create_shard` with a thread's number, of 8 bits; none is a read outside of the array of groups, a
-- count that was never written, a loop that has not ended, or a division by zero.
unfoldable pub create_shard : (ℕ → ℕ) → Gmp → ℕ → State → Share → Wblist → ℕ → Option Shard
create_shard ntohl gmp fuel unset context wblist thread_idx = elim (count_allowed ntohl wblist) [
  | none ↦ none
  | some num_addrs ↦ elim (get_cyclic_group num_addrs groups) [
    | none ↦ none
    | some group ↦ elim (make_cycle gmp fuel group context.word_1 context.word_2) [
      | none ↦ none
      | some cycle ↦
          Walked.create ntohl gmp fuel unset context.shard_num context.total_shards
            (thread_idx % 2 ^ 8) context.senders context.max_targets (max_index_of num_addrs) cycle
            wblist
    ]
  ]
]
