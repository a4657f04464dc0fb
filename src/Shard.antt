-- ===== src/Shard.antt =====
-- src/xm_shard.c: one sender's share of the cycle of targets. Widths are the source's: `current` has 64
-- bits, a candidate 32, and both loops run on fuel, where none is a loop that has not ended.
pub mod Next
pub mod Walk
pub mod Orbit
pub mod Landed
pub mod Created
pub mod Widths
pub mod Partition
pub mod Tests
use xmap.Base.{
  ℕ, zero, suc, ◌+◌, ◌-◌, ◌*◌, ◌/◌, ◌%◌, ◌^◌, Option, none, some, ltb, ◌==◌, if◌then◌else◌,
}
use xmap.Cyclic.{Cycle, Gmp}
use xmap.Wblist.{Wblist}
use xmap.Wblist as Wb

-- `struct shard_state`
pub record State : Type 0 where
  pub sent : ℕ
  pub tried_sent : ℕ
  pub blacklisted : ℕ
  pub whitelisted : ℕ
  pub failures : ℕ
  pub first_scanned : ℕ
  pub max_targets : ℕ

-- `struct shard_params`
pub record Params : Type 0 where
  pub first : ℕ
  pub last : ℕ
  pub factor : ℕ
  pub modulus : ℕ

-- `struct xm_shard_t`
pub record Shard : Type 0 where
  pub state : State
  pub params : Params
  pub current : ℕ
  pub max_index : ℕ
  pub wblist : Wblist

-- One turn of the loop in `shard_get_next_elem`.
abbrev pub next_power : Params → ℕ → ℕ
next_power params current = current * params.factor % 2 ^ 64 % params.modulus

-- `shard_get_next_elem`: the next element below 2^32.
unfoldable pub get_next_elem : ℕ → Params → ℕ → Option ℕ
get_next_elem zero params current = none
get_next_elem (suc fuel) params current =
    let stepped = next_power params current in
    let later = get_next_elem fuel params stepped in
    if ltb stepped (2 ^ 32) then some stepped else later

abbrev whitelisted_one : Shard → Shard
whitelisted_one s =
    let state = s.state in
    record s { state = record state { whitelisted = (state.whitelisted + 1) % 2 ^ 32 } }

abbrev blacklisted_one : Shard → Shard
blacklisted_one s =
    let state = s.state in
    record s { state = record state { blacklisted = (state.blacklisted + 1) % 2 ^ 32 } }

module _ (ntohl : ℕ → ℕ) where
  -- `xm_shard_get_cur_ip`; the subtraction wraps around at 2^64.
  unfoldable pub get_cur_ip : Shard → Option ℕ × Shard
  get_cur_ip shard =
      let (ip, wblist) =
        Wb.lookup_index ntohl shard.wblist ((shard.current + 2 ^ 64 - 1) % 2 ^ 64) in
      (ip, record shard { wblist = wblist })

  -- The end of a turn of `xm_shard_get_next_ip` at a valid candidate.
  unfoldable pub accept : Shard → ℕ → Option ℕ × Shard
  accept shard candidate =
      let counted = whitelisted_one shard in
      let (ip, wblist) = Wb.lookup_index ntohl counted.wblist ((candidate + 2 ^ 32 - 1) % 2 ^ 32) in
      (ip, record counted { wblist = wblist })

  -- The loop of `xm_shard_get_next_ip`.
  unfoldable pub next_ip_loop : ℕ → Shard → Option ℕ × Shard
  next_ip_loop zero s = (none, s)
  next_ip_loop (suc fuel) s = elim (get_next_elem fuel s.params s.current) [
    | none ↦ (none, s)
    | some candidate ↦
        let at = record s { current = candidate } in
        let later = next_ip_loop fuel (blacklisted_one at) in
        if candidate == s.params.last
        then (some 0, record at { current = 0 })
        else if ltb ((candidate + 2 ^ 32 - 1) % 2 ^ 32) s.max_index
        then accept at candidate
        else later
  ]

  -- `xm_shard_get_next_ip`; XM_SHARD_DONE is 0.
  unfoldable pub get_next_ip : ℕ → Shard → Option ℕ × Shard
  get_next_ip fuel s = if s.current == 0 then (some 0, s) else next_ip_loop fuel s

  -- `shard_roll_to_valid`
  unfoldable pub roll_to_valid : ℕ → Shard → Option ℕ × Shard
  roll_to_valid fuel s =
      if ltb ((s.current + 2 ^ 64 - 1) % 2 ^ 64) s.max_index
      then (some (s.current % 2 ^ 32), s)
      else get_next_ip fuel s

  -- The share of a sender: `sub_idx` and the exponents at which `xm_shard_create` starts and stops.
  unfoldable pub sub_index : ℕ → ℕ → ℕ → ℕ
  sub_index shard_idx num_threads thread_idx = (shard_idx * num_threads + thread_idx) % 2 ^ 32

  unfoldable pub exponent_begin : Cycle → ℕ → ℕ → ℕ
  exponent_begin cycle num_subshards sub_idx =
      (cycle.order / num_subshards * sub_idx + cycle.offset) % 2 ^ 64 % cycle.order

  unfoldable pub exponent_end : Cycle → ℕ → ℕ → ℕ
  exponent_end cycle num_subshards sub_idx =
      (cycle.order / num_subshards * ((sub_idx + 1) % 2 ^ 32 % num_subshards) + cycle.offset)
      % 2 ^ 64
      % cycle.order

  -- `max_targets_this_shard`
  unfoldable pub targets_of : ℕ → ℕ → ℕ → ℕ
  targets_of max_total_targets num_subshards sub_idx =
      let share = max_total_targets / num_subshards in
      if ltb sub_idx (max_total_targets % num_subshards) then share + 1 else share

  -- `xm_shard_create`, in memory that holds the counters of `unset`; none is a division by zero.
  unfoldable pub create : Gmp → ℕ → State → ℕ → ℕ → ℕ → ℕ → ℕ → ℕ → Cycle → Wblist → Option Shard
  create gmp fuel unset shard_idx num_shards thread_idx num_threads max_total_targets max_index
        cycle wblist =
      let num_subshards = num_shards * num_threads % 2 ^ 32 in
      let sub_idx = sub_index shard_idx num_threads thread_idx in
      let group = cycle.group in
      let first =
        gmp.powm cycle.generator (exponent_begin cycle num_subshards sub_idx) group.prime
        % 2 ^ 64 in
      let last =
        gmp.powm cycle.generator (exponent_end cycle num_subshards sub_idx) group.prime % 2 ^ 64 in
      let shard =
        (roll_to_valid fuel (record {
          state =
              if ltb 0 max_total_targets
              then record unset { max_targets = targets_of max_total_targets num_subshards sub_idx }
              else unset;
          params = record {
            first = first;
            last = last;
            factor = cycle.generator;
            modulus = group.prime;
          };
          current = first;
          max_index = max_index;
          wblist = wblist;
        })).1 in
      if num_subshards == 0 then none else some shard
