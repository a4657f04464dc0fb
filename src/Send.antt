-- ===== src/Send.antt =====
-- src/xm_send_task.c: the sending task without its timing. The interface's `send`, `xm_validate_gen`
-- and the probe's `probe_make_packet` are parameters; what other threads and the clock decide comes
-- with the number of the turn. Fuel bounds the loops, where none is a loop that has not ended.
pub mod Creation
pub mod Shares
pub mod Landing
pub mod Targets
mod Tests
use xmap.Base.{
  ℕ, zero, suc, ◌+◌, ◌*◌, ◌%◌, ◌^◌, Bool, true, false, ◌&&◌, ◌||◌, not, ltb, leb, ◌==◌,
  if◌then◌else◌, Option, none, some, List, [], ◌∷◌,
}
use xmap.Pbm.{Bitmap, check}
use xmap.Shard.{Shard, get_cur_ip, get_next_ip}

-- What the task reads of the context; the bitmap is there if there is a list of addresses.
pub record SendContext : Type 0 where
  pub number_source_ips : ℕ
  pub source_ip_addresses : ℕ → ℕ
  pub srcip_offset : ℕ
  pub packet_streams : ℕ
  pub num_retries : ℕ
  pub probe_ttl : ℕ
  pub packet_length : ℕ
  pub list_of_ips_pbm : Option Bitmap

-- `get_src_ip`
unfoldable pub get_src_ip : (ℕ → ℕ) → SendContext → ℕ → ℕ → ℕ
get_src_ip ntohl context dst local_offset =
    if context.number_source_ips == 1
    then context.source_ip_addresses 0
    else context.source_ip_addresses
        ((ntohl dst + context.srcip_offset + local_offset) % 2 ^ 32 % context.number_source_ips)

-- The interface and the probe: whether the n-th call of `send` succeeds, and the packet that is made in
-- the buffer for a length, with the length that the probe leaves.
pub record Machine (Packet : Type 0) : Type 0 where
  pub ntohl : ℕ → ℕ
  pub send : ℕ → Bool
  pub validate_gen : ℕ → ℕ → ℕ → ℕ
  pub make_packet : Packet → ℕ → ℕ → ℕ → ℕ → (ℕ → ℕ) → ℕ → ℕ × Packet

-- The task's shard, its buffer and `idx`, and what the interface has been handed: each packet after
-- its length, the last one first. Where packets have no Ethernet header, the interface is handed what
-- is behind its 14 bytes.
pub record SendTask (Packet : Type 0) : Type 0 where
  pub shard : Shard
  pub buf : Packet
  pub idx : ℕ
  pub handed : List (ℕ × Packet)
  pub calls : ℕ

module _ {Packet : Type 0} (machine : Machine Packet) (context : SendContext) where
  -- The loop over the attempts at a packet of some length: whether one of them was successful.
  unfoldable pub send_attempts : ℕ → ℕ → SendTask Packet → Bool × SendTask Packet
  send_attempts zero length task = (false, task)
  send_attempts (suc attempts) length task =
      let tried = record task {
        handed = (length, task.buf) ∷ task.handed;
        calls = task.calls + 1;
      } in
      let rest = send_attempts attempts length tried in
      if machine.send task.calls then (true, tried) else rest

  abbrev failed_one : Shard → Shard
  failed_one shard =
      let state = shard.state in
      record shard { state = record state { failures = (state.failures + 1) % 2 ^ 32 } }

  -- The body of the loop over the streams behind the test of the length.
  unfoldable pub send_stream : ℕ → SendTask Packet → SendTask Packet
  send_stream length task =
      let (any_sends_successful, tried) = send_attempts (context.num_retries + 1) length task in
      let shard = tried.shard in
      record tried {
        shard = if any_sends_successful then shard else failed_one shard;
        idx = (tried.idx + 1) % 2 ^ 8;
      }

  -- The loop over the streams from the i-th one on.
  unfoldable pub send_streams : ℕ → ℕ → ℕ → SendTask Packet → SendTask Packet
  send_streams zero i ip task = task
  send_streams (suc streams) i ip task =
      let src_ip = get_src_ip machine.ntohl context ip i in
      let (length, buf) =
        machine.make_packet task.buf context.packet_length src_ip ip context.probe_ttl
          (machine.validate_gen src_ip ip) i in
      let made = record task { buf = buf } in
      let rest = send_streams streams (i + 1) ip (send_stream length made) in
      if ltb 4096 length then made else rest

  abbrev pub tried_one : Shard → Shard
  tried_one shard =
      let state = shard.state in
      record shard { state = record state { tried_sent = (state.tried_sent + 1) % 2 ^ 32 } }

  abbrev pub sent_one : Shard → Shard
  sent_one shard =
      let state = shard.state in
      record shard {
        state = record state {
          sent = (state.sent + 1) % 2 ^ 32;
          tried_sent = (state.tried_sent + 1) % 2 ^ 32;
        };
      }

  -- The loops that go on to an address of the list; none behind the address is `goto cleanup`.
  unfoldable pub listed_loop : Bitmap → ℕ → ℕ → Shard → Option (Option ℕ × Shard)
  listed_loop pbm zero current_ip shard = none
  listed_loop pbm (suc fuel) current_ip shard =
      if check pbm current_ip
      then some (some current_ip, shard)
      else (let (ip, after) = get_next_ip machine.ntohl fuel shard in
          elim ip [
            | none ↦ none
            | some next ↦
                let rest = listed_loop pbm fuel next (tried_one after) in
                if next == 0 then some (none, tried_one after) else rest
          ])

  unfoldable pub go_to_listed : ℕ → ℕ → Shard → Option (Option ℕ × Shard)
  go_to_listed fuel current_ip shard = elim context.list_of_ips_pbm [
    | none ↦ some (some current_ip, shard)
    | some pbm ↦ listed_loop pbm fuel current_ip shard
  ]

  -- The ways to finish that the loop tests, in their order.
  unfoldable pub finished : Bool → Bool → ℕ → Shard → Bool
  finished recv_complete over_runtime current_ip shard =
      let state = shard.state in
      recv_complete
      || ((ltb 0 state.max_targets
            && (leb state.max_targets state.sent || leb state.max_targets state.tried_sent))
          || (over_runtime || current_ip == 0))

  -- The end of a turn, after the address has been sent to.
  unfoldable pub next_target : ℕ → Shard → Option (Option ℕ × Shard)
  next_target fuel shard =
      let (ip, after) = get_next_ip machine.ntohl fuel (sent_one shard) in
      elim ip [
        | none ↦ none
        | some next ↦ if next == 0 then some (some 0, after) else go_to_listed fuel next after
      ]

  -- The loop of `_send_task_run`.
  unfoldable pub send_loop :
      (ℕ → Bool × Bool) → ℕ → ℕ → ℕ → SendTask Packet → Option (SendTask Packet)
  send_loop outside zero turn current_ip task = none
  send_loop outside (suc fuel) turn current_ip task =
      if finished (outside turn).0 (outside turn).1 current_ip task.shard
      then some task
      else (let sent = send_streams context.packet_streams 0 current_ip task in
          elim (next_target fuel sent.shard) [
            | none ↦ none
            | some (none, shard) ↦ some (record sent { shard = shard })
            | some (some next, shard) ↦
                send_loop outside fuel (turn + 1) next (record sent { shard = shard })
          ])

  -- `_send_task_run`, from the buffer of `probe_thread_init` on.
  unfoldable pub send_task_run : (ℕ → Bool × Bool) → ℕ → Shard → Packet → Option (SendTask Packet)
  send_task_run outside fuel shard buf =
      let (ip, after) = get_cur_ip machine.ntohl shard in
      elim ip [
        | none ↦ none
        | some current_ip ↦ elim (go_to_listed fuel current_ip after) [
          | none ↦ none
          | some (none, listed) ↦
              some (record { shard = listed; buf = buf; idx = 0; handed = []; calls = 0 })
          | some (some first, listed) ↦
              send_loop outside fuel 0 first
                (record { shard = listed; buf = buf; idx = 0; handed = []; calls = 0 })
        ]
      ]
