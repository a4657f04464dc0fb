-- ===== src/Recv.antt =====
-- src/xm_recv_task.c: what the receiving task does with a packet, and its loop. What other threads and
-- the clock decide comes with each packet or poll: whether sending is complete, the time, and what
-- happens to the ring while a record is put into it, with as many attempts as the put makes.
pub mod Unique
pub mod Finish
mod Tests
use xmap.Base.{
  ℕ, ◌+◌, ◌-◌, ◌*◌, ◌%◌, ◌^◌, Bool, true, false, ◌&&◌, not, ltb, leb, ◌==◌, if◌then◌else◌, Option,
  none, some, List, [], ◌∷◌,
}
use xmap.Base.Bits.{test_bit}
use xmap.Pbm.{Bitmap, check, set}
use xmap.Probe.{ByteOrder, Received, Verdict}
use xmap.Probe.Table.{Probe, probe_ip_store}
use xmap.Shm.{Header}
use xmap.Store.{Store, Token, store_flush}

-- The counters of `xrecv` that the task counts.
pub record XRecv : Type 0 where
  pub success_total : ℕ
  pub success_unique : ℕ
  pub cooldown_total : ℕ
  pub cooldown_unique : ℕ
  pub filter_success : ℕ
  pub ip_fragments : ℕ
  pub validation_passed : ℕ
  pub validation_failed : ℕ
  pub complete : Bool

-- What the task reads of the context.
pub record RecvContext : Type 0 where
  pub data_link_size : ℕ
  pub send_ip_pkts : Bool
  pub filter_duplicates : Bool
  pub max_results : ℕ
  pub probe : Probe

-- `struct xm_recv_task_t`, with the counters.
pub record RecvTask : Type 0 where
  pub seen : Bitmap
  pub xstore : Store
  pub xrecv : XRecv

-- A packet: what its memory holds at an offset, its length, and what is so when it is handled.
pub record Arrival : Type 0 where
  pub pkt_at : ℕ → Received
  pub pkt_len : ℕ
  pub send_complete : Bool
  pub attempts : List (ℕ × (Header → Header))
  pub time : ℕ

abbrev inc : ℕ → ℕ
inc counter = (counter + 1) % 2 ^ 32

-- The counters of a packet that is valid.
unfoldable pub count_valid : XRecv → Bool → Bool → Bool → XRecv
count_valid xrecv more_fragments is_repeat send_complete = record xrecv {
  validation_passed = inc xrecv.validation_passed;
  ip_fragments = if more_fragments then inc xrecv.ip_fragments else xrecv.ip_fragments;
  success_total = inc xrecv.success_total;
  success_unique = if is_repeat then xrecv.success_unique else inc xrecv.success_unique;
  cooldown_total = if send_complete then inc xrecv.cooldown_total else xrecv.cooldown_total;
  cooldown_unique =
      if send_complete && not is_repeat then inc xrecv.cooldown_unique else xrecv.cooldown_unique;
}

module _ (order : ByteOrder) (validate_gen : ℕ → ℕ → ℕ → ℕ) (packed : List Token → List ℕ)
    (context : RecvContext) where
  -- Whether the buffer holds the two headers, and the call of `probe_validate_packet`.
  unfoldable pub long_enough : Arrival → Bool
  long_enough arrival = not (ltb arrival.pkt_len (20 + context.data_link_size))

  unfoldable pub validate_packet : Arrival → Verdict
  validate_packet arrival =
      let received = arrival.pkt_at context.data_link_size in
      let ip_hdr = received.ip in
      let ether = if context.send_ip_pkts then 0 else 14 in
      context.probe.probe_validate_packet received ((arrival.pkt_len - ether) % 2 ^ 32)
        ip_hdr.ip_src (validate_gen ip_hdr.ip_dst ip_hdr.ip_src)

  -- The end of `_recv_packet_handle`: the result is packed and flushed. The probe reads the packet
  -- behind an Ethernet header, which is made up where packets have none.
  unfoldable pub store_result : Store → Arrival → Store
  store_result xstore arrival =
      let received = arrival.pkt_at context.data_link_size in
      let behind_ether = if context.send_ip_pkts then received else arrival.pkt_at 14 in
      let stored = probe_ip_store order context.probe xstore received.ip in
      (store_flush packed arrival.attempts arrival.time context.probe.probe_type
        (context.probe.probe_process_packet stored behind_ether)).1

  -- `_recv_packet_handle`; IP_MF is tested in the field as it is in memory.
  unfoldable pub recv_packet_handle : RecvTask → Arrival → RecvTask
  recv_packet_handle task arrival =
      let xrecv = task.xrecv in
      let verdict = validate_packet arrival in
      let src = order.htonl verdict.sip in
      let is_repeat = check task.seen src in
      let more_fragments = test_bit (arrival.pkt_at context.data_link_size).ip.ip_off 0x2000 in
      let counted = count_valid xrecv more_fragments is_repeat arrival.send_complete in
      let marked = if is_repeat then task.seen else set task.seen src in
      if not (long_enough arrival)
      then task
      else if not verdict.valid
      then record task { xrecv = record xrecv { validation_failed = inc xrecv.validation_failed } }
      else if is_repeat && context.filter_duplicates
      then record task { seen = marked; xrecv = counted }
      else record task {
        seen = marked;
        xrecv = record counted { filter_success = inc xrecv.filter_success };
        xstore = store_result task.xstore arrival;
      }

  -- A call of the interface's `receive`, which hands over packets one after the other.
  unfoldable pub receive : RecvTask → List Arrival → RecvTask
  receive task [] = task
  receive task (arrival ∷ arrivals) = receive (recv_packet_handle task arrival) arrivals

  -- The loop of `_recv_task_run`, over the calls of `receive`; a call comes with whether sending is
  -- complete and the cooldown over after it. none: the loop has not ended.
  unfoldable pub recv_loop : ℕ → RecvTask → List (List Arrival × Bool) → Option RecvTask
  recv_loop max_results task [] = none
  recv_loop max_results task ((arrivals, over) ∷ polls) =
      let after = receive task arrivals in
      let rest = recv_loop max_results after polls in
      if ltb 0 max_results && leb max_results after.xrecv.filter_success
      then some after
      else if over
      then some after
      else rest

  -- `_recv_task_run`: without a maximum the context's is set to -1, of 32 bits.
  unfoldable pub recv_task_run : RecvTask → List (List Arrival × Bool) → Option RecvTask
  recv_task_run task polls =
      let max_results = if context.max_results == 0 then 2 ^ 32 - 1 else context.max_results in
      elim (recv_loop max_results task polls) [
        | none ↦ none
        | some done ↦
            let xrecv = done.xrecv in
            some (record done { xrecv = record xrecv { complete = true } })
      ]
