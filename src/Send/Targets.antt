-- ===== src/Send/Targets.antt =====
-- The sending task of src/xm_send_task.c ends, and sends only where it may.
use xmap.Base.{
  ℕ, zero, suc, ◌+◌, ◌-◌, ◌%◌, ◌^◌, ◌<◌, ◌≤◌, ◌≡◌, refl, ◌∙◌, Bool, true, false, ltb, ltb-false→le,
  Option, some, List, [], ◌∷◌, ◌⊎◌, inl, inr, Bool-cases, arith,
}
use xmap.Shard.{Shard, get_cur_ip}
use xmap.Shard.Walk.{Walks, Walks-state, get_cur_ip-IsTargetOf}
use xmap.Send.Landing.{MaySend, go_to_listed-Lands, next_target-Lands}
use xmap.Send.{
  get_src_ip, SendContext, Machine, SendTask, send_attempts, send_stream, send_streams, finished,
  send_loop, send_task_run,
}

-- All of a list has the property.
abbrev pub All : {A : Type 0} → (A → Type 0) → List A → Type 0
All P [] = Unit
All P (x ∷ xs) = P x × All P xs

-- No more addresses sent to than the maximum, if there is one, and `more` left.
abbrev pub Within : ℕ → Shard → Type 0
Within more shard =
    let state = shard.state in
    (state.max_targets ≡ 0)
    ⊎ ((state.sent + more ≤ state.max_targets) × (state.max_targets < 2 ^ 32))

module _ {Packet : Type 0} (machine : Machine Packet) (context : SendContext)
    (allows : ℕ → Bool) where
  -- A packet that the probe has made, in some buffer, for the i-th stream to an address that may be
  -- sent to, with its words and from its source; the length fits in the buffer.
  abbrev pub IsProbe : ℕ × Packet → Type 0
  IsProbe packet =
      (ip : ℕ) × ((i : ℕ) × ((buf : Packet) × (MaySend machine context allows ip
            × (i < context.packet_streams)
            × (packet.0 ≤ 4096)
            × (packet ≡ (
                let src_ip = get_src_ip machine.ntohl context ip i in
                machine.make_packet buf context.packet_length src_ip ip context.probe_ttl
                  (machine.validate_gen src_ip ip) i)))))

  record Sending (k more : ℕ) (task : SendTask Packet) : Type 0 where
    walks : Walks allows k task.shard
    only : All IsProbe task.handed
    within : Within more task.shard

  send_attempts-Sending :
      (attempts k more length : ℕ) (task : SendTask Packet)
      → IsProbe (length, task.buf)
      → Sending k more task
      → Sending k more (send_attempts machine context attempts length task).1
  unfolding send_attempts
  send_attempts-Sending zero k more length task may s = s
  send_attempts-Sending (suc attempts) k more length task may s =
      let tried : Sending k more
          (record task { handed = (length, task.buf) ∷ task.handed; calls = task.calls + 1 }) =
        record { walks = s.walks; only = (may, s.only); within = s.within } in
      elim (Bool-cases (machine.send task.calls)) [
        | inl ok ↦ rw ok tried
        | inr failed ↦ rw failed (send_attempts-Sending attempts k more length _ may tried)
      ]

  send_stream-Sending :
      (k more length : ℕ) (task : SendTask Packet)
      → IsProbe (length, task.buf)
      → Sending k more task
      → Sending k more (send_stream machine context length task)
  unfolding send_stream
  send_stream-Sending k more length task may s =
      let t = send_attempts-Sending (context.num_retries + 1) k more length task may s in
      elim (Bool-cases (send_attempts machine context (context.num_retries + 1) length task).0) [
        | inl ok ↦ rw ok (record { walks = t.walks; only = t.only; within = t.within })
        | inr failed ↦
            rw failed (record {
              walks = Walks-state allows k _ _ t.walks;
              only = t.only;
              within = t.within;
            })
      ]

  send_streams-Sending :
      (streams i k more ip : ℕ) (task : SendTask Packet)
      → i + streams ≤ context.packet_streams
      → MaySend machine context allows ip
      → Sending k more task
      → Sending k more (send_streams machine context streams i ip task)
  unfolding send_streams
  send_streams-Sending zero i k more ip task few may s = s
  send_streams-Sending (suc streams) i k more ip task few may s =
      let src_ip = get_src_ip machine.ntohl context ip i in
      let packet =
        machine.make_packet task.buf context.packet_length src_ip ip context.probe_ttl
          (machine.validate_gen src_ip ip) i in
      let made : Sending k more (record task { buf = packet.1 }) = record {
        walks = s.walks;
        only = s.only;
        within = s.within;
      } in
      elim (Bool-cases (ltb 4096 packet.0)) [
        | inl long ↦ rw long made
        | inr fits ↦ rw fits (
            send_streams-Sending streams (i + 1) k more ip _ (omega arith) may (
              send_stream-Sending k more packet.0 _
                (ip, (i, (task.buf, (may, omega arith, ltb-false→le _ _ fits, refl)))) made))
      ]

  -- How the task ends: every packet handed over is a probe of an address that may be sent to, and no more
  -- addresses were sent to than the maximum.
  pub record SendsOnly (result : Option (SendTask Packet)) : Type 0 where
    pub done : SendTask Packet
    pub returns : result ≡ some done
    pub only : All IsProbe done.handed
    pub within : Within 0 done.shard

  -- An address to go on with, and fuel for the way: 0, or one from which the last element is ahead.
  abbrev Onward : ℕ → ℕ → Shard → Type 0
  Onward fuel current_ip shard =
      ((current_ip ≡ 0) × (0 < fuel))
      ⊎ ((k : ℕ) × ((k + 3 < fuel)
            × (Walks allows k shard × MaySend machine context allows current_ip)))

  finished-zero :
      (recv_complete over_runtime : Bool) (current_ip : ℕ) (shard : Shard)
      → current_ip ≡ 0
      → finished machine context recv_complete over_runtime current_ip shard ≡ true
  unfolding finished
  finished-zero recv_complete over_runtime current_ip shard zeroed = ground (arith, zeroed)

  finished-Within :
      (recv_complete over_runtime : Bool) (current_ip : ℕ) (shard : Shard)
      → finished machine context recv_complete over_runtime current_ip shard ≡ false
      → Within 0 shard
      → Within 1 shard
  unfolding finished
  finished-Within recv_complete over_runtime current_ip shard going (inl none_set) = inl none_set
  finished-Within recv_complete over_runtime current_ip shard going (inr (le, small)) =
      elim (Bool-cases (ltb 0 shard.state.max_targets)) [
        | inl set ↦ inr (ground (arith, going, set), small)
        | inr unset ↦ inl (ground (arith, unset))
      ]

  -- Counting the address that has been sent to.
  Within-sent :
      (before after : Shard)
      → after.state.sent ≡ (before.state.sent + 1) % 2 ^ 32
      → after.state.max_targets ≡ before.state.max_targets
      → Within 1 before
      → Within 0 after
  Within-sent before after sent max (inl none_set) = inl (max ∙ none_set)
  Within-sent before after sent max (inr (le, small)) = inr (omega arith, omega arith)

  send_loop-SendsOnly :
      (outside : ℕ → Bool × Bool) (fuel turn current_ip : ℕ) (task : SendTask Packet)
      → Onward fuel current_ip task.shard
      → All IsProbe task.handed
      → Within 0 task.shard
      → SendsOnly (send_loop machine context outside fuel turn current_ip task)
  unfolding send_loop
  send_loop-SendsOnly outside zero turn current_ip task onward only within = elim onward [
    | inl (zeroed, h) ↦ absurd (omega arith)
    | inr (k, (h, rest)) ↦ absurd (omega arith)
  ]
  send_loop-SendsOnly outside (suc fuel) turn current_ip task onward only within =
      elim (Bool-cases
        (finished machine context (outside turn).0 (outside turn).1 current_ip task.shard)) [
          | inl end ↦ rw end (record { done = task; returns = refl; only = only; within = within })
          | inr going ↦ elim onward [
            | inl (zeroed, _) ↦
                let end =
                  finished-zero (outside turn).0 (outside turn).1 current_ip task.shard zeroed in
                cc
            | inr (k, (h, (walks, may))) ↦
                let sent =
                  send_streams-Sending context.packet_streams 0 k 1 current_ip task (omega arith)
                    may
                    (record {
                      walks = walks;
                      only = only;
                      within =
                          finished-Within (outside turn).0 (outside turn).1 current_ip task.shard
                            going within;
                    }) in
                let lands =
                  next_target-Lands machine context allows fuel k _ (omega arith) sent.walks in
                let streamed =
                  send_streams machine context context.packet_streams 0 current_ip task in
                let counted =
                  Within-sent streamed.shard lands.after lands.sent lands.max_targets sent.within in
                rw (going, lands.returns)
                  (elim lands.outcome [
                    | inl cleanup ↦
                        rw cleanup
                          (record { done = _; returns = refl; only = sent.only; within = counted })
                    | inr (inl done) ↦ rw done (
                        send_loop-SendsOnly outside fuel (turn + 1) 0 _ (inl (refl, omega arith))
                          sent.only counted)
                    | inr (inr (ip, (e, (j, (lt, (ahead, next)))))) ↦ rw e (
                        send_loop-SendsOnly outside fuel (turn + 1) ip _
                          (inr (j, (omega arith, (ahead, next)))) sent.only counted)
                  ])
          ]
        ]

  -- The task ends, and whatever the interface, the clock and the other threads do, each packet that
  -- it has handed over is what the probe makes, in some buffer, for a stream to an address, in network
  -- order, that the white and black list allows and that is on the list of addresses, if there is one,
  -- and from the source that the task takes for it, and is no longer than 4096 bytes; if there is a maximum, it has
  -- counted no more addresses than that as sent to. This is so for a shard that is at an element in
  -- its range, has sent nothing yet, and whose last element is at most k + 1 steps ahead, with more
  -- fuel than k + 3.
  pub send_task_run-SendsOnly :
      (outside : ℕ → Bool × Bool) (fuel k : ℕ) (shard : Shard) (buf : Packet)
      → k + 3 < fuel
      → Walks allows k shard
      → (shard.current + 2 ^ 64 - 1) % 2 ^ 64 < shard.max_index
      → shard.state.sent ≡ 0
      → shard.state.max_targets < 2 ^ 32
      → SendsOnly (send_task_run machine context outside fuel shard buf)
  unfolding send_task_run get_cur_ip
  send_task_run-SendsOnly outside fuel k shard buf h walks low fresh small =
      let (ip, (found, (target, first))) =
        get_cur_ip-IsTargetOf machine.ntohl allows k shard walks low in
      let lands =
        go_to_listed-Lands machine context allows fuel k ip _ (omega arith) first target in
      let counted : Within 0 lands.after =
        inr (omega (arith, lands.sent, fresh), omega (arith, lands.max_targets)) in
      rw (found, lands.returns, send_task_run)
        (elim lands.outcome [
          | inl cleanup ↦
              rw cleanup (record { done = _; returns = refl; only = tt; within = counted })
          | inr (inl done) ↦
              rw done (send_loop-SendsOnly outside fuel 0 0 _ (inl (refl, omega arith)) tt counted)
          | inr (inr (next, (e, (j, (lt, (ahead, may)))))) ↦ rw e (
              send_loop-SendsOnly outside fuel 0 next _ (inr (j, (omega arith, (ahead, may)))) tt
                counted)
        ])
