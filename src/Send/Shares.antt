-- ===== src/Send/Shares.antt =====
-- What a sending task of src/xm_send_task.c is given by `_create_shard`: the list's addresses decide the
-- group, the random words its generator, and the shard walks through the powers of it.
use xmap.Base.{
  Bool, ◌⊎◌, ◌∙◌, ℕ, ◌-◌, ◌*◌, ◌%◌, ◌^◌, ◌≤◌, ◌<◌, ◌≡◌, refl, ap, true, some, ltb, get_elem?, arith,
  inl, inr, Bool-cases, ltb→lt, Option,
}
use xmap.Base.Tally.{tally}
use xmap.Iptree.Lookup.{has_value}
use xmap.Iptree.Paint.{count_ips-eq-tally}
use xmap.Cyclic.{CyclicGroup, Gmp, groups, get_cyclic_group}
use xmap.Cyclic.Candidate.{small_groups}
use xmap.Cyclic.Made.{make_cycle-Turns}
use xmap.Wblist.{Wblist, allowed, count_allowed}
use xmap.Wblist.Laws.{IsReady}
use xmap.Shard.{State, Shard}
use xmap.Shard.Created.{Ready, Ready-within, create-Ready}
use xmap.Send.{Machine, SendContext, send_task_run}
use xmap.Send.Targets.{SendsOnly, send_task_run-SendsOnly}
use xmap.Send.Creation.{Share, max_index_of, create_shard}

-- The group that is chosen for a number of addresses.
record Chosen (num_addrs : ℕ) (result : Option CyclicGroup) : Type 0 where
  group : CyclicGroup
  returns : result ≡ some group
  i : ℕ
  of : get_elem? small_groups i ≡ some group
  enough : num_addrs < group.prime
  largest : group.prime ≤ 268435459

get_cyclic_group-Chosen :
    (num_addrs : ℕ) → num_addrs < 268435459 → Chosen num_addrs (get_cyclic_group num_addrs groups)
unfolding get_cyclic_group
get_cyclic_group-Chosen n h = elim (Bool-cases (ltb n 257)) [
  | inl fits ↦
      let lt : n < 257 = ltb→lt _ _ fits in
      rw fits
        (record { group = _; returns = refl; i = 0; of = refl; enough = lt; largest = omega arith })
  | inr more ↦ elim (Bool-cases (ltb n 65537)) [
    | inl fits ↦
        let lt : n < 65537 = ltb→lt _ _ fits in
        rw (more, fits)
          (record {
            group = _;
            returns = refl;
            i = 1;
            of = refl;
            enough = lt;
            largest = omega arith;
          })
    | inr more' ↦ elim (Bool-cases (ltb n 16777259)) [
      | inl fits ↦
          let lt : n < 16777259 = ltb→lt _ _ fits in
          rw (more, more', fits)
            (record {
              group = _;
              returns = refl;
              i = 2;
              of = refl;
              enough = lt;
              largest = omega arith;
            })
      | inr more'' ↦
          let fits : ltb n 268435459 ≡ true = ground arith in
          rw (more, more', more'', fits)
            (record {
              group = _;
              returns = refl;
              i = 3;
              of = refl;
              enough = h;
              largest = omega arith;
            })
    ]
  ]
]

max_index_of_le : (n : ℕ) → n < 2 ^ 32 → max_index_of n ≤ n
unfolding max_index_of
max_index_of_le n h = ground arith

-- Over a list that is ready and allows fewer than 268435459 addresses, with some shards and senders,
-- as many as 32 bits hold, a shard is created, within
-- 268435468 rounds of each loop, for every thread and every pair of random words. It is done from the
-- start, or it is at an element in its range and its last element is ahead of it.
pub create_shard-Ready :
    (ntohl : ℕ → ℕ) (gmp : Gmp) (fuel : ℕ) (unset : State) (context : Share) (wblist : Wblist)
    (thread_idx : ℕ)
    → IsReady wblist
    → tally (has_value wblist.wb_iptree.root allowed) (2 ^ 32) < 268435459
    → 268435467 < fuel
    → context.max_targets < 2 ^ 32
    → unset.max_targets < 2 ^ 32
    → 0 < context.total_shards * context.senders % 2 ^ 32
    → (shard : Shard) × (create_shard ntohl gmp fuel unset context wblist thread_idx ≡ some shard)
      × Ready ntohl (has_value wblist.wb_iptree.root allowed) 268435457 unset.sent shard
unfolding create_shard count_allowed
create_shard-Ready ntohl gmp fuel unset context wblist thread_idx ready few enough total unset_max
      parts =
    let n = tally (has_value wblist.wb_iptree.root allowed) (2 ^ 32) in
    let count : count_allowed ntohl wblist ≡ some n =
      count_ips-eq-tally wblist.wb_iptree allowed ready.tree in
    let chosen = get_cyclic_group-Chosen n few in
    let made =
      make_cycle-Turns gmp chosen.i fuel chosen.group context.word_1 context.word_2 chosen.of
        (omega (arith, enough, chosen.largest)) in
    let prime : made.cycle.group.prime ≡ chosen.group.prime = ap (λ g. g.prime) made.of in
    let walked =
      create-Ready ntohl (has_value wblist.wb_iptree.root allowed) gmp fuel unset context.shard_num
        context.total_shards (thread_idx % 2 ^ 8) context.senders context.max_targets
        (max_index_of n) made.cycle wblist made.turns (omega (arith, prime, chosen.largest))
        (omega (arith, prime, chosen.largest, made.turns.order, enough))
        (record { ready = record { tree = ready.tree }; same = λ a. refl })
        (max_index_of_le n (omega arith)) total unset_max parts in
    rw (count, create_shard, chosen.returns, made.returns)
      (
        walked.0,
        walked.1.0,
        Ready-within ntohl _ (made.cycle.order - 1) 268435457 unset.sent _
            (omega (arith, prime, chosen.largest, made.turns.order)) walked.1.1,
      )

-- A sending thread from its list to its end. Over a list that is ready and allows fewer than 268435459
-- addresses, with some shards and senders, in memory where nothing is counted as sent, a shard is created;
-- it is done from the start, or the sending task that walks through it ends, and every packet that it has
-- handed over is what the probe makes for an address that the list allows and that is on the list of
-- addresses, if there is one, from the source that the task takes for it.
pub create_shard-SendsOnly :
    {Packet : Type 0} (machine : Machine Packet) (send_context : SendContext)
    (outside : ℕ → Bool × Bool) (gmp : Gmp) (fuel : ℕ) (unset : State) (context : Share)
    (wblist : Wblist) (thread_idx : ℕ) (buf : Packet)
    → IsReady wblist
    → tally (has_value wblist.wb_iptree.root allowed) (2 ^ 32) < 268435459
    → 268435467 < fuel
    → context.max_targets < 2 ^ 32
    → unset.max_targets < 2 ^ 32
    → 0 < context.total_shards * context.senders % 2 ^ 32
    → unset.sent ≡ 0
    → (shard : Shard) × (create_shard machine.ntohl gmp fuel unset context wblist thread_idx
        ≡ some shard)
      × ((shard.current ≡ 0)
          ⊎ SendsOnly machine send_context
              (has_value wblist.wb_iptree.root allowed)
              (send_task_run machine send_context outside fuel shard buf))
create_shard-SendsOnly machine send_context outside gmp fuel unset context wblist thread_idx buf
      ready few enough total unset_max parts nothing =
    let (shard, made, r) =
      create_shard-Ready machine.ntohl gmp fuel unset context wblist thread_idx ready few enough
        total unset_max parts in
    (
      shard,
      made,
      elim r.way [
        | inl done ↦ inl done
        | inr (k, (le, (walks, inside))) ↦ inr (
            send_task_run-SendsOnly machine send_context (has_value wblist.wb_iptree.root allowed)
              outside fuel k shard buf (omega arith) walks inside (r.counts ∙ nothing) r.few)
      ],
    )
