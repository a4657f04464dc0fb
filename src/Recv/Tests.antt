-- ===== src/Recv/Tests.antt =====
-- A receiver of echo replies, with two replies of one host and one of another.
use xmap.Base.{ℕ, ◌%◌, ◌^◌, ◌≡◌, refl, true, false, List, [], ◌∷◌}
use xmap.Pbm.{init}
use xmap.Pbm.Laws.{check-init}
use xmap.Probe.{zero_ip, zero_tcp, zero_icmp}
use xmap.Probe.Table.{probe_icmp_echo}
use xmap.Probe.Tests.{little_endian, context, generate, store}
use xmap.Recv.{RecvContext, RecvTask, Arrival, receive, recv_task_run}
use xmap.Recv.Unique.{Holds, been, IsUnique, receive-IsUnique, firsts, sources}
use xmap.Recv.Finish.{Reports, recv_task_run-Reports, all_arrivals, some_over}
use xmap.Store.{Token}

abbrev echoes : RecvContext
echoes = record {
  data_link_size = 14;
  send_ip_pkts = false;
  filter_duplicates = true;
  max_results = 0;
  probe = probe_icmp_echo little_endian context generate;
}

abbrev msgpack : List Token → List ℕ
msgpack tokens = 0 ∷ []

-- An echo reply of a host.
abbrev reply : ℕ → Arrival
reply host = record {
  pkt_at = λ i. record {
    ip = record zero_ip { ip_v = 4; ip_hl = 5; ip_p = 1; ip_src = host; ip_dst = 5 };
    tcp_at = λ j. zero_tcp;
    icmp_at = λ j. record zero_icmp {
      icmp_id = generate 5 host 1 % 2 ^ 16;
      icmp_seq = generate 5 host 2 % 2 ^ 16;
    };
    ip_at = λ j. zero_ip;
  };
  pkt_len = 62;
  send_complete = false;
  attempts = (1, λ header. header) ∷ [];
  time = 1;
}

abbrev replies : List Arrival
replies = reply 9 ∷ reply 9 ∷ reply 10 ∷ []

abbrev started : RecvTask
started = record {
  seen = init;
  xstore = store;
  xrecv = record {
    success_total = 0;
    success_unique = 0;
    cooldown_total = 0;
    cooldown_unique = 0;
    filter_success = 0;
    ip_fragments = 0;
    validation_passed = 0;
    validation_failed = 0;
    complete = false;
  };
}

started-Holds : Holds little_endian generate msgpack echoes [] started
unfolding been
started-Holds = record { holds = λ v lt. check-init v }

receive-IsUnique_example :
    IsUnique little_endian generate msgpack echoes started
      (receive little_endian generate msgpack echoes started replies)
      (firsts little_endian generate msgpack echoes [] replies)
      (sources little_endian generate msgpack echoes [] replies)
receive-IsUnique_example =
    receive-IsUnique little_endian generate msgpack echoes [] started replies refl started-Holds

polled_over : some_over ((replies, false) ∷ ([], true) ∷ []) ≡ true
unfolding some_over
polled_over = refl

recv_task_run-Reports_run :
    Reports little_endian generate msgpack echoes [] started
      (recv_task_run little_endian generate msgpack echoes started
        ((replies, false) ∷ ([], true) ∷ []))
      (all_arrivals ((replies, false) ∷ ([], true) ∷ []))
recv_task_run-Reports_run =
    recv_task_run-Reports little_endian generate msgpack echoes [] started
      ((replies, false) ∷ ([], true) ∷ []) refl started-Holds polled_over
