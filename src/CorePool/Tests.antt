-- ===== src/CorePool/Tests.antt =====
-- A pool of four cores with the mask 0xB.
use xmap.Base.{
  ℕ, ◌≢◌, arith, Bool, false, ◌≤◌, ◌<◌, ◌⊎◌, ◌≡◌, refl, ltb, true, none, some, List, [], ◌∷◌,
}
use xmap.CorePool.{
  CorePool, init_cores, core_create, parse_coremask, master_init, bind_tasks, next_core, set_digits,
  set_bits, skip_blanks, skip_prefix, all_zero, isxdigit, xdigit2val,
}
use xmap.CorePool.Binding.{Binds, free_count, bind_tasks-Binds_or_fails}
use xmap.CorePool.Threads.{
  CoreState, waiting, running, finished, SlavePc, at_read, at_state, at_ack, at_test, in_task,
  behind_task, out, Slave, Master, checks, launches, awaits, waits, behind, receives, starts,
  answers, breaks, enters, leaves, finishes, finds_waiting, sends, takes, sees_finished, System,
  update, by_slave, by_master, all_checked, all_launched, all_waited, created, Reach, start, later,
}
use xmap.CorePool.Finish.{wait_for_slaves-runs, wait_for_slaves_endless}
use xmap.CorePool.Mask.{Enables, parse_coremask-Enables}

abbrev four : CorePool
four = record {
  cores = core_create 0 0 ∷ core_create 1 1 ∷ core_create 2 2 ∷ core_create 3 3 ∷ [];
  config_core_count = 0;
  master_core = none;
}

cores_run : init_cores (λ id. ltb id 4) 256 0 0 ≡ four.cores
unfolding init_cores
cores_run = refl

abbrev coremask : List ℕ
coremask = b'0' ∷ b'x' ∷ b'B' ∷ []

abbrev parsed : CorePool
parsed = record {
  cores =
      record (core_create 0 0) { enabled = true }
      ∷ record (core_create 1 1) { enabled = true }
      ∷ core_create 2 2
      ∷ record (core_create 3 3) { enabled = true }
      ∷ [];
  config_core_count = 3;
  master_core = none;
}

parse_run : parse_coremask four (some coremask) ≡ some parsed
unfolding parse_coremask set_digits set_bits skip_blanks skip_prefix all_zero isxdigit xdigit2val
parse_run = refl

parse_coremask-Enables_example : Enables four coremask parsed
parse_coremask-Enables_example = parse_coremask-Enables four parsed coremask parse_run

master_run : master_init parsed ≡ some (record parsed { master_core = some 0 })
unfolding master_init next_core
master_run = refl

-- A sender and a receiver on the two cores that are left to them.
abbrev mastered : CorePool
mastered = record parsed { master_core = some 0 }

bind_tasks-Binds_or_fails_example :
    ((2 ≤ free_count (some 0) mastered.cores)
      × Binds mastered (1 ∷ 7 ∷ []) (bind_tasks mastered (1 ∷ 7 ∷ [])))
    ⊎ ((free_count (some 0) mastered.cores < 2) × (bind_tasks mastered (1 ∷ 7 ∷ []) ≡ none))
bind_tasks-Binds_or_fails_example = bind_tasks-Binds_or_fails (1 ∷ 7 ∷ []) mastered

-- One slave, from the start to the end of xm_core_pool_wait_for_slaves, or to the end of its loop.
abbrev slave : Bool → CoreState → SlavePc → ℕ → ℕ → ℕ → Slave
slave bound state pc to_slave to_master runs = record {
  bound = bound;
  state = state;
  pc = pc;
  master2slave = to_slave;
  slave2master = to_master;
  runs = runs;
}

abbrev first_system : Bool → System
first_system b = record { master = checks 0; slaves = λ i. created b }

abbrev after : System → Master → Slave → System
after sys m s = record { master = m; slaves = update sys.slaves 0 s }

module _ (b : Bool) where
  abbrev sys_1 : System
  sys_1 = after (first_system b) (checks 1) (slave b waiting at_read 0 0 0)

  reach_1 : Reach 1 (λ i. b) sys_1
  reach_1 = later start (
      by_master (first_system b) 0 (checks 1) (slave b waiting at_read 0 0 0) (omega arith)
        (finds_waiting _ refl))

  abbrev sys_2 : System
  sys_2 = record sys_1 { master = launches 0 }

  reach_2 : Reach 1 (λ i. b) sys_2
  reach_2 = later reach_1 (all_checked (sys_1) refl)

  abbrev sys_3 : System
  sys_3 = after (sys_2) (awaits 0) (slave b waiting at_read 1 0 0)

  reach_3 : Reach 1 (λ i. b) sys_3
  reach_3 =
      later reach_2 (
        by_master (sys_2) 0 (awaits 0) (slave b waiting at_read 1 0 0) (omega arith) (sends _ refl))

  abbrev sys_4 : System
  sys_4 = after (sys_3) (awaits 0) (slave b waiting at_state 0 0 0)

  reach_4 : Reach 1 (λ i. b) sys_4
  reach_4 =
      later reach_3
        (by_slave (sys_3) 0 (slave b waiting at_state 0 0 0) (omega arith) (receives _ 0 refl refl))

  abbrev sys_5 : System
  sys_5 = after (sys_4) (awaits 0) (slave b running at_ack 0 0 0)

  reach_5 : Reach 1 (λ i. b) sys_5
  reach_5 =
      later reach_4
        (by_slave (sys_4) 0 (slave b running at_ack 0 0 0) (omega arith) (starts _ refl))

  abbrev sys_6 : System
  sys_6 = after (sys_5) (awaits 0) (slave b running at_test 0 1 0)

  reach_6 : Reach 1 (λ i. b) sys_6
  reach_6 =
      later reach_5
        (by_slave (sys_5) 0 (slave b running at_test 0 1 0) (omega arith) (answers _ refl))

  abbrev sys_7 : System
  sys_7 = after (sys_6) (launches 1) (slave b running at_test 0 0 0)

  reach_7 : Reach 1 (λ i. b) sys_7
  reach_7 = later reach_6 (
      by_master (sys_6) 0 (launches 1) (slave b running at_test 0 0 0) (omega arith)
        (takes _ 0 refl))

  abbrev sys_8 : System
  sys_8 = record sys_7 { master = waits 0 }

  reach_8 : Reach 1 (λ i. b) sys_8
  reach_8 = later reach_7 (all_launched (sys_7) refl)

abbrev sys_9 : System
sys_9 = after (sys_8 true) (waits 0) (slave true running in_task 0 0 0)

reach_9 : Reach 1 (λ i. true) sys_9
reach_9 =
    later (reach_8 true) (
      by_slave (sys_8 true) 0 (slave true running in_task 0 0 0) (omega arith) (enters _ refl refl))

abbrev sys_10 : System
sys_10 = after sys_9 (waits 0) (slave true running behind_task 0 0 1)

reach_10 : Reach 1 (λ i. true) sys_10
reach_10 =
    later reach_9
      (by_slave sys_9 0 (slave true running behind_task 0 0 1) (omega arith) (leaves _ refl))

abbrev sys_11 : System
sys_11 = after sys_10 (waits 0) (slave true finished at_read 0 0 1)

reach_11 : Reach 1 (λ i. true) sys_11
reach_11 =
    later reach_10
      (by_slave sys_10 0 (slave true finished at_read 0 0 1) (omega arith) (finishes _ refl))

abbrev sys_12 : System
sys_12 = after sys_11 (waits 1) (slave true waiting at_read 0 0 1)

reach_12 : Reach 1 (λ i. true) sys_12
reach_12 = later reach_11 (
    by_master sys_11 0 (waits 1) (slave true waiting at_read 0 0 1) (omega arith)
      (sees_finished _ refl))

abbrev sys_13 : System
sys_13 = record sys_12 { master = behind }

reach_13 : Reach 1 (λ i. true) sys_13
reach_13 = later reach_12 (all_waited sys_12 refl)

wait_for_slaves-runs_example : (sys_13.slaves 0).runs ≡ 1
wait_for_slaves-runs_example =
    wait_for_slaves-runs 1 (λ i. true) sys_13 0 reach_13 refl (omega arith)

-- The slave without a task has left its loop.
abbrev sys_out : System
sys_out = after (sys_8 false) (waits 0) (slave false running out 0 0 0)

reach_out : Reach 1 (λ i. false) sys_out
reach_out =
    later (reach_8 false)
      (by_slave (sys_8 false) 0 (slave false running out 0 0 0) (omega arith) (breaks _ refl refl))

wait_for_slaves_endless_example : sys_out.master ≢ behind
wait_for_slaves_endless_example =
    wait_for_slaves_endless 1 (λ i. false) sys_out 0 reach_out (omega arith) refl
