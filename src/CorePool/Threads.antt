-- ===== src/CorePool/Threads.antt =====
-- The threads of lib/thread/xm_core_pool.c: the master, which sends each slave a byte, takes its answer
-- and waits until all have finished, and the slaves' loop. The steps of the threads come in any order.
-- The pipes work: a read of one byte waits until there is one, and a write succeeds.
use xmap.Base.{ℕ, suc, ◌+◌, ◌<◌, ◌≡◌, ◌≢◌, Bool, true, false, ◌==◌, if◌then◌else◌}

-- `enum core_state`
pub data CoreState : Type 0 where
  waiting running finished : CoreState

-- Where a slave stands in `_thread_loop`: at the read, behind it, at the answer, at the test of the task,
-- in `xm_task_run`, behind it, or out of the loop.
pub data SlavePc : Type 0 where
  at_read at_state at_ack at_test in_task behind_task out : SlavePc

-- What `_thread_loop` uses of `struct xm_core_t`, with the number of bytes in each pipe. `runs` counts
-- the runs of the task that have ended.
pub record Slave : Type 0 where
  pub bound : Bool
  pub state : CoreState
  pub pc : SlavePc
  pub master2slave : ℕ
  pub slave2master : ℕ
  pub runs : ℕ

-- Where the master stands: in the first or the second loop of `xm_core_pool_slaves_setup`, in
-- `_core_remote_launch` at the read of the answer, in `xm_core_pool_wait_for_slaves`, or behind it; with
-- the number of the slave. `failed` is an error of the setup.
pub data Master : Type 0 where
  checks : ℕ → Master
  launches : ℕ → Master
  awaits : ℕ → Master
  waits : ℕ → Master
  behind : Master
  failed : Master

-- A turn of `_thread_loop`.
pub data SlaveStep : Slave → Slave → Type 0 where
  receives :
      (s : Slave) (k : ℕ)
      → s.pc ≡ at_read
      → s.master2slave ≡ suc k
      → SlaveStep s (record s { pc = at_state; master2slave = k })
  starts : (s : Slave) → s.pc ≡ at_state → SlaveStep s (record s { pc = at_ack; state = running })
  answers :
      (s : Slave)
      → s.pc ≡ at_ack
      → SlaveStep s (record s { pc = at_test; slave2master = s.slave2master + 1 })
  breaks : (s : Slave) → s.pc ≡ at_test → s.bound ≡ false → SlaveStep s (record s { pc = out })
  enters : (s : Slave) → s.pc ≡ at_test → s.bound ≡ true → SlaveStep s (record s { pc = in_task })
  leaves :
      (s : Slave) → s.pc ≡ in_task → SlaveStep s (record s { pc = behind_task; runs = s.runs + 1 })
  finishes :
      (s : Slave) → s.pc ≡ behind_task → SlaveStep s (record s { pc = at_read; state = finished })

-- A step of the master that looks at a slave, and what it does to it.
pub data MasterStep (i : ℕ) : Master → Slave → Master → Slave → Type 0 where
  finds_waiting : (s : Slave) → s.state ≡ waiting → MasterStep i (checks i) s (checks (suc i)) s
  finds_other : (s : Slave) → s.state ≢ waiting → MasterStep i (checks i) s failed s
  sends :
      (s : Slave)
      → s.state ≡ waiting
      → MasterStep i (launches i) s (awaits i) (record s { master2slave = s.master2slave + 1 })
  refuses : (s : Slave) → s.state ≢ waiting → MasterStep i (launches i) s failed s
  takes :
      (s : Slave) (k : ℕ)
      → s.slave2master ≡ suc k
      → MasterStep i (awaits i) s (launches (suc i)) (record s { slave2master = k })
  skips : (s : Slave) → s.state ≡ waiting → MasterStep i (waits i) s (waits (suc i)) s
  sees_finished :
      (s : Slave)
      → s.state ≡ finished
      → MasterStep i (waits i) s (waits (suc i)) (record s { state = waiting })

-- All the threads: the slaves by their numbers.
pub record System : Type 0 where
  pub master : Master
  pub slaves : ℕ → Slave

abbrev pub update : (ℕ → Slave) → ℕ → Slave → ℕ → Slave
update slaves i s j = if j == i then s else slaves j

-- A step of the system of n slaves.
pub data Step (n : ℕ) : System → System → Type 0 where
  by_slave :
      (sys : System) (i : ℕ) (s : Slave)
      → i < n
      → SlaveStep (sys.slaves i) s
      → Step n sys (record sys { slaves = update sys.slaves i s })
  by_master :
      (sys : System) (i : ℕ) (m : Master) (s : Slave)
      → i < n
      → MasterStep i sys.master (sys.slaves i) m s
      → Step n sys (record { master = m; slaves = update sys.slaves i s })
  all_checked :
      (sys : System) → sys.master ≡ checks n → Step n sys (record sys { master = launches 0 })
  all_launched :
      (sys : System) → sys.master ≡ launches n → Step n sys (record sys { master = waits 0 })
  all_waited : (sys : System) → sys.master ≡ waits n → Step n sys (record sys { master = behind })

-- The slaves as `_slave_threads_create` leaves them, bound to a task or not.
abbrev pub created : Bool → Slave
created bound = record {
  bound = bound;
  state = waiting;
  pc = at_read;
  master2slave = 0;
  slave2master = 0;
  runs = 0;
}

pub data Reach (n : ℕ) (bound : ℕ → Bool) : System → Type 0 where
  start : Reach n bound (record { master = checks 0; slaves = λ i. created (bound i) })
  later : {s t : System} → Reach n bound s → Step n s t → Reach n bound t
