-- ===== src/CorePool/Phases.antt =====
-- Where a slave of lib/thread/xm_core_pool.c can stand in each phase of its talk with the master.
use xmap.Base.{◌≡◌, refl, true, false, ◌⊎◌, arith}
use xmap.CorePool.Threads.{
  waiting, running, finished, at_read, at_state, at_ack, at_test, in_task, behind_task, out, Slave,
  SlaveStep, receives, starts, answers, breaks, enters, leaves, finishes,
}

-- What the master has had to do with a slave: nothing yet, asked it, had its answer, or seen the end.
pub data Phase : Type 0 where
  fresh asked answered over : Phase

-- A slave that has answered.
abbrev pub Late : Slave → Type 0
Late s =
    ((s.state ≡ running)
      × ((s.runs ≡ 0) × ((s.pc ≡ at_test) ⊎ ((s.bound ≡ true) × (s.pc ≡ in_task)))))
    ⊎ (((s.bound ≡ false) × ((s.state ≡ running) × ((s.runs ≡ 0) × (s.pc ≡ out))))
        ⊎ ((s.bound ≡ true)
            × ((s.runs ≡ 1)
                × (((s.state ≡ running) × (s.pc ≡ behind_task))
                    ⊎ ((s.state ≡ finished) × (s.pc ≡ at_read))))))

abbrev pub Silent : Slave → Type 0
Silent s = (s.master2slave ≡ 0) × (s.slave2master ≡ 0)

abbrev pub Fits : Phase → Slave → Type 0
Fits fresh s = (s.state ≡ waiting) × ((s.pc ≡ at_read) × ((s.runs ≡ 0) × Silent s))
Fits asked s =
    ((s.state ≡ waiting)
      × ((s.pc ≡ at_read) × ((s.runs ≡ 0) × ((s.master2slave ≡ 1) × (s.slave2master ≡ 0)))))
    ⊎ ((((s.state ≡ waiting) × (s.pc ≡ at_state)) × ((s.runs ≡ 0) × Silent s))
        ⊎ ((((s.state ≡ running) × (s.pc ≡ at_ack)) × ((s.runs ≡ 0) × Silent s))
            ⊎ (Late s × ((s.master2slave ≡ 0) × (s.slave2master ≡ 1)))))
Fits answered s = Late s × Silent s
Fits over s =
    (s.bound ≡ true) × ((s.state ≡ waiting) × ((s.pc ≡ at_read) × ((s.runs ≡ 1) × Silent s)))

-- A slave's own steps keep it where the master's phase has it.
pub SlaveStep-Fits : (ph : Phase) (s t : Slave) → SlaveStep s t → Fits ph s → Fits ph t
SlaveStep-Fits fresh s t (receives _ k at full) f = ground arith
SlaveStep-Fits asked s t (receives _ k at full) f = ground arith
SlaveStep-Fits answered s t (receives _ k at full) f = ground arith
SlaveStep-Fits over s t (receives _ k at full) f = ground arith
SlaveStep-Fits fresh s t (starts _ at) f = ground arith
SlaveStep-Fits asked s t (starts _ at) f = ground arith
SlaveStep-Fits answered s t (starts _ at) f = ground arith
SlaveStep-Fits over s t (starts _ at) f = ground arith
SlaveStep-Fits fresh s t (answers _ at) f = ground arith
SlaveStep-Fits asked s t (answers _ at) f = ground arith
SlaveStep-Fits answered s t (answers _ at) f = ground arith
SlaveStep-Fits over s t (answers _ at) f = ground arith
SlaveStep-Fits fresh s t (breaks _ at free) f = ground arith
SlaveStep-Fits asked s t (breaks _ at free) f = ground arith
SlaveStep-Fits answered s t (breaks _ at free) f = ground arith
SlaveStep-Fits over s t (breaks _ at free) f = ground arith
SlaveStep-Fits fresh s t (enters _ at bound) f = ground arith
SlaveStep-Fits asked s t (enters _ at bound) f = ground arith
SlaveStep-Fits answered s t (enters _ at bound) f = ground arith
SlaveStep-Fits over s t (enters _ at bound) f = ground arith
SlaveStep-Fits fresh s t (leaves _ at) f = ground arith
SlaveStep-Fits asked s t (leaves _ at) f = ground arith
SlaveStep-Fits answered s t (leaves _ at) f = ground arith
SlaveStep-Fits over s t (leaves _ at) f = ground arith
SlaveStep-Fits fresh s t (finishes _ at) f = ground arith
SlaveStep-Fits asked s t (finishes _ at) f = ground arith
SlaveStep-Fits answered s t (finishes _ at) f = ground arith
SlaveStep-Fits over s t (finishes _ at) f = ground arith

pub SlaveStep-bound : (s t : Slave) → SlaveStep s t → t.bound ≡ s.bound
SlaveStep-bound s t (receives _ k at full) = refl
SlaveStep-bound s t (starts _ at) = refl
SlaveStep-bound s t (answers _ at) = refl
SlaveStep-bound s t (breaks _ at free) = refl
SlaveStep-bound s t (enters _ at bound) = refl
SlaveStep-bound s t (leaves _ at) = refl
SlaveStep-bound s t (finishes _ at) = refl
