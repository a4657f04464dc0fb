-- ===== src/CorePool/Finish.antt =====
-- Behind `xm_core_pool_wait_for_slaves` (lib/thread/xm_core_pool.c) every slave's task has ended.
use xmap.Base.{
  ℕ, suc, ◌<◌, ◌≡◌, ◌≢◌, refl, subst, Bool, true, false, ltb, ◌==◌, if◌then◌else◌, inl, inr, arith,
  Bool-cases, ap, ◌∙◌, lt→ltb,
}
use xmap.CorePool.Threads.{
  waiting, Slave, Master, checks, launches, awaits, waits, behind, failed, MasterStep,
  finds_waiting, finds_other, sends, refuses, takes, skips, sees_finished, System, update, Step,
  by_slave, by_master, all_checked, all_launched, all_waited, Reach, start, later,
}
use xmap.CorePool.Phases.{
  Phase, fresh, asked, answered, over, Late, Fits, SlaveStep-Fits, SlaveStep-bound,
}

unfoldable phase_of : Master → ℕ → Phase
phase_of (checks i) j = fresh
phase_of (launches i) j = if ltb j i then answered else fresh
phase_of (awaits i) j = if ltb j i then answered else if j == i then asked else fresh
phase_of (waits i) j = if ltb j i then over else answered
phase_of behind j = over
phase_of failed j = fresh

-- What a step of the master does to the slave that it looks at, and that the others stay in their phase.
record Moves (i : ℕ) (m m' : Master) (s s' : Slave) : Type 0 where
  good : m' ≢ failed
  fits : Fits (phase_of m' i) s'
  others : (j : ℕ) → j ≢ i → phase_of m' j ≡ phase_of m j
  bound : s'.bound ≡ s.bound

MasterStep-Moves :
    (i : ℕ) (m m' : Master) (s s' : Slave)
    → MasterStep i m s m' s'
    → Fits (phase_of m i) s
    → Moves i m m' s s'
unfolding phase_of
MasterStep-Moves i m m' s s' (finds_waiting _ w) f = record {
  good = λ e. cc;
  fits = f;
  others = λ j ne. refl;
  bound = refl;
}
MasterStep-Moves i m m' s s' (finds_other _ w) f = absurd (w f.0)
MasterStep-Moves i m m' s s' (sends _ w) f =
    let here : ltb i i ≡ false = ground arith in
    let same : (i == i) ≡ true = ground arith in
    record {
      good = λ e. cc;
      fits = rw (here, same) (let g = rw here at f in ground (arith, g));
      others = λ j ne. ground (arith, ne);
      bound = refl;
    }
MasterStep-Moves i m m' s s' (refuses _ w) f =
    let here : ltb i i ≡ false = ground arith in let g = rw here at f in absurd (w g.0)
MasterStep-Moves i m m' s s' (takes _ k full) f =
    let here : ltb i i ≡ false = ground arith in
    let same : (i == i) ≡ true = ground arith in
    let past : ltb i (suc i) ≡ true = ground arith in
    record {
      good = λ e. cc;
      fits = rw past (let g = rw (here, same) at f in ground (arith, g, full));
      others = λ j ne. ground (arith, ne);
      bound = refl;
    }
MasterStep-Moves i m m' s s' (skips _ w) f =
    let here : ltb i i ≡ false = ground arith in
    let g = rw here at f in absurd (late_not_waiting s g.0 w)
  where
    late_not_waiting : (s : Slave) → Late s → s.state ≢ waiting
    late_not_waiting s late = ground (arith, late)
MasterStep-Moves i m m' s s' (sees_finished _ w) f =
    let here : ltb i i ≡ false = ground arith in
    let past : ltb i (suc i) ≡ true = ground arith in
    record {
      good = λ e. cc;
      fits = rw past (let g = rw here at f in ground (arith, g, w));
      others = λ j ne. ground (arith, ne);
      bound = refl;
    }

-- True at the start and kept by every step.
record Inv (n : ℕ) (bound : ℕ → Bool) (sys : System) : Type 0 where
  good : sys.master ≢ failed
  fits : (j : ℕ) → j < n → Fits (phase_of sys.master j) (sys.slaves j)
  kept : (j : ℕ) → (sys.slaves j).bound ≡ bound j

-- After a change of one slave.
update-Inv :
    (n : ℕ) (bound : ℕ → Bool) (sys : System) (i : ℕ) (m : Master) (s : Slave)
    → i < n
    → Inv n bound sys
    → Moves i sys.master m (sys.slaves i) s
    → Inv n bound (record { master = m; slaves = update sys.slaves i s })
update-Inv n bound sys i m s lt inv moves = record { good = moves.good; fits = fits; kept = kept }
  where
    fits : (j : ℕ) → j < n → Fits (phase_of m j) (update sys.slaves i s j)
    fits j lt' = elim (Bool-cases (j == i)) [
      | inl here ↦
          let same : i ≡ j = ground (arith, here) in
          rw here (subst (λ x. Fits (phase_of m x) s) same moves.fits)
      | inr other ↦
          let ne : j ≢ i = λ e. ground (arith, other, e) in
          rw (other, moves.others j ne) (inv.fits j lt')
    ]

    kept : (j : ℕ) → (update sys.slaves i s j).bound ≡ bound j
    kept j = elim (Bool-cases (j == i)) [
      | inl here ↦
          let same : i ≡ j = ground (arith, here) in
          rw here (moves.bound ∙ inv.kept i ∙ ap bound same)
      | inr other ↦ rw other (inv.kept j)
    ]

Step-Inv : {n : ℕ} {bound : ℕ → Bool} {s t : System} → Step n s t → Inv n bound s → Inv n bound t
unfolding phase_of
Step-Inv {n} {bound} (by_slave sys i s lt st) inv =
    update-Inv n bound sys i sys.master s lt inv (record {
      good = inv.good;
      fits = SlaveStep-Fits (phase_of sys.master i) (sys.slaves i) s st (inv.fits i lt);
      others = λ j ne. refl;
      bound = SlaveStep-bound (sys.slaves i) s st;
    })
Step-Inv {n} {bound} (by_master sys i m s lt st) inv =
    update-Inv n bound sys i m s lt inv
      (MasterStep-Moves i sys.master m (sys.slaves i) s st (inv.fits i lt))
Step-Inv {n} {bound} (all_checked sys e) inv = record {
  good = λ e'. cc;
  fits = λ j lt.
      let none_before : ltb j 0 ≡ false = ground arith in
      rw none_before (let f = rw e at (inv.fits j lt) in f);
  kept = inv.kept;
}
Step-Inv {n} {bound} (all_launched sys e) inv = record {
  good = λ e'. cc;
  fits = λ j lt.
      let before : ltb j n ≡ true = lt→ltb j n lt in
      let none_before : ltb j 0 ≡ false = ground arith in
      rw none_before (let f = rw (e, before) at (inv.fits j lt) in f);
  kept = inv.kept;
}
Step-Inv {n} {bound} (all_waited sys e) inv = record {
  good = λ e'. cc;
  fits = λ j lt.
      let before : ltb j n ≡ true = lt→ltb j n lt in let f = rw (e, before) at (inv.fits j lt) in f;
  kept = inv.kept;
}

Reach-Inv : {n : ℕ} {bound : ℕ → Bool} {s : System} → Reach n bound s → Inv n bound s
unfolding phase_of
Reach-Inv start = record {
  good = λ e. cc;
  fits = λ j lt. (refl, (refl, (refl, (refl, refl))));
  kept = λ j. refl;
}
Reach-Inv (later r st) = Step-Inv st (Reach-Inv r)

-- In every order of the threads' steps the setup of the slaves does not fail.
pub slaves_setup-succeeds :
    (n : ℕ) (bound : ℕ → Bool) (sys : System) → Reach n bound sys → sys.master ≢ failed
slaves_setup-succeeds n bound sys r = let inv = Reach-Inv r in inv.good

-- In every order of the threads' steps, where the pipes work: when the master has left
-- xm_core_pool_wait_for_slaves, the task of every slave has been run to its end, exactly once.
pub wait_for_slaves-runs :
    (n : ℕ) (bound : ℕ → Bool) (sys : System) (i : ℕ)
    → Reach n bound sys
    → sys.master ≡ behind
    → i < n
    → (sys.slaves i).runs ≡ 1
unfolding phase_of
wait_for_slaves-runs n bound sys i r e lt =
    let inv = Reach-Inv r in let f = rw e at (inv.fits i lt) in f.1.1.1.0

-- Where one of the slaves has no task, the master never leaves xm_core_pool_wait_for_slaves, in whatever
-- order the threads take their steps.
pub wait_for_slaves_endless :
    (n : ℕ) (bound : ℕ → Bool) (sys : System) (i : ℕ)
    → Reach n bound sys
    → i < n
    → bound i ≡ false
    → sys.master ≢ behind
unfolding phase_of
wait_for_slaves_endless n bound sys i r lt free e =
    let inv = Reach-Inv r in
    let f = rw e at (inv.fits i lt) in let taken = f.0 in let same = inv.kept i in cc
