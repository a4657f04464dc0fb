-- ===== src/CorePool/Binding.antt =====
-- The binding of tasks to the cores of lib/thread/xm_core_pool.c.
use xmap.Base.{
  ℕ, suc, ◌+◌, ◌<◌, ◌≤◌, ◌≡◌, refl, Bool, true, false, Bool-cases, inl, inr, ◌⊎◌, ltb, ◌==◌,
  if◌then◌else◌, Option, none, some, List, [], ◌∷◌, length, arith,
}
use xmap.CorePool.{Core, CorePool, is_free, bind_first, bind_task, bind_tasks}

-- The cores that a task can be bound to, and how many cores a task is bound to.
unfoldable pub free_count : Option ℕ → List Core → ℕ
free_count master [] = 0
free_count master (core ∷ cores) = (if is_free master core then 1 else 0) + free_count master cores

abbrev is_bound_to : ℕ → Option ℕ → Bool
is_bound_to t none = false
is_bound_to t (some tsk) = t == tsk

unfoldable pub bound_count : ℕ → List Core → ℕ
bound_count t [] = 0
bound_count t (core ∷ cores) = (if is_bound_to t core.tsk then 1 else 0) + bound_count t cores

unfoldable pub times : ℕ → List ℕ → ℕ
times t [] = 0
times t (tsk ∷ tasks) = (if t == tsk then 1 else 0) + times t tasks

-- The cores after a task has been bound.
record BindsOne (master : Option ℕ) (tsk : ℕ) (cores : List Core) (result : Option (List Core))
    : Type 0 where
  bound : List Core
  returns : result ≡ some bound
  free : suc (free_count master bound) ≡ free_count master cores
  counts : (t : ℕ) → bound_count t bound ≡ bound_count t cores + times t (tsk ∷ [])

is_free-bound :
    (master : Option ℕ) (core : Core) (tsk : ℕ)
    → is_free master (record core { tsk = some tsk }) ≡ false
unfolding is_free
is_free-bound master core tsk = ground arith

is_free-unbound :
    (master : Option ℕ) (core : Core) (t : ℕ)
    → is_free master core ≡ true
    → is_bound_to t core.tsk ≡ false
unfolding is_free
is_free-unbound master core t h = go core.tsk refl
  where
    go : (o : Option ℕ) → core.tsk ≡ o → is_bound_to t core.tsk ≡ false
    go none e = rw e refl
    go (some tsk) e = let no = rw e at h in absurd (ground (arith, no))

bind_first-BindsOne :
    (master : Option ℕ) (tsk : ℕ) (cores : List Core)
    → 0 < free_count master cores
    → BindsOne master tsk cores (bind_first master tsk cores)
unfolding bind_first free_count bound_count times
bind_first-BindsOne master tsk [] h = absurd (omega arith)
bind_first-BindsOne master tsk (core ∷ cores) h = elim (Bool-cases (is_free master core)) [
  | inl here ↦ rw here (record {
    bound = record core { tsk = some tsk } ∷ cores;
    returns = refl;
    free = ground (arith, here, is_free-bound master core tsk);
    counts = λ t. ground (arith, is_free-unbound master core t here);
  })
  | inr taken ↦
      let more : 0 < free_count master cores = ground (arith, taken, h) in
      let later = bind_first-BindsOne master tsk cores more in
      rw (taken, later.returns)
        (record {
          bound = core ∷ later.bound;
          returns = refl;
          free = ground (arith, taken, later.free);
          counts = λ t. omega (arith, later.counts t);
        })
]

bind_first-none :
    (master : Option ℕ) (tsk : ℕ) (cores : List Core)
    → free_count master cores ≡ 0
    → bind_first master tsk cores ≡ none
unfolding bind_first free_count
bind_first-none master tsk [] h = refl
bind_first-none master tsk (core ∷ cores) h = elim (Bool-cases (is_free master core)) [
  | inl here ↦ absurd (ground (arith, here, h))
  | inr taken ↦
      let rest : free_count master cores ≡ 0 = ground (arith, taken, h) in
      rw (taken, bind_first-none master tsk cores rest) refl
]

-- The pool after tasks have been bound.
pub record Binds (cpool : CorePool) (tasks : List ℕ) (result : Option CorePool) : Type 0 where
  pub bound : CorePool
  pub returns : result ≡ some bound
  pub master : bound.master_core ≡ cpool.master_core
  pub free :
      free_count cpool.master_core bound.cores + length tasks
      ≡ free_count cpool.master_core cpool.cores
  pub counts : (t : ℕ) → bound_count t bound.cores ≡ bound_count t cpool.cores + times t tasks

bind_tasks-Binds :
    (tasks : List ℕ) (cpool : CorePool)
    → (length tasks ≤ free_count cpool.master_core cpool.cores
        → Binds cpool tasks (bind_tasks cpool tasks))
      × (free_count cpool.master_core cpool.cores < length tasks → bind_tasks cpool tasks ≡ none)
unfolding bind_tasks bind_task times
bind_tasks-Binds [] cpool = (
  λ h. record {
    bound = cpool;
    returns = refl;
    master = refl;
    free = omega arith;
    counts = λ t. omega arith;
  },
  λ h. absurd (omega arith),
)
bind_tasks-Binds (tsk ∷ tasks) cpool =
    elim (Bool-cases (ltb 0 (free_count cpool.master_core cpool.cores))) [
      | inr full ↦
          let empty : free_count cpool.master_core cpool.cores ≡ 0 = ground (arith, full) in
          (
            λ h. absurd (omega (arith, empty)),
            λ h.
                rw (bind_first-none cpool.master_core tsk cpool.cores empty, bind_tasks, bind_task)
                  refl,
          )
      | inl room ↦
          let one = bind_first-BindsOne cpool.master_core tsk cpool.cores (ground (arith, room)) in
          let rest = bind_tasks-Binds tasks (record cpool { cores = one.bound }) in
          (
            λ h.
                let later = rest.0 (omega (arith, one.free)) in
                rw (one.returns, later.returns, bind_tasks, bind_task)
                  (record {
                    bound = later.bound;
                    returns = refl;
                    master = later.master;
                    free = omega (arith, later.free, one.free);
                    counts = λ t. omega (arith, later.counts t, one.counts t);
                  }),
            λ h. rw (one.returns, bind_tasks, bind_task) (rest.1 (omega (arith, one.free))),
          )
    ]

-- If there are as many free cores as tasks, all the tasks are bound: for each task the number of
-- cores that it is bound to grows by the number of times that it is given, and as many cores fewer are
-- free. If there are fewer, binding them fails. A free core is enabled, not the master and without a
-- task.
pub bind_tasks-Binds_or_fails :
    (tasks : List ℕ) (cpool : CorePool)
    → ((length tasks ≤ free_count cpool.master_core cpool.cores)
        × Binds cpool tasks (bind_tasks cpool tasks))
      ⊎ ((free_count cpool.master_core cpool.cores < length tasks)
          × (bind_tasks cpool tasks ≡ none))
bind_tasks-Binds_or_fails tasks cpool =
    elim (Bool-cases (ltb (free_count cpool.master_core cpool.cores) (length tasks))) [
      | inl fewer ↦
          let h : free_count cpool.master_core cpool.cores < length tasks = ground (arith, fewer) in
          inr (h, (bind_tasks-Binds tasks cpool).1 h)
      | inr enough ↦
          let h : length tasks ≤ free_count cpool.master_core cpool.cores =
            ground (arith, enough) in
          inl (h, (bind_tasks-Binds tasks cpool).0 h)
    ]
