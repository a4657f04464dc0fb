-- ===== src/CorePool.antt =====
-- lib/thread/xm_core_pool.c and xm_core_pool.h: the cores that tasks are bound to. A core is known by
-- its index, and a text is the list of its characters. Threads and pipes are not modelled.
pub mod Mask
pub mod Binding
pub mod Threads
pub mod Phases
pub mod Finish
mod Tests
use mathlib.Core.List.{reverse}
use xmap.Base.{
  ℕ, zero, suc, ◌+◌, ◌-◌, ◌*◌, ◌/◌, ◌%◌, ◌^◌, Bool, true, false, ◌&&◌, ◌||◌, not, ltb, leb, ◌==◌,
  if◌then◌else◌, Option, none, some, List, [], ◌∷◌, ◌++◌, map,
}

-- `struct xm_core_t`; a task is its number.
pub record Core : Type 0 where
  pub tsk : Option ℕ
  pub core_id : ℕ
  pub core_idx : ℕ
  pub enabled : Bool

-- `struct xm_core_pool_t`; `cores` are those below `sys_core_count`.
pub record CorePool : Type 0 where
  pub cores : List Core
  pub config_core_count : ℕ
  pub master_core : Option ℕ

-- `_core_create`
abbrev pub core_create : ℕ → ℕ → Core
core_create core_id core_idx = record {
  tsk = none;
  core_id = core_id;
  core_idx = core_idx;
  enabled = false;
}

-- The loop of `_core_pool_init` over the identifiers from one on; `cpu_detected` is `_cpu_detected`.
unfoldable pub init_cores : (ℕ → Bool) → ℕ → ℕ → ℕ → List Core
init_cores cpu_detected zero core_id count = []
init_cores cpu_detected (suc left) core_id count =
    let present =
      core_create core_id count ∷ init_cores cpu_detected left (core_id + 1) (count + 1) in
    let absent = init_cores cpu_detected left (core_id + 1) count in
    if cpu_detected core_id then present else absent

-- `isxdigit` in the C locale, and `xdigit2val`
unfoldable pub isxdigit : ℕ → Bool
isxdigit c =
    (leb b'0' c && leb c b'9') || ((leb b'A' c && leb c b'F') || (leb b'a' c && leb c b'f'))

unfoldable pub xdigit2val : ℕ → ℕ
xdigit2val c =
    if leb b'0' c && leb c b'9'
    then c - b'0'
    else if leb b'A' c && leb c b'Z'
    then c - b'A' + 10
    else c - b'a' + 10

abbrev isblank : ℕ → Bool
isblank c = c == 32 || c == 9

unfoldable pub skip_blanks : List ℕ → List ℕ
skip_blanks [] = []
skip_blanks (c ∷ cs) = let rest = skip_blanks cs in if isblank c then rest else c ∷ cs

unfoldable pub skip_prefix : List ℕ → List ℕ
skip_prefix [] = []
skip_prefix (c ∷ []) = c ∷ []
skip_prefix (c ∷ (d ∷ cs)) = if c == b'0' && (d == b'x' || d == b'X') then cs else c ∷ (d ∷ cs)

abbrev enable : Core → Bool → Core
enable core on = record core { enabled = on }

-- The loop over the bits of a digit, the lowest first: the cores set, those left, and how many are on.
unfoldable pub set_bits : ℕ → ℕ → List Core → List Core × (List Core × ℕ)
set_bits zero val cores = ([], (cores, 0))
set_bits (suc bits) val [] = ([], ([], 0))
set_bits (suc bits) val (core ∷ cores) =
    let (done, (left, count)) = set_bits bits (val / 2) cores in
    (enable core (val % 2 == 1) ∷ done, (left, count + val % 2))

-- The loop over the digits that are left when every core is set.
unfoldable pub all_zero : List ℕ → Bool
all_zero [] = true
all_zero (c ∷ cs) = c == b'0' && all_zero cs

-- The loops over the digits, the last one first; none is an error.
unfoldable pub set_digits : List ℕ → List Core → Option (List Core × ℕ)
set_digits [] cores = some (map (λ core. enable core false) cores, 0)
set_digits (c ∷ cs) [] = if all_zero (c ∷ cs) then some ([], 0) else none
set_digits (c ∷ cs) (core ∷ cores) =
    let (done, (left, count)) = set_bits 4 (xdigit2val c) (core ∷ cores) in
    if not (isxdigit c) then none else elim (set_digits cs left) [
      | none ↦ none
      | some result ↦ some (done ++ result.0, count + result.1)
    ]

-- `_parse_coremask`; none is an error.
unfoldable pub parse_coremask : CorePool → Option (List ℕ) → Option CorePool
parse_coremask cpool none = none
parse_coremask cpool (some coremask) =
    elim (skip_blanks (reverse (skip_prefix (skip_blanks coremask)))) [
      | [] ↦ none
      | c ∷ digits ↦ elim (set_digits (c ∷ digits) cpool.cores) [
        | none ↦ none
        | some (cores, count) ↦
            if count == 0
            then none
            else some (record cpool { cores = cores; config_core_count = count })
      ]
    ]

-- `xm_next_core_get` over the cores from an index on.
unfoldable pub next_core : Option ℕ → Bool → List Core → Option Core
next_core master skip_master [] = none
next_core master skip_master (core ∷ cores) =
    let rest = next_core master skip_master cores in
    let is_master : Bool = elim master [ none ↦ false | some idx ↦ core.core_idx == idx ] in
    if (is_master && skip_master) || not core.enabled then rest else some core

-- The core of `_master_thread_init`
unfoldable pub master_init : CorePool → Option CorePool
master_init cpool = elim (next_core none false cpool.cores) [
  | none ↦ none
  | some core ↦ some (record cpool { master_core = some core.core_idx })
]

-- What CPOOL_CORE_FOREACH_SLAVE and `_alloc_core` look for: an enabled core other than the master,
-- without a task.
unfoldable pub is_free : Option ℕ → Core → Bool
is_free master core =
    let is_master : Bool = elim master [ none ↦ false | some idx ↦ core.core_idx == idx ] in
    let unbound : Bool = elim core.tsk [ none ↦ true | some tsk ↦ false ] in
    not is_master && (core.enabled && unbound)

-- The core of `_alloc_core`, with the task that is written into it.
unfoldable pub bind_first : Option ℕ → ℕ → List Core → Option (List Core)
bind_first master tsk [] = none
bind_first master tsk (core ∷ cores) =
    let later : Option (List Core) = elim (bind_first master tsk cores) [
      | none ↦ none
      | some bound ↦ some (core ∷ bound)
    ] in
    if is_free master core then some (record core { tsk = some tsk } ∷ cores) else later

-- `xm_core_pool_bind_task`; none is an error.
unfoldable pub bind_task : CorePool → ℕ → Option CorePool
bind_task cpool tsk = elim (bind_first cpool.master_core tsk cpool.cores) [
  | none ↦ none
  | some cores ↦ some (record cpool { cores = cores })
]

-- The tasks that `xm_work_create` of src/xm_work.c binds, one after the other.
unfoldable pub bind_tasks : CorePool → List ℕ → Option CorePool
bind_tasks cpool [] = some cpool
bind_tasks cpool (tsk ∷ tasks) = elim (bind_task cpool tsk) [
  | none ↦ none
  | some bound ↦ bind_tasks bound tasks
]
