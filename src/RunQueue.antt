-- ===== src/RunQueue.antt =====
-- crates/kernel/src/runq.rs: the run queue of each CPU, a ring of process-table indices, and the
-- choice of the next process, which takes from the CPU's own queue and else from another's.
-- `none` as the result of a state change is a failed `assert!`. The queues' mutexes make each push
-- and each pop one step.
pub mod Fifo
pub mod Steal
pub mod Push
mod Tests
use web_os.Prelude.{
  ℕ, zero, suc, ◌+◌, ◌-◌, ◌%◌, ◌^◌, Option, none, some, Bool, List, arith, get_elem?, set,
  replicate, ltb, ◌==◌, if◌then◌else◌,
}

-- param.rs
abbrev pub nproc : ℕ
nproc = 16

abbrev pub ncpu : ℕ
ncpu = 8

pub record RunQueue : Type 0 where
  pub buf : List ℕ
  pub head : ℕ
  pub tail : ℕ
  pub len : ℕ

pub new : RunQueue
new = record { buf = replicate nproc 0; head = 0; tail = 0; len = 0 }

pub is_empty : RunQueue → Bool
is_empty q = q.len == 0

pub push : RunQueue → ℕ → Option RunQueue
push q idx =
    if ltb idx nproc
    then (if ltb q.len nproc
        then some
            (record q { buf = set q.buf q.tail idx; tail = (q.tail + 1) % nproc; len = q.len + 1 })
        else none)
    else none

-- The index is `buf[head]`; the outer option is the bounds check of that access.
pub pop : RunQueue → Option (Option ℕ × RunQueue)
pop q = if q.len == 0 then some (none, q) else elim (get_elem? q.buf q.head) [
  | none ↦ none
  | some idx ↦ some (some idx, record q { head = (q.head + 1) % nproc; len = q.len - 1 })
]

-- `RUNQS` and `STEAL_START`.
pub record Queues : Type 0 where
  pub runqs : List RunQueue
  pub steal_start : ℕ

pub init : Queues
init = record { runqs = replicate ncpu new; steal_start = 0 }

-- `RUNQS[cpu].lock().push(idx)`
push_locked : Queues → ℕ → ℕ → Option RunQueue → Option Queues
push_locked s cpu idx none = none
push_locked s cpu idx (some q) = elim (push q idx) [
  | none ↦ none
  | some q' ↦ some (record s { runqs = set s.runqs cpu q' })
]

pub runq_push_cpu : Queues → ℕ → ℕ → Option Queues
unfolding push_locked
runq_push_cpu s cpu idx =
    if ltb cpu ncpu then push_locked s cpu idx (get_elem? s.runqs cpu) else none

pop_locked : Queues → ℕ → Option RunQueue → Option (Option ℕ × Queues)
pop_locked s cpu none = none
pop_locked s cpu (some q) = elim (pop q) [
  | none ↦ none
  | some (r, q') ↦ some (r, record s { runqs = set s.runqs cpu q' })
]

pub runq_pop_local : Queues → ℕ → Option (Option ℕ × Queues)
unfolding pop_locked
runq_pop_local s cpu = if ltb cpu ncpu then pop_locked s cpu (get_elem? s.runqs cpu) else none

-- The loop `for off in 0..NCPU`, with the rounds left and the current `off`.
pub steal_from : ℕ → ℕ → ℕ → ℕ → Queues → Option (Option ℕ × Queues)
steal_from zero off start cpu s = some (none, s)
steal_from (suc rounds) off start cpu s =
    let victim = (start + off) % ncpu in
    let skip = steal_from rounds (off + 1) start cpu s in
    if victim == cpu then skip else elim (runq_pop_local s victim) [
      | none ↦ none
      | some (some idx, s') ↦ some (some idx, s')
      | some (none, s') ↦ steal_from rounds (off + 1) start cpu s'
    ]

-- `STEAL_START.fetch_add(1)` wraps round as a `usize`.
pub runq_pop_or_steal : Queues → ℕ → Option (Option ℕ × Queues)
runq_pop_or_steal s cpu = elim (runq_pop_local s cpu) [
  | none ↦ none
  | some (some idx, s') ↦ some (some idx, s')
  | some (none, s') ↦
      (let start = s'.steal_start % ncpu in
        steal_from ncpu 0 start cpu (record s' { steal_start = (s'.steal_start + 1) % 2 ^ 64 }))
]
