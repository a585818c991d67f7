-- ===== src/Procs.antt =====
-- crates/kernel/src/proc.rs: the process table. An array of the kernel is a function from its indices,
-- of which those below NPROC (of `cpus` those below NCPU) are used; a process is its index. Memory, files
-- and the user page tables are left out: what they answer are arguments. Process numbers are taken in ℕ,
-- since there are never 2^64 processes. `none` is a failed assertion.
pub mod States
pub mod Signals
pub mod Handlers
pub mod Family
pub mod Reaping
pub mod Groups
pub mod Balance
pub mod Waking
pub mod Callers
pub mod Steps
pub mod Tree
pub mod Cpus
pub mod Leaving
pub mod Scheduler
pub mod Delivery
pub mod Births
pub mod Children
pub mod Boot
pub mod Wakeups
pub mod Adoption
pub mod Exits
pub mod Deaths
pub mod Waits
pub mod Threads
pub mod Ignored
pub mod Scans
pub mod Returns
pub mod Interruptions
pub mod Stirs
pub mod Signalling
pub mod Kills
pub mod Safety
pub mod Condvars
mod Tests
use web_os.Prelude.{
  ℕ, zero, suc, ◌+◌, ◌-◌, ◌^◌, Option, none, some, Bool, true, false, not, ◌&&◌, ◌||◌, ltb, ◌==◌,
  if◌then◌else◌, update,
}
use web_os.Errors.{Result, ok, err, would_block, out_of_memory}
use web_os.RunQueue.{Queues, nproc, ncpu, runq_push_cpu, runq_pop_or_steal}

pub data ProcState : Type 0 where
  unused used sleeping stopped runnable running zombie : ProcState

abbrev pub state_code : ProcState → ℕ
state_code unused = 0
state_code used = 1
state_code sleeping = 2
state_code stopped = 3
state_code runnable = 4
state_code running = 5
state_code zombie = 6

abbrev pub same_state : ProcState → ProcState → Bool
same_state a b = state_code a == state_code b

-- The registers of a trap frame that signals use, and the others by a number.
pub record Trapframe : Type 0 where
  pub epc : ℕ
  pub ra : ℕ
  pub a0 : ℕ
  pub others : ℕ → ℕ

-- signal.rs
abbrev pub sig_dfl : ℕ
sig_dfl = 2 ^ 64 - 1

abbrev pub sig_ign : ℕ
sig_ign = 2 ^ 64 - 2

-- ProcInner, and of ProcData what signals, threads and the family use.
pub record Proc : Type 0 where
  pub state : ProcState
  pub chan : ℕ
  pub killed : Bool
  pub xstate : ℕ
  pub pid : ℕ
  pub pgid : ℕ
  pub sid : ℕ
  pub last_cpu : ℕ
  pub sig_pending : ℕ
  pub sig_handlers : ℕ → ℕ
  pub sig_alarm_deadline : ℕ
  pub sig_alarm_interval : ℕ
  pub stop_sig : ℕ
  pub stop_reported : Bool
  pub cont_pending : Bool
  pub is_thread : Bool
  pub ustack : ℕ
  pub trapframe : Trapframe
  pub sig_trapframe : Trapframe
  pub sig_active : Bool
  pub sig_restorer : ℕ

abbrev pub zero_frame : Trapframe
zero_frame = record { epc = 0; ra = 0; a0 = 0; others = λ r. 0 }

pub new : Proc
new = record {
  state = unused;
  chan = 0;
  killed = false;
  xstate = 0;
  pid = 0;
  pgid = 0;
  sid = 0;
  last_cpu = 0;
  sig_pending = 0;
  sig_handlers = λ i. sig_dfl;
  sig_alarm_deadline = 0;
  sig_alarm_interval = 0;
  stop_sig = 0;
  stop_reported = false;
  cont_pending = false;
  is_thread = false;
  ustack = 0;
  trapframe = zero_frame;
  sig_trapframe = zero_frame;
  sig_active = false;
  sig_restorer = 0;
}

-- What a CPU is doing: it is in `scheduler` with nothing, with an index that it took from a run queue, or
-- runs a process.
pub data CpuState : Type 0 where
  idle : CpuState
  holds runs : ℕ → CpuState

-- `addresses` are the `Arc::as_ptr` of the processes, which serve as sleep channels.
pub record System : Type 0 where
  pub pool : ℕ → Proc
  pub parents : ℕ → Option ℕ
  pub queues : Queues
  pub cpus : ℕ → CpuState
  pub next_pid : ℕ
  pub addresses : ℕ → ℕ

abbrev pub put : System → ℕ → Proc → System
put s idx p = record s { pool = update s.pool idx p }

-- `Cpus::myproc()`
abbrev pub myproc : System → ℕ → Option ℕ
myproc s cpu = elim (s.cpus cpu) [ idle ↦ none | holds idx ↦ none | runs idx ↦ some idx ]

abbrev pub is_index : Option ℕ → ℕ → Bool
is_index none idx = false
is_index (some i) idx = i == idx

unfoldable pub make_runnable : ℕ → ℕ → System → Option System
make_runnable cpu_id idx s =
    let p = s.pool idx in
    let cpu = if ltb p.last_cpu ncpu then p.last_cpu else cpu_id in
    if same_state p.state runnable then some s else elim (runq_push_cpu s.queues cpu idx) [
      | none ↦ none
      | some q ↦
          some (record (put s idx (record p { state = runnable; last_cpu = cpu })) { queues = q })
    ]

-- `for (idx, p) in PROCS.pool.iter().enumerate()`, with the rounds left.
unfoldable pub for_from : (ℕ → System → Option System) → ℕ → ℕ → System → Option System
for_from body zero idx s = some s
for_from body (suc rounds) idx s = elim (body idx s) [
  | none ↦ none
  | some s' ↦ for_from body rounds (idx + 1) s'
]

unfoldable pub wake_one : Option ℕ → ℕ → ℕ → ℕ → System → Option System
wake_one cur cpu chan idx s =
    let p = s.pool idx in
    if is_index cur idx
    then some s
    else if same_state p.state sleeping && p.chan == chan
    then make_runnable cpu idx s
    else some s

unfoldable pub wakeup : ℕ → ℕ → System → Option System
wakeup cpu chan s = for_from (wake_one (myproc s cpu) cpu chan) nproc 0 s

-- The fields of a process that `free` resets. A process without a trap frame has one of zeros.
abbrev pub cleared : Proc → Proc
cleared p = record p {
  state = unused;
  chan = 0;
  killed = false;
  xstate = 0;
  pid = 0;
  pgid = 0;
  sid = 0;
  sig_pending = 0;
  sig_handlers = λ i. sig_dfl;
  sig_alarm_deadline = 0;
  sig_alarm_interval = 0;
  stop_sig = 0;
  stop_reported = false;
  cont_pending = false;
  is_thread = false;
  ustack = 0;
  trapframe = zero_frame;
  sig_trapframe = zero_frame;
  sig_active = false;
  sig_restorer = 0;
}

unfoldable pub free : ℕ → System → System
free idx s = put s idx (cleared (s.pool idx))

-- The process that `alloc` hands out.
abbrev pub allocated : ℕ → Proc → Proc
allocated pid p = record p {
  pid = pid;
  state = used;
  pgid = pid;
  sid = pid;
  stop_sig = 0;
  stop_reported = false;
  cont_pending = false;
  trapframe = zero_frame;
}

-- `memory` is what the allocations of the trap frame and of the page table answer.
unfoldable pub alloc_slot : Result (Unit {0}) → ℕ → System → Result ℕ × System
alloc_slot memory idx s =
    let s' = record (put s idx (allocated s.next_pid (s.pool idx))) { next_pid = s.next_pid + 1 } in
    elim memory [ err e ↦ (err e, free idx s') | ok u ↦ (ok idx, s') ]

unfoldable pub alloc_from : Result (Unit {0}) → ℕ → ℕ → System → Result ℕ × System
alloc_from memory zero idx s = (err would_block, s)
alloc_from memory (suc rounds) idx s =
    let rest = alloc_from memory rounds (idx + 1) s in
    if same_state (s.pool idx).state unused then alloc_slot memory idx s else rest

unfoldable pub alloc : Result (Unit {0}) → System → Result ℕ × System
alloc memory s = alloc_from memory nproc 0 s

-- One round of `scheduler` up to the lock of the process, when its queues have one.
unfoldable pub take_next : ℕ → System → Option System
take_next cpu s = elim (runq_pop_or_steal s.queues cpu) [
  | none ↦ none
  | some (none, q) ↦ some (record s { queues = q })
  | some (some idx, q) ↦ some (record s { queues = q; cpus = update s.cpus cpu (holds idx) })
]

-- The round after the lock: the process runs, or is left if it is not runnable.
unfoldable pub switch_to : ℕ → ℕ → System → System
switch_to cpu idx s =
    let p = s.pool idx in
    if same_state p.state runnable
    then record (put s idx (record p { state = running; last_cpu = cpu })) {
      cpus = update s.cpus cpu (runs idx);
    }
    else record s { cpus = update s.cpus cpu idle }

-- `sched` by the running process: its CPU is back in `scheduler`. "sched running" is an assertion; those
-- on the lock of the process, the depth of interrupt guards and interrupts are about what is not modelled.
unfoldable pub sched : ℕ → ℕ → System → Option System
sched cpu idx s =
    if same_state (s.pool idx).state running
    then none
    else some (record s { cpus = update s.cpus cpu idle })

unfoldable pub yielding : ℕ → ℕ → System → Option System
yielding cpu idx s = elim (make_runnable cpu idx s) [ none ↦ none | some s' ↦ sched cpu idx s' ]

-- `sleep` up to `sched`. What follows when the process runs again is `awake`.
unfoldable pub sleep : ℕ → ℕ → ℕ → System → Option System
sleep cpu idx chan s =
    sched cpu idx (put s idx (record (s.pool idx) { chan = chan; state = sleeping }))

unfoldable pub awake : ℕ → System → System
awake idx s = put s idx (record (s.pool idx) { chan = 0 })
