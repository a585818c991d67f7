-- ===== src/Procs/Family.antt =====
-- proc.rs: parents and children: fork, clone, exit, waitpid, join, reap_threads, process groups and
-- sessions. `parents` and the process lock make each scan of the table one step; a call that sleeps
-- scans again when it wakes up.
use web_os.Prelude.{
  ℕ, ◌+◌, ◌%◌, ◌^◌, Option, none, some, Bool, true, false, not, ◌&&◌, ltb, leb, ◌==◌, if◌then◌else◌,
  update,
}
use web_os.Errors.{Result, ok, err, bad_virt_addr}
use web_os.RunQueue.{nproc}
use web_os.Procs.{
  Proc, System, zombie, put, is_index, zero_frame, alloc, free, make_runnable, for_from, wakeup,
  sched,
}

abbrev pub set_parent : System → ℕ → Option ℕ → System
set_parent s idx parent = record s { parents = update s.parents idx parent }

-- What a child takes from the process that makes it.
abbrev pub inherit : Proc → Proc → Proc
inherit p c = record c {
  sig_trapframe = zero_frame;
  sig_active = false;
  sig_restorer = p.sig_restorer;
  sig_handlers = p.sig_handlers;
  sig_pending = 0;
  sig_alarm_deadline = p.sig_alarm_deadline;
  sig_alarm_interval = p.sig_alarm_interval;
  pgid = p.pgid;
  sid = p.sid;
  stop_sig = 0;
  stop_reported = false;
  cont_pending = false;
}

-- The end of fork and clone: the child gets its parent and can run.
unfoldable pub start : ℕ → ℕ → ℕ → System → Option (Result ℕ × System)
start cpu idx child s = elim (make_runnable cpu child (set_parent s child (some idx))) [
  | none ↦ none
  | some s' ↦ some (ok (s.pool child).pid, s')
]

-- The child of fork once it has the registers of its parent.
abbrev pub forked : ℕ → ℕ → System → System
forked idx c s =
    let p = s.pool idx in
    put s c (record (inherit p (s.pool c)) { trapframe = record (p.trapframe) { a0 = 0 } })

-- `copied` is what `p_uvm.copy` answers, and `mapped` what the copy of the mapped regions does: its
-- failures leave by `?`.
unfoldable pub fork_into :
    ℕ → ℕ → (copied mapped : Result (Unit {0})) → Result ℕ × System → Option (Result ℕ × System)
fork_into cpu idx copied mapped (err e, s) = some (err e, s)
fork_into cpu idx (err e) mapped (ok c, s) = some (err e, free c s)
fork_into cpu idx (ok u) (err e) (ok c, s) = some (err e, forked idx c s)
fork_into cpu idx (ok u) (ok v) (ok c, s) = start cpu idx c (forked idx c s)

-- `memory` is what the allocations of `alloc` answer.
unfoldable pub fork :
    ℕ → ℕ → (memory copied mapped : Result (Unit {0})) → System → Option (Result ℕ × System)
fork cpu idx memory copied mapped s = fork_into cpu idx copied mapped (alloc memory s)

-- The thread once it has its registers: sp is number 2 of the others, and a1 number 11.
abbrev pub cloned : ℕ → ℕ → (fcn arg1 arg2 stack : ℕ) → System → System
cloned idx c fcn arg1 arg2 stack s =
    let p = s.pool idx in
    put s c (record (inherit p (s.pool c)) {
      trapframe = record (p.trapframe) {
        epc = fcn;
        a0 = arg1;
        others = update (update p.trapframe.others 2 (stack + 4096)) 11 arg2;
      };
      is_thread = true;
      ustack = stack;
    })

-- `mapped`: the mapping of the thread's trap frame, which also leaves by `?`.
unfoldable pub clone_into :
    ℕ
    → ℕ
    → (fcn arg1 arg2 stack : ℕ) → (mapped : Result (Unit {0})) → Result ℕ × System
    → Option (Result ℕ × System)
clone_into cpu idx fcn arg1 arg2 stack mapped (err e, s) = some (err e, s)
clone_into cpu idx fcn arg1 arg2 stack (err e) (ok c, s) = some (err e, s)
clone_into cpu idx fcn arg1 arg2 stack (ok u) (ok c, s) =
    start cpu idx c (cloned idx c fcn arg1 arg2 stack s)

-- The page of the stack lies in the memory of the process, of `sz` bytes.
abbrev pub is_stack : ℕ → ℕ → Bool
is_stack sz stack =
    not (stack == 0)
    && (stack % 4096 == 0 && (ltb (stack + 4096) (2 ^ 64) && leb (stack + 4096) sz))

unfoldable pub clone :
    ℕ
    → ℕ
    → (sz fcn arg1 arg2 stack : ℕ) → (memory mapped : Result (Unit {0})) → System
    → Option (Result ℕ × System)
clone cpu idx sz fcn arg1 arg2 stack memory mapped s =
    if is_stack sz stack
    then clone_into cpu idx fcn arg1 arg2 stack mapped (alloc memory s)
    else some (err bad_virt_addr, s)

-- One turn of the loop that gives the children of `idx` to init, process 0.
unfoldable pub adopt_one : ℕ → ℕ → ℕ → System → Option System
adopt_one cpu idx c s =
    if is_index (s.parents c) idx
    then wakeup cpu (s.addresses 0) (set_parent s c (some 0))
    else some s

unfoldable pub wake_parent_of : ℕ → Option ℕ → System → Option System
wake_parent_of cpu none s = none
wake_parent_of cpu (some parent) s = wakeup cpu (s.addresses parent) s

-- The end of `exit`, under the lock of the parents: from the children to the scheduler.
unfoldable pub exit : ℕ → ℕ → ℕ → System → Option System
exit cpu idx status s = if idx == 0 then none else elim (for_from (adopt_one cpu idx) nproc 0 s) [
  | none ↦ none
  | some s1 ↦ elim (wake_parent_of cpu (s1.parents idx) s1) [
    | none ↦ none
    | some s2 ↦
        sched cpu idx (put s2 idx (record (s2.pool idx) { xstate = status; state = zombie }))
  ]
]
