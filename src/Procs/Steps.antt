-- ===== src/Procs/Steps.antt =====
-- proc.rs: what the CPUs do to the process table, as a sequence of steps. A step of a CPU that runs no
-- process, or is not in the scheduler, changes nothing.
use web_os.Prelude.{ℕ, ◌<◌, ◌≡◌, ◌≢◌, Option, none, some}
use web_os.Errors.{ℤ, Result, ok}
use web_os.RunQueue.{nproc, ncpu, init}
use web_os.Procs.{
  System, idle, holds, runs, new, alloc_slot, make_runnable, wakeup, take_next, switch_to, yielding,
  sleep, awake, for_from,
}
use web_os.Procs.Signals.{kill, kill_pgrp, on_tick}
use web_os.Procs.Handlers.{deliver_signals, sigaction, sigreturn, setitimer}
use web_os.Procs.Family.{fork, clone, exit}
use web_os.Procs.Groups.{setsid, setpgid}
use web_os.Procs.Reaping.{waitpid_round, join_round, kill_thread, reap_round, Wait, returns, sleeps}

pub data Event : Type 0 where
  take switch yields awakes delivers returns_from_signal kills_threads reaps leads : ℕ → Event
  sleeps_on wakes exits ticks : ℕ → ℕ → Event
  kills kills_group : ℕ → ℕ → ℕ → Event
  acts : ℕ → (sig handler restorer : ℕ) → Event
  sets_timer : ℕ → (now initial interval : ℕ) → Event
  forks : ℕ → (memory copied mapped : Result (Unit {0})) → Event
  clones : ℕ → (sz fcn arg1 arg2 stack : ℕ) → (memory mapped : Result (Unit {0})) → Event
  groups : ℕ → (pid pgid : ℕ) → Event
  joins : ℕ → (ℕ → Result (Unit {0})) → Event
  waits : ℕ → ℤ → ℕ → (ℕ → Result (Unit {0})) → Event

abbrev pub by_process : ℕ → System → (ℕ → Option System) → Option System
by_process cpu s f = elim (s.cpus cpu) [ idle ↦ some s | holds idx ↦ some s | runs idx ↦ f idx ]

abbrev pub after_call {ℓ} : {A : Type ℓ} → Option (A × System) → Option System
after_call none = none
after_call (some (r, s)) = some s

-- A round of `waitpid`, up to the sleep if it comes to one.
unfoldable pub wait_step : ℕ → ℕ → Wait → Option System
wait_step cpu idx (returns r s) = some s
wait_step cpu idx (sleeps s) = sleep cpu idx (s.addresses idx) s

-- A pass of the second loop of `reap_threads`.
unfoldable pub reap_step : ℕ → ℕ → Option (Result (Unit {0})) × System → Option System
reap_step cpu idx (some r, s) = some s
reap_step cpu idx (none, s) = sleep cpu idx (s.addresses idx) s

unfoldable pub step : Event → System → Option System
step (take cpu) s = elim (s.cpus cpu) [
  | idle ↦ take_next cpu s
  | holds idx ↦ some s
  | runs idx ↦ some s
]
step (switch cpu) s = elim (s.cpus cpu) [
  | idle ↦ some s
  | holds idx ↦ some (switch_to cpu idx s)
  | runs idx ↦ some s
]
step (yields cpu) s = by_process cpu s (λ idx. yielding cpu idx s)
step (awakes cpu) s = by_process cpu s (λ idx. some (awake idx s))
step (delivers cpu) s = by_process cpu s (λ idx. deliver_signals cpu idx s)
step (returns_from_signal cpu) s = by_process cpu s (λ idx. some (sigreturn idx s).1)
step (sleeps_on cpu chan) s = by_process cpu s (λ idx. sleep cpu idx chan s)
step (wakes cpu chan) s = wakeup cpu chan s
step (exits cpu status) s = by_process cpu s (λ idx. exit cpu idx status s)
step (ticks cpu now) s = on_tick now cpu s
step (kills cpu pid sig) s = after_call (kill cpu pid sig s)
step (kills_group cpu pgid sig) s = after_call (kill_pgrp cpu pgid sig s)
step (acts cpu sig handler restorer) s =
    by_process cpu s (λ idx. some (sigaction sig handler restorer idx s).1)
step (sets_timer cpu now initial interval) s =
    by_process cpu s (λ idx. some (setitimer now initial interval idx s).1)
step (forks cpu memory copied mapped) s =
    by_process cpu s (λ idx. after_call (fork cpu idx memory copied mapped s))
step (clones cpu sz fcn arg1 arg2 stack memory mapped) s =
    by_process cpu s (λ idx. after_call (clone cpu idx sz fcn arg1 arg2 stack memory mapped s))
step (waits cpu pid options copyout) s =
    by_process cpu s (λ idx. wait_step cpu idx (waitpid_round copyout pid options idx s))
step (joins cpu copyout) s = by_process cpu s (λ idx. wait_step cpu idx (join_round copyout idx s))
step (kills_threads cpu) s = by_process cpu s (λ idx. for_from (kill_thread cpu idx) nproc 0 s)
step (reaps cpu) s = by_process cpu s (λ idx. reap_step cpu idx (reap_round idx s))
step (leads cpu) s = by_process cpu s (λ idx. some (setsid idx s).1)
step (groups cpu pid pgid) s = by_process cpu s (λ idx. some (setpgid idx pid pgid s).1)

-- `user_init`, on the table of a machine that starts: init is process 0.
abbrev pub empty : (ℕ → ℕ) → System
empty addresses = record {
  pool = λ i. new;
  parents = λ i. none;
  queues = init;
  cpus = λ cpu. idle;
  next_pid = 0;
  addresses = addresses;
}

unfoldable pub user_init : ℕ → (ℕ → ℕ) → Option System
user_init cpu addresses = make_runnable cpu 0 (alloc_slot (ok tt) 0 (empty addresses)).1

abbrev pub cpu_of : Event → ℕ
cpu_of (take cpu) = cpu
cpu_of (switch cpu) = cpu
cpu_of (yields cpu) = cpu
cpu_of (awakes cpu) = cpu
cpu_of (delivers cpu) = cpu
cpu_of (returns_from_signal cpu) = cpu
cpu_of (sleeps_on cpu chan) = cpu
cpu_of (wakes cpu chan) = cpu
cpu_of (exits cpu status) = cpu
cpu_of (ticks cpu now) = cpu
cpu_of (kills cpu pid sig) = cpu
cpu_of (kills_group cpu pgid sig) = cpu
cpu_of (acts cpu sig handler restorer) = cpu
cpu_of (sets_timer cpu now initial interval) = cpu
cpu_of (forks cpu memory copied mapped) = cpu
cpu_of (clones cpu sz fcn arg1 arg2 stack memory mapped) = cpu
cpu_of (waits cpu pid options copyout) = cpu
cpu_of (joins cpu copyout) = cpu
cpu_of (kills_threads cpu) = cpu
cpu_of (reaps cpu) = cpu
cpu_of (leads cpu) = cpu
cpu_of (groups cpu pid pgid) = cpu

-- Init does not exit.
abbrev pub SparesInit : Event → System → Type 0
SparesInit (exits cpu status) s = s.cpus cpu ≢ runs 0
SparesInit e s = Unit

-- The states that the machine can get into.
pub data Reached : System → Type 0 where
  booted :
      (cpu : ℕ) (addresses : ℕ → ℕ) {s : System}
      → cpu < ncpu
      → user_init cpu addresses ≡ some s
      → Reached s
  next : (e : Event) {s t : System} → Reached s → cpu_of e < ncpu → step e s ≡ some t → Reached t
