-- ===== src/Procs/Tests.antt =====
-- proc.rs: init sleeps in a wait, and its child runs on CPU 1.
use mathlib.Core.Path.{subst}
use native.Mathlib.Decide.{ℕ_discrete}
use web_os.Prelude.{
  ◌≤◌, ◌^◌, update_ne, ℕ, zero, suc, ◌+◌, ◌<◌, ◌≡◌, ◌≢◌, ◌∙◌, refl, sym, ap, none, some, true,
  false, arith, update,
}
use web_os.Prelude.Sums.{sum}
use web_os.Procs.{sig_ign, alloc, alloc_from, alloc_slot, free}
use web_os.Procs.Steps.{empty}
use web_os.Procs.Handlers.{trailing_zeros}
use web_os.Procs.Signals.{sigtstp, nsig, default_action}
use web_os.Procs.Reaping.{stop_status, waitpid_round, scan_from, wait_child, drop_ignored}
use web_os.Errors.{negsuc, invalid_argument, out_of_memory, err, Result, ok}
use web_os.RunQueue.{nproc, init}
use web_os.Procs.{System, Proc, idle, runs, new, sleeping, running, runnable}
use web_os.Procs.Balance.{IsOnCpus, in_state}
use web_os.Procs.Tree.{IsGood, IsFamily, is_alive}
use web_os.Procs.{put, myproc, wakeup, holds}
use web_os.Procs.Signals.{kill}
use web_os.Procs.Handlers.{deliver_signals, sigreturn, trailing_zeros_from}
use web_os.Procs.Family.{exit}
use web_os.Procs.Reaping.{wait_round, returns, reap}
use web_os.Procs.Boot.{empty-IsQueued, user_init-Safe}
use web_os.Procs.Tree.{Safe}
use web_os.Procs.Steps.{user_init, step, take, exits, Reached, booted, next}
use web_os.Procs.Safety.{step-Safe, Reached-IsGood}
use web_os.Procs.Wakeups.{wakeup_lem, Kept, Effect}
use web_os.Procs.Exits.{exit_lem, Exited}
use web_os.Procs.Condvars.{wait, notify_all, notify_all-wait}
use web_os.Procs.Kills.{kill_lem, KillAnswers}
use web_os.Procs.Returns.{wait_round-exit}
use web_os.Procs.Interruptions.{sigreturn-deliver_signals}

abbrev sleeper : Proc
sleeper = record new { state = sleeping; chan = 100 }

abbrev runner : Proc
runner = record new { state = running; pid = 1; pgid = 1; sid = 1 }

abbrev family : System
family = record {
  pool = update (update (λ i. new) 0 sleeper) 1 runner;
  parents = update (λ i. none) 1 (some 0);
  queues = init;
  cpus = update (λ cpu. idle) 1 (runs 1);
  next_pid = 2;
  addresses = λ i. 100 + i;
}

not_runnable : (i : ℕ) → in_state family runnable i ≡ false
unfolding new
not_runnable i = ground arith

family-IsOnCpus : IsOnCpus family
unfolding new sum
family-IsOnCpus i = ground arith

some_inj : (a b : ℕ) → some a ≡ some b → a ≡ b
some_inj a b e = cc

none_ne : (a : ℕ) → none ≢ some a
none_ne a e = cc

family-IsFamily : IsFamily family
unfolding new
family-IsFamily = record {
  alive_parent = λ i p inside e.
      subst (λ k. (k < nproc) × (is_alive (family.pool k).state ≡ true)) (only_parent i p e)
        (omega arith, refl);
  has_parent = λ i inside ne placed. elim (ℕ_discrete i 1) [
    | yes same ↦ (0, ap family.parents same)
    | no ne' ↦ absurd (ground (arith, placed, ne, ne'))
  ];
  init_alive = refl;
}
  where
    only_parent : (i p : ℕ) → family.parents i ≡ some p → 0 ≡ p
    only_parent i p e = elim (ℕ_discrete i 1) [
      | yes same ↦ some_inj 0 p (sym (ap family.parents same) ∙ e)
      | no ne ↦ absurd (none_ne p (sym (update_ne (λ k. none) (some 0) ne) ∙ e))
    ]

family-IsGood : IsGood family
unfolding new
family-IsGood = record {
  queued = empty-IsQueued family refl (λ i cpu. ground arith) not_runnable;
  on_cpus = family-IsOnCpus;
  family = family-IsFamily;
}

-- The first state of the machine.
first : (t : System) × (user_init 0 (λ i. 100 + i) ≡ some t) × IsGood t
first = user_init-Safe (λ i. 100 + i) 0 (omega arith)

first-Reached : Reached first.0
first-Reached = booted 0 (λ i. 100 + i) (omega arith) first.1

-- Its first process is taken from the queue.
second : (t : System) × (step (take 0) first.0 ≡ some t) × IsGood t
second = step-Safe (take 0) first.0 first.2 (omega arith) tt

Reached-IsGood_example : IsGood second.0
Reached-IsGood_example =
    Reached-IsGood second.0 (next (take 0) first-Reached (omega arith) second.1)

two_ne : runs 1 ≢ runs 0
two_ne e =
    subst (λ c. elim c [ idle ↦ ⊥ | holds i ↦ ⊥ | runs i ↦ elim i [ zero ↦ ⊥ | suc n ↦ Unit {0} ] ])
      e tt

step-Safe_example : Safe (step (exits 1 7) family)
step-Safe_example = step-Safe (exits 1 7) family family-IsGood (omega arith) two_ne

wakeup_lem_example :
    (t : System) × (wakeup 1 100 family ≡ some t)
    × Kept family t
    × ((j : ℕ) → j < nproc → Effect (myproc family 1) 100 j (family.pool j) (t.pool j))
    × ((j : ℕ) → nproc ≤ j → t.pool j ≡ family.pool j)
wakeup_lem_example = wakeup_lem 1 100 family family-IsGood.queued (omega arith)

exit_lem_example : (t : System) × (exit 1 1 7 family ≡ some t) × Exited 1 1 7 family t
exit_lem_example = exit_lem 1 1 7 family family-IsGood (omega arith) (omega arith) refl

abbrev written : ℕ → Result (Unit {0})
written status = ok tt

wait_round-exit_example :
    (t : System) × (exit 1 1 7 family ≡ some t)
    × ((parent : ℕ) × (t.parents 1 ≡ some parent)
        × (wait_round written (some 1) 0 parent t ≡ returns (ok 1) (reap 1 t)))
unfolding new
wait_round-exit_example =
    wait_round-exit written 1 1 7 0 family family-IsGood (omega arith) (omega arith) refl
      (omega arith) refl only refl refl
  where
    only : (c : ℕ) → c < nproc → (family.pool c).pid ≡ 1 → c ≡ 1
    only c lt e = ground (arith, e)

kill_lem_example : KillAnswers 1 9 family (kill 1 1 9 family)
kill_lem_example = kill_lem 1 1 9 family family-IsGood.queued (omega arith)

-- The child has caught SIGUSR1, which is pending.
abbrev catcher : Proc
catcher = record runner { sig_handlers = λ i. 4096; sig_restorer = 8192; sig_pending = 512 }

sigreturn-deliver_signals_example :
    (t u : System) × (deliver_signals 1 1 (put family 1 catcher) ≡ some t)
    × (sigreturn 1 t ≡ (ok tt, u))
    × ((t.pool 1).trapframe.epc ≡ 4096)
    × ((t.pool 1).trapframe.a0 ≡ 10)
    × ((t.pool 1).sig_active ≡ true)
    × ((u.pool 1).trapframe ≡ ((put family 1 catcher).pool 1).trapframe)
    × ((u.pool 1).sig_active ≡ false)
unfolding new trailing_zeros_from
sigreturn-deliver_signals_example =
    sigreturn-deliver_signals 10 1 1 (put family 1 catcher) refl (omega arith) refl (omega arith)
      (omega arith) (omega arith) (omega arith)

-- The slots of an empty table are given out from the first on, and with them the numbers from 0 on.
after_one : System
after_one = (alloc (ok tt) (empty (λ i. i))).1

second_slot : (alloc (ok tt) after_one).0 ≡ ok 1
unfolding after_one alloc alloc_from alloc_slot new
second_slot = refl

-- A slot whose memory could not be had is free again, but its number is spent.
spent : (alloc (err out_of_memory) (empty (λ i. i))).1.next_pid ≡ 1
unfolding alloc alloc_from alloc_slot new free
spent = refl

again : (alloc (ok tt) (alloc (err out_of_memory) (empty (λ i. i))).1).0 ≡ ok 0
unfolding alloc alloc_from alloc_slot new free
again = refl

lowest_first : trailing_zeros 0x5200 ≡ 9
unfolding trailing_zeros_from
lowest_first = refl

stopped_by_tstp : stop_status sigtstp ≡ 0x147f
stopped_by_tstp = refl

no_such_wait : waitpid_round written (negsuc 1) 0 0 family ≡ returns (err invalid_argument) family
unfolding waitpid_round
no_such_wait = refl

-- The parent cannot be told at once: its child still runs.
not_yet : wait_round written none 1 0 family ≡ returns (ok 0) family
unfolding wait_round scan_from wait_child drop_ignored new
not_yet = refl

notify_all-wait_example :
    (t u : System) × (wait 1 1 5000 family ≡ some t)
    × (notify_all 0 5000 t ≡ some u)
    × ((u.pool 1).state ≡ runnable)
notify_all-wait_example =
    notify_all-wait 1 1 5000 family family-IsGood (omega arith) refl 0 (omega arith)

-- SIGCHLD is ignored by default and SIGUSR1 is not; a handler that ignores SIGUSR1 makes it dropped too.
abbrev two_pending : Proc
two_pending = record new { sig_pending = 2 ^ 16 + 2 ^ 9 }

child_dropped : (drop_ignored nsig 1 two_pending).sig_pending ≡ 2 ^ 9
unfolding drop_ignored default_action new
child_dropped = refl

both_dropped :
    (drop_ignored nsig 1
      (record two_pending { sig_handlers = update two_pending.sig_handlers 9 sig_ign })).sig_pending
    ≡ 0
unfolding drop_ignored default_action new
both_dropped = refl
