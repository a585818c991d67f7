-- ===== src/Procs/Safety.antt =====
-- proc.rs: all steps together: the table stays good, and no assertion that is modelled fails.
use web_os.Prelude.{none, ◌≢◌, ℕ, ◌<◌, ◌≡◌, ◌∙◌, refl, sym, ap, Option, some}
use mathlib.Core.Path.{subst}
use web_os.RunQueue.{ncpu}
use web_os.Procs.{System, CpuState, idle, holds, runs, take_next, switch_to}
use web_os.Procs.Family.{exit}
use web_os.Procs.Steps.{
  Event, take, switch, yields, awakes, delivers, returns_from_signal, kills_threads, reaps, leads,
  sleeps_on, wakes, exits, ticks, kills, kills_group, acts, sets_timer, forks, clones, groups,
  joins, waits, by_process, step, cpu_of, SparesInit, Reached, booted, next,
}
use web_os.Procs.Reaping.{waitpid_round, join_round}
use web_os.Procs.Callers.{wakeup-Wakes, on_tick-Wakes}
use web_os.Procs.Tree.{IsGood, Safe, Wakes-Safe}
use web_os.Procs.Leaving.{sleep-Safe, yielding-Safe}
use web_os.Procs.Scheduler.{take_next-Safe, switch_to-IsGood}
use web_os.Procs.Delivery.{
  deliver_signals-Safe, kill-Wakes, kill_pgrp-Wakes, awake-IsGood, sigreturn-IsGood,
  sigaction-IsGood, setitimer-IsGood,
}
use web_os.Procs.Children.{fork-Safe, clone-Safe}
use web_os.Procs.Boot.{user_init-Safe}
use web_os.Procs.Exits.{exit_lem}
use web_os.Procs.Waits.{wait_step-Safe, waitpid_round-GoodWait, join_round-GoodWait}
use web_os.Procs.Threads.{kill_threads-Wakes, reap_round-Safe, setsid-IsGood, setpgid-IsGood}

done : {s : System} → IsGood s → Safe (some s)
done {s} h = (s, refl, h)

-- What a CPU does in one of its three states.
by_cpu-Safe :
    (s : System) (cpu : ℕ) (a : Option System) (f g : ℕ → Option System)
    → (s.cpus cpu ≡ idle → Safe a)
    → ((idx : ℕ) → s.cpus cpu ≡ holds idx → Safe (f idx))
    → ((idx : ℕ) → s.cpus cpu ≡ runs idx → Safe (g idx))
    → Safe (elim (s.cpus cpu) [ idle ↦ a | holds idx ↦ f idx | runs idx ↦ g idx ])
by_cpu-Safe s cpu a f g h h' h'' = by_state (s.cpus cpu) refl
  where
    by_state :
        (c : CpuState)
        → s.cpus cpu ≡ c
        → Safe (elim c as (λ k. Option System) [ idle ↦ a | holds idx ↦ f idx | runs idx ↦ g idx ])
    by_state idle e = h e
    by_state (holds idx) e = h' idx e
    by_state (runs idx) e = h'' idx e

by_process-Safe :
    (cpu : ℕ) (s : System) (f : ℕ → Option System)
    → IsGood s
    → ((idx : ℕ) → s.cpus cpu ≡ runs idx → Safe (f idx))
    → Safe (by_process cpu s f)
by_process-Safe cpu s f h each =
    by_cpu-Safe s cpu (some s) (λ idx. some s) f (λ e. done h) (λ idx e. done h) each

-- From a good table no step of a CPU below NCPU fails a modelled assertion or overruns a run queue,
-- where init does not exit, and the table that it leaves is good again: each runnable process stands
-- in one run queue once or is in the hand of one scheduler, each running process is the one of
-- exactly one CPU, no other process is queued or run, parents are alive, and every process but init
-- has one.
pub step-Safe :
    (e : Event) (s : System) → IsGood s → cpu_of e < ncpu → SparesInit e s → Safe (step e s)
unfolding step
step-Safe (take cpu) s h small spares =
    by_cpu-Safe s cpu (take_next cpu s) (λ idx. some s) (λ idx. some s)
      (λ here. take_next-Safe cpu s h small here) (λ idx e. done h) (λ idx e. done h)
step-Safe (switch cpu) s h small spares =
    by_cpu-Safe s cpu (some s) (λ idx. some (switch_to cpu idx s)) (λ idx. some s) (λ here. done h)
      (λ idx here. done (switch_to-IsGood cpu idx s h small here)) (λ idx e. done h)
step-Safe (yields cpu) s h small spares =
    by_process-Safe cpu s _ h (λ idx here. yielding-Safe s cpu idx h small here)
step-Safe (awakes cpu) s h small spares =
    by_process-Safe cpu s _ h (λ idx here. done (awake-IsGood idx s h))
step-Safe (delivers cpu) s h small spares =
    by_process-Safe cpu s _ h (λ idx here. deliver_signals-Safe cpu idx small s h here)
step-Safe (returns_from_signal cpu) s h small spares =
    by_process-Safe cpu s _ h (λ idx here. done (sigreturn-IsGood idx s h))
step-Safe (kills_threads cpu) s h small spares =
    by_process-Safe cpu s _ h
      (λ idx here. Wakes-Safe s _ h (kill_threads-Wakes cpu idx s small h.queued))
step-Safe (reaps cpu) s h small spares =
    by_process-Safe cpu s _ h (λ idx here. reap_round-Safe cpu idx s small here h)
step-Safe (leads cpu) s h small spares =
    by_process-Safe cpu s _ h (λ idx here. done (setsid-IsGood idx s h))
step-Safe (sleeps_on cpu chan) s h small spares =
    by_process-Safe cpu s _ h (λ idx here. sleep-Safe s cpu idx h small here chan)
step-Safe (wakes cpu chan) s h small spares =
    Wakes-Safe s _ h (wakeup-Wakes cpu small chan s h.queued)
step-Safe (exits cpu status) s h small spares = by_process-Safe cpu s _ h (λ idx here.
    let (t, e, x) = exit_lem cpu idx status s h small (λ e. spares (here ∙ ap runs e)) here in
    (t, e, x.good))
step-Safe (ticks cpu now) s h small spares =
    Wakes-Safe s _ h (on_tick-Wakes cpu small now s h.queued)
step-Safe (kills cpu pid sig) s h small spares =
    Wakes-Safe s _ h (kill-Wakes cpu 0 small pid sig s h.queued)
step-Safe (kills_group cpu pgid sig) s h small spares =
    Wakes-Safe s _ h (kill_pgrp-Wakes cpu 0 small pgid sig s h.queued)
step-Safe (acts cpu sig handler restorer) s h small spares =
    by_process-Safe cpu s _ h (λ idx here. done (sigaction-IsGood sig handler restorer idx s h))
step-Safe (sets_timer cpu now initial interval) s h small spares =
    by_process-Safe cpu s _ h (λ idx here. done (setitimer-IsGood now initial interval idx s h))
step-Safe (forks cpu memory copied mapped) s h small spares =
    by_process-Safe cpu s _ h (λ idx here. fork-Safe cpu idx small memory copied mapped s h here)
step-Safe (clones cpu sz fcn arg1 arg2 stack memory mapped) s h small spares =
    by_process-Safe cpu s _ h
      (λ idx here. clone-Safe cpu idx small sz fcn arg1 arg2 stack memory mapped s h here)
step-Safe (groups cpu pid pgid) s h small spares =
    by_process-Safe cpu s _ h (λ idx here. done (setpgid-IsGood idx pid pgid s h))
step-Safe (joins cpu copyout) s h small spares = by_process-Safe cpu s _ h (λ idx here.
    wait_step-Safe cpu idx s (join_round copyout idx s) small here
      (join_round-GoodWait copyout idx s h))
step-Safe (waits cpu pid options copyout) s h small spares = by_process-Safe cpu s _ h (λ idx here.
    wait_step-Safe cpu idx s (waitpid_round copyout pid options idx s) small here
      (waitpid_round-GoodWait copyout pid options idx s h))

-- A run that is safe gives a good table.
Safe-result : {run : Option System} {t : System} → Safe run → run ≡ some t → IsGood t
Safe-result {run} {t} (u, e, h) e' = subst IsGood (same u (sym e ∙ e')) h
  where
    same : (u : System) → some u ≡ some t → u ≡ t
    same u e = cc

none_ne : {t : System} → none ≢ some t
none_ne {t} e = cc

-- Init does not live on after an exit.
exits_on :
    (cpu status : ℕ) (s t : System) → step (exits cpu status) s ≡ some t → s.cpus cpu ≢ runs 0
unfolding step exit
exits_on cpu status s t run here = none_ne (
    sym (
      ap (λ c. elim c [ idle ↦ some s | holds idx ↦ some s | runs idx ↦ exit cpu idx status s ])
        here)
    ∙ run)

-- A step that was taken spared init.
step-SparesInit : (e : Event) (s t : System) → step e s ≡ some t → SparesInit e s
step-SparesInit (exits cpu status) s t run = exits_on cpu status s t run
step-SparesInit e s t run = tt

-- Every state that the machine gets into from user_init, by any steps of any CPUs that fail no
-- assertion, is good: each runnable process stands in one run queue once or is in the hand of
-- one scheduler, each running process is the one of exactly one CPU, parents are alive, and every
-- process but init has one.
pub Reached-IsGood : (s : System) → Reached s → IsGood s
Reached-IsGood s (booted cpu addresses small e) = Safe-result (user_init-Safe addresses cpu small) e
Reached-IsGood s (next e {s = before} r small run) =
    Safe-result
      (step-Safe e before (Reached-IsGood before r) small (step-SparesInit e before s run)) run
