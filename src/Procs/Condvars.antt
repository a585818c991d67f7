-- ===== src/Procs/Condvars.antt =====
-- crates/kernel/src/condvar.rs: a condition variable is its address, on which its waiters sleep. The lock
-- that `wait` takes over is left out: `sleep` holds the process before it lets go of that lock.
use web_os.Prelude.{
  ℕ, ◌<◌, ◌≡◌, ◌∙◌, refl, ap, ◌==◌, ==_refl, ==_ne, Option, none, some, false, arith, inl, inr,
  update_self,
}
use web_os.RunQueue.{ncpu}
use web_os.Procs.{
  System, Proc, CpuState, idle, holds, runs, sleeping, running, runnable, same_state, put, is_index,
  myproc, sleep, wakeup,
}
use web_os.Procs.Tree.{IsGood}
use web_os.Procs.Cpus.{with_cpu, sched_off, off-IsGood, runs_running, IsLeaving}
use web_os.Procs.Leaving.{rest-IsLeaving}
use web_os.Procs.Wakeups.{wakeup_lem, Effect}

abbrev pub wait : ℕ → ℕ → ℕ → System → Option System
wait cpu idx condvar s = sleep cpu idx condvar s

abbrev pub notify_all : ℕ → ℕ → System → Option System
notify_all cpu condvar s = wakeup cpu condvar s

asleep : ℕ → Proc → Proc
asleep condvar p = record p { chan = condvar; state = sleeping }

-- The table in which the process sleeps.
module _ (cpu idx condvar : ℕ) (s : System) (h : IsGood s) (small : cpu < ncpu)
    (here : s.cpus cpu ≡ runs idx) where
  slept : System
  slept = with_cpu (put s idx (asleep condvar (s.pool idx))) cpu idle

  leaves : IsLeaving cpu idx (put s idx (asleep condvar (s.pool idx)))
  unfolding asleep
  leaves = rest-IsLeaving s cpu idx h small here (asleep condvar (s.pool idx)) refl refl refl

  slept-IsGood : IsGood slept
  unfolding slept
  slept-IsGood = off-IsGood cpu idx _ leaves small

  wait-slept : wait cpu idx condvar s ≡ some slept
  unfolding sleep slept asleep
  wait-slept = sched_off cpu idx _ leaves

  at_rest : slept.pool idx ≡ asleep condvar (s.pool idx)
  unfolding slept
  at_rest = update_self s.pool idx (asleep condvar (s.pool idx))

  resting_state : ((slept.pool idx).state ≡ sleeping) × ((slept.pool idx).chan ≡ condvar)
  unfolding asleep
  resting_state = (ap (λ (p : Proc). p.state) at_rest, ap (λ (p : Proc). p.chan) at_rest)

  -- No CPU runs the process that sleeps.
  not_current : (by : ℕ) → by < ncpu → is_index (myproc slept by) idx ≡ false
  not_current by fits = by_state (slept.cpus by) refl
    where
      by_state :
          (c : CpuState)
          → slept.cpus by ≡ c
          → is_index
              (elim c as (λ k. Option ℕ) [ idle ↦ none | holds i ↦ none | runs i ↦ some i ])
              idx
            ≡ false
      by_state idle e = refl
      by_state (holds i) e = refl
      by_state (runs i) e = ==_ne i idx (λ same. ground (
        arith,
        (runs_running slept by idx slept-IsGood.on_cpus fits (e ∙ ap runs same)).1,
        ap (λ a. same_state a running) resting_state.0,
      ))

  -- In a good table a running process that waits on a condition variable goes to sleep without a
  -- panic, and the next notify_all on that variable, from whichever CPU, fails no assertion and
  -- makes the process runnable.
  pub notify_all-wait :
      (by : ℕ)
      → by < ncpu
      → (t u : System) × (wait cpu idx condvar s ≡ some t)
        × (notify_all by condvar t ≡ some u)
        × ((u.pool idx).state ≡ runnable)
  notify_all-wait by fits =
      let (u, e, kept, effect, rest) = wakeup_lem by condvar slept slept-IsGood.queued fits in
      (
        slept,
        u,
        wait-slept,
        e,
        woken u (effect idx (runs_running s cpu idx h.on_cpus small here).0),
      )
    where
      woken :
          (u : System)
          → Effect (myproc slept by) condvar idx (slept.pool idx) (u.pool idx)
          → (u.pool idx).state ≡ runnable
      woken u (inl (e, (state, (c, same)))) = ap (λ (p : Proc). p.state) same
      woken u (inr (e, same)) = absurd (
          ground (
            arith,
            e,
            not_current by fits,
            ap (λ a. same_state a sleeping) resting_state.0,
            ap (λ k. k == condvar) resting_state.1,
            ==_refl condvar,
          ))
