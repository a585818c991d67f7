-- ===== src/Procs/Cpus.antt =====
-- proc.rs: the moves of a process on and off a CPU: scheduler, sched, yielding and sleep.
use web_os.Prelude.{
  ℕ, ◌+◌, ◌<◌, ◌≡◌, refl, ap, some, true, false, arith, ◌==◌, ==_refl, update, update_self,
  update_ne,
}
use web_os.Prelude.Sums.{sum, count, one_if, sum-change, term-le-sum}
use web_os.RunQueue.{nproc, ncpu}
use web_os.RunQueue.Steal.{waiting}
use web_os.Procs.States.{same_state-eq}
use web_os.Procs.{
  System, Proc, ProcState, CpuState, idle, holds, runs, runnable, running, same_state, put, sched,
}
use web_os.Procs.Balance.{one_if-le, IsQueued, IsOnCpus, in_state, held, ran, queued_at}
use web_os.Procs.Tree.{IsGood, IsFamily, IsFamily-keep, Safe, is_alive, is_placed, put_each}

abbrev pub with_cpu : System → ℕ → CpuState → System
with_cpu s cpu c = record s { cpus = update s.cpus cpu c }

module _ (s : System) (cpu : ℕ) (c : CpuState) (small : cpu < ncpu) where
  pub queued-sum :
      (i : ℕ)
      → sum ncpu (queued_at (with_cpu s cpu c) i) + held i (s.cpus cpu)
        ≡ sum ncpu (queued_at s i) + held i c
  queued-sum i = omega (
    arith,
    sum-change ncpu cpu (queued_at (with_cpu s cpu c) i) (queued_at s i) small
        (λ k ne. ap (λ d. count i (waiting s.queues k) + held i d) (update_ne s.cpus c ne)),
    ap (held i) (update_self s.cpus cpu c),
  )

  pub ran-sum :
      (i : ℕ)
      → sum ncpu (λ k. ran i (update s.cpus cpu c k)) + ran i (s.cpus cpu)
        ≡ sum ncpu (λ k. ran i (s.cpus k)) + ran i c
  ran-sum i = omega (
    arith,
    sum-change ncpu cpu (λ k. ran i (update s.cpus cpu c k)) (λ k. ran i (s.cpus k)) small
        (λ k ne. ap (ran i) (update_ne s.cpus c ne)),
    ap (ran i) (update_self s.cpus cpu c),
  )

in_state_here :
    (s : System) (state : ProcState) (i : ℕ)
    → one_if (in_state s state i) ≡ 1
    → (i < nproc) × (same_state (s.pool i).state state ≡ true)
in_state_here s state i h = (ground (arith, h), ground (arith, h))

-- The process that a CPU runs.
pub runs_running :
    (s : System) (cpu idx : ℕ)
    → IsOnCpus s
    → cpu < ncpu
    → s.cpus cpu ≡ runs idx
    → (idx < nproc) × (same_state (s.pool idx).state running ≡ true)
runs_running s cpu idx h small e = in_state_here s running idx (
    omega (
      arith,
      h idx,
      term-le-sum ncpu cpu (λ k. ran idx (s.cpus k)) small,
      ap (ran idx) e,
      ap one_if (==_refl idx),
      one_if-le (in_state s running idx),
    ))

-- The process that a scheduler has in hand.
pub holds_runnable :
    (s : System) (cpu idx : ℕ)
    → IsQueued s
    → cpu < ncpu
    → s.cpus cpu ≡ holds idx
    → (idx < nproc) × (same_state (s.pool idx).state runnable ≡ true)
holds_runnable s cpu idx h small e = in_state_here s runnable idx (
    omega (
      arith,
      h.placed idx,
      term-le-sum ncpu cpu (queued_at s idx) small,
      ap (held idx) e,
      ap one_if (==_refl idx),
      one_if-le (in_state s runnable idx),
    ))

-- The CPU still has the process, but the process does not count as running any more.
pub record IsLeaving (cpu idx : ℕ) (s : System) : Type 0 where
  pub queued : IsQueued s
  pub on_cpus :
      (i : ℕ) → sum ncpu (λ k. ran i (s.cpus k)) ≡ one_if (in_state s running i) + one_if (idx == i)
  pub here : s.cpus cpu ≡ runs idx
  pub off : same_state (s.pool idx).state running ≡ false
  pub family : IsFamily s

pub sched_off :
    (cpu idx : ℕ) (s : System) → IsLeaving cpu idx s → sched cpu idx s ≡ some (with_cpu s cpu idle)
unfolding sched
sched_off cpu idx s h = rw (h.off) refl

pub off-IsGood :
    (cpu idx : ℕ) (s : System) → IsLeaving cpu idx s → cpu < ncpu → IsGood (with_cpu s cpu idle)
off-IsGood cpu idx s h small = record {
  queued = record {
    queues_valid = h.queued.queues_valid;
    placed =
        λ i. omega (arith, queued-sum s cpu idle small i, ap (held i) h.here, h.queued.placed i);
  };
  on_cpus = λ i. omega (arith, ran-sum s cpu idle small i, ap (ran i) h.here, h.on_cpus i);
  family = IsFamily-keep s (with_cpu s cpu idle) refl (λ i e. e) (λ i e. e) h.family;
}

pub sched-Safe :
    (cpu idx : ℕ) (s : System) → IsLeaving cpu idx s → cpu < ncpu → Safe (sched cpu idx s)
sched-Safe cpu idx s h small =
    (with_cpu s cpu idle, sched_off cpu idx s h, off-IsGood cpu idx s h small)

pub IsFamily-put :
    (s : System) (idx : ℕ) (p : Proc)
    → (is_alive (s.pool idx).state ≡ true → is_alive p.state ≡ true)
    → (is_placed p.state ≡ true → is_placed (s.pool idx).state ≡ true)
    → IsFamily s
    → IsFamily (put s idx p)
IsFamily-put s idx p alive placed h =
    IsFamily-keep s (put s idx p) refl (λ i. (each i).0) (λ i. (each i).1) h
  where
    each :
        (i : ℕ)
        → (is_alive (s.pool i).state ≡ true → is_alive (update s.pool idx p i).state ≡ true)
          × (is_placed (update s.pool idx p i).state ≡ true → is_placed (s.pool i).state ≡ true)
    each =
        put_each
          (λ i q.
            (is_alive (s.pool i).state ≡ true → is_alive q.state ≡ true)
            × (is_placed q.state ≡ true → is_placed (s.pool i).state ≡ true))
          s idx p (alive, placed) (λ i ne. ((λ e. e), (λ e. e)))

pub running_bits :
    (a : ProcState)
    → same_state a running ≡ true
    → (same_state a runnable ≡ false) × (is_alive a ≡ true)
running_bits a e =
    let same = same_state-eq a running e in (ap (λ k. same_state k runnable) same, ap is_alive same)

pub runs-is_alive :
    (s : System) (cpu idx : ℕ)
    → IsGood s
    → cpu < ncpu
    → s.cpus cpu ≡ runs idx
    → (idx < nproc) × (is_alive (s.pool idx).state ≡ true)
runs-is_alive s cpu idx h small e =
    let (inside, state) = runs_running s cpu idx h.on_cpus small e in
    (inside, (running_bits (s.pool idx).state state).1)
