-- ===== src/Procs/Scheduler.antt =====
-- proc.rs: the two halves of a round of `scheduler`, and a process that is woken while it leaves its CPU.
use web_os.Prelude.{
  ℕ, ◌+◌, ◌<◌, ◌≡◌, ◌∙◌, refl, sym, ap, Option, none, some, true, false, ◌&&◌, ◌||◌, arith, ltb,
  ◌==◌, ==_ne, update, List,
}
use web_os.Prelude.Sums.{sum, count, one_if, sum-same, sum-change, count_cons}
use web_os.RunQueue.{nproc, ncpu, Queues, runq_pop_or_steal}
use web_os.RunQueue.Steal.{
  waiting, Taken, SameWaiting, Chosen, runq_pop_or_steal_lem, AllQueues, Idle,
}
use web_os.Procs.States.{same_state-eq}
use web_os.Procs.{
  System, Proc, ProcState, CpuState, idle, holds, runs, runnable, running, zombie, same_state, put,
  take_next, switch_to,
}
use web_os.Procs.Balance.{IsQueued, in_state, held, ran, queued_at}
use web_os.Procs.Waking.{Woken}
use web_os.Procs.Tree.{IsGood, IsFamily-keep, Safe, is_alive, is_placed, put_each, Woke-bits}
use web_os.Procs.Cpus.{IsLeaving, with_cpu, queued-sum, ran-sum, holds_runnable, IsFamily-put}

pub Woken-IsLeaving :
    (cpu idx : ℕ) (s s' : System)
    → IsLeaving cpu idx s
    → IsQueued s'
    → Woken s s'
    → IsLeaving cpu idx s'
Woken-IsLeaving cpu idx s s' h q w = record {
  queued = q;
  on_cpus = λ i.
      ap (λ (c : ℕ → CpuState). sum ncpu (λ k. ran i (c k))) w.cpus
      ∙ h.on_cpus i
      ∙ ap (λ b. one_if (ltb i nproc && b) + one_if (idx == i)) (sym (bits i).0);
  here = ap (λ (c : ℕ → CpuState). c cpu) w.cpus ∙ h.here;
  off = (bits idx).0 ∙ h.off;
  family = IsFamily-keep s s' w.parents (λ i. (bits i).1) (λ i. (bits i).2) h.family;
}
  where
    bits :
        (i : ℕ)
        → (same_state (s'.pool i).state running ≡ same_state (s.pool i).state running)
          × (is_alive (s.pool i).state ≡ true → is_alive (s'.pool i).state ≡ true)
          × (is_placed (s'.pool i).state ≡ true → is_placed (s.pool i).state ≡ true)
    bits i = Woke-bits (s.pool i).state (s'.pool i).state (w.moved i).woke

-- New queues, and an idle CPU that has `c` in hand.
module _ (s : System) (cpu : ℕ) (h : IsGood s) (small : cpu < ncpu) (here : s.cpus cpu ≡ idle)
    (q : Queues) (valid : AllQueues q) where
  Taken-sum :
      (idx : ℕ)
      → Taken s.queues idx q
      → (i : ℕ)
      → sum ncpu (λ k. count i (waiting q k) + held i (s.cpus k)) + one_if (idx == i)
        ≡ sum ncpu (queued_at s i)
  Taken-sum idx (j, hj, front, rest) i = omega (
    arith,
    sum-change ncpu j (λ k. count i (waiting q k) + held i (s.cpus k)) (queued_at s i) hj
        (λ k ne. ap (λ (l : List ℕ). count i l + held i (s.cpus k)) (rest k ne)),
    ap (count i) front,
    count_cons i idx (waiting q j),
  )

  pub taken-IsGood :
      (idx : ℕ)
      → Taken s.queues idx q
      → IsGood (record s { queues = q; cpus = update s.cpus cpu (holds idx) })
  taken-IsGood idx t = record {
    queued = record {
      queues_valid = valid;
      placed = λ i. omega (
        arith,
        queued-sum (record s { queues = q }) cpu (holds idx) small i,
        Taken-sum idx t i,
        h.queued.placed i,
        ap (held i) here,
      );
    };
    on_cpus = λ i. omega (arith, ran-sum s cpu (holds idx) small i, h.on_cpus i, ap (ran i) here);
    family = IsFamily-keep s _ refl (λ i e. e) (λ i e. e) h.family;
  }

  pub none_taken-IsGood : SameWaiting s.queues q → IsGood (record s { queues = q })
  none_taken-IsGood same = record {
    queued = record {
      queues_valid = valid;
      placed = λ i.
          sum-same ncpu (queued_at (record s { queues = q }) i) (queued_at s i)
            (λ k lt. ap (λ (l : List ℕ). count i l + held i (s.cpus k)) (same k))
          ∙ h.queued.placed i;
    };
    on_cpus = h.on_cpus;
    family = IsFamily-keep s _ refl (λ i e. e) (λ i e. e) h.family;
  }

after_take : ℕ → System → Option ℕ → Queues → System
after_take cpu s none q = record s { queues = q }
after_take cpu s (some idx) q = record s { queues = q; cpus = update s.cpus cpu (holds idx) }

take_next-after :
    (cpu : ℕ) (s : System) (r : Option ℕ) (q : Queues)
    → runq_pop_or_steal s.queues cpu ≡ some (r, q)
    → take_next cpu s ≡ some (after_take cpu s r q)
unfolding take_next after_take
take_next-after cpu s none q e = rw (take_next, e) refl
take_next-after cpu s (some idx) q e = rw (take_next, e) refl

after_take-IsGood :
    (s : System) (cpu : ℕ)
    → IsGood s
    → cpu < ncpu
    → s.cpus cpu ≡ idle
    → (r : Option ℕ) (q : Queues) → AllQueues q
    → Chosen s.queues r q (Idle s.queues)
    → IsGood (after_take cpu s r q)
unfolding after_take
after_take-IsGood s cpu h small here none q valid c =
    none_taken-IsGood s cpu h small here q valid c.1
after_take-IsGood s cpu h small here (some idx) q valid c =
    taken-IsGood s cpu h small here q valid idx c

pub take_next-Safe :
    (cpu : ℕ) (s : System) → IsGood s → cpu < ncpu → s.cpus cpu ≡ idle → Safe (take_next cpu s)
take_next-Safe cpu s h small here =
    let c = runq_pop_or_steal_lem s.queues cpu h.queued.queues_valid small in
    (
      after_take cpu s c.answer c.after,
      take_next-after cpu s c.answer c.after c.runs,
      after_take-IsGood s cpu h small here c.answer c.after c.valid c.chosen,
    )

runnable_bits :
    (a : ProcState)
    → same_state a runnable ≡ true
    → (same_state a running ≡ false) × (is_alive a ≡ true)
runnable_bits a e =
    let same = same_state-eq a runnable e in (ap (λ k. same_state k running) same, ap is_alive same)

-- The process in hand is runnable, so it does run.
pub switch_to-IsGood :
    (cpu idx : ℕ) (s : System)
    → IsGood s
    → cpu < ncpu
    → s.cpus cpu ≡ holds idx
    → IsGood (switch_to cpu idx s)
unfolding switch_to
switch_to-IsGood cpu idx s h small here = rw (state) good
  where
    inside : idx < nproc
    inside = (holds_runnable s cpu idx h.queued small here).0

    state : same_state (s.pool idx).state runnable ≡ true
    state = (holds_runnable s cpu idx h.queued small here).1

    p : Proc
    p = record (s.pool idx) { state = running; last_cpu = cpu }

    bits :
        (i : ℕ)
        → (one_if (in_state (put s idx p) runnable i) + one_if (idx == i)
            ≡ one_if (in_state s runnable i))
          × (one_if (in_state (put s idx p) running i)
              ≡ one_if (in_state s running i) + one_if (idx == i))
    bits =
        put_each
          (λ i q.
            (one_if (ltb i nproc && same_state q.state runnable) + one_if (idx == i)
              ≡ one_if (in_state s runnable i))
            × (one_if (ltb i nproc && same_state q.state running)
                ≡ one_if (in_state s running i) + one_if (idx == i)))
          s idx p
          (
            ground (arith, inside, state),
            ground (arith, inside, state, (runnable_bits (s.pool idx).state state).0),
          )
          (λ i ne. (
            omega (arith, ap one_if (==_ne idx i (λ e. ne (sym e)))),
            omega (arith, ap one_if (==_ne idx i (λ e. ne (sym e)))),
          ))

    good : IsGood (with_cpu (put s idx p) cpu (runs idx))
    good = record {
      queued = record {
        queues_valid = h.queued.queues_valid;
        placed = λ i. omega (
          arith,
          queued-sum (put s idx p) cpu (runs idx) small i,
          h.queued.placed i,
          (bits i).0,
          ap (held i) here,
        );
      };
      on_cpus = λ i.
          omega (arith, ran-sum s cpu (runs idx) small i, h.on_cpus i, (bits i).1, ap (ran i) here);
      family =
          IsFamily-keep (put s idx p) _ refl (λ i e. e) (λ i e. e)
            (IsFamily-put s idx p (λ e. refl)
              (λ e.
                ap (λ b. b || same_state (s.pool idx).state zombie)
                  (runnable_bits (s.pool idx).state state).1)
              h.family);
    }
