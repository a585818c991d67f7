-- ===== src/Procs/Balance.antt =====
-- proc.rs with runq.rs: each runnable process stands in one run queue once, or is in the hand of one
-- scheduler. So a queue has room for each process that becomes runnable.
use web_os.Prelude.{
  ℕ, ◌+◌, ◌≤◌, ◌<◌, ◌≡◌, ◌≢◌, ◌∙◌, refl, sym, ap, some, Bool, true, false, ◌&&◌, List, ◌∷◌, arith,
  length, ltb, ◌==◌, ==_ne, ==_refl, if◌then◌else◌, update_self, update_ne,
}
use native.Mathlib.Decide.{ℕ_discrete}
use web_os.Prelude.Sums.{
  sum, count, one_if, sum-change, length-le-bound, count_cons, term-le-sum, count-append,
}
use web_os.RunQueue.{Queues, nproc, ncpu, runq_push_cpu}
use web_os.RunQueue.Steal.{waiting, AllQueues}
use web_os.RunQueue.Push.{Pushed, runq_push_cpu_lem}
use web_os.Procs.{
  System, Proc, ProcState, CpuState, idle, holds, runs, runnable, running, same_state, put,
  make_runnable,
}

abbrev pub held : ℕ → CpuState → ℕ
held i idle = 0
held i (holds idx) = one_if (idx == i)
held i (runs idx) = 0

abbrev pub ran : ℕ → CpuState → ℕ
ran i idle = 0
ran i (holds idx) = 0
ran i (runs idx) = one_if (idx == i)

abbrev pub in_state : System → ProcState → ℕ → Bool
in_state s state i = ltb i nproc && same_state (s.pool i).state state

abbrev pub queued_at : System → ℕ → ℕ → ℕ
queued_at s i cpu = count i (waiting s.queues cpu) + held i (s.cpus cpu)

pub record IsQueued (s : System) : Type 0 where
  pub queues_valid : AllQueues s.queues
  pub placed : (i : ℕ) → sum ncpu (queued_at s i) ≡ one_if (in_state s runnable i)

-- A running process is the one of exactly one CPU.
abbrev pub IsOnCpus : System → Type 0
IsOnCpus s = (i : ℕ) → sum ncpu (λ cpu. ran i (s.cpus cpu)) ≡ one_if (in_state s running i)

pub one_if-le : (b : Bool) → one_if b ≤ 1
one_if-le true = omega arith
one_if-le false = omega arith

count_at :
    (s : System) (cpu i : ℕ)
    → IsQueued s
    → cpu < ncpu
    → count i (waiting s.queues cpu) ≤ one_if (in_state s runnable i)
count_at s cpu i h small = omega (arith, term-le-sum ncpu cpu (queued_at s i) small, h.placed i)

pub waiting_room :
    (s : System) (cpu idx : ℕ)
    → IsQueued s
    → cpu < ncpu
    → idx < nproc
    → in_state s runnable idx ≡ false
    → length (waiting s.queues cpu) < nproc
waiting_room s cpu idx h small inside free =
    length-le-bound nproc (idx ∷ waiting s.queues cpu) above once
  where
    above : (i : ℕ) → nproc ≤ i → count i (idx ∷ waiting s.queues cpu) ≡ 0
    above i le =
        ground
          (arith, count_cons i idx (waiting s.queues cpu), count_at s cpu i h small, inside, le)

    once : (i : ℕ) → count i (idx ∷ waiting s.queues cpu) ≤ 1
    once i = elim (ℕ_discrete idx i) [
      | yes e ↦ omega (
        arith,
        one_if-le (idx == i),
        count_cons i idx (waiting s.queues cpu),
        count_at s cpu i h small,
        free_at i e,
      )
      | no ne ↦ omega (
        arith,
        ap one_if (==_ne idx i ne),
        count_cons i idx (waiting s.queues cpu),
        count_at s cpu i h small,
        one_if-le (in_state s runnable i),
      )
    ]
      where
        free_at : (i : ℕ) → idx ≡ i → one_if (in_state s runnable i) ≡ 0
        free_at i e = ap (λ k. one_if (in_state s runnable k)) (sym e) ∙ ap one_if free

-- What does not touch the queues and CPUs, and makes no process runnable or ends that.
pub IsQueued-keep :
    (s s' : System)
    → s'.queues ≡ s.queues
    → s'.cpus ≡ s.cpus
    → ((i : ℕ) → in_state s' runnable i ≡ in_state s runnable i)
    → IsQueued s
    → IsQueued s'
IsQueued-keep s s' eq ec bits h = record {
  queues_valid = rw eq h.queues_valid;
  placed = λ i. rw (eq, ec) (h.placed i) ∙ ap one_if (sym (bits i));
}

-- The process is runnable and stands in a queue; nothing else has changed.
pub record MadeRunnable (s : System) (idx : ℕ) (s' : System) : Type 0 where
  pub queued : IsQueued s'
  pub now : (cpu : ℕ) × (s'.pool idx ≡ record (s.pool idx) { state = runnable; last_cpu = cpu })
  pub others : (i : ℕ) → i ≢ idx → s'.pool i ≡ s.pool i
  pub cpus : s'.cpus ≡ s.cpus
  pub parents : s'.parents ≡ s.parents
  pub next_pid : s'.next_pid ≡ s.next_pid
  pub addresses : s'.addresses ≡ s.addresses

in_state_other :
    (s s' : System) (state : ProcState) (i idx : ℕ)
    → ((j : ℕ) → j ≢ idx → s'.pool j ≡ s.pool j)
    → i ≢ idx
    → in_state s' state i ≡ in_state s state i
in_state_other s s' state i idx others ne =
    ap (λ (p : Proc). ltb i nproc && same_state p.state state) (others i ne)

-- A push of a process that was not runnable, to the queue of `cpu`.
module _ (s s' : System) (cpu idx : ℕ) (h : IsQueued s) (p : Pushed s.queues cpu idx)
    (small : cpu < ncpu) (inside : idx < nproc) (free : in_state s runnable idx ≡ false)
    (pushed : s'.queues ≡ p.after) (same : s'.cpus ≡ s.cpus) (now : in_state s' runnable idx ≡ true)
    (rest : (j : ℕ) → j ≢ idx → s'.pool j ≡ s.pool j) where
  more : (i : ℕ) → sum ncpu (queued_at s' i) ≡ sum ncpu (queued_at s i) + one_if (idx == i)
  more i = omega (arith, sum-change ncpu cpu (queued_at s' i) (queued_at s i) small other, here)
    where
      other : (c : ℕ) → c ≢ cpu → queued_at s' i c ≡ queued_at s i c
      other c ne =
          rw (pushed, same) (ap (λ (l : List ℕ). count i l + held i (s.cpus c)) (p.others c ne))

      here : queued_at s' i cpu ≡ queued_at s i cpu + one_if (idx == i)
      here =
          rw (pushed, same)
            (ap (λ (l : List ℕ). count i l + held i (s.cpus cpu)) p.behind
              ∙ omega (arith, count-append i idx (waiting s.queues cpu)))

  placed_after : (i : ℕ) → sum ncpu (queued_at s' i) ≡ one_if (in_state s' runnable i)
  placed_after i = elim (ℕ_discrete idx i) [
    | yes e ↦ omega (
      arith,
      more i,
      h.placed i,
      at_idx i e,
      ap one_if (ap (in_state s runnable) (sym e) ∙ free),
      ap one_if (ap (in_state s' runnable) (sym e) ∙ now),
    )
    | no ne ↦ omega (
      arith,
      more i,
      h.placed i,
      ap one_if (==_ne idx i ne),
      ap one_if (in_state_other s s' runnable i idx rest (λ e. ne (sym e))),
    )
  ]
    where
      at_idx : (i : ℕ) → idx ≡ i → one_if (idx == i) ≡ 1
      at_idx i e = ap one_if (ap (λ k. idx == k) (sym e) ∙ ==_refl idx)

  IsQueued-after : IsQueued s'
  IsQueued-after = record { queues_valid = rw pushed p.valid; placed = placed_after }

-- The queue that a process is put on.
abbrev target : ℕ → Proc → ℕ
target cpu_id p = if ltb p.last_cpu ncpu then p.last_cpu else cpu_id

make_runnable_new :
    (cpu_id idx : ℕ) (s : System) (q : Queues)
    → same_state (s.pool idx).state runnable ≡ false
    → runq_push_cpu s.queues (target cpu_id (s.pool idx)) idx ≡ some q
    → make_runnable cpu_id idx s
      ≡ some
          (record (put s idx
            (record (s.pool idx) { state = runnable; last_cpu = target cpu_id (s.pool idx) })) {
              queues = q;
            })
unfolding make_runnable
make_runnable_new cpu_id idx s q other e = rw (make_runnable, other, e) refl

pub make_runnable-MadeRunnable :
    (cpu_id idx : ℕ) (s : System)
    → IsQueued s
    → cpu_id < ncpu
    → idx < nproc
    → same_state (s.pool idx).state runnable ≡ false
    → (s' : System) × (make_runnable cpu_id idx s ≡ some s') × MadeRunnable s idx s'
make_runnable-MadeRunnable cpu_id idx s h small inside other = (
  s',
  make_runnable_new cpu_id idx s p.after other p.done,
  record {
    queued = IsQueued-after s s' cpu idx h p fits inside free refl refl now others;
    now = (cpu, update_self s.pool idx _);
    others = others;
    cpus = refl;
    parents = refl;
    next_pid = refl;
    addresses = refl;
  },
)
  where
    cpu : ℕ
    cpu = target cpu_id (s.pool idx)

    fits : cpu < ncpu
    fits = ground (arith, small)

    free : in_state s runnable idx ≡ false
    free = ground (arith, other)

    p : Pushed s.queues cpu idx
    p =
        runq_push_cpu_lem s.queues cpu idx h.queues_valid fits inside
          (waiting_room s cpu idx h fits inside free)

    s' : System
    s' = record (put s idx (record (s.pool idx) { state = runnable; last_cpu = cpu })) {
      queues = p.after;
    }

    others : (i : ℕ) → i ≢ idx → s'.pool i ≡ s.pool i
    others i ne = update_ne s.pool _ ne

    now : in_state s' runnable idx ≡ true
    now = ground (
      arith,
      inside,
      update_self s.pool idx (record (s.pool idx) { state = runnable; last_cpu = cpu }),
    )
