-- ===== src/Procs/Boot.antt =====
-- proc.rs: `user_init` leaves a good table, in which init is the only process.
use mathlib.Core.Path.{subst}
use web_os.Prelude.{ℕ, ◌<◌, ◌≡◌, ◌≢◌, ◌∙◌, refl, sym, ap, some, false, ◌&&◌, arith, ltb}
use web_os.Prelude.Sums.{sum, one_if, sum-same, sum_zero, count, count-none}
use web_os.RunQueue.{nproc, ncpu, init}
use web_os.RunQueue.Steal.{init-AllQueues, init-waiting, AllQueues, waiting}
use web_os.Procs.{System, used, runnable, running, same_state, put, allocated, alloc_slot, new}
use web_os.Procs.Steps.{empty, user_init}
use web_os.Procs.Balance.{IsQueued, in_state, queued_at, held, ran, make_runnable-MadeRunnable}
use web_os.Procs.Tree.{Safe, is_placed, put_each}
use web_os.Procs.Births.{begun-IsGood}

-- No process waits for a CPU.
pub empty-IsQueued :
    (s : System)
    → s.queues ≡ init
    → ((i cpu : ℕ) → held i (s.cpus cpu) ≡ 0)
    → ((i : ℕ) → in_state s runnable i ≡ false)
    → IsQueued s
empty-IsQueued s same free none_runnable = record {
  queues_valid = subst AllQueues (sym same) init-AllQueues;
  placed = λ i.
      sum-same ncpu (queued_at s i) (λ k. 0)
        (λ k lt. omega (
          arith,
          ap (λ q. count i (waiting q k)) same,
          ap (count i) (init-waiting k),
          count-none i,
          free i k,
        ))
      ∙ sum_zero ncpu
      ∙ sym (ap one_if (none_runnable i));
}

module _ (addresses : ℕ → ℕ) where
  first : System
  first = record (put (empty addresses) 0 (allocated 0 new)) { next_pid = 1 }

  -- No process is runnable, running or in the tree.
  first_state :
      (i : ℕ)
      → (in_state first runnable i ≡ false)
        × (in_state first running i ≡ false)
        × (is_placed (first.pool i).state ≡ false)
  unfolding first new
  first_state =
      put_each
        (λ i q.
          ((ltb i nproc && same_state q.state runnable) ≡ false)
          × ((ltb i nproc && same_state q.state running) ≡ false)
          × (is_placed q.state ≡ false))
        (empty addresses) 0 (allocated 0 new) (refl, refl, refl)
        (λ i ne. (ground arith, ground arith, refl))

  first-IsQueued : IsQueued first
  unfolding first
  first-IsQueued = empty-IsQueued first refl (λ i cpu. refl) (λ i. (first_state i).0)

  no_cpu : (i : ℕ) → sum ncpu (λ k. ran i (first.cpus k)) ≡ 0
  unfolding first
  no_cpu i = sum_zero ncpu

  first_used : (first.pool 0).state ≡ used
  unfolding first
  first_used = refl

  orphan : (i p : ℕ) → first.parents i ≢ some p
  unfolding first
  orphan i p e = cc

  pub user_init-Safe : (cpu : ℕ) → cpu < ncpu → Safe (user_init cpu addresses)
  unfolding user_init first alloc_slot
  user_init-Safe cpu small =
      let (t, e, m) =
        make_runnable-MadeRunnable cpu 0 first first-IsQueued small (omega arith)
          (ap (λ a. same_state a runnable) first_used) in
      (
        t,
        e,
        begun-IsGood first 0 first_used (λ i. no_cpu i ∙ sym (ap one_if (first_state i).1))
            (λ i p inside e'. absurd (orphan i p e'))
            (λ i inside ne placed. absurd (ground (arith, placed, (first_state i).2)))
            (λ ne. absurd (ne refl)) (λ ne. absurd (ne refl)) t m,
      )
