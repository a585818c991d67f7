-- ===== src/Procs/Leaving.antt =====
-- proc.rs: sched, yielding and sleep keep a good table good.
use mathlib.Core.Path.{subst}
use native.Mathlib.Decide.{ℕ_discrete}
use web_os.Prelude.{
  ℕ, ◌+◌, ◌<◌, ◌≡◌, ◌≢◌, ◌∙◌, refl, sym, ap, Option, none, some, true, false, ◌&&◌, ◌||◌, arith,
  ltb, ◌==◌, ==_ne, update, update_self, update_ne,
}
use web_os.Prelude.Sums.{sum, one_if}
use web_os.RunQueue.{nproc, ncpu}
use web_os.Procs.{
  System, Proc, CpuState, runs, sleeping, runnable, running, zombie, same_state, put, sched,
  yielding, sleep,
}
use web_os.Procs.Balance.{IsQueued-keep, in_state, ran, MadeRunnable, make_runnable-MadeRunnable}
use web_os.Procs.Tree.{IsGood, IsFamily, IsFamily-keep, Safe, is_alive, is_placed, put_each}
use web_os.Procs.Cpus.{
  IsFamily-put, IsLeaving, running_bits, runs-is_alive, runs_running, sched-Safe,
}

-- A running process takes a state in which it cannot run.
module _ (s : System) (cpu idx : ℕ) (h : IsGood s) (small : cpu < ncpu)
    (here : s.cpus cpu ≡ runs idx) where
  ran_off :
      (s' : System)
      → s'.cpus ≡ s.cpus
      → same_state (s'.pool idx).state running ≡ false
      → ((i : ℕ) → i ≢ idx → s'.pool i ≡ s.pool i)
      → (i : ℕ)
      → sum ncpu (λ k. ran i (s'.cpus k)) ≡ one_if (in_state s' running i) + one_if (idx == i)
  ran_off s' same off others i =
      ap (λ (c : ℕ → CpuState). sum ncpu (λ k. ran i (c k))) same
      ∙ h.on_cpus i
      ∙ (elim (ℕ_discrete i idx) [
        | yes e ↦
            subst
              (λ k.
                one_if (in_state s running k) ≡ one_if (in_state s' running k) + one_if (idx == k))
              (sym e) at_idx
        | no ne ↦ omega (
          arith,
          ap one_if (==_ne idx i (λ e. ne (sym e))),
          ap (λ (p : Proc). one_if (ltb i nproc && same_state p.state running)) (others i ne),
        )
      ])
    where
      at_idx :
          one_if (in_state s running idx) ≡ one_if (in_state s' running idx) + one_if (idx == idx)
      at_idx =
          let (inside, state) = runs_running s cpu idx h.on_cpus small here in
          ground (arith, inside, state, off)

  pub put-IsLeaving :
      (p : Proc)
      → same_state p.state running ≡ false
      → same_state p.state runnable ≡ false
      → IsFamily (put s idx p)
      → IsLeaving cpu idx (put s idx p)
  put-IsLeaving p off waits family = record {
    queued =
        IsQueued-keep s (put s idx p) refl refl (λ i. ap (λ b. ltb i nproc && b) (ready i))
          h.queued;
    on_cpus = ran_off (put s idx p) refl off_now (λ i ne. update_ne s.pool p ne);
    here = here;
    off = off_now;
    family = family;
  }
    where
      off_now : same_state (update s.pool idx p idx).state running ≡ false
      off_now = ap (λ (q : Proc). same_state q.state running) (update_self s.pool idx p) ∙ off

      ready :
          (i : ℕ)
          → same_state (update s.pool idx p i).state runnable ≡ same_state (s.pool i).state runnable
      ready =
          put_each (λ i q. same_state q.state runnable ≡ same_state (s.pool i).state runnable) s idx
            p
            (waits
              ∙ sym
                  (running_bits (s.pool idx).state
                    (runs_running s cpu idx h.on_cpus small here).1).0)
            (λ i ne. refl)

  -- In such a state it still has its place in the tree.
  pub rest-IsLeaving :
      (p : Proc)
      → same_state p.state running ≡ false
      → same_state p.state runnable ≡ false
      → is_alive p.state ≡ true
      → IsLeaving cpu idx (put s idx p)
  rest-IsLeaving p off waits alive = put-IsLeaving p off waits (
      IsFamily-put s idx p (λ e. alive)
        (λ e.
          ap (λ b. b || same_state (s.pool idx).state zombie)
            (runs-is_alive s cpu idx h small here).1)
        h.family)

  pub sleep-Safe : (chan : ℕ) → Safe (sleep cpu idx chan s)
  unfolding sleep
  sleep-Safe chan =
      sched-Safe cpu idx _
        (rest-IsLeaving (record (s.pool idx) { chan = chan; state = sleeping }) refl refl refl)
        small

  pub yielding-Safe : Safe (yielding cpu idx s)
  unfolding yielding
  yielding-Safe =
      let (inside, state) = runs_running s cpu idx h.on_cpus small here in
      let (t, e, m) =
        make_runnable-MadeRunnable cpu idx s h.queued small inside
          (running_bits (s.pool idx).state state).0 in
      let (u, e', good) = sched-Safe cpu idx t (leaves t m) small in
      (
        u,
        ap (λ (o : Option System). elim o [ none ↦ none | some x ↦ sched cpu idx x ]) e ∙ e',
        good,
      )
    where
      leaves : (t : System) → MadeRunnable s idx t → IsLeaving cpu idx t
      leaves t m = record {
        queued = m.queued;
        on_cpus = ran_off t m.cpus off_now m.others;
        here = ap (λ (c : ℕ → CpuState). c cpu) m.cpus ∙ here;
        off = off_now;
        family = IsFamily-keep s t m.parents (λ i. (states i).0) (λ i. (states i).1) h.family;
      }
        where
          off_now : same_state (t.pool idx).state running ≡ false
          off_now = ap (λ (q : Proc). same_state q.state running) m.now.1

          states :
              (i : ℕ)
              → (is_alive (s.pool i).state ≡ true → is_alive (t.pool i).state ≡ true)
                × (is_placed (t.pool i).state ≡ true → is_placed (s.pool i).state ≡ true)
          states i = elim (ℕ_discrete i idx) [
            | yes e ↦
                subst
                  (λ k.
                    (is_alive (s.pool k).state ≡ true → is_alive (t.pool k).state ≡ true)
                    × (is_placed (t.pool k).state ≡ true → is_placed (s.pool k).state ≡ true))
                  (sym e)
                  (
                    (λ a. ap (λ (q : Proc). is_alive q.state) m.now.1),
                    (λ a.
                        ap (λ b. b || same_state (s.pool idx).state zombie)
                          (runs-is_alive s cpu idx h small here).1),
                  )
            | no ne ↦ (
              (λ a. ap (λ (q : Proc). is_alive q.state) (m.others i ne) ∙ a),
              (λ a. sym (ap (λ (q : Proc). is_placed q.state) (m.others i ne)) ∙ a),
            )
          ]
