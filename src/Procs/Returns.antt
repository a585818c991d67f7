-- ===== src/Procs/Returns.antt =====
-- proc.rs: the status of a process that exits reaches the parent that waits for it.
use mathlib.Core.Path.{subst}
use web_os.Prelude.{
  ℕ, ◌<◌, ◌≡◌, ◌≢◌, ◌∙◌, refl, sym, ap, some, true, false, arith, ==_refl, inl, inr,
}
use web_os.Errors.{Result, ok}
use web_os.RunQueue.{nproc, ncpu}
use web_os.Procs.{System, Proc, zombie, runs, is_index}
use web_os.Procs.Family.{exit}
use web_os.Procs.Reaping.{
  Scan, found, nothing, Wait, returns, report, wait_child, wait_round, reap, is_wanted, wcontinued,
  has_option,
}
use web_os.Procs.Tree.{IsGood}
use web_os.Procs.Exits.{Exited, exit_lem}
use web_os.Procs.Scans.{WaitAnswers, wait_round_lem}

-- The answer for a zombie whose status could be written.
wait_child-zombie :
    (copyout : ℕ → Result (Unit {0})) (options c : ℕ) (s : System)
    → (s.pool c).state ≡ zombie
    → has_option options wcontinued ≡ false
    → copyout (s.pool c).xstate ≡ ok tt
    → wait_child copyout options c s ≡ found (ok (s.pool c).pid) (reap c s)
unfolding wait_child report
wait_child-zombie copyout options c s state plain written = rw (state, plain, report, written) refl

wanted-pid :
    (pid idx c : ℕ) (s : System) → is_wanted (some pid) idx c s ≡ true → (s.pool c).pid ≡ pid
wanted-pid pid idx c s w = ground (arith, w)

module _ (copyout : ℕ → Result (Unit {0})) (options pid idx child : ℕ) (s : System)
    (lt : child < nproc) (wanted : is_wanted (some pid) idx child s ≡ true)
    (only : (c : ℕ) → c < nproc → (s.pool c).pid ≡ pid → c ≡ child) (r : Result ℕ) (t : System)
    (answer : wait_child copyout options child s ≡ found r t) where
  found_ne : found r t ≢ nothing
  found_ne e = subst (λ (k : Scan). elim k [ found a b ↦ Unit {0} | nothing ↦ ⊥ ]) e tt

  same_answer :
      (r' : Result ℕ) (t' : System) → found r t ≡ found r' t' → returns r' t' ≡ returns r t
  same_answer r' t' e =
      sym (ap (λ (k : Scan). elim k [ found a b ↦ returns a b | nothing ↦ returns r t ]) e)

  -- The wait for the one process with the number gives its answer.
  wait_round-only : wait_round copyout (some pid) options idx s ≡ returns r t
  wait_round-only =
      by_answers (wait_round copyout (some pid) options idx s)
        (wait_round_lem copyout (some pid) options idx s)
    where
      by_answers : (w : Wait) → WaitAnswers copyout (some pid) options idx s w → w ≡ returns r t
      by_answers w (inr (quiet, i)) =
          absurd (found_ne (sym answer ∙ quiet child (omega arith) lt wanted))
      by_answers w (inl (r', t', e, f)) =
          e
          ∙ same_answer r' t' (
              sym answer
              ∙ ap (λ k. wait_child copyout options k s)
                  (sym (only f.child f.below (wanted-pid pid idx f.child s f.wanted)))
              ∙ f.answer)

-- When a running process, which is neither init nor a thread and whose number no other slot has,
-- exits in a good table, the wait of its parent for that number does not sleep: without
-- WCONTINUED, and if the status can be written, it gives out the status of the exit, frees exactly
-- that slot, and returns the number.
pub wait_round-exit :
    (copyout : ℕ → Result (Unit {0})) (cpu idx status options : ℕ) (s : System)
    → IsGood s
    → cpu < ncpu
    → idx ≢ 0
    → s.cpus cpu ≡ runs idx
    → idx < nproc
    → (s.pool idx).is_thread ≡ false
    → ((c : ℕ) → c < nproc → (s.pool c).pid ≡ (s.pool idx).pid → c ≡ idx)
    → has_option options wcontinued ≡ false
    → copyout status ≡ ok tt
    → (t : System) × (exit cpu idx status s ≡ some t)
      × ((parent : ℕ) × (t.parents idx ≡ some parent)
          × (wait_round copyout (some (s.pool idx).pid) options parent t
              ≡ returns (ok (s.pool idx).pid) (reap idx t)))
wait_round-exit copyout cpu idx status options s h small other here inside whole only plain
      written =
    let (t, e, x) = exit_lem cpu idx status s h small other here in
    (t, e, (x.parent, x.is_parent, waited t x))
  where
    pid : ℕ
    pid = (s.pool idx).pid

    waited :
        (t : System) (x : Exited cpu idx status s t)
        → wait_round copyout (some pid) options x.parent t ≡ returns (ok pid) (reap idx t)
    waited t x =
        wait_round-only copyout options pid x.parent idx t inside wanted
          (λ c lt e. only c lt (sym (x.pids c) ∙ e)) (ok pid) (reap idx t)
          (wait_child-zombie copyout options idx t (ap (λ (p : Proc). p.state) x.process) plain
              (ap (λ (p : Proc). copyout p.xstate) x.process ∙ written)
            ∙ ap (λ k. found (ok k) (reap idx t)) (x.pids idx))
      where
        wanted : is_wanted (some pid) x.parent idx t ≡ true
        wanted = ground (
          arith,
          ap (λ o. is_index o x.parent) x.is_parent,
          ==_refl x.parent,
          ap (λ (p : Proc). p.is_thread) x.process,
          whole,
          x.pids idx,
          ==_refl pid,
        )
