-- ===== src/Procs/Kills.antt =====
-- proc.rs: what `kill` does, on each of its branches.
use mathlib.Core.Path.{subst}
use native.Mathlib.Decide.{ℕ_discrete}
use web_os.Prelude.{
  ◌≤◌, ◌⊎◌, ℕ, zero, suc, ◌+◌, ◌<◌, ◌≡◌, ◌≢◌, ◌∙◌, refl, sym, ap, Option, none, some, true, false,
  arith, ◌==◌, if_intro,
}
use web_os.Errors.{Result, ok, err, invalid_argument, no_such_process}
use web_os.RunQueue.{nproc, ncpu}
use web_os.Procs.{System}
use web_os.Procs.Signals.{bad_signal, kill_from, kill}
use web_os.Procs.Balance.{IsQueued}
use web_os.Procs.Stirs.{SameRest}
use web_os.Procs.Signalling.{Signalled, signal_one_lem}

-- The answers of `kill`.
pub data KillAnswers (pid sig : ℕ) (s : System) : Option (Result (Unit {0}) × System) → Type 0 where
  refused : (sig ≡ 0) ⊎ (32 < sig) → KillAnswers pid sig s (some (err invalid_argument, s))
  missing :
      0 < sig
      → sig ≤ 32
      → ((c : ℕ) → c < nproc → (s.pool c).pid ≢ pid)
      → KillAnswers pid sig s (some (err no_such_process, s))
  sent :
      {t : System}
      → 0 < sig
      → sig ≤ 32
      → (c : ℕ) → c < nproc
      → (s.pool c).pid ≡ pid
      → ((i : ℕ) → i < c → (s.pool i).pid ≢ pid)
      → Signalled sig (s.pool c) (t.pool c)
      → ((i : ℕ) → i ≢ c → t.pool i ≡ s.pool i)
      → SameRest s t
      → IsQueued t
      → KillAnswers pid sig s (some (ok tt, t))

bad_lem : (sig : ℕ) → bad_signal sig ≡ true → (sig ≡ 0) ⊎ (32 < sig)
bad_lem sig e = ground (arith, e)

good_lem : (sig : ℕ) → bad_signal sig ≡ false → (0 < sig) × (sig ≤ 32)
good_lem sig e = (ground (arith, e), ground (arith, e))

kill_from_lem :
    (rounds i cpu pid sig : ℕ) (s : System)
    → IsQueued s
    → cpu < ncpu
    → bad_signal sig ≡ false
    → i + rounds ≡ nproc
    → ((c : ℕ) → c < i → (s.pool c).pid ≢ pid)
    → KillAnswers pid sig s (kill_from rounds i cpu pid sig s)
unfolding kill_from
kill_from_lem zero i cpu pid sig s h small good e before =
    missing (good_lem sig good).0 (good_lem sig good).1 (λ c lt. before c (omega (arith, e, lt)))
kill_from_lem (suc rounds) i cpu pid sig s h small good e before =
    if_intro (KillAnswers pid sig s) ((s.pool i).pid == pid) _ _
      (λ e'.
        let (t, run, signalled, others, kept, queued) =
          signal_one_lem cpu sig i s h small good (omega (arith, e)) in
        subst (KillAnswers pid sig s)
          (sym
            (ap (λ (o : Option System). elim o [ none ↦ none | some x ↦ some (answered, x) ]) run))
          (sent (good_lem sig good).0 (good_lem sig good).1 i (omega (arith, e))
            (ground (arith, e')) before signalled others kept queued))
      (λ e'. kill_from_lem rounds (i + 1) cpu pid sig s h small good (omega (arith, e)) (λ c lt.
        elim (ℕ_discrete c i) [
          | yes same ↦ (λ found. ground (arith, e', ap (λ k. (s.pool k).pid) (sym same) ∙ found))
          | no ne ↦ before c (omega (arith, lt, ne))
        ]))
  where
    answered : Result (Unit {0})
    answered = ok tt

-- On queued processes, for a CPU below NCPU, kill fails no modelled assertion. A number that is no
-- signal, 0 or above 32, is refused with InvalidArgument, a process number that no slot has with
-- NoSuchProcess, and nothing changes. Else only the first slot with the number changes, and the run
-- queues, which stay consistent: killed is set if the signal is deadly; an ignored signal does no
-- more; any other is added to the pending ones, SIGCONT clears the stop and notes the continuation,
-- and the process becomes runnable if it is asleep, or is stopped and the signal is deadly or
-- SIGCONT; its other fields stay.
pub kill_lem :
    (cpu pid sig : ℕ) (s : System)
    → IsQueued s
    → cpu < ncpu
    → KillAnswers pid sig s (kill cpu pid sig s)
unfolding kill
kill_lem cpu pid sig s h small =
    if_intro (KillAnswers pid sig s) (bad_signal sig) _ _ (λ e. refused (bad_lem sig e))
      (λ e. kill_from_lem nproc 0 cpu pid sig s h small e refl (λ c lt. absurd (omega (arith, lt))))
