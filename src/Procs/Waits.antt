-- ===== src/Procs/Waits.antt =====
-- proc.rs: waitpid, join, reap_threads and process groups keep a good table good.
use web_os.Prelude.{
  ℕ, zero, suc, ◌+◌, ◌<◌, ◌≡◌, ◌∙◌, refl, ap, Option, none, some, Bool, true, false, not, ◌&&◌,
  ◌||◌, ◌==◌, if_intro, if◌then◌else◌,
}
use web_os.Errors.{ℤ, pos, negsuc, Result, ok, err, no_child_processes, interrupted}
use web_os.RunQueue.{nproc, ncpu}
use web_os.Procs.{System, Proc, CpuState, stopped, zombie, runs, same_state, put}
use web_os.Procs.Signals.{nsig}
use web_os.Procs.Reaping.{
  Scan, found, nothing, Wait, returns, sleeps, report, wait_child, scan_from, wait_round,
  waitpid_round, join_from, join_round, drop_ignored, is_wanted, is_thread_of, stop_status,
  wuntraced, wcontinued, wnohang, has_option,
}
use web_os.Procs.Steps.{wait_step}
use web_os.Procs.Tree.{IsGood, Safe, put_state-IsGood}
use web_os.Procs.Leaving.{sleep-Safe}
use web_os.Procs.Deaths.{reap-IsGood}

abbrev GoodScan : Scan → Type 0
GoodScan (found r s) = IsGood s
GoodScan nothing = Unit

-- A wait that returns or goes to sleep with a good table.
abbrev GoodWait : (ℕ → CpuState) → Wait → Type 0
GoodWait cpus (returns r s) = IsGood s
GoodWait cpus (sleeps s) = IsGood s × (s.cpus ≡ cpus)

pub drop_ignored-same : (rounds sig : ℕ) (p : Proc) → (drop_ignored rounds sig p).state ≡ p.state
unfolding drop_ignored
drop_ignored-same zero sig p = refl
drop_ignored-same (suc rounds) sig p =
    drop_ignored-same rounds (sig + 1) _
    ∙ if_intro (λ (q : Proc). q.state ≡ p.state) _ _ _ (λ e. refl) (λ e. refl)

module _ (copyout : ℕ → Result (Unit {0})) where
  report-GoodScan :
      (status pid : ℕ) (s after : System)
      → IsGood s
      → IsGood after
      → GoodScan (report copyout status pid s after)
  unfolding report
  report-GoodScan status pid s after h h' = by_answer (copyout status)
    where
      by_answer :
          (r : Result (Unit {0}))
          → GoodScan
              (elim r as (λ o. Scan) [ err e ↦ found (err e) s | ok u ↦ found (ok pid) after ])
      by_answer (err e) = h
      by_answer (ok u) = h'

  wait_child-GoodScan :
      (options c : ℕ) (s : System) → IsGood s → GoodScan (wait_child copyout options c s)
  unfolding wait_child
  wait_child-GoodScan options c s h =
      if_intro GoodScan
        (same_state (s.pool c).state stopped
          && (has_option options wuntraced && not (s.pool c).stop_reported))
        _ _
        (λ e.
          report-GoodScan (stop_status (s.pool c).stop_sig) (s.pool c).pid s _ h
            (put_state-IsGood s c _ refl h))
        (λ e.
          if_intro GoodScan (has_option options wcontinued && (s.pool c).cont_pending) _ _
            (λ e. report-GoodScan 0xffff (s.pool c).pid s _ h (put_state-IsGood s c _ refl h))
            (λ e.
              if_intro GoodScan (same_state (s.pool c).state zombie) _ _
                (λ e. report-GoodScan (s.pool c).xstate (s.pool c).pid s _ h (reap-IsGood c s e h))
                (λ e. tt)))

  -- A scan that goes on at `nothing`.
  go_on-GoodScan :
      (seen : Scan) (rest : Scan × Bool)
      → GoodScan seen
      → GoodScan rest.0
      → GoodScan
          (elim seen as (λ o. Scan × Bool) [ nothing ↦ rest | found r t ↦ (found r t, true) ]).0
  go_on-GoodScan (found r t) rest h h' = h
  go_on-GoodScan nothing rest h h' = h'

  scan_from-GoodScan :
      (rounds c : ℕ) (want : Option ℕ) (idx options : ℕ) (havekids : Bool) (s : System)
      → IsGood s
      → GoodScan (scan_from copyout rounds c want idx options havekids s).0
  unfolding scan_from
  scan_from-GoodScan zero c want idx options havekids s h = tt
  scan_from-GoodScan (suc rounds) c want idx options havekids s h =
      if_intro (λ (o : Scan × Bool). GoodScan o.0) (is_wanted want idx c s) _ _
        (λ e.
          go_on-GoodScan (wait_child copyout options c s) _ (wait_child-GoodScan options c s h)
            (scan_from-GoodScan rounds (c + 1) want idx options true s h))
        (λ e. scan_from-GoodScan rounds (c + 1) want idx options havekids s h)

  join_from-GoodScan :
      (rounds c idx : ℕ) (havekids : Bool) (s : System)
      → IsGood s
      → GoodScan (join_from copyout rounds c idx havekids s).0
  unfolding join_from
  join_from-GoodScan zero c idx havekids s h = tt
  join_from-GoodScan (suc rounds) c idx havekids s h =
      if_intro (λ (o : Scan × Bool). GoodScan o.0) (is_thread_of idx c s) _ _
        (λ e.
          if_intro (λ (o : Scan × Bool). GoodScan o.0) (same_state (s.pool c).state zombie) _ _
            (λ e. report-GoodScan (s.pool c).ustack (s.pool c).pid s _ h (reap-IsGood c s e h))
            (λ e. join_from-GoodScan rounds (c + 1) idx true s h))
        (λ e. join_from-GoodScan rounds (c + 1) idx havekids s h)

  wait_round-GoodWait :
      (want : Option ℕ) (options idx : ℕ) (s : System)
      → IsGood s
      → GoodWait s.cpus (wait_round copyout want options idx s)
  unfolding wait_round
  wait_round-GoodWait want options idx s h =
      by_scan (scan_from copyout nproc 0 want idx options false s)
        (scan_from-GoodScan nproc 0 want idx options false s h)
    where
      dropped : System
      dropped = put s idx (drop_ignored nsig 1 (s.pool idx))

      good : IsGood dropped
      good = put_state-IsGood s idx _ (drop_ignored-same nsig 1 (s.pool idx)) h

      by_scan :
          (o : Scan × Bool)
          → GoodScan o.0
          → GoodWait s.cpus (elim o.0 as (λ k. Wait) [
            | found r t ↦ returns r t
            | nothing ↦
                if has_option options wnohang
                then returns (ok 0) s
                else if not o.1 || (s.pool idx).killed
                then returns (err no_child_processes) s
                else if not ((dropped.pool idx).sig_pending == 0)
                then returns (err interrupted) dropped
                else sleeps dropped
          ])
      by_scan (found r t, b) g = g
      by_scan (nothing, b) g =
          if_intro (GoodWait s.cpus) (has_option options wnohang) _ _ (λ e. h)
            (λ e.
              if_intro (GoodWait s.cpus) (not b || (s.pool idx).killed) _ _ (λ e. h)
                (λ e.
                  if_intro (GoodWait s.cpus) (not ((dropped.pool idx).sig_pending == 0)) _ _
                    (λ e. good) (λ e. (good, refl))))

  pub waitpid_round-GoodWait :
      (pid : ℤ) (options idx : ℕ) (s : System)
      → IsGood s
      → GoodWait s.cpus (waitpid_round copyout pid options idx s)
  unfolding waitpid_round
  waitpid_round-GoodWait (pos zero) options idx s h = wait_round-GoodWait none options idx s h
  waitpid_round-GoodWait (pos (suc n)) options idx s h =
      wait_round-GoodWait (some (suc n)) options idx s h
  waitpid_round-GoodWait (negsuc zero) options idx s h = wait_round-GoodWait none options idx s h
  waitpid_round-GoodWait (negsuc (suc n)) options idx s h = h

  pub join_round-GoodWait :
      (idx : ℕ) (s : System) → IsGood s → GoodWait s.cpus (join_round copyout idx s)
  unfolding join_round
  join_round-GoodWait idx s h =
      by_scan (join_from copyout nproc 0 idx false s) (join_from-GoodScan nproc 0 idx false s h)
    where
      by_scan :
          (o : Scan × Bool)
          → GoodScan o.0
          → GoodWait s.cpus (elim o.0 as (λ k. Wait) [
            | found r t ↦ returns r t
            | nothing ↦
                if not o.1 || (s.pool idx).killed
                then returns (err no_child_processes) s
                else sleeps s
          ])
      by_scan (found r t, b) g = g
      by_scan (nothing, b) g =
          if_intro (GoodWait s.cpus) (not b || (s.pool idx).killed) _ _ (λ e. h) (λ e. (h, refl))

pub wait_step-Safe :
    (cpu idx : ℕ) (s : System) (w : Wait)
    → cpu < ncpu
    → s.cpus cpu ≡ runs idx
    → GoodWait s.cpus w
    → Safe (wait_step cpu idx w)
unfolding wait_step
wait_step-Safe cpu idx s (returns r t) small here h = (t, refl, h)
wait_step-Safe cpu idx s (sleeps t) small here (h, same) =
    sleep-Safe t cpu idx h small (ap (λ (f : ℕ → CpuState). f cpu) same ∙ here) (t.addresses idx)
