-- ===== src/Procs/Threads.antt =====
-- proc.rs: reap_threads and process groups keep a good table good.
use web_os.Prelude.{
  ℕ, zero, suc, ◌+◌, ◌<◌, ◌≡◌, ◌∙◌, refl, ap, Option, none, some, Bool, true, false, not, arith,
  ◌==◌, if_intro, if◌then◌else◌, update_self,
}
use web_os.Errors.{Result, ok, err, interrupted}
use web_os.RunQueue.{nproc, ncpu}
use web_os.Procs.{free, System, Proc, CpuState, sleeping, zombie, runs, same_state, for_from}
use web_os.Procs.Groups.{setsid, is_barred, setpgid_from, setpgid}
use web_os.Procs.Reaping.{reap, is_thread_of, kill_thread, reap_from, reap_round}
use web_os.Procs.Steps.{reap_step}
use web_os.Procs.Balance.{IsQueued}
use web_os.Procs.Waking.{
  Wakes, Wakes-refl, Wakes-after, put-Wakes, wake_if-Wakes, for_from-Wakes, sleeping-blocked,
  is_blocked,
}
use web_os.Procs.Tree.{IsGood, Safe, put_state-IsGood}
use web_os.Procs.Leaving.{sleep-Safe}
use web_os.Procs.Deaths.{reap-IsGood}

-- The loops over the threads of a process.
kill_thread-Wakes :
    (cpu idx c : ℕ) (s : System)
    → cpu < ncpu
    → c < nproc
    → IsQueued s
    → Wakes s (kill_thread cpu idx c s)
unfolding kill_thread
kill_thread-Wakes cpu idx c s small inside h =
    if_intro (Wakes s) (is_thread_of idx c s) _ _
      (λ e.
        let kept = put-Wakes s c (record (s.pool c) { killed = true }) h refl refl refl in
        Wakes-after s _ _ kept (
          wake_if-Wakes (same_state (s.pool c).state sleeping) cpu c _ kept.0 small inside (λ e'.
            ap (λ (q : Proc). is_blocked q.state) (update_self s.pool c _)
            ∙ sleeping-blocked (s.pool c).state e')))
      (λ e. Wakes-refl s h)

pub kill_threads-Wakes :
    (cpu idx : ℕ) (s : System)
    → cpu < ncpu
    → IsQueued s
    → Wakes s (for_from (kill_thread cpu idx) nproc 0 s)
kill_threads-Wakes cpu idx s small h =
    for_from-Wakes (kill_thread cpu idx)
      (λ c t inside q. kill_thread-Wakes cpu idx c t small inside q) nproc 0 s (omega arith) h

cpus-reap : (c : ℕ) (s : System) → (reap c s).cpus ≡ s.cpus
unfolding reap free
cpus-reap c s = refl

reap_from-IsGood :
    (rounds c idx : ℕ) (havekids : Bool) (s : System)
    → IsGood s
    → IsGood (reap_from rounds c idx havekids s).1
      × ((reap_from rounds c idx havekids s).1.cpus ≡ s.cpus)
unfolding reap_from
reap_from-IsGood zero c idx havekids s h = (h, refl)
reap_from-IsGood (suc rounds) c idx havekids s h =
    if_intro (λ (o : Bool × System). IsGood o.1 × (o.1.cpus ≡ s.cpus)) (is_thread_of idx c s) _ _
      (λ e.
        if_intro
          (λ (t : System).
            IsGood (reap_from rounds (c + 1) idx true t).1
            × ((reap_from rounds (c + 1) idx true t).1.cpus ≡ s.cpus))
          (same_state (s.pool c).state zombie) _ _
          (λ e.
            let r = reap_from-IsGood rounds (c + 1) idx true (reap c s) (reap-IsGood c s e h) in
            (r.0, r.1 ∙ cpus-reap c s))
          (λ e. reap_from-IsGood rounds (c + 1) idx true s h))
      (λ e. reap_from-IsGood rounds (c + 1) idx havekids s h)

pub reap_round-Safe :
    (cpu idx : ℕ) (s : System)
    → cpu < ncpu
    → s.cpus cpu ≡ runs idx
    → IsGood s
    → Safe (reap_step cpu idx (reap_round idx s))
unfolding reap_round reap_step
reap_round-Safe cpu idx s small here h =
    by_pass (reap_from nproc 0 idx false s) (reap_from-IsGood nproc 0 idx false s h)
  where
    step :
        (o : Option (Result (Unit {0}))) (t : System)
        → IsGood t
        → t.cpus ≡ s.cpus
        → Safe (reap_step cpu idx (o, t))
    step (some r) t g same = (t, refl, g)
    step none t g same =
        sleep-Safe t cpu idx g small (ap (λ (f : ℕ → CpuState). f cpu) same ∙ here)
          (t.addresses idx)

    by_pass :
        (r : Bool × System)
        → IsGood r.1 × (r.1.cpus ≡ s.cpus)
        → Safe (
            reap_step cpu idx (
              (if not r.0
                  then some (ok tt)
                  else if (r.1.pool idx).killed
                  then some (err interrupted)
                  else none),
              r.1,
            ))
    by_pass (b, t) (g, same) = step _ t g same

pub setsid-IsGood : (idx : ℕ) (s : System) → IsGood s → IsGood (setsid idx s).1
unfolding setsid
setsid-IsGood idx s h =
    if_intro (λ (o : Result ℕ × System). IsGood o.1) ((s.pool idx).pid == (s.pool idx).pgid) _ _
      (λ e. h) (λ e. put_state-IsGood s idx _ refl h)

setpgid_from-IsGood :
    (rounds c idx target_pid new_pgid : ℕ) (s : System)
    → IsGood s
    → IsGood (setpgid_from rounds c idx target_pid new_pgid s).1
unfolding setpgid_from
setpgid_from-IsGood zero c idx target_pid new_pgid s h = h
setpgid_from-IsGood (suc rounds) c idx target_pid new_pgid s h =
    if_intro G (not ((s.pool c).pid == target_pid)) _ _
      (λ e. setpgid_from-IsGood rounds (c + 1) idx target_pid new_pgid s h)
      (λ e. if_intro G (is_barred idx c s) _ _ (λ e. h) (λ e. put_state-IsGood s c _ refl h))
  where
    G : Result (Unit {0}) × System → Type 0
    G o = IsGood o.1

pub setpgid-IsGood : (idx pid pgid : ℕ) (s : System) → IsGood s → IsGood (setpgid idx pid pgid s).1
unfolding setpgid
setpgid-IsGood idx pid pgid s h =
    if_intro (λ (o : Result (Unit {0}) × System). IsGood o.1) (new_pgid == 0) _ _ (λ e. h)
      (λ e. setpgid_from-IsGood nproc 0 idx target_pid new_pgid s h)
  where
    target_pid : ℕ
    target_pid = if pid == 0 then (s.pool idx).pid else pid

    new_pgid : ℕ
    new_pgid = if pgid == 0 then target_pid else pgid
