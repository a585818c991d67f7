-- ===== src/Procs/Delivery.antt =====
-- proc.rs: sent and delivered signals, and the calls of a handler, keep a good table good.
use web_os.Prelude.{
  ℕ, zero, suc, ◌+◌, ◌-◌, ◌≤◌, ◌<◌, ◌≡◌, ◌∙◌, refl, ap, Option, none, some, Bool, false, not, ◌&&◌,
  ◌||◌, arith, ◌==◌, if_intro, if◌then◌else◌,
}
use web_os.Errors.{Result, ok, err, invalid_argument, no_such_process}
use web_os.RunQueue.{nproc, ncpu}
use web_os.Procs.{System, Proc, runs, stopped, put, sched, awake, sig_dfl, sig_ign}
use web_os.Procs.Signals.{
  SigDefaultAction, ignore, terminate, stop, continue, default_action, sigcont, sigkill, kill_from,
  kill, kill_pgrp, checked_add, bad_signal, has_member,
}
use web_os.Procs.Handlers.{
  wake_parent, act_by_default, deliver, deliver_signals, sigaction, sigreturn, setitimer,
  trailing_zeros,
}
use web_os.Procs.Steps.{after_call}
use web_os.Procs.Balance.{IsQueued}
use web_os.Procs.Waking.{Wakes, Wakes-refl}
use web_os.Procs.Callers.{signal_one-Wakes, signal_members-Wakes, wakeup-Wakes}
use web_os.Procs.Tree.{IsGood, Safe, put_state-IsGood}
use web_os.Procs.Cpus.{IsLeaving, sched-Safe}
use web_os.Procs.Leaving.{rest-IsLeaving}
use web_os.Procs.Scheduler.{Woken-IsLeaving}

abbrev answered : Result (Unit {0})
answered = ok tt

pub put-Safe :
    (s : System) (idx : ℕ) (p : Proc)
    → IsGood s
    → p.state ≡ (s.pool idx).state
    → Safe (some (put s idx p))
put-Safe s idx p h same = (put s idx p, refl, put_state-IsGood s idx p same h)

pub wake_then_sched-Safe :
    (cpu idx : ℕ) (s : System) (run : Option System)
    → IsLeaving cpu idx s
    → cpu < ncpu
    → Wakes s run
    → Safe (elim run [ none ↦ none | some t ↦ sched cpu idx t ])
wake_then_sched-Safe cpu idx s run h small (t, e, q, w) =
    let (u, e', good) = sched-Safe cpu idx t (Woken-IsLeaving cpu idx s t h q w) small in
    (u, ap (λ (o : Option System). elim o [ none ↦ none | some x ↦ sched cpu idx x ]) e ∙ e', good)

wake_parent-Wakes :
    (parent : Option ℕ) (cpu : ℕ) (s : System)
    → cpu < ncpu
    → IsQueued s
    → Wakes s (wake_parent parent cpu s)
unfolding wake_parent
wake_parent-Wakes none cpu s small h = Wakes-refl s h
wake_parent-Wakes (some p) cpu s small h = wakeup-Wakes cpu small (s.addresses p) s h

module _ (cpu idx : ℕ) (small : cpu < ncpu) where
  act_by_default-Safe :
      (a : SigDefaultAction) (sig : ℕ) (s : System)
      → IsGood s
      → s.cpus cpu ≡ runs idx
      → Safe (act_by_default a sig cpu idx s)
  unfolding act_by_default
  act_by_default-Safe ignore sig s h here = (s, refl, h)
  act_by_default-Safe terminate sig s h here = put-Safe s idx _ h refl
  act_by_default-Safe continue sig s h here = put-Safe s idx _ h refl
  act_by_default-Safe stop sig s h here =
      let leaving =
        rest-IsLeaving s cpu idx h small here
          (record (s.pool idx) { stop_sig = sig; stop_reported = false; state = stopped }) refl refl
          refl in
      wake_then_sched-Safe cpu idx _ _ leaving small
        (wake_parent-Wakes (s.parents idx) cpu _ small leaving.queued)

  deliver-Safe :
      (sig : ℕ) (s : System) → IsGood s → s.cpus cpu ≡ runs idx → Safe (deliver sig cpu idx s)
  unfolding deliver
  deliver-Safe sig s h here =
      if_intro Safe (sig == sigkill) _ _ (λ e. put-Safe s idx _ h refl)
        (λ e.
          if_intro Safe (p.sig_handlers (sig - 1) == sig_ign) _ _
            (λ e. put-Safe s idx _ h noted_state)
            (λ e.
              if_intro Safe (p.sig_handlers (sig - 1) == sig_dfl) _ _
                (λ e.
                  act_by_default-Safe (default_action sig) sig _
                    (put_state-IsGood s idx _ noted_state h) here)
                (λ e.
                  if_intro Safe (p.sig_restorer == 0) _ _ (λ e. put-Safe s idx _ h noted_state)
                    (λ e. put-Safe s idx _ h noted_state))))
    where
      p : Proc
      p = s.pool idx

      noted_state :
          (if sig == sigcont then record p { cont_pending = false } else p).state ≡ p.state
      noted_state =
          if_intro (λ (q : Proc). q.state ≡ p.state) (sig == sigcont) _ _ (λ e. refl) (λ e. refl)

  pub deliver_signals-Safe :
      (s : System) → IsGood s → s.cpus cpu ≡ runs idx → Safe (deliver_signals cpu idx s)
  unfolding deliver_signals
  deliver_signals-Safe s h here =
      if_intro Safe ((s.pool idx).sig_active || (s.pool idx).sig_pending == 0) _ _
        (λ e. (s, refl, h))
        (λ e. deliver-Safe (trailing_zeros (s.pool idx).sig_pending + 1) s h here)

  kill_from-Wakes :
      (rounds i pid sig : ℕ) (s : System)
      → i + rounds ≤ nproc
      → IsQueued s
      → Wakes s (after_call (kill_from rounds i cpu pid sig s))
  unfolding kill_from
  kill_from-Wakes zero i pid sig s le h = Wakes-refl s h
  kill_from-Wakes (suc rounds) i pid sig s le h =
      if_intro (λ (o : Option (Result (Unit {0}) × System)). Wakes s (after_call o))
        ((s.pool i).pid == pid) _ _
        (λ e.
          let (t, e', q, w) = signal_one-Wakes cpu small sig i s (omega (arith, le)) h in
          (
            t,
            ap
                (λ (o : Option System).
                  after_call (elim o [ none ↦ none | some x ↦ some (answered, x) ]))
                e',
            q,
            w,
          ))
        (λ e. kill_from-Wakes rounds (i + 1) pid sig s (omega (arith, le)) h)

  pub kill-Wakes :
      (pid sig : ℕ) (s : System) → IsQueued s → Wakes s (after_call (kill cpu pid sig s))
  unfolding kill
  kill-Wakes pid sig s h =
      if_intro (λ (o : Option (Result (Unit {0}) × System)). Wakes s (after_call o))
        (bad_signal sig) _ _ (λ e. Wakes-refl s h)
        (λ e. kill_from-Wakes nproc 0 pid sig s (omega arith) h)

  pub kill_pgrp-Wakes :
      (pgid sig : ℕ) (s : System) → IsQueued s → Wakes s (after_call (kill_pgrp cpu pgid sig s))
  unfolding kill_pgrp
  kill_pgrp-Wakes pgid sig s h =
      if_intro (λ (o : Option (Result (Unit {0}) × System)). Wakes s (after_call o))
        (pgid == 0 || bad_signal sig) _ _ (λ e. Wakes-refl s h)
        (λ e.
          let (t, e', q, w) = signal_members-Wakes cpu small pgid sig s h in
          (
            t,
            ap
                (λ (o : Option System). after_call (elim o [
                  | none ↦ none
                  | some x ↦
                      some
                        ((if has_member nproc 0 pgid s then answered else err no_such_process), x)
                ]))
                e',
            q,
            w,
          ))

pub awake-IsGood : (idx : ℕ) (s : System) → IsGood s → IsGood (awake idx s)
unfolding awake
awake-IsGood idx s h = put_state-IsGood s idx _ refl h

pub sigreturn-IsGood : (idx : ℕ) (s : System) → IsGood s → IsGood (sigreturn idx s).1
unfolding sigreturn
sigreturn-IsGood idx s h =
    if_intro (λ (o : Result (Unit {0}) × System). IsGood o.1) (not (s.pool idx).sig_active) _ _
      (λ e. h) (λ e. put_state-IsGood s idx _ refl h)

pub sigaction-IsGood :
    (sig handler restorer idx : ℕ) (s : System)
    → IsGood s
    → IsGood (sigaction sig handler restorer idx s).1
unfolding sigaction
sigaction-IsGood sig handler restorer idx s h =
    if_intro G (bad_signal sig) _ _ (λ e. h)
      (λ e.
        if_intro G (sig == sigkill) _ _ (λ e. h)
          (λ e.
            if_intro G (caught && restorer == 0) _ _ (λ e. h)
              (λ e.
                put_state-IsGood s idx _
                  (if_intro (λ (q : Proc). q.state ≡ (s.pool idx).state) caught _ _ (λ e. refl)
                    (λ e. refl))
                  h)))
  where
    G : Result ℕ × System → Type 0
    G o = IsGood o.1

    caught : Bool
    caught = not (handler == sig_dfl) && not (handler == sig_ign)

pub setitimer-IsGood :
    (now initial interval idx : ℕ) (s : System)
    → IsGood s
    → IsGood (setitimer now initial interval idx s).1
unfolding setitimer
setitimer-IsGood now initial interval idx s h =
    if_intro (λ (o : Result ℕ × System). IsGood o.1) (initial == 0) _ _
      (λ e. put_state-IsGood s idx _ refl h) (λ e. by_deadline (checked_add now initial))
  where
    refused : Result ℕ × System
    refused = (err invalid_argument, s)

    by_deadline :
        (d : Option ℕ)
        → IsGood
            (elim d as (λ o. Result ℕ × System) [
              | none ↦ refused
              | some deadline ↦ (
                ok (
                    (if (s.pool idx).sig_alarm_deadline == 0
                      then 0
                      else (s.pool idx).sig_alarm_deadline - now)),
                put s idx (record (s.pool idx) {
                  sig_alarm_deadline = deadline;
                  sig_alarm_interval = interval;
                }),
              )
            ]).1
    by_deadline none = h
    by_deadline (some deadline) = put_state-IsGood s idx _ refl h
