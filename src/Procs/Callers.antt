-- ===== src/Procs/Callers.antt =====
-- proc.rs: wakeup, kill, kill_pgrp and on_tick only wake.
use web_os.Prelude.{
  ℕ, ◌-◌, ◌<◌, ◌∙◌, refl, ap, Option, some, Bool, not, ◌&&◌, ◌||◌, arith, ◌==◌, if_intro,
  update_self,
}
use web_os.RunQueue.{nproc, ncpu}
use web_os.Procs.{
  System, Proc, sleeping, stopped, same_state, put, is_index, myproc, for_from, wake_one, wakeup,
  sig_ign,
}
use web_os.Procs.Signals.{
  sigkill, sigcont, noted, is_deadly, wake_if, signal_one, in_group, signal_member, alarm_due, rung,
  tick_one, on_tick,
}
use web_os.Procs.Balance.{IsQueued}
use web_os.Procs.Waking.{
  KeepsState, Wakes, Wakes-after, Wakes-refl, Wakes-then, both, for_from-Wakes, is_blocked,
  noted-KeepsState, put-Wakes, sleeping-blocked, stopped-blocked, wake_if-Wakes,
}

module _ (cpu : ℕ) (small : cpu < ncpu) where
  wake_one-Wakes :
      (cur : Option ℕ) (chan idx : ℕ) (s : System)
      → idx < nproc
      → IsQueued s
      → Wakes s (wake_one cur cpu chan idx s)
  unfolding wake_one
  wake_one-Wakes cur chan idx s inside h =
      if_intro (Wakes s) (is_index cur idx) (some s) _ (λ e. Wakes-refl s h)
        (λ e.
          wake_if-Wakes (same_state (s.pool idx).state sleeping && (s.pool idx).chan == chan) cpu
            idx s h small inside
            (λ e'.
              sleeping-blocked (s.pool idx).state
                (both (same_state (s.pool idx).state sleeping) ((s.pool idx).chan == chan) e').0))

  pub wakeup-Wakes : (chan : ℕ) (s : System) → IsQueued s → Wakes s (wakeup cpu chan s)
  unfolding wakeup
  wakeup-Wakes chan s h =
      for_from-Wakes (wake_one (myproc s cpu) cpu chan)
        (λ idx t inside q. wake_one-Wakes (myproc s cpu) chan idx t inside q) nproc 0 s
        (omega arith) h

  wake_stopped-Wakes :
      (s : System) (idx : ℕ) (p : Proc) (b : Bool)
      → idx < nproc
      → IsQueued s
      → KeepsState (s.pool idx) p
      → Wakes s (wake_if (same_state (s.pool idx).state stopped && b) cpu idx (put s idx p))
  wake_stopped-Wakes s idx p b inside h keeps =
      let kept = put-Wakes s idx p h keeps.0 keeps.1 keeps.2 in
      Wakes-after s (put s idx p) _ kept (
        wake_if-Wakes (same_state (s.pool idx).state stopped && b) cpu idx (put s idx p) kept.0
          small inside
          (λ e.
            ap is_blocked (ap (λ (q : Proc). q.state) (update_self s.pool idx p) ∙ keeps.0)
            ∙ stopped-blocked (s.pool idx).state
                (both (same_state (s.pool idx).state stopped) b e).0))

  pub signal_one-Wakes :
      (sig idx : ℕ) (s : System) → idx < nproc → IsQueued s → Wakes s (signal_one cpu sig idx s)
  unfolding signal_one
  signal_one-Wakes sig idx s inside h =
      if_intro (Wakes s) (not (sig == sigkill) && (s.pool idx).sig_handlers (sig - 1) == sig_ign) _
        _ (λ e. let (h', w) = put-Wakes s idx _ h refl refl refl in (_, refl, h', w))
        (λ e.
          Wakes-then s _ (λ t. wake_if (same_state (t.pool idx).state sleeping) cpu idx t)
            (wake_stopped-Wakes s idx (noted sig (s.pool idx))
              (sig == sigcont || is_deadly sig (s.pool idx)) inside h
              (noted-KeepsState sig (s.pool idx)))
            (λ t h' w.
              wake_if-Wakes (same_state (t.pool idx).state sleeping) cpu idx t h' small inside
                (sleeping-blocked (t.pool idx).state)))

  signal_member-Wakes :
      (pgid sig idx : ℕ) (s : System)
      → idx < nproc
      → IsQueued s
      → Wakes s (signal_member cpu pgid sig idx s)
  unfolding signal_member
  signal_member-Wakes pgid sig idx s inside h =
      if_intro (Wakes s) (in_group pgid (s.pool idx)) _ _ (λ e. signal_one-Wakes sig idx s inside h)
        (λ e. Wakes-refl s h)

  pub signal_members-Wakes :
      (pgid sig : ℕ) (s : System)
      → IsQueued s
      → Wakes s (for_from (signal_member cpu pgid sig) nproc 0 s)
  signal_members-Wakes pgid sig s h =
      for_from-Wakes (signal_member cpu pgid sig)
        (λ idx t inside q. signal_member-Wakes pgid sig idx t inside q) nproc 0 s (omega arith) h

  tick_one-Wakes :
      (now idx : ℕ) (s : System) → idx < nproc → IsQueued s → Wakes s (tick_one now cpu idx s)
  unfolding tick_one
  tick_one-Wakes now idx s inside h =
      if_intro (Wakes s) (alarm_due now (s.pool idx)) _ _
        (λ e.
          let kept = put-Wakes s idx (rung now (s.pool idx)) h refl refl refl in
          Wakes-after s (put s idx (rung now (s.pool idx))) _ kept (
            wake_if-Wakes (same_state (s.pool idx).state sleeping) cpu idx _ kept.0 small inside
              (λ e'.
                ap (λ (q : Proc). is_blocked q.state)
                  (update_self s.pool idx (rung now (s.pool idx)))
                ∙ sleeping-blocked (s.pool idx).state e')))
        (λ e. Wakes-refl s h)

  pub on_tick-Wakes : (now : ℕ) (s : System) → IsQueued s → Wakes s (on_tick now cpu s)
  unfolding on_tick
  on_tick-Wakes now s h =
      for_from-Wakes (tick_one now cpu) (λ idx t inside q. tick_one-Wakes now idx t inside q) nproc
        0 s (omega arith) h
