-- ===== src/Procs/Signals.antt =====
-- signal.rs, and the signals of proc.rs: kill, kill_pgrp, the alarm clock, delivery, and the calls that a
-- handler uses. `cpu` is the CPU that runs the code. A mask is a 32-bit number.
use Prim.Native.Nat.{bit_or}
use web_os.Prelude.{
  ℕ, zero, suc, ◌+◌, ◌-◌, ◌^◌, Option, none, some, Bool, true, false, not, ◌&&◌, ◌||◌, ltb, leb,
  ◌==◌, if◌then◌else◌,
}
use web_os.Errors.{Result, ok, err, invalid_argument, no_such_process}
use web_os.RunQueue.{nproc}
use web_os.Procs.{
  Proc, System, unused, sleeping, stopped, zombie, same_state, put, sig_dfl, sig_ign, make_runnable,
  for_from,
}

abbrev pub nsig : ℕ
nsig = 32

abbrev pub sigint : ℕ
sigint = 2

abbrev pub sigkill : ℕ
sigkill = 9

abbrev pub sigusr1 : ℕ
sigusr1 = 10

abbrev pub sigusr2 : ℕ
sigusr2 = 12

abbrev pub sigalrm : ℕ
sigalrm = 14

abbrev pub sigterm : ℕ
sigterm = 15

abbrev pub sigcont : ℕ
sigcont = 18

abbrev pub sigtstp : ℕ
sigtstp = 20

abbrev pub sigttin : ℕ
sigttin = 21

abbrev pub sigttou : ℕ
sigttou = 22

abbrev pub sig_mask : ℕ → ℕ
sig_mask sig = if sig == 0 || ltb nsig sig then 0 else 2 ^ (sig - 1)

pub data SigDefaultAction : Type 0 where
  ignore terminate stop continue : SigDefaultAction

unfoldable pub default_action : ℕ → SigDefaultAction
default_action sig =
    if sig == sigkill
      || (sig == sigterm
          || (sig == sigint || (sig == sigalrm || (sig == sigusr1 || sig == sigusr2))))
    then terminate
    else if sig == sigtstp || (sig == sigttin || sig == sigttou)
    then stop
    else if sig == sigcont
    then continue
    else ignore

abbrev pub terminates : SigDefaultAction → Bool
terminates terminate = true
terminates ignore = false
terminates stop = false
terminates continue = false

-- Whether a signal kills the process that has not caught it.
unfoldable pub is_deadly : ℕ → Proc → Bool
is_deadly sig p =
    sig == sigkill || (p.sig_handlers (sig - 1) == sig_dfl && terminates (default_action sig))

-- The process once the signal is noted.
unfoldable pub noted : ℕ → Proc → Proc
noted sig p =
    let p1 = record p { killed = p.killed || is_deadly sig p } in
    let p2 =
      if sig == sigcont
      then record p1 { stop_sig = 0; stop_reported = false; cont_pending = true }
      else p1 in
    record p2 { sig_pending = bit_or p.sig_pending (sig_mask sig) }

abbrev pub wake_if : Bool → ℕ → ℕ → System → Option System
wake_if b cpu idx s = if b then make_runnable cpu idx s else some s

-- What `kill` and `kill_pgrp` do to a process that they find.
unfoldable pub signal_one : ℕ → ℕ → ℕ → System → Option System
signal_one cpu sig idx s =
    let p = s.pool idx in
    if not (sig == sigkill) && p.sig_handlers (sig - 1) == sig_ign
    then some (put s idx (record p { killed = p.killed || is_deadly sig p }))
    else elim (wake_if (same_state p.state stopped && (sig == sigcont || is_deadly sig p)) cpu idx
        (put s idx (noted sig p))) [
          | none ↦ none
          | some s' ↦ wake_if (same_state (s'.pool idx).state sleeping) cpu idx s'
        ]

abbrev pub bad_signal : ℕ → Bool
bad_signal sig = sig == 0 || ltb nsig sig

unfoldable pub kill_from : ℕ → ℕ → ℕ → ℕ → ℕ → System → Option (Result (Unit {0}) × System)
kill_from zero idx cpu pid sig s = some (err no_such_process, s)
kill_from (suc rounds) idx cpu pid sig s =
    let rest = kill_from rounds (idx + 1) cpu pid sig s in
    if (s.pool idx).pid == pid
    then elim (signal_one cpu sig idx s) [ none ↦ none | some s' ↦ some (ok tt, s') ]
    else rest

unfoldable pub kill : ℕ → ℕ → ℕ → System → Option (Result (Unit {0}) × System)
kill cpu pid sig s =
    if bad_signal sig then some (err invalid_argument, s) else kill_from nproc 0 cpu pid sig s

abbrev pub in_group : ℕ → Proc → Bool
in_group pgid p = not (same_state p.state unused) && p.pgid == pgid

unfoldable pub signal_member : ℕ → ℕ → ℕ → ℕ → System → Option System
signal_member cpu pgid sig idx s =
    if in_group pgid (s.pool idx) then signal_one cpu sig idx s else some s

-- `found`: no signal changes the group of a process or makes it unused.
unfoldable pub has_member : ℕ → ℕ → ℕ → System → Bool
has_member zero idx pgid s = false
has_member (suc rounds) idx pgid s =
    in_group pgid (s.pool idx) || has_member rounds (idx + 1) pgid s

unfoldable pub kill_pgrp : ℕ → ℕ → ℕ → System → Option (Result (Unit {0}) × System)
kill_pgrp cpu pgid sig s =
    if pgid == 0 || bad_signal sig
    then some (err invalid_argument, s)
    else elim (for_from (signal_member cpu pgid sig) nproc 0 s) [
      | none ↦ none
      | some s' ↦ some ((if has_member nproc 0 pgid s then ok tt else err no_such_process), s')
    ]

-- `now.checked_add(n)`
abbrev pub checked_add : ℕ → ℕ → Option ℕ
checked_add a b = if ltb (a + b) (2 ^ 64) then some (a + b) else none

abbrev pub or_zero : Option ℕ → ℕ
or_zero none = 0
or_zero (some a) = a

abbrev pub rung : ℕ → Proc → Proc
rung now p = record p {
  sig_pending = bit_or p.sig_pending (sig_mask sigalrm);
  sig_alarm_deadline =
      if p.sig_alarm_interval == 0 then 0 else or_zero (checked_add now p.sig_alarm_interval);
}

abbrev pub alarm_due : ℕ → Proc → Bool
alarm_due now p =
    not (p.sig_alarm_deadline == 0)
    && (not (same_state p.state unused || (same_state p.state zombie || same_state p.state stopped))
        && leb p.sig_alarm_deadline now)

unfoldable pub tick_one : ℕ → ℕ → ℕ → System → Option System
tick_one now cpu idx s =
    let p = s.pool idx in
    if alarm_due now p
    then wake_if (same_state p.state sleeping) cpu idx (put s idx (rung now p))
    else some s

unfoldable pub on_tick : ℕ → ℕ → System → Option System
on_tick now cpu s = for_from (tick_one now cpu) nproc 0 s
