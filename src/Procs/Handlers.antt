-- ===== src/Procs/Handlers.antt =====
-- signal.rs and proc.rs: the delivery of pending signals, and the calls that a handler uses.
use Prim.Native.Nat.{bit_and}
use web_os.Prelude.{
  ℕ, zero, suc, ◌+◌, ◌-◌, ◌/◌, ◌%◌, ◌^◌, Option, none, some, true, false, not, ◌&&◌, ◌||◌, ◌==◌,
  if◌then◌else◌, update,
}
use web_os.Errors.{Result, ok, err, invalid_argument, permission_denied}
use web_os.Procs.{Proc, System, stopped, put, sig_dfl, sig_ign, wakeup, sched}
use web_os.Procs.Signals.{
  SigDefaultAction, bad_signal, checked_add, continue, default_action, ignore, sig_mask, sigcont,
  sigkill, stop, terminate,
}

-- `pending.trailing_zeros()`, with the bits left.
unfoldable pub trailing_zeros_from : ℕ → ℕ → ℕ
trailing_zeros_from zero n = 0
trailing_zeros_from (suc bits) n =
    let rest = trailing_zeros_from bits (n / 2) in if n % 2 == 1 then 0 else 1 + rest

abbrev pub trailing_zeros : ℕ → ℕ
trailing_zeros n = trailing_zeros_from 32 n

-- `pending & !mask`
abbrev pub without : ℕ → ℕ → ℕ
without pending sig = bit_and pending (2 ^ 32 - 1 - sig_mask sig)

unfoldable pub wake_parent : Option ℕ → ℕ → System → Option System
wake_parent none cpu s = some s
wake_parent (some parent) cpu s = wakeup cpu (s.addresses parent) s

-- The default action of a signal that was taken off the pending ones.
unfoldable pub act_by_default : SigDefaultAction → ℕ → ℕ → ℕ → System → Option System
act_by_default terminate sig cpu idx s = some (put s idx (record (s.pool idx) { killed = true }))
act_by_default stop sig cpu idx s =
    let s' =
      put s idx (record (s.pool idx) { stop_sig = sig; stop_reported = false; state = stopped }) in
    elim (wake_parent (s.parents idx) cpu s') [ none ↦ none | some s'' ↦ sched cpu idx s'' ]
act_by_default continue sig cpu idx s =
    some (put s idx (record (s.pool idx) { cont_pending = false }))
act_by_default ignore sig cpu idx s = some s

-- The frame with which the handler starts.
abbrev pub enter_handler : ℕ → ℕ → Proc → Proc
enter_handler sig handler p = record p {
  sig_trapframe = p.trapframe;
  sig_active = true;
  trapframe = record (p.trapframe) { epc = handler; a0 = sig; ra = p.sig_restorer };
}

unfoldable pub deliver : ℕ → ℕ → ℕ → System → Option System
deliver sig cpu idx s =
    let p = s.pool idx in
    let handler = p.sig_handlers (sig - 1) in
    let p1 = if sig == sigcont then record p { cont_pending = false } else p in
    let p2 = record p1 { sig_pending = without p.sig_pending sig } in
    if sig == sigkill
    then some (put s idx (record p { sig_pending = without p.sig_pending sig; killed = true }))
    else if handler == sig_ign
    then some (put s idx p2)
    else if handler == sig_dfl
    then act_by_default (default_action sig) sig cpu idx (put s idx p2)
    else if p.sig_restorer == 0
    then some (put s idx (record p2 { killed = true }))
    else some (put s idx (enter_handler sig handler p2))

unfoldable pub deliver_signals : ℕ → ℕ → System → Option System
deliver_signals cpu idx s =
    let p = s.pool idx in
    if p.sig_active || p.sig_pending == 0
    then some s
    else deliver (trailing_zeros p.sig_pending + 1) cpu idx s

-- The previous handler as the caller is told.
abbrev pub told : ℕ → ℕ
told handler = if handler == sig_dfl then 0 else if handler == sig_ign then 1 else handler

unfoldable pub sigaction : ℕ → ℕ → ℕ → ℕ → System → Result ℕ × System
sigaction sig handler restorer idx s =
    let p = s.pool idx in
    let caught = not (handler == sig_dfl) && not (handler == sig_ign) in
    let p1 = if caught then record p { sig_restorer = restorer } else p in
    if bad_signal sig
    then (err invalid_argument, s)
    else if sig == sigkill
    then (err permission_denied, s)
    else if caught && restorer == 0
    then (err invalid_argument, s)
    else (
      ok (told (p.sig_handlers (sig - 1))),
      put s idx (record p1 { sig_handlers = update p.sig_handlers (sig - 1) handler }),
    )

unfoldable pub sigreturn : ℕ → System → Result (Unit {0}) × System
sigreturn idx s =
    let p = s.pool idx in
    if not p.sig_active
    then (err invalid_argument, s)
    else (ok tt, put s idx (record p { trapframe = p.sig_trapframe; sig_active = false }))

unfoldable pub setitimer : ℕ → ℕ → ℕ → ℕ → System → Result ℕ × System
setitimer now initial interval idx s =
    let p = s.pool idx in
    let prev = if p.sig_alarm_deadline == 0 then 0 else p.sig_alarm_deadline - now in
    if initial == 0
    then (ok prev, put s idx (record p { sig_alarm_deadline = 0; sig_alarm_interval = 0 }))
    else elim (checked_add now initial) [
      | none ↦ (err invalid_argument, s)
      | some deadline ↦ (
        ok prev,
        put s idx (record p { sig_alarm_deadline = deadline; sig_alarm_interval = interval }),
      )
    ]
