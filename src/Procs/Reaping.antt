-- ===== src/Procs/Reaping.antt =====
-- proc.rs: waitpid, join and reap_threads, up to where they sleep.
use Prim.Native.Nat.{bit_and}
use web_os.Prelude.{
  ℕ, zero, suc, ◌+◌, ◌-◌, ◌*◌, ◌/◌, ◌%◌, ◌^◌, Option, none, some, Bool, true, false, not, ◌&&◌,
  ◌||◌, ◌==◌, if◌then◌else◌,
}
use web_os.Errors.{
  ℤ, pos, negsuc, Result, ok, err, invalid_argument, interrupted, no_child_processes,
}
use web_os.RunQueue.{nproc}
use web_os.Procs.{
  Proc, System, sleeping, stopped, zombie, same_state, put, is_index, sig_dfl, sig_ign, free,
}
use web_os.Procs.Signals.{wake_if, nsig, sig_mask, default_action, ignore}
use web_os.Procs.Handlers.{without}
use web_os.Procs.Family.{set_parent}

abbrev pub wnohang : ℕ
wnohang = 0

abbrev pub wuntraced : ℕ
wuntraced = 1

abbrev pub wcontinued : ℕ
wcontinued = 2

-- `options & (1 << k) != 0`
abbrev pub has_option : ℕ → ℕ → Bool
has_option options k = options / 2 ^ k % 2 == 1

-- `((sig & 0xff) << 8) | 0x7f`
abbrev pub stop_status : ℕ → ℕ
stop_status sig = sig % 256 * 256 + 0x7f

-- The child is freed and has no parent any more.
unfoldable pub reap : ℕ → System → System
reap c s = set_parent (free c s) c none

-- What `waitpid` does with one child: it returns, or goes on with the scan.
pub data Scan : Type 0 where
  found : Result ℕ → System → Scan
  nothing : Scan

-- Whether the scan looks at a slot: a child of `idx`, no thread, and the wanted one if any.
abbrev pub is_wanted : Option ℕ → ℕ → ℕ → System → Bool
is_wanted want idx c s =
    is_index (s.parents c) idx
    && (not (s.pool c).is_thread && (elim want [ none ↦ true | some pid ↦ (s.pool c).pid == pid ]))

abbrev pub is_thread_of : ℕ → ℕ → System → Bool
is_thread_of idx c s = is_index (s.parents c) idx && (s.pool c).is_thread

-- How far one round of a wait comes.
pub data Wait : Type 0 where
  returns : Result ℕ → System → Wait
  sleeps : System → Wait

-- The signals that a wait drops: those that are ignored, from `sig` on.
unfoldable pub drop_ignored : ℕ → ℕ → Proc → Proc
drop_ignored zero sig p = p
drop_ignored (suc rounds) sig p =
    let handler = p.sig_handlers (sig - 1) in
    let ignored =
      handler == sig_ign
      || (handler == sig_dfl && (elim (default_action sig) [ ignore ↦ true | _ ↦ false ])) in
    drop_ignored rounds (sig + 1) (
      if not (bit_and p.sig_pending (sig_mask sig) == 0) && ignored
      then record p { sig_pending = without p.sig_pending sig }
      else p)

-- `copyout` is what writing a status to the caller's memory answers.
module _ (copyout : ℕ → Result (Unit {0})) where
  -- The result once the status is written.
  unfoldable pub report : ℕ → ℕ → System → System → Scan
  report status pid s after = elim (copyout status) [
    | err e ↦ found (err e) s
    | ok u ↦ found (ok pid) after
  ]

  unfoldable pub wait_child : ℕ → ℕ → System → Scan
  wait_child options c s =
      let p = s.pool c in
      if same_state p.state stopped && (has_option options wuntraced && not p.stop_reported)
      then report (stop_status p.stop_sig) p.pid s (put s c (record p { stop_reported = true }))
      else if has_option options wcontinued && p.cont_pending
      then report 0xffff p.pid s (put s c (record p { cont_pending = false }))
      else if same_state p.state zombie
      then report p.xstate p.pid s (reap c s)
      else nothing

  -- The scan, and whether it saw a child. It ends at the first that has something to report.
  unfoldable pub scan_from : ℕ → ℕ → Option ℕ → ℕ → ℕ → Bool → System → Scan × Bool
  scan_from zero c want idx options havekids s = (nothing, havekids)
  scan_from (suc rounds) c want idx options havekids s =
      let rest = scan_from rounds (c + 1) want idx options havekids s in
      let rest' = scan_from rounds (c + 1) want idx options true s in
      if is_wanted want idx c s
      then (elim (wait_child options c s) [ nothing ↦ rest' | found r s' ↦ (found r s', true) ])
      else rest

  -- `want` is `none` for any child.
  unfoldable pub wait_round : Option ℕ → ℕ → ℕ → System → Wait
  wait_round want options idx s =
      let (seen, havekids) = scan_from nproc 0 want idx options false s in
      let s' = put s idx (drop_ignored nsig 1 (s.pool idx)) in
      elim seen [
        | found r s'' ↦ returns r s''
        | nothing ↦
            if has_option options wnohang
            then returns (ok 0) s
            else if not havekids || (s.pool idx).killed
            then returns (err no_child_processes) s
            else if not ((s'.pool idx).sig_pending == 0)
            then returns (err interrupted) s'
            else sleeps s'
      ]

  -- `waitpid(pid, ...)`, one round.
  unfoldable pub waitpid_round : ℤ → ℕ → ℕ → System → Wait
  waitpid_round (pos zero) options idx s = wait_round none options idx s
  waitpid_round (pos (suc n)) options idx s = wait_round (some (suc n)) options idx s
  waitpid_round (negsuc zero) options idx s = wait_round none options idx s
  waitpid_round (negsuc (suc n)) options idx s = returns (err invalid_argument) s

  -- The scan of `join`, for the first finished thread. The status is its stack.
  unfoldable pub join_from : ℕ → ℕ → ℕ → Bool → System → Scan × Bool
  join_from zero c idx havekids s = (nothing, havekids)
  join_from (suc rounds) c idx havekids s =
      let rest = join_from rounds (c + 1) idx havekids s in
      let rest' = join_from rounds (c + 1) idx true s in
      if is_thread_of idx c s
      then if same_state (s.pool c).state zombie
        then (report (s.pool c).ustack (s.pool c).pid s (reap c s), true)
        else rest'
      else rest

  unfoldable pub join_round : ℕ → System → Wait
  join_round idx s =
      let (seen, havekids) = join_from nproc 0 idx false s in
      elim seen [
        | found r s'' ↦ returns r s''
        | nothing ↦
            if not havekids || (s.pool idx).killed
            then returns (err no_child_processes) s
            else sleeps s
      ]

-- The first loop of `reap_threads`.
unfoldable pub kill_thread : ℕ → ℕ → ℕ → System → Option System
kill_thread cpu idx c s =
    let p = s.pool c in
    if is_thread_of idx c s
    then wake_if (same_state p.state sleeping) cpu c (put s c (record p { killed = true }))
    else some s

-- A pass of its second loop: the finished threads are freed. The flag is `havekids`.
unfoldable pub reap_from : ℕ → ℕ → ℕ → Bool → System → Bool × System
reap_from zero c idx havekids s = (havekids, s)
reap_from (suc rounds) c idx havekids s =
    if is_thread_of idx c s
    then reap_from rounds (c + 1) idx true
        (if same_state (s.pool c).state zombie then reap c s else s)
    else reap_from rounds (c + 1) idx havekids s

-- What follows a pass: `none` is to sleep on the own address.
unfoldable pub reap_round : ℕ → System → Option (Result (Unit {0})) × System
reap_round idx s =
    let (havekids, s') = reap_from nproc 0 idx false s in
    (
      (if not havekids
          then some (ok tt)
          else if (s'.pool idx).killed
          then some (err interrupted)
          else none),
      s',
    )
