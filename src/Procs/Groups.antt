-- ===== src/Procs/Groups.antt =====
-- proc.rs: process groups and sessions.
use web_os.Prelude.{ℕ, zero, suc, ◌+◌, Bool, false, not, ◌&&◌, ◌||◌, ◌==◌, if◌then◌else◌}
use web_os.Errors.{Result, ok, err, invalid_argument, no_such_process, permission_denied}
use web_os.RunQueue.{nproc}
use web_os.Procs.{System, unused, same_state, put, is_index}

unfoldable pub setsid : ℕ → System → Result ℕ × System
setsid idx s =
    let p = s.pool idx in
    if p.pid == p.pgid then (err permission_denied, s) else (
      ok p.pid,
      put s idx (record p {
        sid = p.pid;
        pgid = p.pid;
        stop_sig = 0;
        stop_reported = false;
        cont_pending = false;
      }),
    )

-- Whether process `idx` may not move process `c` to another group: it is of another session or leads its
-- own, or is neither the caller nor a child of the caller.
abbrev pub is_barred : ℕ → ℕ → System → Bool
is_barred idx c s =
    let p = s.pool c in
    not (p.sid == (s.pool idx).sid)
    || (p.pid == p.sid || (not (c == idx) && not (is_index (s.parents c) idx)))

-- The loop of `setpgid`, which ends at the first process with the number.
unfoldable pub setpgid_from :
    ℕ → ℕ → (idx target_pid new_pgid : ℕ) → System → Result (Unit {0}) × System
setpgid_from zero c idx target_pid new_pgid s = (err no_such_process, s)
setpgid_from (suc rounds) c idx target_pid new_pgid s =
    let p = s.pool c in
    let rest = setpgid_from rounds (c + 1) idx target_pid new_pgid s in
    if not (p.pid == target_pid)
    then rest
    else if is_barred idx c s
    then (err permission_denied, s)
    else (ok tt, put s c (record p { pgid = new_pgid }))

unfoldable pub setpgid : ℕ → (pid pgid : ℕ) → System → Result (Unit {0}) × System
setpgid idx pid pgid s =
    let target_pid = if pid == 0 then (s.pool idx).pid else pid in
    let new_pgid = if pgid == 0 then target_pid else pgid in
    if new_pgid == 0
    then (err invalid_argument, s)
    else setpgid_from nproc 0 idx target_pid new_pgid s

unfoldable pub session_has : ℕ → ℕ → (pgid sid : ℕ) → System → Bool
session_has zero c pgid sid s = false
session_has (suc rounds) c pgid sid s =
    let p = s.pool c in
    (not (same_state p.state unused) && (p.pgid == pgid && p.sid == sid))
    || session_has rounds (c + 1) pgid sid s

unfoldable pub pgid_in_session : (pgid sid : ℕ) → System → Bool
pgid_in_session pgid sid s = if pgid == 0 || sid == 0 then false else session_has nproc 0 pgid sid s
