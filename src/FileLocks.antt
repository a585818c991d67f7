-- ===== src/FileLocks.antt =====
-- crates/kernel/src/fcntl.rs, the advisory file locks: the table FILE_LOCKS, which a mutex guards, so
-- each call is one step on it. A call returns its result and the table it leaves.
pub mod Table
pub mod Laws
mod Tests
use web_os.Prelude.{
  ℕ, Option, none, some, Bool, true, false, ◌&&◌, ◌||◌, not, List, [], ◌∷◌, ◌++◌, ◌==◌,
  if◌then◌else◌,
}
use web_os.Errors.{Result, ok, err, ◌>>=◌, ◌>>◌, invalid_argument, resource_busy}

pub record Flock : Type 0 where
  pub l_type : ℕ
  pub l_whence : ℕ
  pub l_start : ℕ
  pub l_len : ℕ
  pub l_pid : ℕ

-- mod flock
abbrev pub unlck : ℕ
unlck = 0

abbrev pub rdlck : ℕ
rdlck = 1

abbrev pub wrlck : ℕ
wrlck = 2

pub data LockKind : Type 0 where
  read write : LockKind

pub record LockEntry : Type 0 where
  pub dev : ℕ
  pub inum : ℕ
  pub kind : LockKind
  pub pid : ℕ

abbrev pub LockTable : Type 0
LockTable = List LockEntry

-- The pattern of `conflict`: (Read, Write) or (Write, _).
abbrev pub excludes : LockKind → LockKind → Bool
excludes read read = false
excludes read write = true
excludes write other = true

pub conflict : LockTable → ℕ → ℕ → ℕ → LockKind → Option LockEntry
conflict [] dev inum pid kind = none
conflict (entry ∷ entries) dev inum pid kind =
    let rest = conflict entries dev inum pid kind in
    if not (entry.dev == dev) || not (entry.inum == inum) || entry.pid == pid
    then rest
    else if excludes kind entry.kind
    then some entry
    else rest

-- The entries that `clear_pid` drops.
abbrev pub owned : LockEntry → ℕ → ℕ → ℕ → Bool
owned entry dev inum pid = entry.dev == dev && (entry.inum == inum && entry.pid == pid)

pub clear_pid : LockTable → ℕ → ℕ → ℕ → LockTable
clear_pid [] dev inum pid = []
clear_pid (entry ∷ entries) dev inum pid =
    let rest = clear_pid entries dev inum pid in
    if owned entry dev inum pid then rest else entry ∷ rest

pub lock_kind : ℕ → Result (Option LockKind)
lock_kind lock_type =
    if lock_type == unlck
    then ok none
    else if lock_type == rdlck
    then ok (some read)
    else if lock_type == wrlck
    then ok (some write)
    else err invalid_argument

pub validate_flock : Flock → Result (Unit {0})
validate_flock lock =
    if not (lock.l_whence == 0) || not (lock.l_start == 0) || not (lock.l_len == 0)
    then err invalid_argument
    else (do lock_kind lock.l_type; ok tt)

-- The rest of `set_lock` on the cleared table.
pub grant : LockTable → ℕ → ℕ → ℕ → Option LockKind → Result (Unit {0}) × LockTable
grant t dev inum pid none = (ok tt, t)
grant t dev inum pid (some kind) = elim (conflict t dev inum pid kind) [
  | some entry ↦ (err resource_busy, t)
  | none ↦ (ok tt, t ++ record { dev = dev; inum = inum; kind = kind; pid = pid } ∷ [])
]

pub set_lock : LockTable → ℕ → ℕ → ℕ → Flock → Result (Unit {0}) × LockTable
set_lock t dev inum pid lock = elim (validate_flock lock >> lock_kind lock.l_type) [
  | err e ↦ (err e, t)
  | ok kind ↦ grant (clear_pid t dev inum pid) dev inum pid kind
]

abbrev pub type_of : LockKind → ℕ
type_of read = rdlck
type_of write = wrlck

-- What `get_lock` writes to the caller's `Flock`.
pub answer : LockTable → ℕ → ℕ → ℕ → Flock → Option LockKind → Flock
answer t dev inum pid lock none = record lock { l_type = unlck; l_pid = 0 }
answer t dev inum pid lock (some kind) = elim (conflict t dev inum pid kind) [
  | some entry ↦ record lock { l_type = type_of entry.kind; l_pid = entry.pid }
  | none ↦ record lock { l_type = unlck; l_pid = 0 }
]

pub get_lock : LockTable → ℕ → ℕ → ℕ → Flock → Result Flock
get_lock t dev inum pid lock = do
  validate_flock lock
  kind ← lock_kind lock.l_type
  ok (answer t dev inum pid lock kind)

pub clear_locks : LockTable → ℕ → ℕ → ℕ → LockTable
clear_locks t dev inum pid = clear_pid t dev inum pid
