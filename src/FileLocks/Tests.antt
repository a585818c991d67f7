-- ===== src/FileLocks/Tests.antt =====
-- fcntl.rs: the theorems on file locks at a table with two readers.
use web_os.Prelude.{
  ℕ, ◌≡◌, ◌≢◌, refl, none, some, false, ◌&&◌, ◌↔◌, [], ◌∷◌, arith, ◌==◌, if◌then◌else◌,
}
use web_os.Errors.{ok, err, resource_busy}
use web_os.FileLocks.{
  Flock, LockKind, read, write, LockTable, excludes, conflict, clear_pid, lock_kind, validate_flock,
  grant, set_lock, get_lock, unlck,
}
use web_os.FileLocks.Table.{held, IsExclusive}
use web_os.FileLocks.Laws.{
  request, Named, set_lock-IsExclusive, set_lock_granted, held-set_lock, get_lock_lem,
}

abbrev readers : LockTable
readers =
    record { dev = 1; inum = 5; kind = read; pid = 3 }
    ∷ record { dev = 1; inum = 5; kind = read; pid = 4 }
    ∷ []

abbrev upgrade : Flock
upgrade = record { l_type = 2; l_whence = 0; l_start = 0; l_len = 0; l_pid = 0 }

readers-IsExclusive : IsExclusive readers
readers-IsExclusive = (((λ same. (omega arith, refl, refl)), tt), (tt, tt))

upgrade_asks : request upgrade ≡ ok (some write)
unfolding validate_flock lock_kind
upgrade_asks = refl

-- Process 3 asks for the write lock, is refused, and has lost its read lock.
upgrade_drops :
    set_lock readers 1 5 3 upgrade
    ≡ (err resource_busy, record { dev = 1; inum = 5; kind = read; pid = 4 } ∷ [])
unfolding set_lock grant clear_pid conflict validate_flock lock_kind
upgrade_drops = refl

set_lock-IsExclusive_example : IsExclusive (set_lock readers 1 5 3 upgrade).1
set_lock-IsExclusive_example = set_lock-IsExclusive readers 1 5 3 upgrade readers-IsExclusive

set_lock_granted_example :
    ((set_lock readers 1 5 3 upgrade).0 ≡ ok tt)
    ↔ ((p : ℕ) (k : LockKind) → p ≢ 3 → held readers 1 5 p ≡ some k → excludes write k ≡ false)
set_lock_granted_example =
    set_lock_granted readers 1 5 3 upgrade write readers-IsExclusive upgrade_asks

held-set_lock_example : held (set_lock readers 1 5 3 upgrade).1 1 5 3 ≡ (
    if 1 == 1 && (5 == 5 && 3 == 3)
    then (elim (set_lock readers 1 5 3 upgrade).0 [ ok u ↦ some write | err e ↦ none ])
    else held readers 1 5 3)
held-set_lock_example = held-set_lock readers 1 5 3 upgrade (some write) 1 5 3 upgrade_asks

get_lock_lem_example :
    (f : Flock) × (get_lock readers 1 5 3 upgrade ≡ ok f)
    × ((f.l_type ≡ unlck) ↔ ((set_lock readers 1 5 3 upgrade).0 ≡ ok tt))
    × Named readers 1 5 write f
get_lock_lem_example = get_lock_lem readers 1 5 3 upgrade write readers-IsExclusive upgrade_asks
