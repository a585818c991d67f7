-- ===== src/SleepLock.antt =====
-- crates/kernel/src/sleeplock.rs: the lock that a process may hold while it sleeps. The spin lock `lk`
-- makes what runs under it one step. A guard is dropped by the process that got it.
mod Exclusion
mod Tests
use web_os.Prelude.{
  ℕ, Option, none, some, Bool, true, false, ◌&&◌, List, [], ◌∷◌, ◌++◌, ◌≡◌, ◌==◌, if◌then◌else◌,
}

pub record SleepLockInfo : Type 0 where
  pub locked : Bool
  pub pid : ℕ

abbrev pub new : SleepLockInfo
new = record { locked = false; pid = 0 }

-- One round of the loop of `lock` in process `pid`: `none` is to sleep.
unfoldable pub lock : ℕ → SleepLockInfo → Option SleepLockInfo
lock pid lk = if lk.locked then none else some (record { locked = true; pid = pid })

unfoldable pub holding : ℕ → SleepLockInfo → Bool
holding pid lk = lk.locked && lk.pid == pid

-- The second half of `drop`, after the assertion that the process holds the lock.
unfoldable pub release : SleepLockInfo → SleepLockInfo
release lk = record { locked = false; pid = 0 }

-- A guard: its process, and whether its drop is past the assertion.
pub record Guard : Type 0 where
  pub owner : ℕ
  pub leaving : Bool

pub record Sys : Type 0 where
  pub info : SleepLockInfo
  pub guards : List Guard

abbrev pub start : Sys
start = record { info = new; guards = [] }

pub data Step (s : Sys) : Sys → Type 0 where
  locks :
      (pid : ℕ) (lk : SleepLockInfo)
      → lock pid s.info ≡ some lk
      → Step s (record { info = lk; guards = record { owner = pid; leaving = false } ∷ s.guards })
  asserts :
      (xs ys : List Guard) (pid : ℕ)
      → s.guards ≡ xs ++ record { owner = pid; leaving = false } ∷ ys
      → holding pid s.info ≡ true
      → Step s (record s { guards = xs ++ record { owner = pid; leaving = true } ∷ ys })
  releases :
      (xs ys : List Guard) (pid : ℕ)
      → s.guards ≡ xs ++ record { owner = pid; leaving = true } ∷ ys
      → Step s (record { info = release s.info; guards = xs ++ ys })

pub data Reach (s : Sys) : Sys → Type 0 where
  here : Reach s s
  next : {t u : Sys} → Reach s t → Step t u → Reach s u
