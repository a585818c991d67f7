-- ===== src/SleepLock/Tests.antt =====
-- sleeplock.rs: the theorem on sleep locks after process 3 has taken the lock.
use web_os.Prelude.{◌≡◌, ◌≤◌, refl, true, false, List, [], ◌∷◌, ◌++◌, length, ◌==◌}
use web_os.SleepLock.{lock, holding, Guard, Sys, start, locks, Reach, here, next}
use web_os.SleepLock.Exclusion.{sleep_lock_exclusive}

abbrev locked_by_3 : Sys
locked_by_3 = record {
  info = record { locked = true; pid = 3 };
  guards = record { owner = 3; leaving = false } ∷ [];
}

Reach-lock : Reach start locked_by_3
unfolding lock
Reach-lock = next here (locks 3 (record { locked = true; pid = 3 }) refl)

sleep_lock_exclusive_example :
    (length locked_by_3.guards ≤ 1)
    × (locked_by_3.info.locked ≡ (length locked_by_3.guards == 1))
    × ((xs ys : List Guard) (g : Guard)
        → locked_by_3.guards ≡ xs ++ g ∷ ys
        → holding g.owner locked_by_3.info ≡ true)
sleep_lock_exclusive_example = sleep_lock_exclusive Reach-lock
