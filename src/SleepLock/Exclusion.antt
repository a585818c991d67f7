-- ===== src/SleepLock/Exclusion.antt =====
-- sleeplock.rs: what holds of a sleep lock after any steps of the processes that use it.
use web_os.Prelude.{
  ℕ, ◌≡◌, ◌≤◌, refl, sym, ap, ◌∙◌, some, true, false, List, [], ◌∷◌, ◌++◌, arith, length, ◌==◌,
  ==_refl,
}
use web_os.SleepLock.{
  SleepLockInfo, lock, holding, release, Guard, Sys, start, Step, locks, asserts, releases, Reach,
  here, next,
}

-- The lock is free and there is no guard, or it belongs to the owner of the only guard.
pub data IsSound (s : Sys) : Type 0 where
  free : s.guards ≡ [] → s.info.locked ≡ false → IsSound s
  taken : (g : Guard) → s.guards ≡ g ∷ [] → s.info.locked ≡ true → s.info.pid ≡ g.owner → IsSound s

alone : (xs ys : List Guard) (g h : Guard) → g ∷ [] ≡ xs ++ h ∷ ys → (xs ≡ []) × (ys ≡ []) × (g ≡ h)
alone [] ys g h e = ground (arith, e)
alone (x ∷ []) ys g h e = ground (arith, e)
alone (x ∷ y ∷ xs) ys g h e = ground (arith, e)

not_nil : (xs ys : List Guard) (h : Guard) → xs ++ h ∷ ys ≡ [] → ⊥
not_nil [] ys h e = ground (arith, e)
not_nil (x ∷ xs) ys h e = ground (arith, e)

freed :
    (lk : SleepLockInfo) (pid : ℕ) (d : SleepLockInfo)
    → lock pid lk ≡ some d
    → (lk.locked ≡ false) × (d.locked ≡ true) × (d.pid ≡ pid)
unfolding lock
freed lk pid d e = (ground (arith, e), ground (arith, e), ground (arith, e))

step-IsSound : (s t : Sys) → IsSound s → Step s t → IsSound t
unfolding release
step-IsSound s t (free empty unlocked) (locks pid lk e) =
    let (was, now, mine) = freed s.info pid lk e in
    taken (record { owner = pid; leaving = false })
      (ap (λ gs. record { owner = pid; leaving = false } ∷ gs) empty) now mine
step-IsSound s t (taken g only shut mine) (locks pid lk e) =
    absurd (ground (arith, shut, (freed s.info pid lk e).0))
step-IsSound s t (free empty unlocked) (asserts xs ys pid at holds) =
    absurd (not_nil xs ys _ (sym at ∙ empty))
step-IsSound s t (taken g only shut mine) (asserts xs ys pid at holds) =
    let (no_xs, no_ys, same) = alone xs ys g _ (sym only ∙ at) in
    taken (record { owner = pid; leaving = true }) (ground (arith, no_xs, no_ys)) shut
      (mine ∙ ap (λ h. h.owner) same)
step-IsSound s t (free empty unlocked) (releases xs ys pid at) =
    absurd (not_nil xs ys _ (sym at ∙ empty))
step-IsSound s t (taken g only shut mine) (releases xs ys pid at) =
    let (no_xs, no_ys, same) = alone xs ys g _ (sym only ∙ at) in
    free (ground (arith, no_xs, no_ys)) refl

reach-IsSound : {s t : Sys} → IsSound s → Reach s t → IsSound t
reach-IsSound h here = h
reach-IsSound h (next r st) = step-IsSound _ _ (reach-IsSound h r) st

-- In every reachable state at most one guard is alive; the lock is taken exactly if one is; and the
-- process of a guard holds the lock, so that the assertion of the guard's drop cannot fail.
pub sleep_lock_exclusive :
    {s : Sys}
    → Reach start s
    → (length s.guards ≤ 1)
      × (s.info.locked ≡ (length s.guards == 1))
      × ((xs ys : List Guard) (g : Guard) → s.guards ≡ xs ++ g ∷ ys → holding g.owner s.info ≡ true)
unfolding holding
sleep_lock_exclusive {s} r = elim (reach-IsSound (free refl refl) r) [
  | free empty unlocked ↦ (
    ground (arith, empty),
    ground (arith, empty, unlocked),
    λ xs ys g at. absurd (not_nil xs ys g (sym at ∙ empty)),
  )
  | taken h only shut mine ↦ (
    ground (arith, only),
    ground (arith, only, shut),
    λ xs ys g at. ground (arith, shut, mine, (alone xs ys h g (sym only ∙ at)).2, ==_refl g.owner),
  )
]
