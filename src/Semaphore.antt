-- ===== src/Semaphore.antt =====
-- crates/kernel/src/semaphore.rs. A semaphore's mutex makes each call, and each round of the loop of
-- `wait`, one step. The count is an `isize` that never falls below 0: both constructors start it at 0
-- or above, and it is lowered only where it is not 0. Wake-ups of sleeping threads are not modelled:
-- a thread that sleeps may try again at any time.
use web_os.Prelude.{ℕ, ◌+◌, ◌-◌, Option, none, some, Bool, true, false, ltb, ◌==◌, if◌then◌else◌}
use web_os.Errors.{Result, ok, err, interrupted, invalid_argument, ℤ, pos, negsuc}

pub record Semaphore : Type 0 where
  pub count : ℕ
  pub closed : Bool
  pub max : ℕ

abbrev pub new : ℕ → Semaphore
new max = record { count = max; closed = false; max = max }

unfoldable pub new_with_count : ℤ → ℤ → Result Semaphore
new_with_count (pos count) (pos max) =
    if ltb max count
    then err invalid_argument
    else ok (record { count = count; closed = false; max = max })
new_with_count (pos count) (negsuc max) = err invalid_argument
new_with_count (negsuc count) max = err invalid_argument

-- One round of the loop of `wait`: `none` is to sleep. The flag says whether the process was killed.
unfoldable pub wait : Bool → Semaphore → Option (Result (Unit {0}) × Semaphore)
wait killed s =
    if killed
    then some (err interrupted, s)
    else if s.closed
    then some (err invalid_argument, s)
    else if s.count == 0
    then none
    else some (ok tt, record s { count = s.count - 1 })

unfoldable pub try_wait : Semaphore → Result Bool × Semaphore
try_wait s =
    if s.closed
    then (err invalid_argument, s)
    else if s.count == 0
    then (ok false, s)
    else (ok true, record s { count = s.count - 1 })

unfoldable pub can_wait : Semaphore → Result Bool
can_wait s = if s.closed then err invalid_argument else ok (ltb 0 s.count)

unfoldable pub post : Semaphore → Result (Unit {0}) × Semaphore
post s =
    if s.closed
    then (err invalid_argument, s)
    else if s.count == s.max
    then (err invalid_argument, s)
    else (ok tt, record s { count = s.count + 1 })

unfoldable pub close : Semaphore → Semaphore
close s = record s { closed = true }
