-- ===== src/Channel.antt =====
-- crates/kernel/src/mpmc.rs: the bounded channel of pipes and sockets. The handles share one state:
-- the semaphore of free places, the queue, and the numbers of senders and receivers alive.
-- The two counters are taken in ℕ: there are never 2^64 handles.
pub mod Steps
pub mod Fifo
mod Tests
use web_os.Prelude.{
  ℕ, ◌+◌, ◌-◌, Option, none, some, Bool, true, false, not, List, [], ◌∷◌, ◌++◌, ltb, ◌==◌,
  if◌then◌else◌,
}
use web_os.Errors.{Result, ok, err, would_block, not_connected}
use web_os.Semaphore
use web_os.Semaphore.{Semaphore}

pub record Channel {ℓ} (A : Type ℓ) : Type ℓ where
  pub sem : Semaphore
  pub buf : List A
  pub scnt : ℕ
  pub rcnt : ℕ

module _ {ℓ} {A : Type ℓ} where
  unfoldable pub sync_channel : ℕ → Channel A
  sync_channel max = record { sem = Semaphore.new max; buf = []; scnt = 1; rcnt = 1 }

  unfoldable pub clone_sender : Channel A → Channel A
  clone_sender c = record c { scnt = c.scnt + 1 }

  unfoldable pub clone_receiver : Channel A → Channel A
  clone_receiver c = record c { rcnt = c.rcnt + 1 }

  unfoldable pub drop_sender : Channel A → Channel A
  drop_sender c = record c { scnt = c.scnt - 1 }

  unfoldable pub drop_receiver : Channel A → Channel A
  drop_receiver c = record c {
    rcnt = c.rcnt - 1;
    sem = if c.rcnt == 1 then Semaphore.close c.sem else c.sem;
  }

  -- `send` takes a place (one round of `sem.wait()`: `none` is to sleep) and then, with the lock of
  -- the queue, adds its value.
  unfoldable pub take_place : Bool → Channel A → Option (Result (Unit {0}) × Channel A)
  take_place killed c = elim (Semaphore.wait killed c.sem) [
    | none ↦ none
    | some (r, sem) ↦ some (r, record c { sem = sem })
  ]

  unfoldable pub push_back : Channel A → A → Channel A
  push_back c x = record c { buf = c.buf ++ x ∷ [] }

  unfoldable pub try_send : Channel A → A → Result (Unit {0}) × Channel A
  unfolding push_back
  try_send c x =
      let (place, sem) = Semaphore.try_wait c.sem in
      elim place [
        | err e ↦ (err e, record c { sem = sem })
        | ok free ↦
            if free
            then (ok tt, push_back (record c { sem = sem }) x)
            else (err would_block, record c { sem = sem })
      ]

  unfoldable pub can_send : Channel A → Result Bool
  can_send c = Semaphore.can_wait c.sem

  unfoldable pub sender_is_closed : Channel A → Bool
  sender_is_closed c = c.rcnt == 0

  -- `pop_front()`, then `post()?`: the value is gone if `post` fails.
  unfoldable pub pop_front : Channel A → A → List A → Result A × Channel A
  pop_front c x rest =
      let (posted, sem) = Semaphore.post c.sem in
      elim posted [
        | err e ↦ (err e, record c { sem = sem; buf = rest })
        | ok u ↦ (ok x, record c { sem = sem; buf = rest })
      ]

  -- One round of the loop of `recv`: `none` is to sleep.
  unfoldable pub recv : Channel A → Option (Result A × Channel A)
  unfolding pop_front
  recv c = elim c.buf [
    | x ∷ rest ↦ some (pop_front c x rest)
    | [] ↦ if ltb 0 c.scnt then none else some (err not_connected, c)
  ]

  unfoldable pub try_recv : Channel A → Result A × Channel A
  unfolding pop_front
  try_recv c = elim c.buf [
    | x ∷ rest ↦ pop_front c x rest
    | [] ↦ if ltb 0 c.scnt then (err would_block, c) else (err not_connected, c)
  ]

  unfoldable pub has_data : Channel A → Bool
  has_data c = elim c.buf [ [] ↦ false | x ∷ rest ↦ true ]

  unfoldable pub receiver_is_closed : Channel A → Bool
  receiver_is_closed c = c.scnt == 0
