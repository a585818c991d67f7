-- ===== src/Tasks/Ticks.antt =====
-- task.rs: the ticks of a CPU and the future that sleeps for some of them. A tick may come between the
-- two loads of TICK_SEQ in `SleepTicks::poll`, so the second load has a value of its own. TICK_SEQ is
-- taken in ℕ: there are never 2^64 ticks.
pub mod Sleep
use web_os.Prelude.{
  ℕ, ◌+◌, Option, none, some, Bool, true, false, List, [], ◌∷◌, ◌++◌, map, leb, if◌then◌else◌,
}
use web_os.Tasks.{Cpu, wakes, act_all}

-- TICK_SEQ and TICK_WAKERS of one CPU, beside its tasks. A waker of this CPU is its task number.
pub record Ticks {ℓ} (World : Type ℓ) : Type ℓ where
  pub cpu : Cpu World
  pub seq : ℕ
  pub wakers : List ℕ

module _ {ℓ} {World : Type ℓ} where
  -- The loop over the wakers ends at a panic of `wake_task`.
  unfoldable pub on_tick_cpu : Ticks World → Option (Ticks World)
  on_tick_cpu t = elim (act_all (map wakes t.wakers) t.cpu) [
    | none ↦ none
    | some c ↦ some (record { cpu = c; seq = t.seq + 1; wakers = [] })
  ]

  -- The target of the future.
  unfoldable pub sleep_ticks : Ticks World → ℕ → ℕ
  sleep_ticks t n = t.seq + n

  -- `now` and `now2` are the two loads, `id` is the task of the waker; `true` is `Poll::Ready`.
  unfoldable pub poll : ℕ → ℕ → ℕ → ℕ → Ticks World → Bool × Ticks World
  poll target now now2 id t =
      if leb target now
      then (true, t)
      else (leb target now2, record t { wakers = t.wakers ++ id ∷ [] })
