-- ===== src/Tasks/Tests.antt =====
-- task.rs: the theorems on tasks at a queue with one number and a future that wakes itself for ever.
use mathlib.Core.Option
use web_os.Prelude.{
  ℕ, ◌≡◌, refl, Bool, false, List, [], ◌∷◌, arith, length, replicate, ◌==◌, ◌+◌, ◌++◌, some,
}
use web_os.Tasks.{ReadyQueue, Cpu, Action, wakes, is_empty, push, pop, run_ready_tasks_cpu}
use web_os.Tasks.Ready.{IsValid, contents, enqueue, dequeue, PoppedValid, ready_refines}
use web_os.Tasks.Ticks.{Ticks, on_tick_cpu}
use web_os.Tasks.Ticks.Sleep.{on_tick_cpu_lem}
use web_os.Tasks.Executor.{IsDone, run_ready_tasks_cpu_ends}

-- One number, in the last cell of the array.
abbrev one_waits : ReadyQueue
one_waits = record { buf = replicate 256 7; head = 255; tail = 0; len = 1 }

one_waits-IsValid : IsValid one_waits
one_waits-IsValid = record {
  storage = refl;
  head_in = omega arith;
  len_in = omega arith;
  tail_at = refl;
}

ready_refines_example :
    (((push one_waits 3).0, contents (push one_waits 3).1) ≡ enqueue (contents one_waits) 3)
    × (Option.map (λ r. (r.0, contents (r.1))) (pop one_waits) ≡ dequeue (contents one_waits))
    × (is_empty one_waits ≡ (length (contents one_waits) == 0))
    × IsValid (push one_waits 3).1
    × PoppedValid (pop one_waits)
ready_refines_example = ready_refines one_waits 3 one_waits-IsValid

abbrev restless : ℕ → ℕ → Bool × List Action × ℕ
restless clock id = (false, wakes id ∷ [], clock)

abbrev busy_cpu : Cpu ℕ
busy_cpu = record { ready = one_waits; tasks = 7 ∷ []; waker_cache = []; polls = 0; world = 0 }

run_ready_tasks_cpu_ends_example : IsDone 5 (run_ready_tasks_cpu restless 5 busy_cpu)
run_ready_tasks_cpu_ends_example =
    run_ready_tasks_cpu_ends restless 5 busy_cpu (omega arith) (omega arith)

abbrev sleepers : Ticks ℕ
sleepers = record { cpu = busy_cpu; seq = 9; wakers = 4 ∷ 5 ∷ [] }

on_tick_cpu_lem_example :
    (u : Ticks ℕ) × (on_tick_cpu sleepers ≡ some u)
    × (u.seq ≡ 9 + 1)
    × (u.wakers ≡ [])
    × (contents (u.cpu.ready) ≡ contents one_waits ++ 4 ∷ 5 ∷ [])
on_tick_cpu_lem_example = on_tick_cpu_lem sleepers one_waits-IsValid (omega arith)
