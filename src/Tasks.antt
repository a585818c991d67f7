-- ===== src/Tasks.antt =====
-- crates/kernel/src/task.rs: the cooperative tasks of a CPU: the queue of ready task numbers and the
-- executor's loop. A future is not code of this file: `poll` stands for it, a function of what it works
-- on (`World`, with whatever other CPUs and devices did meanwhile) that says whether the task is done and
-- which tasks of this CPU it woke. `none` is a panic. POLLS is taken in ℕ.
mod Ready
mod Executor
mod Ticks
mod Tests
use web_os.Prelude.{
  ℕ, zero, suc, ◌+◌, ◌-◌, ◌*◌, ◌%◌, Option, none, some, Bool, true, false, not, ◌&&◌, ◌||◌, List,
  [], ◌∷◌, ◌++◌, get_or, set, elem, replicate, ltb, leb, ◌==◌, if◌then◌else◌,
}

abbrev pub readyq_size : ℕ
readyq_size = 256

pub record ReadyQueue : Type 0 where
  pub buf : List ℕ
  pub head : ℕ
  pub tail : ℕ
  pub len : ℕ

pub new : ReadyQueue
new = record { buf = replicate readyq_size 0; head = 0; tail = 0; len = 0 }

unfoldable pub is_empty : ReadyQueue → Bool
is_empty q = q.len == 0

-- The flag says whether the number was added.
unfoldable pub push : ReadyQueue → ℕ → Bool × ReadyQueue
push q id = if q.len == readyq_size then (false, q) else (
  true,
  record q { buf = set q.buf q.tail id; tail = (q.tail + 1) % readyq_size; len = q.len + 1 },
)

-- `buf[head]` is inside the array on every queue that the code makes.
unfoldable pub pop : ReadyQueue → Option (ℕ × ReadyQueue)
pop q =
    if q.len == 0
    then none
    else some
        (get_or q.buf q.head 0, record q { head = (q.head + 1) % readyq_size; len = q.len - 1 })

-- The state of one CPU: READY, the keys of `tasks` and `waker_cache` in EXEC, and POLLS.
pub record Cpu {ℓ} (World : Type ℓ) : Type ℓ where
  pub ready : ReadyQueue
  pub tasks : List ℕ
  pub waker_cache : List ℕ
  pub polls : ℕ
  pub world : World

-- `BTreeMap::remove` and `insert` on the keys.
abbrev pub remove : ℕ → List ℕ → List ℕ
remove id [] = []
remove id (x ∷ xs) = if id == x then remove id xs else x ∷ remove id xs

abbrev pub insert : ℕ → List ℕ → List ℕ
insert id xs = if elem id xs then xs else id ∷ xs

-- What a future, or another CPU while it is polled, does to the tasks of this CPU.
pub data Action : Type 0 where
  wakes : ℕ → Action
  spawns : ℕ → Action

-- How a round of the loop of `run_ready_tasks_cpu` ends, and how the loop does.
pub data Round {ℓ} (World : Type ℓ) : Type ℓ where
  nothing panics : Round World
  skips runs : Cpu World → Round World

pub data Outcome {ℓ} (World : Type ℓ) : Type ℓ where
  panicked unfinished : Outcome World
  ended : ℕ → Cpu World → Outcome World

module _ {ℓ} {World : Type ℓ} where
  unfoldable pub wake_task : ℕ → Cpu World → Option (Cpu World)
  wake_task id c =
      let (added, q) = push c.ready id in if added then some (record c { ready = q }) else none

  -- `spawn_on` of an initialised CPU, with `insert_task`.
  unfoldable pub spawn_on : ℕ → Cpu World → Option (Cpu World)
  spawn_on id c = if elem id c.tasks then none else wake_task id (record c { tasks = id ∷ c.tasks })

  unfoldable pub act : Action → Cpu World → Option (Cpu World)
  act (wakes id) c = wake_task id c
  act (spawns id) c = spawn_on id c

  unfoldable pub act_all : List Action → Cpu World → Option (Cpu World)
  act_all [] c = some c
  act_all (a ∷ actions) c = elim (act a c) [ none ↦ none | some c' ↦ act_all actions c' ]

  module _ (poll : World → ℕ → Bool × List Action × World) where
    -- `task.poll(&mut cx)` while the task is out of the map, and what follows it.
    unfoldable pub poll_task : ℕ → Cpu World → Round World
    poll_task id c =
        let (done, actions, world) = poll c.world id in
        elim (act_all actions (record c { world = world })) [
          | none ↦ panics
          | some c' ↦ runs (
              if done
              then record c' { waker_cache = remove id c'.waker_cache }
              else record c' { tasks = insert id c'.tasks })
        ]

    unfoldable pub after_pop : Cpu World → Option (ℕ × ReadyQueue) → Round World
    after_pop c none = nothing
    after_pop c (some (id, q)) =
        if elem id c.tasks
        then poll_task id (record c {
          ready = q;
          polls = c.polls + 1;
          tasks = remove id c.tasks;
          waker_cache = insert id c.waker_cache;
        })
        else skips (record c { ready = q; polls = c.polls + 1 })

    unfoldable pub round : Cpu World → Round World
    round c = after_pop c (pop c.ready)

    pub run_from : ℕ → ℕ → ℕ → Cpu World → Outcome World
    run_from zero budget ran c = unfinished
    run_from (suc fuel) budget ran c =
        if not (budget == 0) && leb budget ran then ended ran c else elim (round c) [
          | nothing ↦ ended ran c
          | panics ↦ panicked
          | skips c' ↦ run_from fuel budget ran c'
          | runs c' ↦ run_from fuel budget (ran + 1) c'
        ]

    -- A round that runs a task leaves at most READYQ_SIZE numbers, each of which may be one to skip.
    pub run_ready_tasks_cpu : ℕ → Cpu World → Outcome World
    run_ready_tasks_cpu budget c = run_from (budget * suc readyq_size + c.ready.len + 1) budget 0 c
