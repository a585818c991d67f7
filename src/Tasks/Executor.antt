-- ===== src/Tasks/Executor.antt =====
-- task.rs: the executor's loop with a budget ends, whatever the futures do.
use web_os.Prelude.{
  ℕ, zero, suc, ◌+◌, ◌-◌, ◌*◌, ◌≤◌, ◌<◌, ◌≡◌, ◌⊎◌, inl, inr, refl, Option, none, some, Bool, true,
  false, not, ◌&&◌, List, [], ◌∷◌, arith, leb, ◌==◌, if◌then◌else◌, elem,
}
use web_os.Tasks.{
  ReadyQueue, readyq_size, push, pop, Cpu, Action, wakes, spawns, Round, nothing, panics, skips,
  runs, Outcome, panicked, unfinished, ended, wake_task, spawn_on, act, act_all, poll_task,
  after_pop, round, run_from, run_ready_tasks_cpu, remove, insert,
}

module _ {ℓ} {World : Type ℓ} where
  abbrev pub IsBounded : Cpu World → Type 0
  IsBounded c = c.ready.len ≤ readyq_size

  abbrev AllBounded : Option (Cpu World) → Type 0
  AllBounded none = Unit
  AllBounded (some c) = IsBounded c

  act-AllBounded : (a : Action) (c : Cpu World) → IsBounded c → AllBounded (act a c)
  unfolding act spawn_on wake_task push
  act-AllBounded (wakes id) c h = ground arith
  act-AllBounded (spawns id) c h = ground arith

  act_all-AllBounded :
      (actions : List Action) (c : Cpu World) → IsBounded c → AllBounded (act_all actions c)
  unfolding act_all
  act_all-AllBounded [] c h = h
  act_all-AllBounded (a ∷ actions) c h =
      elim (act a c)
          as (λ o.
            AllBounded o → AllBounded (elim o [ none ↦ none | some c' ↦ act_all actions c' ])) [
              | none ↦ λ u. tt
              | some c' ↦ act_all-AllBounded actions c'
            ]
        (act-AllBounded a c h)

  -- A round that skips a number leaves fewer; one that runs a task leaves no more than the queue holds.
  abbrev Leaves : Cpu World → Round World → Type 0
  Leaves c nothing = c.ready.len ≡ 0
  Leaves c panics = Unit
  Leaves c (skips d) = suc d.ready.len ≤ c.ready.len
  Leaves c (runs d) = IsBounded d

  -- The loop has ended within the budget, with the budget used up or no number left.
  abbrev pub IsDone : ℕ → Outcome World → Type 0
  IsDone budget unfinished = ⊥
  IsDone budget panicked = Unit
  IsDone budget (ended ran c) = (ran ≤ budget) × ((ran ≡ budget) ⊎ (c.ready.len ≡ 0))

  module _ (poll : World → ℕ → Bool × List Action × World) where
    kept :
        (done : Bool) (c x y : Cpu World)
        → IsBounded x
        → IsBounded y
        → Leaves c (runs (if done then x else y))
    kept true c x y hx hy = hx
    kept false c x y hx hy = hy

    poll_task-Leaves : (id : ℕ) (b c : Cpu World) → IsBounded c → Leaves b (poll_task poll id c)
    unfolding poll_task
    poll_task-Leaves id b c h =
        elim (act_all (poll c.world id).1 (record c { world = (poll c.world id).2 }))
            as (λ o.
              AllBounded o
              → Leaves b (elim o [
                | none ↦ panics
                | some c' ↦ runs (
                    if (poll c.world id).0
                    then record c' { waker_cache = remove id c'.waker_cache }
                    else record c' { tasks = insert id c'.tasks })
              ])) [
                | none ↦ λ u. tt
                | some c' ↦ λ h'.
                    kept ((poll c.world id).0) b
                      (record c' { waker_cache = remove id c'.waker_cache })
                      (record c' { tasks = insert id c'.tasks }) h' h'
              ]
          (act_all-AllBounded ((poll c.world id).1) (record c { world = (poll c.world id).2 }) h)

    chosen :
        (known : Bool) (c d : Cpu World) (r : Round World)
        → Leaves c r
        → suc d.ready.len ≤ c.ready.len
        → Leaves c (if known then r else skips d)
    chosen true c d r h k = h
    chosen false c d r h k = k

    abbrev Popped : Cpu World → Option (ℕ × ReadyQueue) → Type 0
    Popped c none = c.ready.len ≡ 0
    Popped c (some (id, q)) = suc q.len ≡ c.ready.len

    pop-Popped : (c : Cpu World) → Popped c (pop c.ready)
    unfolding pop
    pop-Popped c = ground arith

    after_pop-Leaves :
        (c : Cpu World) (o : Option (ℕ × ReadyQueue))
        → IsBounded c
        → Popped c o
        → Leaves c (after_pop poll c o)
    unfolding after_pop
    after_pop-Leaves c none h empty = empty
    after_pop-Leaves c (some (id, q)) h less =
        chosen (elem id c.tasks) c (record c { ready = q; polls = c.polls + 1 }) _
          (poll_task-Leaves id c _ (omega (arith, h, less))) (omega (arith, less))

    round-Leaves : (c : Cpu World) → IsBounded c → Leaves c (round poll c)
    unfolding round
    round-Leaves c h = after_pop-Leaves c (pop c.ready) h (pop-Popped c)

    one_of :
        (b : Bool) (budget : ℕ) (x y : Outcome World)
        → (b ≡ true → IsDone budget x)
        → (b ≡ false → IsDone budget y)
        → IsDone budget (if b then x else y)
    one_of true budget x y f g = f refl
    one_of false budget x y f g = g refl

    run_from_ends :
        (fuel budget ran : ℕ) (c : Cpu World)
        → 0 < budget
        → ran ≤ budget
        → IsBounded c
        → (budget - ran) * suc readyq_size + c.ready.len < fuel
        → IsDone budget (run_from poll fuel budget ran c)
    unfolding run_from
    run_from_ends zero budget ran c pos le h enough = absurd (omega (arith, enough))
    run_from_ends (suc fuel) budget ran c pos le h enough =
        one_of (not (budget == 0) && leb budget ran) budget (ended ran c) _
          (λ full. (le, inl (ground (arith, full, le))))
          (λ more.
            elim (round poll c)
                as (λ r.
                  Leaves c r
                  → IsDone budget (elim r [
                    | nothing ↦ ended ran c
                    | panics ↦ panicked
                    | skips c' ↦ run_from poll fuel budget ran c'
                    | runs c' ↦ run_from poll fuel budget (ran + 1) c'
                  ])) [
                    | nothing ↦ λ empty. (le, inr empty)
                    | panics ↦ λ u. tt
                    | skips c' ↦ λ less.
                        run_from_ends fuel budget ran c' pos le (omega (arith, h, less))
                          (omega (arith, enough, less))
                    | runs c' ↦ λ h'.
                        run_from_ends fuel budget (ran + 1) c' pos (ground (arith, more, pos)) h'
                          (fewer c' more h')
                  ]
              (round-Leaves c h))
      where
        room : not (budget == 0) && leb budget ran ≡ false → ran < budget
        room more = ground (arith, more, pos)

        fewer :
            (c' : Cpu World)
            → not (budget == 0) && leb budget ran ≡ false
            → IsBounded c'
            → (budget - (ran + 1)) * suc readyq_size + c'.ready.len < fuel
        fewer c' more h' = omega (arith, enough, room more, h')

    -- With a budget and a queue that holds at most READYQ_SIZE numbers, the loop ends, whatever the
    -- futures do: at a panic of a wake-up or a spawn, or, with at most the budget of tasks run, when the
    -- budget is used up or no number is left.
    pub run_ready_tasks_cpu_ends :
        (budget : ℕ) (c : Cpu World)
        → 0 < budget
        → c.ready.len ≤ readyq_size
        → IsDone budget (run_ready_tasks_cpu poll budget c)
    unfolding run_ready_tasks_cpu
    run_ready_tasks_cpu_ends budget c pos h =
        run_from_ends (budget * suc readyq_size + c.ready.len + 1) budget 0 c pos (omega arith) h
          (omega arith)
