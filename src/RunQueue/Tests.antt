-- ===== src/RunQueue/Tests.antt =====
-- runq.rs: runs on concrete queues, and the theorems at them.
use web_os.Prelude.{◌≡◌, refl, none, some, List, [], ◌∷◌, ◌++◌, arith, replicate, set}
use web_os.RunQueue.{RunQueue, Queues, init, push, pop}
use web_os.RunQueue.Fifo.{IsValid, contents, Call, put, get, run, run_queue, run_refines}
use web_os.RunQueue.Steal.{AllQueues, Scheduled, init-AllQueues, set-each, runq_pop_or_steal_lem}

-- 7, then 9, round the end of the array.
abbrev wrapped : RunQueue
wrapped = record { buf = 9 ∷ replicate 14 0 ++ 7 ∷ []; head = 15; tail = 1; len = 2 }

wrapped-IsValid : IsValid wrapped
wrapped-IsValid = omega arith

abbrev script : List Call
script = get ∷ put 3 ∷ put 16 ∷ []

-- An index that is no process fails the assertion.
run-wrapped : run wrapped script ≡ some (some 7) ∷ some none ∷ none ∷ []
unfolding run push pop
run-wrapped = refl

run_refines_example : run wrapped script ≡ run_queue (contents wrapped) script
run_refines_example = run_refines script wrapped wrapped-IsValid

abbrev busy : Queues
busy = record init { runqs = set init.runqs 3 wrapped }

busy-AllQueues : AllQueues busy
busy-AllQueues = set-each init 3 wrapped init-AllQueues (omega arith) wrapped-IsValid

runq_pop_or_steal_lem_example : Scheduled busy 0
runq_pop_or_steal_lem_example = runq_pop_or_steal_lem busy 0 busy-AllQueues (omega arith)
