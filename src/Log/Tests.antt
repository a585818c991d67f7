-- ===== src/Log/Tests.antt =====
-- log.rs: a transaction of two blocks on a small disk, and the theorems at it.
use web_os.Prelude.{
  ℕ, zero, suc, ◌+◌, ◌≡◌, refl, Option, none, some, Bool, true, false, inr, [], ◌∷◌, arith, elem,
  replicate, update, if◌then◌else◌,
}
use mathlib.Core.Option.{IsSome}
use web_os.BlockStore.{Block, Machine, unarmed}
use web_os.Log.{
  Log, decode, cleared, commit, install_trans, install_from, write_log, write_log_from, commit_head,
}
use web_os.Log.Install.{IsHome}
use web_os.Log.Recovery.{
  entries, IsLaidOut, restored, Recovers, RecoversTo, recover_lem, recover_again,
}
use web_os.Log.Crash.{all_or_nothing}
use web_os.Log.Atomic.{IsReady, commit_atomic, commit_complete}
use web_os.Log.Ops.{Sys, Reach, here, next, begins, ends, write, begin_op, end_op}
use web_os.Log.Ops.Invariant.{IsSafe, sum, fresh-IsSafe}
use web_os.Log.Ops.Safety.{WriteAnswers, write_fits, end_op_fits, commit-IsReady}

-- A log as mkfs makes it. Blocks 50 and 60 were changed in the cache.
abbrev log : Log
log = record {
  start = 2;
  size = 30;
  outstanding = 0;
  committing = true;
  lh = record { n = 2; block = 50 ∷ 60 ∷ replicate 28 0 };
}

abbrev old : ℕ → Block
old b = 0 ∷ b ∷ []

-- The device serves `power` more writes.
abbrev machine : ℕ → Machine
machine power = record {
  disk = old;
  view = update (update old 50 (7 ∷ [])) 60 (8 ∷ []);
  pins = λ b. 1;
  power = power;
  crash_stage = unarmed;
  recovered = false;
}

log-IsLaidOut : IsLaidOut 2 30 log.lh
log-IsLaidOut = record {
  indexed = omega arith;
  fits = omega arith;
  homes = (inr (omega arith), (inr (omega arith), tt));
}

ready : (power : ℕ) → IsReady log (machine power)
ready power = record { laid_out = log-IsLaidOut; array = refl; clean = refl }

-- Four writes are served: two log blocks, the header, and one block of the installation.
abbrev torn : ℕ → Block
torn = elim (commit log (machine 4)) [ none ↦ old | some (l, m) ↦ m.disk ]

torn_blocks : (torn 50 ≡ 7 ∷ []) × (torn 60 ≡ old 60)
unfolding commit commit_head install_trans install_from write_log write_log_from
torn_blocks = (refl, refl)

commit_atomic_example :
    (l' : Log) × (m' : Machine) × (commit log (machine 4) ≡ some (l', m'))
    × RecoversTo log m'.disk 30 (all_or_nothing log (machine 4))
commit_atomic_example = commit_atomic log (machine 4) 30 (ready 4) (omega arith)

commit_complete_example :
    (m' : Machine) × (commit log (machine 6) ≡ some (cleared log, m'))
    × ((x : ℕ)
        → IsHome 2 30 x
        → (m'.disk x ≡ (if elem x (entries log.lh) then (machine 6).view x else old x))
          × (m'.view x ≡ (machine 6).view x))
    × ((decode (m'.disk 2)).n ≡ 0)
commit_complete_example = commit_complete log (machine 6) (ready 6) (omega arith) refl (omega arith)

-- A disk with the header written and one block installed.
abbrev crashed : ℕ → Block
crashed = update (update (update old 2 (2 ∷ 50 ∷ 60 ∷ replicate 28 0)) 3 (7 ∷ [])) 4 (8 ∷ [])

crashed-IsLaidOut : IsLaidOut 2 30 (decode (crashed 2))
crashed-IsLaidOut = record {
  indexed = omega arith;
  fits = omega arith;
  homes = (inr (omega arith), (inr (omega arith), tt));
}

-- The first recovery is cut off after one write.
first : Recovers log crashed 1
first = recover_lem log crashed 1 crashed-IsLaidOut

recover_again_example : RecoversTo log first.after.disk 30 (restored 2 crashed)
recover_again_example =
    recover_again log crashed 1 30 first.log first.after crashed-IsLaidOut first.runs (omega arith)

-- One operation runs, and may add nine more blocks.
abbrev running : Sys
running = record {
  log = record log { outstanding = 1; committing = false };
  machine = machine 100;
  todo = 9 ∷ [];
}

running-IsSafe : IsSafe running
running-IsSafe = record {
  running = refl;
  budgets = (omega arith, tt);
  room = unfold sum in omega arith;
  alone = λ c. cc;
  array = refl;
  homes = (inr (omega arith), (inr (omega arith), tt));
  fits = omega arith;
  word = omega arith;
  clean = λ p. refl;
}

-- A second operation begins.
joined : Reach running (record {
  log = record log { outstanding = 2; committing = false };
  machine = machine 100;
  todo = 10 ∷ 9 ∷ [];
})
unfolding begin_op
joined = next here (begins (record log { outstanding = 2; committing = false }) refl)

write_fits_example :
    WriteAnswers (record log { outstanding = 2; committing = false }) (machine 100) 70
write_fits_example = write_fits [] (9 ∷ []) 9 70 running-IsSafe joined refl

end_op_fits_example :
    (l : Log) × (last : Bool) × (end_op (record log { outstanding = 2; committing = false })
      ≡ some (l, last))
end_op_fits_example = end_op_fits (10 ∷ []) [] 9 running-IsSafe joined refl

abbrev due : Sys
due = record { log = log; machine = machine 100; todo = [] }

-- The operation ends, and its commit is due.
ended : Reach running due
unfolding end_op
ended = next here (ends [] [] 9 log true refl refl)

commit-IsReady_example : (due.todo ≡ []) × IsReady log (machine 100)
commit-IsReady_example = commit-IsReady running-IsSafe ended refl (omega arith)

-- mkfs makes a log of LOGSIZE blocks. Three operations that each add MAXOPBLOCKS blocks are let in,
-- and the last of the blocks that they may add is a panic.
abbrev mkfs_log : Log
mkfs_log = record {
  start = 2;
  size = 30;
  outstanding = 0;
  committing = false;
  lh = record { n = 0; block = replicate 30 0 };
}

-- It is safe before anything happens.
mkfs_log-IsSafe : IsSafe (record { log = mkfs_log; machine = machine 100; todo = [] })
mkfs_log-IsSafe =
    fresh-IsSafe mkfs_log (machine 100) refl refl refl refl (omega arith) (omega arith) (λ p. refl)

begin_times : ℕ → Log → Option Log
begin_times zero l = some l
begin_times (suc k) l = elim (begin_op l) [ none ↦ none | some l' ↦ begin_times k l' ]

fill : ℕ → Log → Option Log
fill zero l = some l
fill (suc k) l = elim (write l (machine 0) (100 + k)) [ none ↦ none | some (l', m) ↦ fill k l' ]

three_begin : begin_times 3 mkfs_log ≡ some (record mkfs_log { outstanding = 3 })
unfolding begin_times begin_op
three_begin = refl

overrun : fill 30 (record mkfs_log { outstanding = 3 }) ≡ none
unfolding fill write
overrun = refl

-- With one block more in the log all thirty are added.
no_overrun : IsSome (fill 30 (record mkfs_log { size = 31; outstanding = 3 }))
unfolding fill write
no_overrun = tt
