-- ===== src/Log/Ops.antt =====
-- log.rs, `impl Mutex<Log>`: the transactions that share the log. Each function is what runs between
-- two points at which the log's mutex is taken or given up; a thread that sleeps tries again.
pub mod Invariant
pub mod Safety
use web_os.Prelude.{
  ℕ, zero, suc, ◌+◌, ◌-◌, ◌*◌, ◌%◌, ◌^◌, ◌≡◌, Option, none, some, Bool, true, false, ◌||◌, List, [],
  ◌∷◌, ◌++◌, take, set, elem, ltb, leb, ◌==◌, if◌then◌else◌,
}
use web_os.BlockStore.{Block, Machine, modify, pin}
use web_os.Log.{Log, LogHeader, max_op_blocks, log_size, commit}
use web_os.Log.Install.{IsHome}

-- One round of the loop of `begin_op`: `none` is to sleep.
unfoldable pub begin_op : Log → Option Log
begin_op l =
    if l.committing || ltb log_size (l.lh.n + (l.outstanding + 1) * max_op_blocks)
    then none
    else some (record l { outstanding = l.outstanding + 1 })

-- `end_op` up to the release of the mutex, with whether the caller is to commit. `none` is a panic:
-- the subtraction in an unsigned number, or "log.committing".
unfoldable pub end_op : Log → Option (Log × Bool)
end_op l =
    if l.outstanding == 0
    then none
    else if l.committing
    then none
    else if l.outstanding - 1 == 0
    then some (record l { outstanding = l.outstanding - 1; committing = true }, true)
    else some (record l { outstanding = l.outstanding - 1 }, false)

-- The commit of `end_op` and `sync`, outside the mutex, and the end of it inside.
pub run_commit : Log → Machine → Option (Log × Machine)
run_commit l m = elim (commit l m) [
  | none ↦ none
  | some (l', m') ↦ some (record l' { committing = false }, m')
]

pub data SyncRound : Type 0 where
  sleep done : SyncRound
  go : Log → SyncRound

-- One round of the loop of `sync`, and what follows it.
pub sync : Log → SyncRound
sync l =
    if l.committing || ltb 0 l.outstanding
    then sleep
    else if l.lh.n == 0
    then done
    else go (record l { committing = true })

-- `size - 1` as a `u32`.
abbrev pub size_less_one : ℕ → ℕ
size_less_one size = (size + 2 ^ 32 - 1) % 2 ^ 32

-- `LOG.write(b)`: `none` is a panic. The loop over `block[0..n]` looks for the block number.
unfoldable pub write : Log → Machine → ℕ → Option (Log × Machine)
write l m b =
    if leb log_size l.lh.n || leb (size_less_one l.size) l.lh.n
    then none
    else if ltb l.outstanding 1
    then none
    else if elem b (take l.lh.n l.lh.block)
    then some (l, m)
    else some
        (record l { lh = record { n = l.lh.n + 1; block = set l.lh.block l.lh.n b } }, pin m b)

-- The log, the machine, and for each running operation the number of blocks that it may still add
-- to the log: MAXOPBLOCKS bounds what one file-system operation writes.
pub record Sys : Type 0 where
  pub log : Log
  pub machine : Machine
  pub todo : List ℕ

-- What the threads do, in any order.
pub data Step (s : Sys) : Sys → Type 0 where
  begins :
      (l : Log)
      → begin_op s.log ≡ some l
      → Step s (record s { log = l; todo = max_op_blocks ∷ s.todo })
  -- An operation changes a home block and logs it for the first time since the last commit.
  adds :
      (xs ys : List ℕ) (k b : ℕ) (x : Block) (l : Log) (m : Machine)
      → s.todo ≡ xs ++ suc k ∷ ys
      → IsHome s.log.start s.log.size b
      → elem b (take s.log.lh.n s.log.lh.block) ≡ false
      → write s.log (modify s.machine b x) b ≡ some (l, m)
      → Step s (record { log = l; machine = m; todo = xs ++ k ∷ ys })
  absorbs :
      (b : ℕ) (x : Block) (l : Log) (m : Machine)
      → elem b (take s.log.lh.n s.log.lh.block) ≡ true
      → write s.log (modify s.machine b x) b ≡ some (l, m)
      → Step s (record s { log = l; machine = m })
  ends :
      (xs ys : List ℕ) (k : ℕ) (l : Log) (last : Bool)
      → s.todo ≡ xs ++ k ∷ ys
      → end_op s.log ≡ some (l, last)
      → Step s (record s { log = l; todo = xs ++ ys })
  syncs : (l : Log) → sync s.log ≡ go l → Step s (record s { log = l })
  -- The thread that set `committing` commits.
  commits :
      (l : Log) (m : Machine)
      → s.log.committing ≡ true
      → run_commit s.log s.machine ≡ some (l, m)
      → Step s (record s { log = l; machine = m })

pub data Reach (s : Sys) : Sys → Type 0 where
  here : Reach s s
  next : {t u : Sys} → Reach s t → Step t u → Reach s u
