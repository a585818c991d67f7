-- ===== src/Log.antt =====
-- crates/kernel/src/log.rs: the journal of the file system. The functions here run with the log to
-- themselves; Log/Ops has the transactions that share it. `none` is a panic (an index out of bounds).
-- The log lives on one device, so block numbers stand for (dev, blockno) pairs. Sums of block numbers
-- are taken in ℕ: the device has far fewer than 2^32 blocks.
pub mod Install
pub mod Copy
pub mod Recovery
pub mod Crash
pub mod Atomic
pub mod Keeps
pub mod Ops
mod Tests
use web_os.Prelude.{
  ℕ, zero, suc, ◌+◌, Option, none, some, Bool, true, false, List, [], ◌∷◌, ◌++◌, get_or, take, drop,
  replicate, ltb, if◌then◌else◌,
}
use web_os.BlockStore.{
  Block, LogCrashStage, unarmed, after_head_write, Machine, bwrite, modify, unpin,
}

-- param.rs
abbrev pub max_op_blocks : ℕ
max_op_blocks = 10

abbrev pub log_size : ℕ
log_size = 30

pub record LogHeader : Type 0 where
  pub n : ℕ
  pub block : List ℕ

pub record Log : Type 0 where
  pub start : ℕ
  pub size : ℕ
  pub outstanding : ℕ
  pub committing : Bool
  pub lh : LogHeader

-- The `#[repr(C)]` layout of LogHeader at the front of a block: the word `n`, then the array.
abbrev pub decode : Block → LogHeader
decode words = record { n = get_or words 0 0; block = take log_size (drop 1 words) }

abbrev pub encode : LogHeader → Block → Block
encode lh words = lh.n ∷ (lh.block ++ drop (suc log_size) words)

set_crash_stage : Machine → LogCrashStage → Machine
set_crash_stage m stage = record m { crash_stage = stage }

take_recovered : Machine → Bool × Machine
take_recovered m = (m.recovered, record m { recovered = false })

-- `crash_if_armed(LogCrashStage::AfterHeadWrite)`, the only call of it. `exit_qemu` stops the
-- machine: no later write reaches the disk.
abbrev pub fired : LogCrashStage → ℕ → ℕ
fired unarmed power = power
fired after_head_write power = 0

abbrev pub crash_if_armed : Machine → Machine
crash_if_armed m = record m { power = fired m.crash_stage m.power; crash_stage = unarmed }

abbrev pub read_head : Log → Machine → Log
read_head l m = record l { lh = decode (m.view l.start) }

abbrev pub write_head : Log → Machine → Machine
write_head l m = bwrite m l.start (encode l.lh (m.view l.start))

-- `for tail in 0..n`, with the rounds left, `tail`, and the entries of `block` from `tail` on.
-- The guard of the destination shows the copied words before they are written.
pub install_from : ℕ → Bool → ℕ → ℕ → List ℕ → Machine → Option Machine
install_from start recovering tail zero bs m = some m
install_from start recovering tail (suc rounds) [] m = none
install_from start recovering tail (suc rounds) (b ∷ bs) m =
    let lbuf = m.view (start + tail + 1) in
    let written = bwrite m b lbuf in
    install_from start recovering (tail + 1) rounds bs
      (if recovering then written else unpin written b)

pub install_trans : Log → Bool → Machine → Option Machine
install_trans l recovering m = install_from l.start recovering 0 l.lh.n l.lh.block m

pub write_log_from : ℕ → ℕ → ℕ → List ℕ → Machine → Option Machine
write_log_from start tail zero bs m = some m
write_log_from start tail (suc rounds) [] m = none
write_log_from start tail (suc rounds) (b ∷ bs) m =
    write_log_from start (tail + 1) rounds bs (bwrite m (start + tail + 1) (m.view b))

pub write_log : Log → Machine → Option Machine
write_log l m = write_log_from l.start 0 l.lh.n l.lh.block m

abbrev pub cleared : Log → Log
cleared l = record l { lh = record (l.lh) { n = 0 } }

-- The second half of `commit`, from the header write on.
pub commit_head : Log → Machine → Option (Log × Machine)
commit_head l m = elim (install_trans l false (crash_if_armed (write_head l m))) [
  | none ↦ none
  | some m' ↦ some (cleared l, write_head (cleared l) m')
]

pub commit : Log → Machine → Option (Log × Machine)
commit l m =
    if ltb 0 l.lh.n
    then elim (write_log l m) [ none ↦ none | some m' ↦ commit_head l m' ]
    else some (l, m)

abbrev pub note_recovery : Log → Machine → Machine
note_recovery l m = record m { recovered = if ltb 0 l.lh.n then true else m.recovered }

pub recover : Log → Machine → Option (Log × Machine)
recover l m =
    let l' = read_head l m in
    elim (install_trans l' true (note_recovery l' m)) [
      | none ↦ none
      | some m' ↦ some (cleared l', write_head (cleared l') m')
    ]

-- `Log::new` with the superblock's `logstart` and `nlog`.
pub new : ℕ → ℕ → Machine → Option (Log × Machine)
new logstart nlog m =
    recover
      (record {
        start = logstart;
        size = nlog;
        outstanding = 0;
        committing = false;
        lh = record { n = 0; block = replicate log_size 0 };
      })
      m
