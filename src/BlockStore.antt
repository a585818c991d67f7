-- ===== src/BlockStore.antt =====
-- crates/kernel/src/bio.rs as its clients see it: the blocks of the log's device and what the buffer
-- cache shows of them. `view b` is what the guard that `BCACHE.read` returns holds: the cached copy
-- where there is one, else the block on disk. The choice of the buffer (LRU) is not part of it.
--
-- A block is the list of its 32-bit words. `power` is the number of block writes that the device
-- still serves before the machine stops; every later write is lost. So the disk of a run with power
-- `p` is the disk that a crash after the first `p` writes leaves, and a run from a large `power` is
-- one without a crash.
use web_os.Prelude.{ℕ, zero, suc, ◌+◌, ◌-◌, Bool, false, List, update}

abbrev pub Block : Type 0
Block = List ℕ

-- log.rs, `LogCrashStage`.
pub data LogCrashStage : Type 0 where
  unarmed after_head_write : LogCrashStage

-- `recovered` and `crash_stage` are the statics LOG_RECOVERED and LOG_CRASH_STAGE.
pub record Machine : Type 0 where
  pub disk : ℕ → Block
  pub view : ℕ → Block
  pub pins : ℕ → ℕ
  pub power : ℕ
  pub crash_stage : LogCrashStage
  pub recovered : Bool

-- The disk after one write with `power` writes left.
abbrev pub serve : ℕ → (ℕ → Block) → ℕ → Block → ℕ → Block
serve zero disk b x = disk
serve (suc power) disk b x = update disk b x

-- `buf.write()` on a guard for block `b` with the contents `x`.
abbrev pub bwrite : Machine → ℕ → Block → Machine
bwrite m b x = record m {
  disk = serve m.power m.disk b x;
  view = update m.view b x;
  power = m.power - 1;
}

-- A change of the contents through a guard that is not written to disk.
abbrev pub modify : Machine → ℕ → Block → Machine
modify m b x = record m { view = update m.view b x }

abbrev pub pin : Machine → ℕ → Machine
pin m b = record m { pins = update m.pins b (m.pins b + 1) }

abbrev pub unpin : Machine → ℕ → Machine
unpin m b = record m { pins = update m.pins b (m.pins b - 1) }

-- The machine after a restart: the cache is empty, so it shows the disk.
abbrev pub boot : ℕ → (ℕ → Block) → Machine
boot power disk = record {
  disk = disk;
  view = disk;
  pins = λ b. 0;
  power = power;
  crash_stage = unarmed;
  recovered = false;
}
