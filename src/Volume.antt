-- ===== src/Volume.antt =====
-- crates/kernel/src/fs.rs, the blocks of a volume: the bit map of blocks in use, and logged changes.
-- A volume is the log and what the buffer cache shows of the disk. `none` is a panic.
pub mod Logged
pub mod Bits
pub mod Search
pub mod Alloc
pub mod Free
pub mod Sample
mod Tests
use web_os.Prelude.{
  ℕ, zero, suc, ◌+◌, ◌-◌, ◌/◌, ◌%◌, ◌≤◌, ◌<◌, ◌≡◌, Option, none, some, Bool, true, false, length,
  replicate, ltb, if◌then◌else◌,
}
use web_os.Prelude.Bytes.{bit_isset, with_bit, without_bit, byte_at, set_byte}
use web_os.BlockStore.{Block, Machine, modify}
use web_os.Log.{Log}
use web_os.Log.Ops.{write}

pub record Volume : Type 0 where
  pub log : Log
  pub machine : Machine

abbrev pub view : Volume → ℕ → Block
view v = v.machine.view

pub record SuperBlock : Type 0 where
  pub magic : ℕ
  pub size : ℕ
  pub nblocks : ℕ
  pub ninodes : ℕ
  pub nlog : ℕ
  pub logstart : ℕ
  pub inodestart : ℕ
  pub bmapstart : ℕ

-- Words, inodes and bit-map bits of one block: BSIZE is 1024, a DInode has 128 bytes.
abbrev pub block_words : ℕ
block_words = 256

abbrev pub ipb : ℕ
ipb = 8

abbrev pub bpb : ℕ
bpb = 8192

abbrev pub iblock : SuperBlock → ℕ → ℕ
iblock sb i = i / ipb + sb.inodestart

abbrev pub bblock : SuperBlock → ℕ → ℕ
bblock sb b = b / bpb + sb.bmapstart

-- A guard whose contents were changed to `x`, given to `LOG.write`.
unfoldable pub log_write : Volume → ℕ → Block → Option Volume
log_write v b x = elim (write v.log (modify v.machine b x) b) [
  | none ↦ none
  | some (l, m) ↦ some (record { log = l; machine = m })
]

unfoldable pub bzero : Volume → ℕ → Option Volume
bzero v bno = log_write v bno (replicate block_words 0)

-- Bit `bi` of a block, as the code reads and writes it: by bytes.
abbrev pub bit_used : Block → ℕ → Bool
bit_used block bi = bit_isset (byte_at block (bi / 8)) (bi % 8)

abbrev pub mark : Block → ℕ → Block
mark block bi = set_byte block (bi / 8) (with_bit (byte_at block (bi / 8)) (bi % 8))

abbrev pub unmark : Block → ℕ → Block
unmark block bi = set_byte block (bi / 8) (without_bit (byte_at block (bi / 8)) (bi % 8))

-- `while bi < BPB && b + bi < sb.size`, with the rounds left until BPB.
pub find_free : ℕ → ℕ → Block → ℕ → ℕ → Option ℕ
find_free zero bi block b size = none
find_free (suc rounds) bi block b size =
    let rest = find_free rounds (bi + 1) block b size in
    if ltb (b + bi) size then (if bit_used block bi then rest else some bi) else none

-- What follows when a free bit is found.
pub claim : SuperBlock → Volume → ℕ → ℕ → Option (ℕ × Volume)
claim sb v b bi = elim (log_write v (bblock sb b) (mark (view v (bblock sb b)) bi)) [
  | none ↦ none
  | some v' ↦ elim (bzero v' (b + bi)) [ none ↦ none | some v'' ↦ some (b + bi, v'') ]
]

-- `for b in (0..sb.size).step_by(BPB)`, with the rounds left. The end is "balloc: out of blocks".
pub balloc_from : ℕ → ℕ → SuperBlock → Volume → Option (ℕ × Volume)
balloc_from zero b sb v = none
balloc_from (suc rounds) b sb v = elim (find_free bpb 0 (view v (bblock sb b)) b sb.size) [
  | none ↦ balloc_from rounds (b + bpb) sb v
  | some bi ↦ claim sb v b bi
]

pub balloc : SuperBlock → Volume → Option (ℕ × Volume)
balloc sb v = balloc_from ((sb.size + bpb - 1) / bpb) 0 sb v

pub bfree : SuperBlock → Volume → ℕ → Option Volume
bfree sb v b =
    if bit_used (view v (bblock sb b)) (b % bpb)
    then log_write v (bblock sb b) (unmark (view v (bblock sb b)) (b % bpb))
    else none

-- Whether the bit map says that a block is in use.
abbrev pub used : SuperBlock → Volume → ℕ → Bool
used sb v x = bit_used (view v (bblock sb x)) (x % bpb)

-- The bit map is there, and it marks its own blocks, which are in the volume, as used.
pub record IsMapped (sb : SuperBlock) (v : Volume) : Type 0 where
  pub whole : (x : ℕ) → x < sb.size → length (view v (bblock sb x)) ≡ block_words
  pub within : (x : ℕ) → x < sb.size → bblock sb x < sb.size
  pub reserved : (x : ℕ) → x < sb.size → used sb v (bblock sb x) ≡ true
