-- ===== src/Inode.antt =====
-- crates/kernel/src/fs.rs, an inode that is locked: its fields in memory and the map from the blocks of
-- its file to the blocks of the volume. The guard of an indirect block shows it before the allocation
-- that its new entry takes, which does not touch it.
pub mod Layout
pub mod Nodes
pub mod Roots
pub mod Branches
pub mod Bmap
mod Tests
use web_os.Prelude.{
  ℕ, ◌+◌, ◌-◌, ◌*◌, ◌/◌, ◌%◌, ◌^◌, Option, none, some, Bool, true, false, ◌&&◌, List, [], ◌∷◌, ◌++◌,
  get_or, set, take, drop, ltb, ◌==◌, if◌then◌else◌,
}
use web_os.Prelude.Options.{◌>>=◌}
use web_os.BlockStore.{Block}
use web_os.Errors.{Result, ok, err, storage_full}
use web_os.Volume.{Volume, view, SuperBlock, ipb, iblock, log_write, balloc}

abbrev pub ndirect : ℕ
ndirect = 11

abbrev pub nindirect : ℕ
nindirect = 256

abbrev pub ndindirect : ℕ
ndindirect = 65536

-- `itype` and `major` are the numbers of the enumerations (stat.rs, file.rs).
pub record IData : Type 0 where
  pub inum : ℕ
  pub valid : Bool
  pub itype : ℕ
  pub major : ℕ
  pub minor : ℕ
  pub nlink : ℕ
  pub size : ℕ
  pub addrs : List ℕ
  pub atime : ℕ
  pub mtime : ℕ
  pub ctime : ℕ

-- The words of the DInode before its padding.
abbrev pub u64_words : ℕ → List ℕ
u64_words t = t % 2 ^ 32 ∷ t / 2 ^ 32 ∷ []

abbrev pub dinode : IData → List ℕ
dinode ip =
    (ip.itype + ip.major * 2 ^ 16)
    ∷ (ip.minor + ip.nlink * 2 ^ 16)
    ∷ ip.size
    ∷ (ip.addrs ++ (u64_words ip.atime ++ (u64_words ip.mtime ++ u64_words ip.ctime)))

-- The block with the 22 words of slot `k`, of 32 words, replaced.
abbrev pub put_dinode : Block → ℕ → List ℕ → Block
put_dinode block k words = take (k * 32) block ++ (words ++ drop (k * 32 + 22) block)

unfoldable pub update : SuperBlock → IData → Volume → Option Volume
update sb ip v =
    let ib = iblock sb ip.inum in
    log_write v ib (put_dinode (view v ib) (ip.inum % ipb) (dinode ip))

unfoldable pub set_size : SuperBlock → IData → ℕ → Volume → Option (IData × Volume)
set_size sb ip size v =
    let ip' = record ip { size = size } in update sb ip' v >>= λ v'. some (ip', v')

unfoldable pub set_addrs : SuperBlock → IData → ℕ → ℕ → Volume → Option (IData × Volume)
set_addrs sb ip bn addr v =
    let ip' = record ip { addrs = set ip.addrs bn addr } in update sb ip' v >>= λ v'. some (ip', v')

root_new : SuperBlock → IData → ℕ → Volume → Option (ℕ × IData × Volume)
root_new sb ip slot v = do
  (x, v') ← balloc sb v
  (ip', v'') ← set_addrs sb ip slot x v'
  some (x, ip', v'')

-- `addr = self.addrs[slot]`, allocated if it is 0.
pub root : SuperBlock → IData → ℕ → Bool → Volume → Option (ℕ × IData × Volume)
unfolding root_new
root sb ip slot alloc v =
    let addr = get_or ip.addrs slot 0 in
    if addr == 0 && alloc then root_new sb ip slot v else some (addr, ip, v)

entry_new : SuperBlock → ℕ → ℕ → Volume → Option (ℕ × Volume)
entry_new sb node idx v = do
  (x, v') ← balloc sb v
  v'' ← log_write v' node (set (view v node) idx x)
  some (x, v'')

-- `addr = a[idx]` in the indirect block `node`, allocated if it is 0.
pub entry : SuperBlock → ℕ → ℕ → Bool → Volume → Option (ℕ × Volume)
unfolding entry_new
entry sb node idx alloc v =
    let addr = get_or (view v node) idx 0 in
    if addr == 0 && alloc then entry_new sb node idx v else some (addr, v)

-- The three branches of `bmap`, by the number of indirect blocks on the way.
pub direct : SuperBlock → IData → ℕ → Bool → Volume → Option (Result ℕ × IData × Volume)
direct sb ip bn alloc v = do (addr, ip', v') ← root sb ip bn alloc v; some (ok addr, ip', v')

pub indirect : SuperBlock → IData → ℕ → Bool → Volume → Option (Result ℕ × IData × Volume)
indirect sb ip bn alloc v = do
  (node, ip', v1) ← root sb ip ndirect alloc v
  (addr, v2) ← entry sb node bn alloc v1
  some (ok addr, ip', v2)

pub double : SuperBlock → IData → ℕ → Bool → Volume → Option (Result ℕ × IData × Volume)
double sb ip bn alloc v = do
  (node, ip', v1) ← root sb ip (ndirect + 1) alloc v
  (leaf, v2) ← entry sb node (bn / nindirect) alloc v1
  (addr, v3) ← entry sb leaf (bn % nindirect) alloc v2
  some (ok addr, ip', v3)

pub bmap : SuperBlock → IData → ℕ → Bool → Volume → Option (Result ℕ × IData × Volume)
unfolding direct indirect double
bmap sb ip bn alloc v =
    if ltb bn ndirect
    then direct sb ip bn alloc v
    else if ltb (bn - ndirect) nindirect
    then indirect sb ip (bn - ndirect) alloc v
    else if ltb (bn - ndirect - nindirect) ndindirect
    then double sb ip (bn - ndirect - nindirect) alloc v
    else some (err storage_full, ip, v)
