-- ===== src/Inode/Tests.antt =====
-- fs.rs: the theorem on `bmap` for an empty file on a volume of 60 blocks.
use web_os.Prelude.{
  ℕ, suc, ◌<◌, ◌≤◌, ◌≡◌, ◌≢◌, inl, inr, refl, sym, ◌∙◌, some, Bool, Bool-cases, false, true, List,
  [], ◌∷◌, arith, length, replicate, elem, if◌then◌else◌, ◌==◌,
}
use web_os.Errors.{err, storage_full}
use web_os.Volume.{Volume, SuperBlock, used}
use web_os.Volume.Sample.{small, volume, one_map, volume-HasRoom, volume-IsMapped}
use web_os.Inode.{IData, bmap}
use web_os.Inode.Layout.{file_block}
use web_os.Inode.Nodes.{IsReady, HasFree}
use web_os.Inode.Branches.{IsWay, IsMappedTo}
use web_os.Inode.Bmap.{maxfile, bmap_lem}

-- Of three free blocks, two others leave one.
remove : ℕ → List ℕ → List ℕ
remove x [] = []
remove x (y ∷ ys) = if x == y then ys else y ∷ remove x ys

length-remove : (x : ℕ) (ys : List ℕ) → elem x ys ≡ true → length ys ≡ suc (length (remove x ys))
unfolding remove
length-remove x [] h = ground (arith, h)
length-remove x (y ∷ ys) h = ground (arith, h, length-remove x ys)

elem-remove : (x z : ℕ) (ys : List ℕ) → z ≢ x → elem z (remove x ys) ≡ elem z ys
unfolding remove
elem-remove x z [] ne = refl
elem-remove x z (y ∷ ys) ne = ground (arith, elem-remove x z ys ne)

three_free :
    (sb : SuperBlock) (v : Volume) (a b c : ℕ)
    → a ≢ b
    → a ≢ c
    → b ≢ c
    → a < sb.size
    → b < sb.size
    → c < sb.size
    → used sb v a ≡ false
    → used sb v b ≡ false
    → used sb v c ≡ false
    → HasFree sb v 3
three_free sb v a b c ab ac bc ha hb hc fa fb fc ys short = elim (Bool-cases (elem a ys)) [
  | inr e ↦ (a, ha, fa, e)
  | inl ea ↦ elim (Bool-cases (elem b ys)) [
    | inr e ↦ (b, hb, fb, e)
    | inl eb ↦ elim (Bool-cases (elem c ys)) [
      | inr e ↦ (c, hc, fc, e)
      | inl ec ↦ absurd (
          omega (
            arith,
            short,
            length-remove a ys ea,
            length-remove b (remove a ys) (elem-remove a b ys (λ e. ab (sym e)) ∙ eb),
            length-remove c (remove b (remove a ys)) (
                elem-remove b c (remove a ys) (λ e. bc (sym e))
                ∙ elem-remove a c ys (λ e. ac (sym e))
                ∙ ec),
          ))
    ]
  ]
]

abbrev empty_file : IData
empty_file = record {
  inum = 9;
  valid = true;
  itype = 2;
  major = 3;
  minor = 0;
  nlink = 1;
  size = 0;
  addrs = replicate 13 0;
  atime = 0;
  mtime = 0;
  ctime = 0;
}

volume-IsReady : IsReady small 33 3 9 volume
volume-IsReady = record {
  mapped = volume-IsMapped;
  free =
      three_free small volume 46 47 48 (omega arith) (omega arith) (omega arith) (omega arith)
        (omega arith) (omega arith) refl refl refl;
  room = volume-HasRoom;
  zero_used = refl;
  inode_used = refl;
  inode_in = omega arith;
  inode_no_map = λ y h. omega (arith, one_map y h);
  not_empty = omega arith;
}

empty-IsWay : IsWay small empty_file volume
empty-IsWay = record {
  slots = refl;
  single = λ h. absurd (h refl);
  top = λ h. absurd (h refl);
  leaves = λ i h. absurd (h refl);
}

bmap_lem_example :
    (300 < maxfile
      → IsMappedTo small (file_block 300) empty_file volume (λ alloc i w. bmap small i 300 alloc w))
    × (maxfile ≤ 300
        → (alloc : Bool)
        → bmap small empty_file 300 alloc volume ≡ some (err storage_full, empty_file, volume))
bmap_lem_example = bmap_lem small empty_file volume volume-IsReady empty-IsWay 300
