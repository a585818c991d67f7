-- ===== src/Inode/Bmap.antt =====
-- fs.rs: a block of a file, once mapped, is found again.
use native.Mathlib.Decide.{dec_lt}
use web_os.Prelude.{
  ℕ, ◌+◌, ◌-◌, ◌/◌, ◌%◌, ◌<◌, ◌≤◌, ◌≡◌, sym, ◌∙◌, Option, some, Bool, true, false, arith, get_or,
}
use web_os.Errors.{Result, err, storage_full}
use web_os.Volume.{Volume, SuperBlock, iblock}
use web_os.Inode.{IData, ndirect, nindirect, ndindirect, direct, indirect, double, bmap}
use web_os.Inode.Layout.{at_entry, file_block, place_direct, place_indirect, place_double}
use web_os.Inode.Nodes.{IsReady}
use web_os.Inode.Branches.{IsWay, IsMappedTo, direct_lem, indirect_lem, double_lem}

abbrev pub maxfile : ℕ
maxfile = ndirect + nindirect + ndindirect

module _ (sb : SuperBlock) (ip : IData) (v : Volume) (ready : IsReady sb (iblock sb ip.inum) 3 9 v)
    (way : IsWay sb ip v) where
  same_calls :
      (place place' : IData → Volume → ℕ)
      (call call' : Bool → IData → Volume → Option (Result ℕ × IData × Volume))
      → ((i : IData) (w : Volume) → place' i w ≡ place i w)
      → ((alloc : Bool) (i : IData) (w : Volume) → call' alloc i w ≡ call alloc i w)
      → IsMappedTo sb place ip v call
      → IsMappedTo sb place' ip v call'
  same_calls place place' call call' there like m = record {
    addr = m.addr;
    ip' = m.ip';
    v' = m.v';
    nonzero = m.nonzero;
    maps = like true ip v ∙ m.maps;
    again = like false m.ip' m.v' ∙ m.again;
    placed = there m.ip' m.v' ∙ m.placed;
    old = λ ne. there ip v ∙ m.old (λ z. ne (there ip v ∙ z));
    fresh = λ z. m.fresh (sym (there ip v) ∙ z);
  }

  as_direct :
      (bn : ℕ)
      → bn < ndirect
      → (alloc : Bool) (i : IData) (w : Volume) → bmap sb i bn alloc w ≡ direct sb i bn alloc w
  unfolding bmap
  as_direct bn h alloc i w = ground arith

  as_indirect :
      (bn : ℕ)
      → ndirect ≤ bn
      → bn - ndirect < nindirect
      → (alloc : Bool) (i : IData) (w : Volume)
      → bmap sb i bn alloc w ≡ indirect sb i (bn - ndirect) alloc w
  unfolding bmap
  as_indirect bn h h' alloc i w = ground arith

  as_double :
      (bn : ℕ)
      → ndirect + nindirect ≤ bn
      → bn < maxfile
      → (alloc : Bool) (i : IData) (w : Volume)
      → bmap sb i bn alloc w ≡ double sb i (bn - ndirect - nindirect) alloc w
  unfolding bmap
  as_double bn h h' alloc i w = ground arith

  mapped_in :
      (bn : ℕ)
      → bn < maxfile
      → IsMappedTo sb (file_block bn) ip v (λ alloc i w. bmap sb i bn alloc w)
  mapped_in bn h = elim (dec_lt bn ndirect) [
    | yes d ↦
        same_calls (λ i w. get_or i.addrs bn 0) (file_block bn)
          (λ alloc i w. direct sb i bn alloc w) _ (place_direct bn d) (as_direct bn d)
          (direct_lem sb ip v ready way bn d)
    | no nd ↦ elim (dec_lt (bn - ndirect) nindirect) [
      | yes s ↦
          same_calls (λ i w. at_entry w (get_or i.addrs ndirect 0) (bn - ndirect)) (file_block bn)
            (λ alloc i w. indirect sb i (bn - ndirect) alloc w) _
            (place_indirect bn (omega (arith, nd)) s) (as_indirect bn (omega (arith, nd)) s)
            (indirect_lem sb ip v ready way (bn - ndirect) s)
      | no ns ↦
          same_calls
            (λ i w.
              at_entry w
                (at_entry w (get_or i.addrs (ndirect + 1) 0)
                  ((bn - ndirect - nindirect) / nindirect))
                ((bn - ndirect - nindirect) % nindirect))
            (file_block bn) (λ alloc i w. double sb i (bn - ndirect - nindirect) alloc w) _
            (place_double bn (omega (arith, nd, ns))) (as_double bn (omega (arith, nd, ns)) h)
            (double_lem sb ip v ready way (bn - ndirect - nindirect) (omega (arith, nd, ns, h)))
    ]
  ]

  -- With a whole bit map, three free blocks, room for nine logged blocks, block 0 and the inode's
  -- block in use and the latter not of the bit map, 13 addresses, and indirect blocks that are
  -- whole, in use and neither of the bit map nor the inode's, those that the top block names not
  -- itself: a call that may allocate maps every block number of a file to a block that is not 0,
  -- which then stands at the number's place in the layout of 11 direct, 256 indirect and 256 * 256
  -- doubly indirect blocks, and is the one that stood there, or a free one if none did; a call
  -- that may not allocate then finds the same block and changes nothing; every larger number is
  -- refused with StorageFull, and nothing changes.
  pub bmap_lem :
      (bn : ℕ)
      → (bn < maxfile → IsMappedTo sb (file_block bn) ip v (λ alloc i w. bmap sb i bn alloc w))
        × (maxfile ≤ bn → (alloc : Bool) → bmap sb ip bn alloc v ≡ some (err storage_full, ip, v))
  unfolding bmap
  bmap_lem bn = (mapped_in bn, λ past alloc. ground (arith, past))
