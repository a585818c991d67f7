-- ===== src/Inode/Roots.antt =====
-- fs.rs: an address of the inode itself, allocated where it is missing.
use native.Mathlib.Decide.{ℕ_discrete}
use web_os.Prelude.{
  ℕ, suc, ◌%◌, ◌<◌, ◌≡◌, ◌≢◌, ◌⊎◌, inl, inr, refl, some, true, arith, length, get_or, set,
  replicate, get_or-set_self,
}
use web_os.BlockStore.{Block}
use web_os.Volume.{Volume, view, SuperBlock, block_words, ipb, iblock}
use web_os.Volume.Logged.{IsLogged, log_write_lem}
use web_os.Volume.Alloc.{IsAllocated}
use web_os.Inode.{IData, update, set_addrs, put_dinode, dinode, root}
use web_os.Inode.Nodes.{
  IsNode, IsReady, Keeps, weaken, balloc_ready, x-IsNode, x-zeros, IsTaken, IsTaken-after,
  found_again, ready_after, Keeps-after,
}

-- What `root` does when it may allocate, in an inode of block `ib`.
pub record IsRooted (sb : SuperBlock) (ib n k slot : ℕ) (ip : IData) (v : Volume) (a : ℕ)
    (ip' : IData) (v' : Volume) : Type 0 where
  pub taken : IsTaken sb (get_or ip.addrs slot 0) v a v'
  pub names : get_or ip'.addrs slot 0 ≡ a
  pub ready : IsReady sb ib n k v'
  pub keeps : Keeps sb ib ib v v'
  pub leads :
      (get_or ip.addrs slot 0 ≢ 0 → IsNode sb ib v (get_or ip.addrs slot 0)) → IsNode sb ib v' a
  pub old_or_new : (get_or ip.addrs slot 0 ≡ a) ⊎ (view v' a ≡ replicate block_words 0)

module _ (sb : SuperBlock) (ib n k slot : ℕ) (ip : IData) (v : Volume)
    (r : IsReady sb ib (suc n) (suc (suc (suc k))) v) (at : iblock sb ip.inum ≡ ib)
    (inside : slot < length ip.addrs) where
  grown : ℕ → IData
  grown x = record ip { addrs = set ip.addrs slot x }

  content : ℕ → Volume → Block
  content x v1 = put_dinode (view v1 (iblock sb ip.inum)) (ip.inum % ipb) (dinode (grown x))

  module _ (x : ℕ) (v1 v2 : Volume) (done : IsAllocated sb v x (suc k) v1)
      (one : IsLogged v1 ib (content x v1) k v2) where
    rooted : get_or ip.addrs slot 0 ≡ 0 → IsRooted sb ib n k slot ip v x (grown x) v2
    unfolding grown
    rooted e = record {
      taken =
          IsTaken-after sb ib n k x ib (content x v1) v v1 v2 r done one r.inode_used r.inode_no_map
            (get_or ip.addrs slot 0) e;
      names = get_or-set_self ip.addrs slot x 0 inside;
      ready =
          ready_after sb ib n k x ib (content x v1) v v1 v2 r done one r.inode_used r.inode_no_map;
      keeps =
          Keeps-after sb ib n k x ib (content x v1) v v1 v2 r done one r.inode_used r.inode_no_map;
      leads = λ f.
          x-IsNode sb ib n k x ib (content x v1) v v1 v2 r done one r.inode_used r.inode_no_map;
      old_or_new =
          inr
            (x-zeros sb ib n k x ib (content x v1) v v1 v2 r done one r.inode_used r.inode_no_map);
    }

  pub root_lem :
      (a : ℕ) × (ip' : IData) × (v' : Volume) × (root sb ip slot true v ≡ some (a, ip', v'))
      × IsRooted sb ib n k slot ip v a ip' v'
  unfolding root set_addrs update content grown
  root_lem = elim (ℕ_discrete (get_or ip.addrs slot 0) 0) [
    | yes e ↦
        let (x, v1, e1, done) = balloc_ready sb ib n (suc k) v r in
        let (v2, e2, one) = log_write_lem v1 ib (content x v1) k done.room in
        (x, grown x, v2, ground (arith, e, e1, e2, at), rooted x v1 v2 done one e)
    | no ne ↦ (
      get_or ip.addrs slot 0,
      ip,
      v,
      ground (arith, ne),
      record {
        taken = found_again sb (get_or ip.addrs slot 0) v ne;
        names = refl;
        ready = weaken sb ib n k v r;
        keeps = record { nodes = λ q h nq. (h, refl); grows = λ y h e. e };
        leads = λ f. f ne;
        old_or_new = inl refl;
      },
    )
  ]
