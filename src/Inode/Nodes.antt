-- ===== src/Inode/Nodes.antt =====
-- fs.rs: an allocation on the way to a block of a file leaves the other blocks of the way alone.
use native.Mathlib.Decide.{ℕ_discrete}
use web_os.Prelude.{
  ℕ, suc, ◌%◌, ◌<◌, ◌≡◌, ◌≢◌, inl, inr, refl, sym, ap, ◌∙◌, some, Bool, true, false, ◌||◌, List, [],
  ◌∷◌, arith, length, get_or, set, replicate, length-set, length-replicate, get_or-set_self,
  update_self, update_ne, elem, ◌==◌, ==_refl,
}
use web_os.BlockStore.{Block}
use web_os.Volume.{
  Volume, view, SuperBlock, block_words, bpb, bblock, balloc, used, IsMapped, bit_used,
}
use web_os.Volume.Logged.{HasRoom, IsLogged, log_write_lem}
use web_os.Volume.Alloc.{IsAllocated, balloc_lem}
use web_os.Inode.{entry}
use web_os.Inode.Layout.{at_entry, at_entry-zeros}

-- At least `n` blocks are free: no `n - 1` blocks are all of them.
abbrev pub HasFree : SuperBlock → Volume → ℕ → Type 0
HasFree sb v n =
    (ys : List ℕ)
    → length ys < n
    → (x : ℕ) × (x < sb.size) × (used sb v x ≡ false) × (elem x ys ≡ false)

-- Block `p` is in use, and is neither a block of the bit map nor block `ib`, that of the inode.
pub record IsNode (sb : SuperBlock) (ib : ℕ) (v : Volume) (p : ℕ) : Type 0 where
  pub within : p < sb.size
  pub in_use : used sb v p ≡ true
  pub no_map : (y : ℕ) → y < sb.size → bblock sb y ≢ p
  pub no_inode : p ≢ ib
  pub whole : length (view v p) ≡ block_words

-- What the steps need: the bit map, free blocks, room in the log; block 0 and `ib` are in use.
pub record IsReady (sb : SuperBlock) (ib n k : ℕ) (v : Volume) : Type 0 where
  pub mapped : IsMapped sb v
  pub free : HasFree sb v n
  pub room : HasRoom v k
  pub zero_used : used sb v 0 ≡ true
  pub inode_used : used sb v ib ≡ true
  pub inode_in : ib < sb.size
  pub inode_no_map : (y : ℕ) → y < sb.size → bblock sb y ≢ ib
  pub not_empty : 0 < sb.size

-- `v'` has the nodes of `v`; all but perhaps `p` and `ib` show what they showed. What is in use
-- stays in use.
pub record Keeps (sb : SuperBlock) (ib p : ℕ) (v v' : Volume) : Type 0 where
  pub nodes : (q : ℕ) → IsNode sb ib v q → q ≢ p → IsNode sb ib v' q × (view v' q ≡ view v q)
  pub grows : (y : ℕ) → y < sb.size → used sb v y ≡ true → used sb v' y ≡ true

-- What was found at `old` became `a`: a block that was there is the same, a new one was free.
pub record IsTaken (sb : SuperBlock) (old : ℕ) (v : Volume) (a : ℕ) (v' : Volume) : Type 0 where
  pub nonzero : a ≢ 0
  pub stays : old ≢ 0 → old ≡ a
  pub fresh : old ≡ 0 → (a < sb.size) × (used sb v a ≡ false)
  pub below : (i : ℕ) → at_entry v' a i ≡ at_entry v old i

pub found_again : (sb : SuperBlock) (old : ℕ) (v : Volume) → old ≢ 0 → IsTaken sb old v old v
found_again sb old v ne = record {
  nonzero = ne;
  stays = λ h. refl;
  fresh = λ z. absurd (ne z);
  below = λ i. refl;
}

or_true : (b : Bool) → (b || true) ≡ true
or_true b = ground arith

not_listed :
    (x y : ℕ) (ys : List ℕ) → elem y (x ∷ ys) ≡ false → ((x == y) ≡ false) × (elem y ys ≡ false)
not_listed x y ys h = (ground arith, ground arith)

-- The state after an allocation of `x` and a logged change of block `p` to `content`.
module _ (sb : SuperBlock) (ib n k x p : ℕ) (written : Block) (v v1 v2 : Volume)
    (ready : IsReady sb ib (suc n) (suc (suc (suc k))) v) (done : IsAllocated sb v x (suc k) v1)
    (one : IsLogged v1 p written k v2) (used_p : used sb v p ≡ true)
    (no_map : (y : ℕ) → y < sb.size → bblock sb y ≢ p) where
  pub x-ne-p : x ≢ p
  x-ne-p e = cc (e, done.was_free, used_p)

  pub x-ne-zero : x ≢ 0
  x-ne-zero e = cc (e, done.was_free, ready.zero_used)

  used_after : (y : ℕ) → y < sb.size → used sb v2 y ≡ (x == y || used sb v y)
  used_after y h =
      ap (λ b. bit_used b (y % bpb))
        (one.shows (bblock sb y) ∙ update_ne (view v1) written (no_map y h))
      ∙ done.marked y h

  still : (y : ℕ) → y < sb.size → used sb v y ≡ true → used sb v2 y ≡ true
  still y h e = used_after y h ∙ cc (e, or_true (x == y))

  IsMapped-after : IsMapped sb v2
  IsMapped-after = record {
    whole = λ y h.
        ap length (one.shows (bblock sb y) ∙ update_ne (view v1) written (no_map y h))
        ∙ done.mapped.whole y h;
    within = ready.mapped.within;
    reserved = λ y h. still (bblock sb y) (ready.mapped.within y h) (ready.mapped.reserved y h);
  }

  free_after : HasFree sb v2 n
  free_after ys short =
      let (y, h, unset, fresh) = ready.free (x ∷ ys) (omega (arith, short)) in
      (y, h, used_after y h ∙ cc ((not_listed x y ys fresh).0, unset), (not_listed x y ys fresh).1)

  pub ready_after : IsReady sb ib n k v2
  ready_after = record {
    mapped = IsMapped-after;
    free = free_after;
    room = one.room;
    zero_used = still 0 ready.not_empty ready.zero_used;
    inode_used = still ib ready.inode_in ready.inode_used;
    inode_in = ready.inode_in;
    inode_no_map = ready.inode_no_map;
    not_empty = ready.not_empty;
  }

  shows_after : (q : ℕ) → IsNode sb ib v q → q ≢ p → view v2 q ≡ view v q
  shows_after q node ne =
      one.shows q
      ∙ update_ne (view v1) written ne
      ∙ done.others q (λ e. cc (e, done.was_free, node.in_use))
          (λ e. node.no_map x done.inside (sym e))

  pub Keeps-after : Keeps sb ib p v v2
  Keeps-after = record {
    nodes = λ q node ne. (
      record {
        within = node.within;
        in_use = still q node.within node.in_use;
        no_map = node.no_map;
        no_inode = node.no_inode;
        whole = ap length (shows_after q node ne) ∙ node.whole;
      },
      shows_after q node ne,
    );
    grows = still;
  }

  pub x-IsNode : IsNode sb ib v2 x
  x-IsNode = record {
    within = done.inside;
    in_use = used_after x done.inside ∙ cc (==_refl x);
    no_map = λ y h e. cc (e, done.was_free, ready.mapped.reserved y h);
    no_inode = λ e. cc (e, done.was_free, ready.inode_used);
    whole =
        ap length (one.shows x ∙ update_ne (view v1) written x-ne-p ∙ done.zeroed)
        ∙ length-replicate {A = ℕ} block_words 0;
  }

  pub p_after : p < sb.size → p ≢ ib → length written ≡ block_words → IsNode sb ib v2 p
  p_after within no_inode long = record {
    within = within;
    in_use = still p within used_p;
    no_map = no_map;
    no_inode = no_inode;
    whole = ap length (one.shows p ∙ update_self (view v1) p written) ∙ long;
  }

  pub x-zeros : view v2 x ≡ replicate block_words 0
  x-zeros = one.shows x ∙ update_ne (view v1) written x-ne-p ∙ done.zeroed

  pub IsTaken-after : (old : ℕ) → old ≡ 0 → IsTaken sb old v x v2
  IsTaken-after old e = record {
    nonzero = x-ne-zero;
    stays = λ ne. absurd (ne e);
    fresh = λ z. (done.inside, done.was_free);
    below = λ i. at_entry-zeros v v2 x old i x-ne-zero x-zeros e;
  }

-- The next node of a way: at an entry that is not 0, a node other than `p`.
abbrev pub LeadsOn : SuperBlock → ℕ → Volume → ℕ → ℕ → Type 0
LeadsOn sb ib v p a = a ≢ 0 → IsNode sb ib v a × (a ≢ p)

-- What `entry` does in block `p` when it may allocate.
pub record IsEntered (sb : SuperBlock) (ib n k p idx : ℕ) (v : Volume) (a : ℕ) (v' : Volume)
    : Type 0 where
  pub taken : IsTaken sb (get_or (view v p) idx 0) v a v'
  pub names : get_or (view v' p) idx 0 ≡ a
  pub ready : IsReady sb ib n k v'
  pub keeps : Keeps sb ib p v v'
  pub itself : IsNode sb ib v' p
  pub leads : LeadsOn sb ib v p (get_or (view v p) idx 0) → IsNode sb ib v' a × (a ≢ p)

weaken_free : (sb : SuperBlock) (v : Volume) (n : ℕ) → HasFree sb v (suc n) → HasFree sb v n
weaken_free sb v n h ys short = h ys (omega (arith, short))

pub weaken :
    (sb : SuperBlock) (ib n k : ℕ) (v : Volume)
    → IsReady sb ib (suc n) (suc (suc (suc k))) v
    → IsReady sb ib n k v
weaken sb ib n k v r = record {
  mapped = r.mapped;
  free = weaken_free sb v n r.free;
  room = record {
    running = r.room.running;
    below_limit = omega (arith, r.room.below_limit);
    below_size = omega (arith, r.room.below_size);
  };
  zero_used = r.zero_used;
  inode_used = r.inode_used;
  inode_in = r.inode_in;
  inode_no_map = r.inode_no_map;
  not_empty = r.not_empty;
}

-- With a free block, balloc returns one.
pub balloc_ready :
    (sb : SuperBlock) (ib n k : ℕ) (v : Volume)
    → IsReady sb ib (suc n) (suc (suc k)) v
    → (x : ℕ) × (v' : Volume) × (balloc sb v ≡ some (x, v')) × IsAllocated sb v x k v'
balloc_ready sb ib n k v r = elim (balloc_lem sb v k r.mapped r.room) [
  | inl (failed, full) ↦
      (let (y, h, unset, fresh) = r.free [] (omega arith) in
        absurd (ground (arith, full y h, unset)))
  | inr found ↦ found
]

module _ (sb : SuperBlock) (ib n k p idx : ℕ) (v : Volume)
    (r : IsReady sb ib (suc n) (suc (suc (suc k))) v) (node : IsNode sb ib v p)
    (inside : idx < block_words) where
  content : ℕ → Block
  content x = set (view v p) idx x

  module _ (x : ℕ) (v1 v2 : Volume) (done : IsAllocated sb v x (suc k) v1)
      (one : IsLogged v1 p (content x) k v2) where
    entered : get_or (view v p) idx 0 ≡ 0 → IsEntered sb ib n k p idx v x v2
    unfolding content
    entered e = record {
      taken =
          IsTaken-after sb ib n k x p (content x) v v1 v2 r done one node.in_use node.no_map
            (get_or (view v p) idx 0) e;
      names =
          ap (λ b. get_or b idx 0) (one.shows p ∙ update_self (view v1) p (content x))
          ∙ get_or-set_self (view v p) idx x 0 (omega (arith, inside, node.whole));
      ready = ready_after sb ib n k x p (content x) v v1 v2 r done one node.in_use node.no_map;
      keeps = Keeps-after sb ib n k x p (content x) v v1 v2 r done one node.in_use node.no_map;
      itself =
          p_after sb ib n k x p (content x) v v1 v2 r done one node.in_use node.no_map node.within
            node.no_inode (length-set (view v p) idx x ∙ node.whole);
      leads = λ f. (
        x-IsNode sb ib n k x p (content x) v v1 v2 r done one node.in_use node.no_map,
        x-ne-p sb ib n k x p (content x) v v1 v2 r done one node.in_use node.no_map,
      );
    }

  pub entry_lem :
      (a : ℕ) × (v' : Volume) × (entry sb p idx true v ≡ some (a, v'))
      × IsEntered sb ib n k p idx v a v'
  unfolding entry content
  entry_lem = elim (ℕ_discrete (get_or (view v p) idx 0) 0) [
    | yes e ↦
        let (x, v1, e1, done) = balloc_ready sb ib n (suc k) v r in
        let (v2, e2, one) = log_write_lem v1 p (content x) k done.room in
        (x, v2, ground (arith, e, e1, e2), entered x v1 v2 done one e)
    | no ne ↦ (
      get_or (view v p) idx 0,
      v,
      ground (arith, ne),
      record {
        taken = found_again sb (get_or (view v p) idx 0) v ne;
        names = refl;
        ready = weaken sb ib n k v r;
        keeps = record { nodes = λ q h nq. (h, refl); grows = λ y h e. e };
        itself = node;
        leads = λ f. f ne;
      },
    )
  ]
