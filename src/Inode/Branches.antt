-- ===== src/Inode/Branches.antt =====
-- fs.rs: the three branches of `bmap`.
use mathlib.Core.Path.{subst}
use native.Mathlib.Decide.{ℕ_discrete}
use web_os.Prelude.{
  ℕ, ◌+◌, ◌/◌, ◌%◌, ◌<◌, ◌≡◌, ◌≢◌, inl, inr, refl, sym, ap, ◌∙◌, Option, some, Bool, true, false,
  arith, length, get_or, Bool-cases,
}
use web_os.Errors.{Result, ok}
use web_os.Volume.{Volume, view, SuperBlock, iblock, used}
use web_os.Inode.{IData, ndirect, nindirect, ndindirect, root, entry, direct, indirect, double}
use web_os.Inode.Layout.{at_entry, at_entry_zero, at_entry_there, zeros-get_or}
use web_os.Inode.Nodes.{IsNode, IsReady, LeadsOn, Keeps, entry_lem}
use web_os.Inode.Roots.{IsRooted, root_lem}

-- The blocks that the inode and its indirect blocks name are nodes.
pub record IsWay (sb : SuperBlock) (ip : IData) (v : Volume) : Type 0 where
  pub slots : length ip.addrs ≡ ndirect + 2
  pub single :
      get_or ip.addrs ndirect 0 ≢ 0 → IsNode sb (iblock sb ip.inum) v (get_or ip.addrs ndirect 0)
  pub top :
      get_or ip.addrs (ndirect + 1) 0 ≢ 0
      → IsNode sb (iblock sb ip.inum) v (get_or ip.addrs (ndirect + 1) 0)
  pub leaves :
      (i : ℕ)
      → get_or ip.addrs (ndirect + 1) 0 ≢ 0
      → LeadsOn sb
          (iblock sb ip.inum)
          v
          (get_or ip.addrs (ndirect + 1) 0)
          (get_or (view v (get_or ip.addrs (ndirect + 1) 0)) i 0)

-- A call that may allocate returned `addr`, and one that may not returns it again; `place`, where the
-- block stands, has `addr` after the call, and had it before or had none, and then `addr` was free.
pub record IsMappedTo (sb : SuperBlock) (place : IData → Volume → ℕ) (ip : IData) (v : Volume)
    (call : Bool → IData → Volume → Option (Result ℕ × IData × Volume)) : Type 0 where
  pub addr : ℕ
  pub ip' : IData
  pub v' : Volume
  pub nonzero : addr ≢ 0
  pub maps : call true ip v ≡ some (ok addr, ip', v')
  pub again : call false ip' v' ≡ some (ok addr, ip', v')
  pub placed : place ip' v' ≡ addr
  pub old : place ip v ≢ 0 → place ip v ≡ addr
  pub fresh : place ip v ≡ 0 → (addr < sb.size) × (used sb v addr ≡ false)

-- The branches, once their parts are known.
module _ (sb : SuperBlock) (ip ip' : IData) (alloc : Bool) (v v1 : Volume) where
  direct_parts :
      (bn a : ℕ)
      → root sb ip bn alloc v ≡ some (a, ip', v1)
      → direct sb ip bn alloc v ≡ some (ok a, ip', v1)
  unfolding direct
  direct_parts bn a e = rw e refl

  indirect_parts :
      (bn p a : ℕ) (v2 : Volume)
      → root sb ip ndirect alloc v ≡ some (p, ip', v1)
      → entry sb p bn alloc v1 ≡ some (a, v2)
      → indirect sb ip bn alloc v ≡ some (ok a, ip', v2)
  unfolding indirect
  indirect_parts bn p a v2 e1 e2 = rw e1 (rw e2 refl)

  double_parts :
      (bn p q a : ℕ) (v2 v3 : Volume)
      → root sb ip (ndirect + 1) alloc v ≡ some (p, ip', v1)
      → entry sb p (bn / nindirect) alloc v1 ≡ some (q, v2)
      → entry sb q (bn % nindirect) alloc v2 ≡ some (a, v3)
      → double sb ip bn alloc v ≡ some (ok a, ip', v3)
  unfolding double
  double_parts bn p q a v2 v3 e1 e2 e3 = rw e1 (rw e2 (rw e3 refl))

root_again :
    (sb : SuperBlock) (ip : IData) (slot p : ℕ) (v : Volume)
    → get_or ip.addrs slot 0 ≡ p
    → root sb ip slot false v ≡ some (p, ip, v)
unfolding root
root_again sb ip slot p v e = ground (arith, e)

entry_again :
    (sb : SuperBlock) (node idx a : ℕ) (v : Volume)
    → get_or (view v node) idx 0 ≡ a
    → entry sb node idx false v ≡ some (a, v)
unfolding entry
entry_again sb node idx a v e = ground (arith, e)

-- A block that is free later was free before.
free_before :
    (sb : SuperBlock) (ib p y : ℕ) (v v' : Volume)
    → Keeps sb ib p v v'
    → (y < sb.size) × (used sb v' y ≡ false)
    → (y < sb.size) × (used sb v y ≡ false)
free_before sb ib p y v v' keeps (within, unset) = elim (Bool-cases (used sb v y)) [
  | inl e ↦ absurd (ground (arith, keeps.grows y within e, unset))
  | inr e ↦ (within, e)
]

module _ (sb : SuperBlock) (ip : IData) (v : Volume) (ready : IsReady sb (iblock sb ip.inum) 3 9 v)
    (way : IsWay sb ip v) where
  abbrev ib : ℕ
  ib = iblock sb ip.inum

  pub direct_lem :
      (bn : ℕ)
      → bn < ndirect
      → IsMappedTo sb (λ i w. get_or i.addrs bn 0) ip v (λ alloc i w. direct sb i bn alloc w)
  direct_lem bn h =
      let (a, ip', v', e, rooted) =
        root_lem sb ib 2 6 bn ip v ready refl (omega (arith, h, way.slots)) in
      record {
        addr = a;
        ip' = ip';
        v' = v';
        nonzero = rooted.taken.nonzero;
        placed = rooted.names;
        old = rooted.taken.stays;
        fresh = rooted.taken.fresh;
        maps = direct_parts sb ip ip' true v v' bn a e;
        again = direct_parts sb ip' ip' false v' v' bn a (root_again sb ip' bn a v' rooted.names);
      }

  -- The entries of an indirect block are, once the inode names it, what they were.
  same :
      {slot : ℕ} (i p : ℕ) (ip' : IData) (v1 : Volume)
      → IsRooted sb ib 2 6 slot ip v p ip' v1
      → get_or (view v1 p) i 0 ≡ at_entry v (get_or ip.addrs slot 0) i
  same i p ip' v1 rooted = sym (at_entry_there v1 p i rooted.taken.nonzero) ∙ rooted.taken.below i

  pub indirect_lem :
      (bn : ℕ)
      → bn < nindirect
      → IsMappedTo sb
          (λ i w. at_entry w (get_or i.addrs ndirect 0) bn)
          ip
          v
          (λ alloc i w. indirect sb i bn alloc w)
  indirect_lem bn h =
      let (p, ip', v1, e1, rooted) =
        root_lem sb ib 2 6 ndirect ip v ready refl (omega (arith, way.slots)) in
      let (a, v2, e2, entered) =
        entry_lem sb ib 1 3 p bn v1 rooted.ready (rooted.leads way.single) h in
      record {
        addr = a;
        ip' = ip';
        v' = v2;
        nonzero = entered.taken.nonzero;
        placed =
            ap (λ o. at_entry v2 o bn) rooted.names
            ∙ at_entry_there v2 p bn rooted.taken.nonzero
            ∙ entered.names;
        old = λ ne.
            sym (same bn p ip' v1 rooted)
            ∙ entered.taken.stays (λ z. ne (sym (same bn p ip' v1 rooted) ∙ z));
        fresh = λ z.
            free_before sb ib ib a v v1 rooted.keeps
              (entered.taken.fresh (same bn p ip' v1 rooted ∙ z));
        maps = indirect_parts sb ip ip' true v v1 bn p a v2 e1 e2;
        again =
            indirect_parts sb ip' ip' false v2 v2 bn p a v2
              (root_again sb ip' ndirect p v2 rooted.names)
              (entry_again sb p bn a v2 entered.names);
      }

  way_top : (p : ℕ) → get_or ip.addrs (ndirect + 1) 0 ≡ p → p ≢ 0 → IsNode sb ib v p
  way_top p e ne = subst (IsNode sb ib v) e (way.top (λ z. ne (sym e ∙ z)))

  way_leaf :
      (i p : ℕ)
      → get_or ip.addrs (ndirect + 1) 0 ≡ p
      → p ≢ 0
      → LeadsOn sb ib v p (get_or (view v p) i 0)
  way_leaf i p e ne =
      subst (λ q. LeadsOn sb ib v q (get_or (view v q) i 0)) e (way.leaves i (λ z. ne (sym e ∙ z)))

  -- After the top block is there, its entries lead on: it is the old one, or full of zeros.
  leads_on :
      (i p : ℕ) (ip' : IData) (v1 : Volume)
      → IsRooted sb ib 2 6 (ndirect + 1) ip v p ip' v1
      → LeadsOn sb ib v1 p (get_or (view v1 p) i 0)
  leads_on i p ip' v1 rooted ne = elim rooted.old_or_new [
    | inl old ↦
        let (node, shown) =
          rooted.keeps.nodes p (way_top p old rooted.taken.nonzero)
            (way_top p old rooted.taken.nonzero).no_inode in
        let same : get_or (view v p) i 0 ≡ get_or (view v1 p) i 0 =
          ap (λ b. get_or b i 0) (sym shown) in
        let (leaf, apart) = way_leaf i p old rooted.taken.nonzero (λ e. ne (sym same ∙ e)) in
        (
          subst (IsNode sb ib v1) same
              (rooted.keeps.nodes (get_or (view v p) i 0) leaf leaf.no_inode).0,
          subst (λ q. q ≢ p) same apart,
        )
    | inr zeros ↦ absurd (ne (zeros-get_or v1 p i zeros))
  ]

  -- A leaf that the top block named has the entries it had.
  same_leaf :
      (i j p : ℕ) (ip' : IData) (v1 : Volume)
      → IsRooted sb ib 2 6 (ndirect + 1) ip v p ip' v1
      → at_entry v1 (at_entry v (get_or ip.addrs (ndirect + 1) 0) i) j
        ≡ at_entry v (at_entry v (get_or ip.addrs (ndirect + 1) 0) i) j
  same_leaf i j p ip' v1 rooted =
      elim (ℕ_discrete (at_entry v (get_or ip.addrs (ndirect + 1) 0) i) 0) [
        | yes z ↦
            ap (λ o. at_entry v1 o j) z
            ∙ at_entry_zero v1 j
            ∙ sym (ap (λ o. at_entry v o j) z ∙ at_entry_zero v j)
        | no ne ↦ elim (ℕ_discrete (get_or ip.addrs (ndirect + 1) 0) 0) [
          | yes z ↦ absurd (ne (ap (λ o. at_entry v o i) z ∙ at_entry_zero v i))
          | no there ↦
              let e : at_entry v (get_or ip.addrs (ndirect + 1) 0) i
                  ≡ get_or (view v (get_or ip.addrs (ndirect + 1) 0)) i 0 =
                at_entry_there v (get_or ip.addrs (ndirect + 1) 0) i there in
              let leaf : IsNode sb ib v (at_entry v (get_or ip.addrs (ndirect + 1) 0) i) =
                subst (IsNode sb ib v) (sym e) (way.leaves i there (λ z. ne (e ∙ z))).0 in
              at_entry_there v1 _ j ne
              ∙ ap (λ b. get_or b j 0) (rooted.keeps.nodes _ leaf leaf.no_inode).1
              ∙ sym (at_entry_there v _ j ne)
        ]
      ]

  pub double_lem :
      (bn : ℕ)
      → bn < ndindirect
      → IsMappedTo sb
          (λ i w.
            at_entry w
              (at_entry w (get_or i.addrs (ndirect + 1) 0) (bn / nindirect))
              (bn % nindirect))
          ip
          v
          (λ alloc i w. double sb i bn alloc w)
  double_lem bn h =
      let (p, ip', v1, e1, rooted) =
        root_lem sb ib 2 6 (ndirect + 1) ip v ready refl (omega (arith, way.slots)) in
      let (q, v2, e2, upper) =
        entry_lem sb ib 1 3 p (bn / nindirect) v1 rooted.ready (rooted.leads way.top)
          (omega (arith, h)) in
      let (leaf, apart) = upper.leads (leads_on (bn / nindirect) p ip' v1 rooted) in
      let (a, v3, e3, lower) =
        entry_lem sb ib 0 0 q (bn % nindirect) v2 upper.ready leaf (omega arith) in
      let kept : view v3 p ≡ view v2 p =
        (lower.keeps.nodes p upper.itself (λ e. apart (sym e))).1 in
      let was : get_or (view v2 q) (bn % nindirect) 0
          ≡ at_entry v (at_entry v (get_or ip.addrs (ndirect + 1) 0) (bn / nindirect))
              (bn % nindirect) =
        sym (at_entry_there v2 q (bn % nindirect) upper.taken.nonzero)
        ∙ upper.taken.below (bn % nindirect)
        ∙ ap (λ o. at_entry v1 o (bn % nindirect)) (same (bn / nindirect) p ip' v1 rooted)
        ∙ same_leaf (bn / nindirect) (bn % nindirect) p ip' v1 rooted in
      record {
        addr = a;
        ip' = ip';
        v' = v3;
        nonzero = lower.taken.nonzero;
        placed =
            ap (λ o. at_entry v3 (at_entry v3 o (bn / nindirect)) (bn % nindirect)) rooted.names
            ∙ ap (λ o. at_entry v3 o (bn % nindirect))
                (at_entry_there v3 p (bn / nindirect) rooted.taken.nonzero
                  ∙ ap (λ b. get_or b (bn / nindirect) 0) kept
                  ∙ upper.names)
            ∙ at_entry_there v3 q (bn % nindirect) upper.taken.nonzero
            ∙ lower.names;
        old = λ ne. sym was ∙ lower.taken.stays (λ z. ne (sym was ∙ z));
        fresh = λ z.
            free_before sb ib ib a v v1 rooted.keeps
              (free_before sb ib p a v1 v2 upper.keeps (lower.taken.fresh (was ∙ z)));
        maps = double_parts sb ip ip' true v v1 bn p q a v2 v3 e1 e2 e3;
        again =
            double_parts sb ip' ip' false v3 v3 bn p q a v3 v3
              (root_again sb ip' (ndirect + 1) p v3 rooted.names)
              (entry_again sb p (bn / nindirect) q v3
                (ap (λ b. get_or b (bn / nindirect) 0) kept ∙ upper.names))
              (entry_again sb q (bn % nindirect) a v3 lower.names);
      }
