-- ===== src/Volume/Free.antt =====
-- fs.rs: bfree takes a block out of the bit map, and undoes balloc.
use mathlib.Core.Path.{subst}
use web_os.Prelude.{
  ℕ, suc, ◌%◌, ◌<◌, ◌≡◌, ◌≢◌, refl, sym, ap, ◌∙◌, none, some, Bool, true, false, not, ◌||◌, ◌&&◌,
  arith, update_ne, ◌==◌, if_intro, ==_sound, ==_refl, inl, inr,
}
use web_os.Volume.{
  Volume, view, SuperBlock, bpb, bblock, bit_used, unmark, bfree, balloc, used, IsMapped,
}
use web_os.Volume.Logged.{HasRoom, IsLogged, log_write_lem}
use web_os.Volume.Bits.{bit_used-unmark}
use web_os.Volume.Alloc.{IsAllocated, balloc_lem}

module _ (sb : SuperBlock) (v v' : Volume) (x k : ℕ) (mapped : IsMapped sb v) (inside : x < sb.size)
    (one : IsLogged v (bblock sb x) (unmark (view v (bblock sb x)) (x % bpb)) k v') where
  same_bit : (y : ℕ) → (bblock sb y == bblock sb x) ≡ true → (x % bpb == y % bpb) ≡ (x == y)
  same_bit y e = ground (arith, e)

  other_bit : (y : ℕ) → (bblock sb y == bblock sb x) ≡ false → (x == y) ≡ false
  other_bit y e = ground (arith, e)

  unmarked : (y : ℕ) → used sb v' y ≡ (not (x == y) && used sb v y)
  unmarked y =
      ap (λ b. bit_used b (y % bpb)) (one.shows (bblock sb y))
      ∙ if_intro (λ b. bit_used b (y % bpb) ≡ (not (x == y) && used sb v y))
          (bblock sb y == bblock sb x) _ _
          (λ e.
            bit_used-unmark (view v (bblock sb x)) (x % bpb) (y % bpb) (mapped.whole x inside)
              (omega arith)
            ∙ cc (same_bit y e, ap (λ c. bit_used (view v c) (y % bpb)) (==_sound _ _ e)))
          (λ e. cc (other_bit y e))

  others : (c : ℕ) → c ≢ bblock sb x → view v' c ≡ view v c
  others c ne = one.shows c ∙ update_ne (view v) _ ne

-- `v'` is `v` without block `x` in use.
pub record IsFreed (sb : SuperBlock) (v : Volume) (x : ℕ) (v' : Volume) : Type 0 where
  pub cleared : (y : ℕ) → used sb v' y ≡ (not (x == y) && used sb v y)
  pub others_kept : (c : ℕ) → c ≢ bblock sb x → view v' c ≡ view v c

pub bfree-used :
    (sb : SuperBlock) (v : Volume) (x k : ℕ)
    → IsMapped sb v
    → HasRoom v (suc k)
    → x < sb.size
    → used sb v x ≡ true
    → (v' : Volume) × (bfree sb v x ≡ some v') × IsFreed sb v x v'
unfolding bfree
bfree-used sb v x k mapped room inside taken =
    let (v', e, one) =
      log_write_lem v (bblock sb x) (unmark (view v (bblock sb x)) (x % bpb)) k room in
    (
      v',
      rw taken e,
      record {
        cleared = unmarked sb v v' x k mapped inside one;
        others_kept = others sb v v' x k mapped inside one;
      },
    )

pub bfree_free : (sb : SuperBlock) (v : Volume) (x : ℕ) → used sb v x ≡ false → bfree sb v x ≡ none
unfolding bfree
bfree_free sb v x e = rw e

allocated_by :
    (sb : SuperBlock) (v v' : Volume) (x k : ℕ)
    → IsMapped sb v
    → HasRoom v (suc (suc k))
    → balloc sb v ≡ some (x, v')
    → IsAllocated sb v x k v'
allocated_by sb v v' x k mapped room e = elim (balloc_lem sb v k mapped room) [
  | inl (failed, full) ↦ absurd (ground (arith, e, failed))
  | inr (y, w, found, done) ↦
      subst (λ (r : ℕ × Volume). IsAllocated sb v (r.0) k (r.1))
        (some_inj (y, w) (x, v') (sym found ∙ e)) done
]
  where
    some_inj : (p q : ℕ × Volume) → some p ≡ some q → p ≡ q
    some_inj p q h = cc

-- A block that balloc gave out can be freed; then the bit map is as it was before, and freeing the
-- block a second time is a panic.
pub bfree-balloc :
    (sb : SuperBlock) (v v' : Volume) (x : ℕ)
    → IsMapped sb v
    → HasRoom v 3
    → balloc sb v ≡ some (x, v')
    → (v'' : Volume) × (bfree sb v' x ≡ some v'')
      × ((y : ℕ) → y < sb.size → used sb v'' y ≡ used sb v y)
      × (bfree sb v'' x ≡ none)
bfree-balloc sb v v' x mapped room e =
    let done = allocated_by sb v v' x 1 mapped room e in
    let taken : used sb v' x ≡ true = done.marked x done.inside ∙ cc (==_refl x) in
    let (v'', f, freed) = bfree-used sb v' x 0 done.mapped done.room done.inside taken in
    (
      v'',
      f,
      (λ y h.
          freed.cleared y
          ∙ cc (done.marked y h)
          ∙ back (x == y) (used sb v y)
              (λ same. ap (used sb v) (sym (==_sound x y same)) ∙ done.was_free)),
      bfree_free sb v'' x (freed.cleared x ∙ cc (==_refl x)),
    )
  where
    back : (same was : Bool) → (same ≡ true → was ≡ false) → (not same && (same || was)) ≡ was
    back true was h = sym (h refl)
    back false was h = refl
