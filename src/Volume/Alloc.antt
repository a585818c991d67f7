-- ===== src/Volume/Alloc.antt =====
-- fs.rs: balloc gives out a free block, and marks it and no other.
use native.Mathlib.Decide.{dec_lt}
use mathlib.Core.Path.{subst}
use web_os.Prelude.{
  ℕ, zero, suc, ◌+◌, ◌-◌, ◌*◌, ◌/◌, ◌%◌, ◌≤◌, ◌<◌, ◌≡◌, ◌≢◌, ◌⊎◌, inl, inr, refl, sym, ap, ◌∙◌,
  Option, none, some, Bool, true, false, ◌||◌, arith, length, length-set, replicate, update_self,
  update_ne, ◌==◌, if_intro, ==_sound, if◌then◌else◌,
}
use web_os.BlockStore.{Block}
use web_os.Volume.{
  Volume, view, SuperBlock, block_words, bpb, bblock, bzero, bit_used, mark, find_free, claim,
  balloc_from, balloc, used, IsMapped,
}
use web_os.Volume.Logged.{HasRoom, IsLogged, log_write_lem}
use web_os.Volume.Bits.{bit_used-mark}
use web_os.Volume.Search.{Found, find_free_lem}

-- Block `x` was free and is in use now, filled with zeros; the other bits and the other blocks are as
-- before, but for the block of the bit map; and `k` more blocks may be logged.
pub record IsAllocated (sb : SuperBlock) (v : Volume) (x k : ℕ) (v' : Volume) : Type 0 where
  pub inside : x < sb.size
  pub was_free : used sb v x ≡ false
  pub marked : (y : ℕ) → y < sb.size → used sb v' y ≡ (x == y || used sb v y)
  pub zeroed : view v' x ≡ replicate block_words 0
  pub others : (c : ℕ) → c ≢ x → c ≢ bblock sb x → view v' c ≡ view v c
  pub mapped : IsMapped sb v'
  pub room : HasRoom v' k

or_true : (b : Bool) → (b || true) ≡ true
or_true b = ground arith

length-mark : (block : Block) (i : ℕ) → length (mark block i) ≡ length block
length-mark block i = length-set block (i / 8 / 4) _

module _ (sb : SuperBlock) (v : Volume) (x : ℕ) (mapped : IsMapped sb v) (inside : x < sb.size)
    (free : used sb v x ≡ false) where
  -- A free block is no block of the bit map.
  apart : (y : ℕ) → y < sb.size → bblock sb y ≢ x
  apart y h e = cc (mapped.reserved y h, free, e)

  module _ (v1 v2 : Volume) (k : ℕ)
      (one : IsLogged v (bblock sb x) (mark (view v (bblock sb x)) (x % bpb)) (suc k) v1)
      (two : IsLogged v1 x (replicate block_words 0) k v2) where
    same_bit : (y : ℕ) → (bblock sb y == bblock sb x) ≡ true → (x % bpb == y % bpb) ≡ (x == y)
    same_bit y e = ground (arith, e)

    other_bit : (y : ℕ) → (bblock sb y == bblock sb x) ≡ false → (x == y) ≡ false
    other_bit y e = ground (arith, e)

    map_block :
        (y : ℕ)
        → y < sb.size
        → view v2 (bblock sb y) ≡ (
            if bblock sb y == bblock sb x
            then mark (view v (bblock sb x)) (x % bpb)
            else view v (bblock sb y))
    map_block y h =
        two.shows (bblock sb y)
        ∙ update_ne (view v1) (replicate block_words 0) (apart y h)
        ∙ one.shows (bblock sb y)

    marked : (y : ℕ) → y < sb.size → used sb v2 y ≡ (x == y || used sb v y)
    marked y h =
        ap (λ b. bit_used b (y % bpb)) (map_block y h)
        ∙ if_intro (λ b. bit_used b (y % bpb) ≡ (x == y || used sb v y))
            (bblock sb y == bblock sb x) _ _
            (λ e.
              bit_used-mark (view v (bblock sb x)) (x % bpb) (y % bpb) (mapped.whole x inside)
                (omega arith)
              ∙ cc (same_bit y e, ap (λ c. bit_used (view v c) (y % bpb)) (==_sound _ _ e)))
            (λ e. cc (other_bit y e))

    whole : (y : ℕ) → y < sb.size → length (view v2 (bblock sb y)) ≡ block_words
    whole y h =
        ap length (map_block y h)
        ∙ if_intro (λ b. length b ≡ block_words) (bblock sb y == bblock sb x) _ _
            (λ e. length-mark (view v (bblock sb x)) (x % bpb) ∙ mapped.whole x inside)
            (λ e. mapped.whole y h)

    allocated : IsAllocated sb v x k v2
    allocated = record {
      inside = inside;
      was_free = free;
      marked = marked;
      zeroed = two.shows x ∙ update_self (view v1) x (replicate block_words 0);
      others =
          λ c ne nb. two.shows c ∙ update_ne (view v1) _ ne ∙ one.shows c ∙ update_ne (view v) _ nb;
      mapped = record {
        whole = whole;
        within = mapped.within;
        reserved = λ y h.
            marked (bblock sb y) (mapped.within y h)
            ∙ cc (mapped.reserved y h, or_true (x == bblock sb y));
      };
      room = two.room;
    }

  pub claim_lem :
      (k : ℕ)
      → HasRoom v (suc (suc k))
      → (b bi : ℕ) → b + bi ≡ x
      → bblock sb b ≡ bblock sb x
      → bi ≡ x % bpb
      → (v' : Volume) × (claim sb v b bi ≡ some (x, v')) × IsAllocated sb v x k v'
  unfolding claim bzero
  claim_lem k room b bi at same bit =
      let (v1, e1, one) =
        log_write_lem v (bblock sb x) (mark (view v (bblock sb x)) (x % bpb)) (suc k) room in
      let (v2, e2, two) = log_write_lem v1 x (replicate block_words 0) k one.room in
      (v2, ground (arith, e1, e2, at, same, bit), allocated v1 v2 k one two)

-- What the search of the whole bit map comes to, from block `b` on.
abbrev pub Outcome : SuperBlock → Volume → ℕ → ℕ → Option (ℕ × Volume) → Type 0
Outcome sb v k b none = (x : ℕ) → b ≤ x → x < sb.size → used sb v x ≡ true
Outcome sb v k b (some (x, v')) = IsAllocated sb v x k v'

module _ (sb : SuperBlock) (v : Volume) (k q : ℕ) (mapped : IsMapped sb v)
    (room : HasRoom v (suc (suc k))) where
  found_here :
      (bi : ℕ)
      → bi < bpb
      → q * bpb + bi < sb.size
      → bit_used (view v (bblock sb (q * bpb))) bi ≡ false
      → Outcome sb v k (q * bpb) (claim sb v (q * bpb) bi)
  found_here bi hi inside free =
      let bit : bi ≡ (q * bpb + bi) % bpb = omega (arith, hi) in
      let same : bblock sb (q * bpb) ≡ bblock sb (q * bpb + bi) = omega (arith, hi) in
      let free' : used sb v (q * bpb + bi) ≡ false = cc (free, bit, same) in
      let (v', e, done) =
        claim_lem sb v (q * bpb + bi) mapped inside free' k room (q * bpb) bi refl same bit in
      subst (Outcome sb v k (q * bpb)) (sym e) done

  full_here :
      (o : Option (ℕ × Volume))
      → ((j : ℕ)
          → 0 ≤ j
          → j < bpb
          → q * bpb + j < sb.size
          → bit_used (view v (bblock sb (q * bpb))) j ≡ true)
      → Outcome sb v k (q * bpb + bpb) o
      → Outcome sb v k (q * bpb) o
  full_here none full rest = λ x lo hi. elim (dec_lt x (q * bpb + bpb)) [
    | yes near ↦
        let bit : x - q * bpb ≡ x % bpb = omega (arith, lo, near) in
        let same : bblock sb (q * bpb) ≡ bblock sb x = omega (arith, lo, near) in
        cc (
          full (x - q * bpb) (omega arith) (omega (arith, lo, near)) (omega (arith, lo, hi)),
          bit,
          same,
        )
    | no far ↦ rest x (omega (arith, far)) hi
  ]
  full_here (some (x, v')) full rest = rest

step_on : (q : ℕ) → suc q * bpb ≡ q * bpb + bpb
step_on q = omega arith

balloc_from_lem :
    (sb : SuperBlock) (v : Volume) (k : ℕ)
    → IsMapped sb v
    → HasRoom v (suc (suc k))
    → (rounds q : ℕ) → sb.size ≤ (q + rounds) * bpb
    → Outcome sb v k (q * bpb) (balloc_from rounds (q * bpb) sb v)
unfolding balloc_from
balloc_from_lem sb v k mapped room zero q enough = λ x lo hi. absurd (omega (arith, enough, lo, hi))
balloc_from_lem sb v k mapped room (suc rounds) q enough =
    elim (find_free bpb 0 (view v (bblock sb (q * bpb))) (q * bpb) sb.size)
        as (λ o.
          Found 0 bpb (view v (bblock sb (q * bpb))) (q * bpb) sb.size o
          → Outcome sb v k (q * bpb) (elim o [
            | none ↦ balloc_from rounds (q * bpb + bpb) sb v
            | some bi ↦ claim sb v (q * bpb) bi
          ])) [
            | none ↦ λ full.
                full_here sb v k q mapped room (balloc_from rounds (q * bpb + bpb) sb v) full (
                  subst (λ b. Outcome sb v k b (balloc_from rounds b sb v)) (step_on q)
                    (balloc_from_lem sb v k mapped room rounds (suc q) (omega (arith, enough))))
            | some bi ↦ λ (hi, inside, free). found_here sb v k q mapped room bi hi inside free
          ]
      (find_free_lem (view v (bblock sb (q * bpb))) (q * bpb) sb.size bpb 0 bpb refl)

-- With a bit map that is there and room for two logged blocks, balloc finds a free block whenever
-- there is one, and panics only if every block of the volume is in use. The block was free, is marked
-- as used and filled with zeros; every other bit and every other block but that of its bit is as before.
pub balloc_lem :
    (sb : SuperBlock) (v : Volume) (k : ℕ)
    → IsMapped sb v
    → HasRoom v (suc (suc k))
    → ((balloc sb v ≡ none) × ((x : ℕ) → x < sb.size → used sb v x ≡ true))
      ⊎ ((x : ℕ) × (v' : Volume) × (balloc sb v ≡ some (x, v')) × IsAllocated sb v x k v')
unfolding balloc
balloc_lem sb v k mapped room =
    split (balloc sb v) refl
      (balloc_from_lem sb v k mapped room ((sb.size + bpb - 1) / bpb) 0 (omega arith))
  where
    split :
        (o : Option (ℕ × Volume))
        → balloc sb v ≡ o
        → Outcome sb v k 0 o
        → ((balloc sb v ≡ none) × ((x : ℕ) → x < sb.size → used sb v x ≡ true))
          ⊎ ((x : ℕ) × (v' : Volume) × (balloc sb v ≡ some (x, v')) × IsAllocated sb v x k v')
    split none e full = inl (e, λ x. full x (omega arith))
    split (some (x, v')) e done = inr (x, v', e, done)
