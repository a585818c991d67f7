-- ===== src/PageTable/Walkaddr.antt =====
-- vm.rs: `walkaddr`, and what it finds after `mappages`.
use Prim.Native.Nat.{bit_or}
use web_os.Prelude.{
  ℕ, zero, suc, ◌+◌, ◌-◌, ◌*◌, ◌/◌, ◌%◌, ◌^◌, ◌≤◌, ◌<◌, ◌≡◌, ◌≢◌, ◌∙◌, ap, refl, sym, Option, none,
  some, Bool, true, false, arith, length, leb, ◌⊎◌, inl, inr,
}
use web_os.Errors.{ok, err, out_of_memory}
use web_os.PageTable.{
  Memory, is_v, is_u, has_bit, pte_u, to_pa, px, entry, walk, walk_from, walkaddr, user_pa,
  mappages, maxva, pte_v, rounddown,
}
use web_os.PageTable.Words.{entry_lem, bit_or_one, to_pa-entry, is_v-entry}
use web_os.PageTable.Tree.{Owner, slot, at_slot, lookup, slot_here, slot_valid, slot_invalid}
use web_os.PageTable.Rounds.{descend_valid, descend_missing, walk_from_next, walk_from_stop}
use web_os.PageTable.Mapping.{HasRoot, walk_inside}
use web_os.PageTable.Ranges.{Among, Outside, Unmapped, Covered, RangeMapped}
use web_os.PageTable.Mappages.{more_pages, mappages-RangeMapped}

-- A walk that does not allocate changes nothing.
walk_from_pure :
    (level table va : ℕ) (m : Memory)
    → walk_from level table va false m ≡ (slot level table va m, m)
unfolding walk_from
walk_from_pure zero table va m = ap (λ s. (s, m)) (sym (slot_here m table va))
walk_from_pure (suc level) table va m =
    split (is_v pte) refl (walk_from_pure level (to_pa pte) va m)
  where
    pte : ℕ
    pte = m.entries table (px va (suc level))

    split :
        (b : Bool)
        → is_v pte ≡ b
        → walk_from level (to_pa pte) va false m ≡ (slot level (to_pa pte) va m, m)
        → walk_from (suc level) table va false m ≡ (slot (suc level) table va m, m)
    split true e next =
        walk_from_next m m level table va (to_pa pte) false
          (descend_valid m (suc level) table va false e)
        ∙ (next ∙ ap (λ s. (s, m)) (sym (slot_valid m level table va e)))
    split false e next =
        walk_from_stop m m level table va false (descend_missing m (suc level) table va e)
        ∙ (ap (λ s. (s, m)) (sym (slot_invalid m level table va e)))

pub walk_pure :
    (root va : ℕ) (m : Memory) → va < maxva → walk root va false m ≡ some (slot 2 root va m, m)
walk_pure root va m h = walk_inside root va false m h ∙ ap some (walk_from_pure 2 root va m)

-- What walkaddr says of an address is what its entry says.
walkaddr_slot :
    (root va : ℕ) (m : Memory) (s : Option (ℕ × ℕ))
    → va < maxva
    → walk root va false m ≡ some (s, m)
    → walkaddr root va m ≡ some (user_pa (at_slot s m))
unfolding walkaddr user_pa
walkaddr_slot root va m none h e = rw (walkaddr, below, e) refl
  where
    below : leb maxva va ≡ false
    below = ground (arith, h)
walkaddr_slot root va m (some (t, i)) h e = rw (walkaddr, below, e) refl
  where
    below : leb maxva va ≡ false
    below = ground (arith, h)

pub walkaddr-lookup :
    (root va : ℕ) (m : Memory)
    → va < maxva
    → walkaddr root va m ≡ some (user_pa (lookup 2 root va m))
walkaddr-lookup root va m h = walkaddr_slot root va m (slot 2 root va m) h (walk_pure root va m h)

-- An entry for user pages.
user_pa-entry :
    (pa perm : ℕ)
    → pa % 4096 ≡ 0
    → perm < 1024
    → has_bit perm pte_u ≡ true
    → user_pa (entry pa (bit_or perm (2 ^ pte_v))) ≡ ok pa
unfolding user_pa
user_pa-entry pa perm aligned small user =
    rw (valid, for_user) (ap ok (to_pa-entry pa (bit_or perm 1) fits aligned))
  where
    fits : bit_or perm 1 < 1024
    fits = omega (arith, bit_or_one perm, small)

    valid : is_v (entry pa (bit_or perm (2 ^ pte_v))) ≡ true
    valid = is_v-entry pa (bit_or perm 1) fits (omega (arith, bit_or_one perm))

    for_user : is_u (entry pa (bit_or perm (2 ^ pte_v))) ≡ true
    for_user = ground (arith, entry_lem pa (bit_or perm 1) fits, bit_or_one perm, user)

pub walkaddr-mappages :
    (root va pa size perm : ℕ) (owner : Owner) (m : Memory)
    → HasRoot root owner m
    → size ≢ 0
    → va + size ≤ maxva
    → pa % 4096 ≡ 0
    → perm < 1024
    → has_bit perm pte_u ≡ true
    → Unmapped root m (rounddown va) (more_pages va size)
    → 2 * (more_pages va size + 1) ≤ length m.free
    → (m' : Memory) × (mappages root va pa size perm m ≡ some (ok tt, m'))
      × ((a : ℕ)
          → Among (rounddown va) (more_pages va size) a
          → walkaddr root a m' ≡ some (ok (pa + (a - rounddown va) / 4096 * 4096)))
      × ((a : ℕ)
          → a < maxva
          → Outside (rounddown va) (more_pages va size) a
          → walkaddr root a m' ≡ walkaddr root a m)
walkaddr-mappages root va pa size perm owner m h some_bytes inside aligned small user unmapped
      enough =
    finish r.result
  where
    r :
        RangeMapped root
          (rounddown va)
          (more_pages va size)
          pa
          perm
          m
          (mappages root va pa size perm m)
    r = mappages-RangeMapped root va pa size perm owner m h some_bytes inside unmapped

    below : (a : ℕ) → Among (rounddown va) (more_pages va size) a → a < maxva
    below a among = omega (arith, among, inside, some_bytes)

    page : (a : ℕ) → (pa + (a - rounddown va) / 4096 * 4096) % 4096 ≡ 0
    page a = omega (arith, aligned)

    finish :
        ((mappages root va pa size perm m ≡ some (ok tt, r.m'))
            × Covered root (rounddown va) (more_pages va size) pa perm r.m')
          ⊎ ((mappages root va pa size perm m ≡ some (err out_of_memory, r.m'))
              × (length m.free < 2 * (more_pages va size + 1)))
        → (m' : Memory) × (mappages root va pa size perm m ≡ some (ok tt, m'))
          × ((a : ℕ)
              → Among (rounddown va) (more_pages va size) a
              → walkaddr root a m' ≡ some (ok (pa + (a - rounddown va) / 4096 * 4096)))
          × ((a : ℕ)
              → a < maxva
              → Outside (rounddown va) (more_pages va size) a
              → walkaddr root a m' ≡ walkaddr root a m)
    finish (inl (ends, covered)) = (
      r.m',
      ends,
      (λ a among.
          walkaddr-lookup root a r.m' (below a among)
          ∙ ap (λ pte. some (user_pa pte)) (covered a among)
          ∙ ap some
              (user_pa-entry (pa + (a - rounddown va) / 4096 * 4096) perm (page a) small user)),
      (λ a short out.
          walkaddr-lookup root a r.m' short
          ∙ ap (λ pte. some (user_pa pte)) (r.outside a short out)
          ∙ sym (walkaddr-lookup root a m short)),
    )
    finish (inr (ends, few)) = absurd (omega (arith, few, enough))
