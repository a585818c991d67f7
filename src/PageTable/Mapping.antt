-- ===== src/PageTable/Mapping.antt =====
-- vm.rs: mapping one page.
use mathlib.Core.Path.{subst}
use Prim.Native.Nat.{bit_or}
use web_os.Prelude.{
  ℕ, ◌+◌, ◌*◌, ◌/◌, ◌^◌, ◌≤◌, ◌<◌, ◌≡◌, ◌≢◌, ◌∙◌, ap, refl, sym, Option, none, some, Bool, true,
  false, ◌&&◌, arith, length, leb, ◌==◌, ==_sound, ◌⊎◌, inl, inr,
}
use web_os.Errors.{Result, ok, err, out_of_memory}
use web_os.PageTable.{Memory, is_v, px, put, entry, walk, walk_from, map_page, maxva, pte_v}
use web_os.PageTable.Tree.{
  Owner, IsTree, slot, at_slot, lookup, slot_page, place_of, slot-SlotOwned, SlotOwned, slot-put,
  put-IsTree, place_from, differ,
}
use web_os.PageTable.Rounds.{Walked}
use web_os.PageTable.Walk.{walk_from-Walked}

-- A page table: a tree whose root stands at level 2.
pub record HasRoot (root : ℕ) (owner : Owner) (m : Memory) : Type 0 where
  pub tree : IsTree owner m
  pub top : owner root ≡ some (2, 0)

-- The number of the page of an address, from the indices.
page_number : (va : ℕ) → va < maxva → va / 4096 ≡ place_from 2 0 va * 512 + px va 0
page_number va h = omega (arith, h)

-- One slot changed: the addresses of its page mean the new entry, the others what they did.
module _ (root : ℕ) (owner : Owner) (m : Memory) (va t i x : ℕ) (h : HasRoot root owner m)
    (inside : va < maxva) (found : slot 2 root va m ≡ some (t, i)) where
  owned : SlotOwned owner (place_from 2 0 va) (px va 0) (some (t, i))
  owned =
      subst (SlotOwned owner (place_from 2 0 va) (px va 0)) found
        (slot-SlotOwned owner m 2 root 0 va h.tree h.top)

  pub lookup-put_same : (va' : ℕ) → va' / 4096 ≡ va / 4096 → lookup 2 root va' (put m t i x) ≡ x
  lookup-put_same va' e =
      ap (λ s. at_slot s (put m t i x))
        (slot-put owner m 2 root 0 va' t i x (place_from 2 0 va) h.tree h.top owned.0
          ∙ slot_page m 2 root va' va e (omega arith)
          ∙ found)
      ∙ ground arith

  other_slot :
      (va' : ℕ)
      → va' < maxva
      → va' / 4096 ≢ va / 4096
      → (s : Option (ℕ × ℕ)) → SlotOwned owner (place_from 2 0 va') (px va' 0) s
      → at_slot s (put m t i x) ≡ at_slot s m
  other_slot va' short apart none o = refl
  other_slot va' short apart (some (t', i')) o = rw (two (t' == t) refl) refl
    where
      one_page :
          place_from 2 0 va' ≡ place_from 2 0 va → px va' 0 ≡ px va 0 → va' / 4096 ≡ va / 4096
      one_page e e' = omega (arith, page_number va' short, page_number va inside, e, e')

      two : (b : Bool) → (t' == t) ≡ b → (t' == t && i' == i) ≡ false
      two true e = ground (
        arith,
        differ i' i (λ e'. apart (
            one_page (ap place_of (sym o.0 ∙ ap owner (==_sound t' t e) ∙ owned.0))
              (sym o.1 ∙ e' ∙ owned.1))),
      )
      two false e = rw e refl

  pub lookup-put_other :
      (va' : ℕ)
      → va' < maxva
      → va' / 4096 ≢ va / 4096
      → lookup 2 root va' (put m t i x) ≡ lookup 2 root va' m
  lookup-put_other va' short apart =
      ap (λ s. at_slot s (put m t i x))
        (slot-put owner m 2 root 0 va' t i x (place_from 2 0 va) h.tree h.top owned.0)
      ∙ other_slot va' short apart (slot 2 root va' m)
          (slot-SlotOwned owner m 2 root 0 va' h.tree h.top)

  pub put-HasRoot : HasRoot root owner (put m t i x)
  put-HasRoot = record {
    tree = put-IsTree owner m t i x (place_from 2 0 va) h.tree owned.0;
    top = h.top;
  }

-- What mapping a page at `va` does to the meaning of addresses.
abbrev pub Adds : ℕ → ℕ → ℕ → Memory → Memory → Type 0
Adds root va x m m' =
    ((va' : ℕ) → va' < maxva → va' / 4096 ≡ va / 4096 → lookup 2 root va' m' ≡ x)
    × ((va' : ℕ)
        → va' < maxva
        → va' / 4096 ≢ va / 4096
        → lookup 2 root va' m' ≡ lookup 2 root va' m)

abbrev pub Keeps : ℕ → Memory → Memory → Type 0
Keeps root m m' = (va' : ℕ) → lookup 2 root va' m' ≡ lookup 2 root va' m

-- Mapping a page that is not mapped: it is mapped, or there are too few free pages for tables.
pub record PageMapped (root : ℕ) (m : Memory) (va x : ℕ) (run : Option (Result (Unit {0}) × Memory))
    : Type 0 where
  pub owner' : Owner
  pub m' : Memory
  pub rooted : HasRoot root owner' m'
  pub result :
      ((run ≡ some (ok tt, m')) × Adds root va x m m')
      ⊎ ((run ≡ some (err out_of_memory, m')) × Keeps root m m' × (length m.free < 2))
  pub pages : length m.free ≤ length m'.free + 2

pub walk_inside :
    (root va : ℕ) (alloc : Bool) (m : Memory)
    → va < maxva
    → walk root va alloc m ≡ some (walk_from 2 root va alloc m)
unfolding walk
walk_inside root va alloc m h = rw (below) refl
  where
    below : leb maxva va ≡ false
    below = ground (arith, h)

-- `map_page` by what the walk gives.
map_page_full :
    (root va pa perm : ℕ) (m m' : Memory)
    → walk root va true m ≡ some (none, m')
    → map_page root va pa perm m ≡ some (err out_of_memory, m')
unfolding map_page
map_page_full root va pa perm m m' e = rw (map_page, e) refl

map_page_free :
    (root va pa perm t i : ℕ) (m m' : Memory)
    → walk root va true m ≡ some (some (t, i), m')
    → is_v (m'.entries t i) ≡ false
    → map_page root va pa perm m ≡ some (ok tt, put m' t i (entry pa (bit_or perm (2 ^ pte_v))))
unfolding map_page
map_page_free root va pa perm t i m m' e free = rw (map_page, e, free) refl

module _ (root va pa perm : ℕ) (owner : Owner) (m : Memory) (h : HasRoot root owner m)
    (inside : va < maxva) (empty : is_v (lookup 2 root va m) ≡ false) where
  abbrev m1 : Memory
  m1 = (walk_from 2 root va true m).1

  abbrev x : ℕ
  x = entry pa (bit_or perm (2 ^ pte_v))

  walked : Walked owner m 2 root va (walk_from 2 root va true m).0 m1
  walked = walk_from-Walked 2 owner m root 0 va h.tree h.top

  rooted1 : HasRoot root walked.owner' m1
  rooted1 = record { tree = walked.grows.tree; top = walked.grows.stay root 2 0 h.top }

  kept : Keeps root m m1
  kept va' = walked.grows.same 2 root 0 va' h.top

  run_full :
      (walk_from 2 root va true m).0 ≡ none
      → length m.free < 2
      → PageMapped root m va x (map_page root va pa perm m)
  run_full e few = record {
    owner' = walked.owner';
    m' = m1;
    rooted = rooted1;
    result = inr (
      map_page_full root va pa perm m m1
          (walk_inside root va true m inside ∙ ap (λ s. some (s, m1)) e),
      kept,
      few,
    );
    pages = walked.pages;
  }

  run_found :
      (t i : ℕ)
      → (walk_from 2 root va true m).0 ≡ some (t, i)
      → some (t, i) ≡ slot 2 root va m1
      → PageMapped root m va x (map_page root va pa perm m)
  run_found t i e found = record {
    owner' = walked.owner';
    m' = put m1 t i x;
    rooted = put-HasRoot root walked.owner' m1 va t i x rooted1 inside (sym found);
    result = inl (
      map_page_free root va pa perm t i m m1
          (walk_inside root va true m inside ∙ ap (λ s. some (s, m1)) e) unmapped,
      (
        (λ va' short same.
            lookup-put_same root walked.owner' m1 va t i x rooted1 inside (sym found) va' same),
        (λ va' short apart.
            lookup-put_other root walked.owner' m1 va t i x rooted1 inside (sym found) va' short
              apart
            ∙ kept va'),
      ),
    );
    pages = walked.pages;
  }
    where
      unmapped : is_v (m1.entries t i) ≡ false
      unmapped = ap is_v (ap (λ s. at_slot s m1) found ∙ kept va) ∙ empty

  pub map_page-PageMapped : PageMapped root m va x (map_page root va pa perm m)
  map_page-PageMapped = split ((walk_from 2 root va true m).0) refl walked.finds
    where
      split :
          (s : Option (ℕ × ℕ))
          → (walk_from 2 root va true m).0 ≡ s
          → (((walk_from 2 root va true m).0 ≢ none)
              × ((walk_from 2 root va true m).0 ≡ slot 2 root va m1))
            ⊎ (((walk_from 2 root va true m).0 ≡ none) × (length m.free < 2))
          → PageMapped root m va x (map_page root va pa perm m)
      split s e (inr (none_there, few)) = run_full none_there few
      split none e (inl (there, found)) = absurd (there e)
      split (some (t, i)) e (inl (there, found)) = run_found t i e (sym e ∙ found)
