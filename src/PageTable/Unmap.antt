-- ===== src/PageTable/Unmap.antt =====
-- vm.rs: `unmap` of pages that stay allocated, which takes a mapping back.
use native.Mathlib.Decide.{dec_lt}
use web_os.Prelude.{
  ℕ, zero, suc, ◌+◌, ◌*◌, ◌/◌, ◌%◌, ◌≤◌, ◌<◌, ◌≡◌, ◌≢◌, ◌∙◌, ap, refl, Option, none, some, true,
  false, arith, ◌==◌, ◌⊎◌, inl, inr,
}
use web_os.PageTable.{
  Memory, Space, is_v, is_leaf, put, walk, unmap_page, unmap_from, unmap, clear_entry, maxva,
  pgsize,
}
use web_os.PageTable.Tree.{Owner, slot, at_slot, lookup}
use web_os.PageTable.Mapping.{HasRoot, lookup-put_same, lookup-put_other, put-HasRoot}
use web_os.PageTable.Walkaddr.{walk_pure}

abbrev at_memory : Space → Memory → Space
at_memory s m = record s { memory = m }

clear_leaf :
    (t i : ℕ) (s : Space)
    → is_v (s.memory.entries t i) ≡ true
    → is_leaf (s.memory.entries t i) ≡ true
    → clear_entry t i false s ≡ some (at_memory s (put s.memory t i 0))
unfolding clear_entry
clear_leaf t i s valid leaf = rw (clear_entry, valid, leaf) refl

unmap_page_found :
    (root a t i : ℕ) (s : Space) (m : Memory)
    → walk root a false s.memory ≡ some (some (t, i), m)
    → unmap_page root a false s ≡ clear_entry t i false s
unfolding unmap_page
unmap_page_found root a t i s m e = rw (unmap_page, e) refl

-- The pages `va` to `va + n * 4096` mean nothing, and the others what they did.
pub record Cleared (root va n : ℕ) (owner : Owner) (s s' : Space) : Type 0 where
  pub rooted : HasRoot root owner s'.memory
  pub gone : (a : ℕ) → va ≤ a → a < va + n * 4096 → lookup 2 root a s'.memory ≡ 0
  pub outside :
      (a : ℕ)
      → a < maxva
      → (a < va) ⊎ (va + n * 4096 ≤ a)
      → lookup 2 root a s'.memory ≡ lookup 2 root a s.memory
  pub refs : s'.refs ≡ s.refs

abbrev pub Leaves : ℕ → ℕ → ℕ → Memory → Type 0
Leaves root va n m =
    (a : ℕ)
    → va ≤ a
    → a < va + n * 4096
    → (is_v (lookup 2 root a m) ≡ true) × (is_leaf (lookup 2 root a m) ≡ true)

module _ (root : ℕ) (owner : Owner) where
  clear_page :
      (va : ℕ) (s : Space) (found : Option (ℕ × ℕ))
      → HasRoot root owner s.memory
      → va % 4096 ≡ 0
      → va < maxva
      → slot 2 root va s.memory ≡ found
      → is_v (at_slot found s.memory) ≡ true
      → is_leaf (at_slot found s.memory) ≡ true
      → (s' : Space) × (unmap_page root va false s ≡ some s') × Cleared root va 1 owner s s'
  clear_page va s none h aligned inside e valid leaf = absurd (invalid valid)
    where
      invalid : is_v 0 ≢ true
      invalid v = ground (arith, v)
  clear_page va s (some (t, i)) h aligned inside e valid leaf = (
    at_memory s (put s.memory t i 0),
    unmap_page_found root va t i s s.memory
          (walk_pure root va s.memory inside ∙ ap (λ f. some (f, s.memory)) e)
        ∙ clear_leaf t i s valid leaf,
    record {
      rooted = put-HasRoot root owner s.memory va t i 0 h inside e;
      gone = λ a from to.
          lookup-put_same root owner s.memory va t i 0 h inside e a
            (omega (arith, from, to, aligned));
      outside = λ a short out.
          lookup-put_other root owner s.memory va t i 0 h inside e a short (apart a out);
      refs = refl;
    },
  )
    where
      apart : (a : ℕ) → (a < va) ⊎ (va + 1 * 4096 ≤ a) → a / 4096 ≢ va / 4096
      apart a (inl below) e' = omega (arith, below, e', aligned)
      apart a (inr above) e' = omega (arith, above, e', aligned)

  abbrev Clears : ℕ → ℕ → Space → Option Space → Type 0
  Clears va n s run = (s' : Space) × (run ≡ some s') × Cleared root va n owner s s'

  unmap_from_next :
      (n va : ℕ) (s s1 : Space)
      → unmap_page root va false s ≡ some s1
      → unmap_from (suc n) root va false s ≡ unmap_from n root (va + pgsize) false s1
  unfolding unmap_from
  unmap_from_next n va s s1 e = rw (unmap_from, e) refl

  -- One page, then the others.
  Cleared-next :
      (n va : ℕ) (s s1 s2 : Space)
      → va % 4096 ≡ 0
      → va + (n + 1) * 4096 ≤ maxva
      → Cleared root va 1 owner s s1
      → Cleared root (va + 4096) n owner s1 s2
      → Cleared root va (suc n) owner s s2
  Cleared-next n va s s1 s2 aligned inside c d = record {
    rooted = d.rooted;
    gone = λ a from to. elim (dec_lt a (va + 4096)) [
      | yes near ↦
          d.outside a (omega (arith, to, inside)) (inl near) ∙ c.gone a from (omega (arith, near))
      | no far ↦ d.gone a (omega (arith, far)) (omega (arith, to))
    ];
    outside = λ a short out. d.outside a short (after a out) ∙ c.outside a short (before a out);
    refs = d.refs ∙ c.refs;
  }
    where
      after :
          (a : ℕ)
          → (a < va) ⊎ (va + suc n * 4096 ≤ a)
          → (a < va + 4096) ⊎ (va + 4096 + n * 4096 ≤ a)
      after a (inl below) = inl (omega (arith, below))
      after a (inr above) = inr (omega (arith, above))

      before : (a : ℕ) → (a < va) ⊎ (va + suc n * 4096 ≤ a) → (a < va) ⊎ (va + 1 * 4096 ≤ a)
      before a (inl below) = inl below
      before a (inr above) = inr (omega (arith, above))

  unmap_from-Clears :
      (n va : ℕ) (s : Space)
      → HasRoot root owner s.memory
      → va % 4096 ≡ 0
      → va + n * 4096 ≤ maxva
      → Leaves root va n s.memory
      → Clears va n s (unmap_from n root va false s)
  unfolding unmap_from
  unmap_from-Clears zero va s h aligned inside leaves = (
    s,
    refl,
    record {
      rooted = h;
      gone = λ a from to. absurd (omega (arith, from, to));
      outside = λ a short out. refl;
      refs = refl;
    },
  )
  unmap_from-Clears (suc n) va s h aligned inside leaves =
      continue
        (clear_page va s (slot 2 root va s.memory) h aligned (omega (arith, inside)) refl
          (leaves va (omega arith) (omega arith)).0 (leaves va (omega arith) (omega arith)).1)
        (λ s1 h1 leaves1.
          unmap_from-Clears n (va + 4096) s1 h1 (omega (arith, aligned)) (omega (arith, inside))
            leaves1)
    where
      still : (s1 : Space) → Cleared root va 1 owner s s1 → Leaves root (va + 4096) n s1.memory
      still s1 c a from to =
          let same = c.outside a (omega (arith, to, inside)) (inr (omega (arith, from))) in
          let before = leaves a (omega (arith, from)) (omega (arith, to)) in
          (ap is_v same ∙ before.0, ap is_leaf same ∙ before.1)

      continue :
          Clears va 1 s (unmap_page root va false s)
          → ((s1 : Space)
              → HasRoot root owner s1.memory
              → Leaves root (va + 4096) n s1.memory
              → Clears (va + 4096) n s1 (unmap_from n root (va + 4096) false s1))
          → Clears va (suc n) s (unmap_from (suc n) root va false s)
      continue (s1, e, c) rest =
          let r = rest s1 c.rooted (still s1 c) in
          (
            r.0,
            unmap_from_next n va s s1 e ∙ r.1,
            Cleared-next n va s s1 r.0 aligned (omega (arith, inside)) c r.2,
          )

pub unmap-Cleared :
    (root va n : ℕ) (owner : Owner) (s : Space)
    → HasRoot root owner s.memory
    → va % 4096 ≡ 0
    → va + n * 4096 ≤ maxva
    → Leaves root va n s.memory
    → (s' : Space) × (unmap root va n false s ≡ some s') × Cleared root va n owner s s'
unfolding unmap
unmap-Cleared root va n owner s h aligned inside leaves =
    let r = unmap_from-Clears root owner n va s h aligned inside leaves in
    (r.0, rw (unmap, on_page) r.1, r.2)
  where
    on_page : (va % pgsize == 0) ≡ true
    on_page = ground (arith, aligned)
