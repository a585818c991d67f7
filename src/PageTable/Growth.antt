-- ===== src/PageTable/Growth.antt =====
-- vm.rs: what a new page-table page changes: nothing that any address means.
use mathlib.Core.Path.{subst}
use web_os.Prelude.{
  ℕ, zero, suc, ◌+◌, ◌*◌, ◌%◌, ◌<◌, ◌≡◌, ◌≢◌, ◌∙◌, ap, refl, sym, Option, none, some, Bool, true,
  false, ◌&&◌, List, [], ◌∷◌, arith, ◌==◌, ==_sound, if◌then◌else◌,
}
use web_os.PageTable.{Memory, is_v, to_pa, px, put, entry}
use web_os.PageTable.Words.{to_pa-entry, is_v-entry}
use web_os.PageTable.Tree.{
  Owner, own, Unlisted, Fresh, IsTree, at_slot, lookup, slot_here, slot_valid, slot_invalid,
  px_bound, level_of, place_of, differ, not_free,
}

abbrev pub grown : Memory → ℕ → List ℕ → ℕ → ℕ → Memory
grown m f rest table i =
    put (record { entries = λ t j. if t == f then 0 else m.entries t j; free = rest }) table i
      (entry f 1)

Fresh-own :
    (owner : Owner) (f level place : ℕ) (free : List ℕ)
    → Unlisted f free
    → Fresh owner free
    → Fresh (own owner f level place) free
Fresh-own owner f level place [] u h = tt
Fresh-own owner f level place (t ∷ free) u h =
    ((rw (swap u.0) h.0.0, h.0.1, h.0.2), Fresh-own owner f level place free u.1 h.1)
  where
    swap : (f == t) ≡ false → (t == f) ≡ false
    swap e = ground (arith, e)

invalid : is_v 0 ≢ true
invalid e = ground (arith, e)

module _ (owner : Owner) (m : Memory) (f level place table i : ℕ) (rest : List ℕ)
    (tree : IsTree owner m) (listed : m.free ≡ f ∷ rest)
    (at_table : owner table ≡ some (suc level, place)) (inside : i < 512)
    (empty : is_v (m.entries table i) ≡ false) where
  abbrev m' : Memory
  m' = grown m f rest table i

  abbrev pub owner' : Owner
  owner' = own owner f level (place * 512 + i)

  pub free_page : ((owner f ≡ none) × (f % 4096 ≡ 0) × Unlisted f rest) × Fresh owner rest
  free_page = subst (Fresh owner) listed tree.fresh

  -- The three kinds of entries.
  entry_new_page : (j : ℕ) → m'.entries f j ≡ 0
  entry_new_page j = rw (other, same) refl
    where
      other : (f == table) ≡ false
      other = differ f table (λ e. ground (arith, not_free owner table f at_table free_page.0.0, e))

      same : (f == f) ≡ true
      same = ground arith

  pub entry_link : m'.entries table i ≡ entry f 1
  entry_link = ground arith

  entry_old :
      (t j : ℕ) → (t == f) ≡ false → (t == table && j == i) ≡ false → m'.entries t j ≡ m.entries t j
  entry_old t j e e' = rw (e', e) refl

  pub at_new_page : owner' f ≡ some (level, place * 512 + i)
  at_new_page = ground arith

  old_owner :
      (t level' q : ℕ) → owner' t ≡ some (level', q) → (t == f) ≡ false → owner t ≡ some (level', q)
  old_owner t level' q o e =
      subst (λ b. (if b then some (level, place * 512 + i) else owner t) ≡ some (level', q)) e o

  pub new_owner : (t level' q : ℕ) → owner t ≡ some (level', q) → owner' t ≡ some (level', q)
  new_owner t level' q o = rw (not_free owner t f o free_page.0.0) o

  -- What an entry of an old table says, by whether it is the one that was filled.
  child_old :
      (t level' q j : ℕ)
      → owner t ≡ some (suc level', q)
      → (t == f) ≡ false
      → j < 512
      → is_v (m'.entries t j) ≡ true
      → (b : Bool) → (t == table && j == i) ≡ b
      → owner' (to_pa (m'.entries t j)) ≡ some (level', q * 512 + j)
  child_old t level' q j o e short valid true e' =
      rw (e', to_pa-entry f 1 (omega arith) free_page.0.1)
        (at_new_page ∙ same_place (ap level_of same) (ap place_of same))
    where
      same : Path (Option (ℕ × ℕ)) (some (suc level, place)) (some (suc level', q))
      same = sym at_table ∙ ap owner (sym (==_sound t table (ground (arith, e')))) ∙ o

      same_index : i ≡ j
      same_index = sym (==_sound j i (ground (arith, e')))

      down : suc level ≡ suc level' → level ≡ level'
      down a = omega (arith, a)

      same_place :
          suc level ≡ suc level'
          → place ≡ q
          → Path (Option (ℕ × ℕ)) (some (level, place * 512 + i)) (some (level', q * 512 + j))
      same_place a b = cc (down a, b, same_index)
  child_old t level' q j o e short valid false e' =
      let same = entry_old t j e e' in
      new_owner (to_pa (m'.entries t j)) level' (q * 512 + j)
        (rw same (tree.children t level' q j o short (sym (ap is_v same) ∙ valid)))

  child :
      (t level' q j : ℕ)
      → owner' t ≡ some (suc level', q)
      → j < 512
      → is_v (m'.entries t j) ≡ true
      → (b : Bool) → (t == f) ≡ b
      → owner' (to_pa (m'.entries t j)) ≡ some (level', q * 512 + j)
  child t level' q j o short valid true e =
      let zeros = ap (λ k. m'.entries k j) (==_sound t f e) ∙ entry_new_page j in
      absurd (invalid (sym (ap is_v zeros) ∙ valid))
  child t level' q j o short valid false e =
      child_old t level' q j (old_owner t (suc level') q o e) e short valid (t == table && j == i)
        refl

  pub grown-IsTree : IsTree owner' m'
  grown-IsTree = record {
    children = λ t level' q j o short valid. child t level' q j o short valid (t == f) refl;
    fresh = Fresh-own owner f level (place * 512 + i) rest free_page.0.2 free_page.1;
  }

  -- No address leads to a page of the new table yet.
  lookup_new_page : (level' va : ℕ) → lookup level' f va m' ≡ 0
  lookup_new_page zero va = ap (λ s. at_slot s m') (slot_here m' f va) ∙ entry_new_page (px va 0)
  lookup_new_page (suc level') va =
      ap (λ s. at_slot s m')
        (slot_invalid m' level' f va (ap is_v (entry_new_page (px va (suc level')))))

  -- Nor does any other address change its meaning.
  lookup_filled :
      (level' t q va : ℕ)
      → owner t ≡ some (suc level', q)
      → (t == table && px va (suc level') == i) ≡ true
      → lookup (suc level') t va m' ≡ lookup (suc level') t va m
  lookup_filled level' t q va o e =
      ap (λ s. at_slot s m') (slot_valid m' level' t va valid)
      ∙ ap (λ k. lookup level' k va m')
          (ap to_pa link ∙ to_pa-entry f 1 (omega arith) free_page.0.1)
      ∙ lookup_new_page level' va
      ∙ sym (ap (λ s. at_slot s m) (slot_invalid m level' t va before))
    where
      here : t ≡ table
      here = ==_sound t table (ground (arith, e))

      at : px va (suc level') ≡ i
      at = ==_sound (px va (suc level')) i (ground (arith, e))

      link : m'.entries t (px va (suc level')) ≡ entry f 1
      link = rw e refl

      valid : is_v (m'.entries t (px va (suc level'))) ≡ true
      valid = ap is_v link ∙ is_v-entry f 1 (omega arith) (omega arith)

      before : is_v (m.entries t (px va (suc level'))) ≡ false
      before = rw (here, at) empty

  pub lookup-grown :
      (level' t q va : ℕ)
      → owner t ≡ some (level', q)
      → lookup level' t va m' ≡ lookup level' t va m
  lookup-grown zero t q va o =
      ap (λ s. at_slot s m') (slot_here m' t va)
      ∙ entry_old t (px va 0) (not_free owner t f o free_page.0.0) (below (t == table) refl)
      ∙ sym (ap (λ s. at_slot s m) (slot_here m t va))
    where
      below : (b : Bool) → (t == table) ≡ b → (t == table && px va 0 == i) ≡ false
      below true e =
          absurd (omega (arith, ap level_of (sym o ∙ ap owner (==_sound t table e) ∙ at_table)))
      below false e = rw e refl
  lookup-grown (suc level') t q va o =
      split (lookup-grown level' (to_pa (m.entries t j)) (q * 512 + j) va) (t == table && j == i)
        refl
    where
      j : ℕ
      j = px va (suc level')

      kept :
          (b : Bool)
          → is_v (m.entries t j) ≡ b
          → m'.entries t j ≡ m.entries t j
          → (owner (to_pa (m.entries t j)) ≡ some (level', q * 512 + j)
              → lookup level' (to_pa (m.entries t j)) va m'
                ≡ lookup level' (to_pa (m.entries t j)) va m)
          → lookup (suc level') t va m' ≡ lookup (suc level') t va m
      kept true valid same next =
          ap (λ s. at_slot s m') (slot_valid m' level' t va (ap is_v same ∙ valid))
          ∙ ap (λ k. lookup level' k va m') (ap to_pa same)
          ∙ next (tree.children t level' q j o (px_bound va (suc level')) valid)
          ∙ sym (ap (λ s. at_slot s m) (slot_valid m level' t va valid))
      kept false none_there same next =
          ap (λ s. at_slot s m') (slot_invalid m' level' t va (ap is_v same ∙ none_there))
          ∙ sym (ap (λ s. at_slot s m) (slot_invalid m level' t va none_there))

      split :
          (owner (to_pa (m.entries t j)) ≡ some (level', q * 512 + j)
            → lookup level' (to_pa (m.entries t j)) va m'
              ≡ lookup level' (to_pa (m.entries t j)) va m)
          → (b : Bool) → (t == table && j == i) ≡ b
          → lookup (suc level') t va m' ≡ lookup (suc level') t va m
      split next true e = lookup_filled level' t q va o e
      split next false e =
          kept (is_v (m.entries t j)) refl (entry_old t j (not_free owner t f o free_page.0.0) e)
            next

  pub grown-linked :
      (t level' q j : ℕ)
      → owner t ≡ some (level', q)
      → is_v (m.entries t j) ≡ true
      → m'.entries t j ≡ m.entries t j
  grown-linked t level' q j o valid =
      entry_old t j (not_free owner t f o free_page.0.0) (apart (t == table && j == i) refl)
    where
      apart : (b : Bool) → (t == table && j == i) ≡ b → (t == table && j == i) ≡ false
      apart true e = absurd (contradicts (sym valid ∙ ap is_v moved ∙ empty))
        where
          moved : m.entries t j ≡ m.entries table i
          moved = cc (==_sound t table (ground (arith, e)), ==_sound j i (ground (arith, e)))

          contradicts : true ≢ false
          contradicts h = ground (arith, h)
      apart false e = e
