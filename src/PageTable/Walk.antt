-- ===== src/PageTable/Walk.antt =====
-- vm.rs: `walk`: which slot it finds, and what it changes.
use mathlib.Core.Path.{subst}
use web_os.Prelude.{
  ℕ, zero, suc, ◌+◌, ◌*◌, ◌≤◌, ◌<◌, ◌≡◌, ◌≢◌, ◌∙◌, ap, refl, sym, Option, none, some, Bool, true,
  false, List, [], ◌∷◌, arith, length, ◌⊎◌, inl, inr,
}
use web_os.PageTable.{Memory, is_v, to_pa, px, entry, descend, walk_from}
use web_os.PageTable.Words.{to_pa-entry, is_v-entry}
use web_os.PageTable.Tree.{Owner, own, IsTree, slot, slot_here, slot_valid, px_bound}
use web_os.PageTable.Growth.{
  grown, free_page, grown-IsTree, new_owner, at_new_page, entry_link, lookup-grown, grown-linked,
}
use web_os.PageTable.Rounds.{
  Grows, Grows-refl, Grows-trans, Walked, some-ne, descend_valid, descend_full, descend_new,
  walk_from_next, walk_from_stop,
}

-- A round that finds or makes the table `f`, and a walk from there.
Walked-next :
    (owner owner1 : Owner) (m m1 m2 : Memory) (level table place f va : ℕ) (found : Option (ℕ × ℕ))
    → Grows owner m owner1 m1
    → owner table ≡ some (suc level, place)
    → is_v (m1.entries table (px va (suc level))) ≡ true
    → to_pa (m1.entries table (px va (suc level))) ≡ f
    → length m.free ≤ length m1.free + 1
    → Walked owner1 m1 level f va found m2
    → Walked owner m (suc level) table va found m2
Walked-next owner owner1 m m1 m2 level table place f va found g o valid link short w = record {
  owner' = w.owner';
  grows = Grows-trans owner m owner1 m1 w.owner' m2 g w.grows;
  finds = outcome w.finds;
  pages = omega (arith, w.pages, short);
}
  where
    entry_kept : m2.entries table (px va (suc level)) ≡ m1.entries table (px va (suc level))
    entry_kept =
        w.grows.linked table (suc level) place (px va (suc level))
          (g.stay table (suc level) place o) valid

    slot_kept : slot (suc level) table va m2 ≡ slot level f va m2
    slot_kept =
        slot_valid m2 level table va (ap is_v entry_kept ∙ valid)
        ∙ ap (λ k. slot level k va m2) (ap to_pa entry_kept ∙ link)

    outcome :
        ((found ≢ none) × (found ≡ slot level f va m2))
          ⊎ ((found ≡ none) × (length m1.free < level))
        → ((found ≢ none) × (found ≡ slot (suc level) table va m2))
          ⊎ ((found ≡ none) × (length m.free < suc level))
    outcome (inl (there, e)) = inl (there, e ∙ sym slot_kept)
    outcome (inr (e, few)) = inr (e, omega (arith, few, short))

module _ (owner : Owner) (m : Memory) (level place table va : ℕ) (tree : IsTree owner m)
    (at_table : owner table ≡ some (suc level, place)) where
  abbrev i : ℕ
  i = px va (suc level)

  abbrev Ends : Option (ℕ × ℕ) × Memory → Type 0
  Ends r = Walked owner m (suc level) table va r.0 r.1

  -- What is to be shown of the levels below.
  abbrev Below : Type 0
  Below =
      (owner' : Owner) (m' : Memory) (t place' : ℕ)
      → IsTree owner' m'
      → owner' t ≡ some (level, place')
      → Walked owner' m' level t va (walk_from level t va true m').0
          (walk_from level t va true m').1

  Ends-next :
      (owner1 : Owner) (m1 : Memory) (f q : ℕ)
      → descend (suc level) table va true m ≡ (some f, m1)
      → Grows owner m owner1 m1
      → is_v (m1.entries table i) ≡ true
      → to_pa (m1.entries table i) ≡ f
      → length m.free ≤ length m1.free + 1
      → owner1 f ≡ some (level, q)
      → Below
      → Ends (walk_from (suc level) table va true m)
  Ends-next owner1 m1 f q e g valid link short o below =
      subst Ends (sym (walk_from_next m m1 level table va f true e)) (
        Walked-next owner owner1 m m1 _ level table place f va _ g at_table valid link short
          (below owner1 m1 f q g.tree o))

  Ends-full :
      is_v (m.entries table i) ≡ false → m.free ≡ [] → Ends (walk_from (suc level) table va true m)
  Ends-full empty full =
      subst Ends
        (sym
          (walk_from_stop m m level table va true (descend_full m (suc level) table va empty full)))
        (record {
          owner' = owner;
          grows = Grows-refl owner m tree;
          finds = inr (refl, omega (arith, ap length full));
          pages = omega arith;
        })

  Ends-new :
      (f : ℕ) (rest : List ℕ)
      → is_v (m.entries table i) ≡ false
      → m.free ≡ f ∷ rest
      → Below
      → Ends (walk_from (suc level) table va true m)
  Ends-new f rest empty listed below =
      Ends-next (own owner f level (place * 512 + i)) (grown m f rest table i) f (place * 512 + i)
        (descend_new m (suc level) table va f rest empty listed)
        (record {
          tree =
              grown-IsTree owner m f level place table i rest tree listed at_table
                (px_bound va (suc level)) empty;
          stay =
              new_owner owner m f level place table i rest tree listed at_table
                (px_bound va (suc level)) empty;
          same =
              lookup-grown owner m f level place table i rest tree listed at_table
                (px_bound va (suc level)) empty;
          linked =
              grown-linked owner m f level place table i rest tree listed at_table
                (px_bound va (suc level)) empty;
        })
        (ap is_v link ∙ is_v-entry f 1 (omega arith) (omega arith))
        (ap to_pa link
          ∙ to_pa-entry f 1 (omega arith)
              (free_page owner m f level place table i rest tree listed at_table
                (px_bound va (suc level)) empty).0.1)
        (omega (arith, ap length listed))
        (at_new_page owner m f level place table i rest tree listed at_table
          (px_bound va (suc level)) empty)
        below
    where
      link : (grown m f rest table i).entries table i ≡ entry f 1
      link =
          entry_link owner m f level place table i rest tree listed at_table
            (px_bound va (suc level)) empty

  Ends-lem : Below → Ends (walk_from (suc level) table va true m)
  Ends-lem below = split (is_v (m.entries table i)) refl (m.free) refl
    where
      split :
          (b : Bool)
          → is_v (m.entries table i) ≡ b
          → (free : List ℕ) → m.free ≡ free
          → Ends (walk_from (suc level) table va true m)
      split true valid free listed =
          Ends-next owner m (to_pa (m.entries table i)) (place * 512 + i)
            (descend_valid m (suc level) table va true valid) (Grows-refl owner m tree) valid refl
            (omega arith)
            (tree.children table level place i at_table (px_bound va (suc level)) valid) below
      split false empty [] full = Ends-full empty full
      split false empty (f ∷ rest) listed = Ends-new f rest empty listed below

pub walk_from-Walked :
    (level : ℕ) (owner : Owner) (m : Memory) (table place va : ℕ)
    → IsTree owner m
    → owner table ≡ some (level, place)
    → Walked owner m level table va
        (walk_from level table va true m).0
        (walk_from level table va true m).1
unfolding walk_from
walk_from-Walked zero owner m table place va h o = record {
  owner' = owner;
  grows = Grows-refl owner m h;
  finds = inl ((λ e. some-ne e), sym (slot_here m table va));
  pages = omega arith;
}
walk_from-Walked (suc level) owner m table place va h o =
    Ends-lem owner m level place table va h o
      (λ owner' m' t place'. walk_from-Walked level owner' m' t place' va)
