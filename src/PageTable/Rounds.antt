-- ===== src/PageTable/Rounds.antt =====
-- vm.rs: one round of the loop of `walk`, and what walks may change.
use web_os.Prelude.{
  ℕ, suc, ◌+◌, ◌≤◌, ◌<◌, ◌≡◌, ◌≢◌, ◌∙◌, ap, refl, Option, none, some, Bool, true, false, List, [],
  ◌∷◌, arith, length, ◌==◌, if◌then◌else◌, ◌⊎◌,
}
use web_os.PageTable.{Memory, is_v, to_pa, px, new_table, descend, walk_from}
use web_os.PageTable.Tree.{Owner, IsTree, slot, lookup}
use web_os.PageTable.Growth.{grown}

-- New tables, and nothing else: tables stay, and so does what every address means.
pub record Grows (owner : Owner) (m : Memory) (owner' : Owner) (m' : Memory) : Type 0 where
  pub tree : IsTree owner' m'
  pub stay : (t level place : ℕ) → owner t ≡ some (level, place) → owner' t ≡ some (level, place)
  pub same :
      (level t place va : ℕ)
      → owner t ≡ some (level, place)
      → lookup level t va m' ≡ lookup level t va m
  pub linked :
      (t level place j : ℕ)
      → owner t ≡ some (level, place)
      → is_v (m.entries t j) ≡ true
      → m'.entries t j ≡ m.entries t j

pub Grows-refl : (owner : Owner) (m : Memory) → IsTree owner m → Grows owner m owner m
Grows-refl owner m h = record {
  tree = h;
  stay = λ t level place o. o;
  same = λ level t place va o. refl;
  linked = λ t level place j o valid. refl;
}

pub Grows-trans :
    (o1 : Owner) (m1 : Memory) (o2 : Owner) (m2 : Memory) (o3 : Owner) (m3 : Memory)
    → Grows o1 m1 o2 m2
    → Grows o2 m2 o3 m3
    → Grows o1 m1 o3 m3
Grows-trans o1 m1 o2 m2 o3 m3 g h = record {
  tree = h.tree;
  stay = λ t level place o. h.stay t level place (g.stay t level place o);
  same = λ level t place va o.
      h.same level t place va (g.stay t level place o) ∙ g.same level t place va o;
  linked = λ t level place j o valid.
      h.linked t level place j (g.stay t level place o)
        (ap is_v (g.linked t level place j o valid) ∙ valid)
      ∙ g.linked t level place j o valid;
}

-- A walk that may allocate: it finds the slot, or there are too few free pages.
pub record Walked (owner : Owner) (m : Memory) (level table va : ℕ) (found : Option (ℕ × ℕ))
    (m' : Memory) : Type 0 where
  pub owner' : Owner
  pub grows : Grows owner m owner' m'
  pub finds :
      ((found ≢ none) × (found ≡ slot level table va m'))
      ⊎ ((found ≡ none) × (length m.free < level))
  pub pages : length m.free ≤ length m'.free + level

pub some-ne : {x : ℕ × ℕ} → Path (Option (ℕ × ℕ)) (some x) none → ⊥
some-ne e = ground (arith, e)

new_table_full : (m : Memory) → m.free ≡ [] → new_table m ≡ none
unfolding new_table
new_table_full m e = rw e refl

new_table_lem :
    (m : Memory) (f : ℕ) (rest : List ℕ)
    → m.free ≡ f ∷ rest
    → new_table m
      ≡ some (f, record { entries = λ t j. if t == f then 0 else m.entries t j; free = rest })
unfolding new_table
new_table_lem m f rest e = rw e refl

-- The three outcomes of a round, and what follows.
pub descend_valid :
    (m : Memory) (level table va : ℕ) (alloc : Bool)
    → is_v (m.entries table (px va level)) ≡ true
    → descend level table va alloc m ≡ (some (to_pa (m.entries table (px va level))), m)
unfolding descend
descend_valid m level table va alloc e = rw e refl

pub descend_missing :
    (m : Memory) (level table va : ℕ)
    → is_v (m.entries table (px va level)) ≡ false
    → descend level table va false m ≡ (none, m)
unfolding descend
descend_missing m level table va e = rw e refl

pub descend_full :
    (m : Memory) (level table va : ℕ)
    → is_v (m.entries table (px va level)) ≡ false
    → m.free ≡ []
    → descend level table va true m ≡ (none, m)
unfolding descend
descend_full m level table va e e' = rw (e, new_table_full m e') refl

pub descend_new :
    (m : Memory) (level table va f : ℕ) (rest : List ℕ)
    → is_v (m.entries table (px va level)) ≡ false
    → m.free ≡ f ∷ rest
    → descend level table va true m ≡ (some f, grown m f rest table (px va level))
unfolding descend
descend_new m level table va f rest e e' = rw (e, new_table_lem m f rest e') refl

pub walk_from_next :
    (m m1 : Memory) (level table va f : ℕ) (alloc : Bool)
    → descend (suc level) table va alloc m ≡ (some f, m1)
    → walk_from (suc level) table va alloc m ≡ walk_from level f va alloc m1
unfolding walk_from
walk_from_next m m1 level table va f alloc e =
    ap
      (λ (r : Option ℕ × Memory). elim r.0 [
        | none ↦ (none, r.1)
        | some f' ↦ walk_from level f' va alloc r.1
      ])
      e

pub walk_from_stop :
    (m m1 : Memory) (level table va : ℕ) (alloc : Bool)
    → descend (suc level) table va alloc m ≡ (none, m1)
    → walk_from (suc level) table va alloc m ≡ (none, m1)
unfolding walk_from
walk_from_stop m m1 level table va alloc e =
    ap
      (λ (r : Option ℕ × Memory). elim r.0 [
        | none ↦ (none, r.1)
        | some f' ↦ walk_from level f' va alloc r.1
      ])
      e
