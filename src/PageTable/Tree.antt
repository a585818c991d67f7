-- ===== src/PageTable/Tree.antt =====
-- vm.rs: the page tables as a tree. Each page in use as a table has an owner: its level, and the
-- indices on the way to it as one number.
use web_os.Prelude.{
  ℕ, zero, suc, ◌+◌, ◌*◌, ◌/◌, ◌%◌, ◌≤◌, ◌<◌, ◌≡◌, ◌≢◌, ◌∙◌, ap, refl, sym, Option, none, some,
  Bool, true, false, List, [], ◌∷◌, arith, ◌==◌, if_intro, if◌then◌else◌,
}
use web_os.PageTable.{Memory, is_v, to_pa, px, put}

abbrev pub Owner : Type 0
Owner = ℕ → Option (ℕ × ℕ)

abbrev pub own : Owner → ℕ → ℕ → ℕ → Owner
own owner f level place = λ t. if t == f then some (level, place) else owner t

-- The free pages have no owner, are pages, and differ.
abbrev pub Unlisted : ℕ → List ℕ → Type 0
Unlisted f [] = Unit
Unlisted f (t ∷ rest) = (f == t) ≡ false × Unlisted f rest

abbrev pub Fresh : Owner → List ℕ → Type 0
Fresh owner [] = Unit
Fresh owner (f ∷ rest) = ((owner f ≡ none) × (f % 4096 ≡ 0) × Unlisted f rest) × Fresh owner rest

pub record IsTree (owner : Owner) (m : Memory) : Type 0 where
  pub children :
      (t level place i : ℕ)
      → owner t ≡ some (suc level, place)
      → i < 512
      → is_v (m.entries t i) ≡ true
      → owner (to_pa (m.entries t i)) ≡ some (level, place * 512 + i)
  pub fresh : Fresh owner m.free

-- Where the entry of an address is, and what it says: 0 if there is no table for it.
pub slot : ℕ → ℕ → ℕ → Memory → Option (ℕ × ℕ)
slot zero table va m = some (table, px va 0)
slot (suc level) table va m =
    if is_v (m.entries table (px va (suc level)))
    then slot level (to_pa (m.entries table (px va (suc level)))) va m
    else none

abbrev pub at_slot : Option (ℕ × ℕ) → Memory → ℕ
at_slot none m = 0
at_slot (some (t, i)) m = m.entries t i

abbrev pub lookup : ℕ → ℕ → ℕ → Memory → ℕ
lookup level table va m = at_slot (slot level table va m) m

-- The place of the last table on the way.
abbrev pub place_from : ℕ → ℕ → ℕ → ℕ
place_from zero place va = place
place_from (suc level) place va = place_from level (place * 512 + px va (suc level)) va

abbrev pub SlotOwned : Owner → ℕ → ℕ → Option (ℕ × ℕ) → Type 0
SlotOwned owner place i none = Unit
SlotOwned owner place i (some (t, j)) = (owner t ≡ some (0, place)) × (j ≡ i)

pub px_bound : (va level : ℕ) → px va level < 512
px_bound va level = omega arith

pub slot-SlotOwned :
    (owner : Owner) (m : Memory) (level table place va : ℕ)
    → IsTree owner m
    → owner table ≡ some (level, place)
    → SlotOwned owner (place_from level place va) (px va 0) (slot level table va m)
unfolding slot
slot-SlotOwned owner m zero table place va h o = (o, refl)
slot-SlotOwned owner m (suc level) table place va h o =
    if_intro (SlotOwned owner (place_from level (place * 512 + px va (suc level)) va) (px va 0))
      (is_v (m.entries table (px va (suc level)))) _ none
      (λ valid.
        slot-SlotOwned owner m level (to_pa (m.entries table (px va (suc level))))
          (place * 512 + px va (suc level)) va h
          (h.children table level place (px va (suc level)) o (px_bound va (suc level)) valid))
      (λ e. tt)

pub slot_here : (m : Memory) (table va : ℕ) → slot 0 table va m ≡ some (table, px va 0)
unfolding slot
slot_here m table va = refl

pub slot_valid :
    (m : Memory) (level table va : ℕ)
    → is_v (m.entries table (px va (suc level))) ≡ true
    → slot (suc level) table va m ≡ slot level (to_pa (m.entries table (px va (suc level)))) va m
unfolding slot
slot_valid m level table va e = rw e refl

pub slot_invalid :
    (m : Memory) (level table va : ℕ)
    → is_v (m.entries table (px va (suc level))) ≡ false
    → slot (suc level) table va m ≡ none
unfolding slot
slot_invalid m level table va e = rw e refl

-- The same entry leads to the same slot if the next table does.
pub slot_same :
    (m n : Memory) (level table va : ℕ)
    → n.entries table (px va (suc level)) ≡ m.entries table (px va (suc level))
    → (is_v (m.entries table (px va (suc level))) ≡ true
        → slot level (to_pa (m.entries table (px va (suc level)))) va n
          ≡ slot level (to_pa (m.entries table (px va (suc level)))) va m)
    → slot (suc level) table va n ≡ slot (suc level) table va m
unfolding slot
slot_same m n level table va same next =
    rw same (choose (is_v (m.entries table (px va (suc level)))) next)
  where
    choose :
        (b : Bool) {x y : Option (ℕ × ℕ)}
        → (b ≡ true → x ≡ y)
        → (if b then x else none) ≡ (if b then y else none)
    choose true h = h refl
    choose false h = refl

abbrev pub level_of : Option (ℕ × ℕ) → ℕ
level_of none = 0
level_of (some (level, place)) = level

abbrev pub place_of : Option (ℕ × ℕ) → ℕ
place_of none = 0
place_of (some (level, place)) = place

abbrev pub has_owner : Option (ℕ × ℕ) → ℕ
has_owner none = 0
has_owner (some x) = 1

pub differ : (a b : ℕ) → a ≢ b → (a == b) ≡ false
differ a b h = ground (arith, h)

pub above_last :
    (owner : Owner) (table t level place place' : ℕ)
    → owner table ≡ some (suc level, place)
    → owner t ≡ some (0, place')
    → (table == t) ≡ false
above_last owner table t level place place' o last =
    differ table t (λ e. absurd (omega (arith, ap level_of (sym o ∙ ap owner e ∙ last))))

pub not_free :
    (owner : Owner) (table f : ℕ) {x : ℕ × ℕ}
    → owner table ≡ some x
    → owner f ≡ none
    → (table == f) ≡ false
not_free owner table f o free =
    differ table f (λ e. absurd (omega (arith, ap has_owner (sym o ∙ ap owner e ∙ free))))

-- A change of entries in a table of the last level does not move any slot.
pub slot-put :
    (owner : Owner) (m : Memory) (level table place va t i x place' : ℕ)
    → IsTree owner m
    → owner table ≡ some (level, place)
    → owner t ≡ some (0, place')
    → slot level table va (put m t i x) ≡ slot level table va m
unfolding slot
slot-put owner m zero table place va t i x place' h o last = refl
slot-put owner m (suc level) table place va t i x place' h o last =
    slot_same m (put m t i x) level table va
      (rw (above_last owner table t level place place' o last) refl)
      (λ valid.
        slot-put owner m level (to_pa (m.entries table (px va (suc level))))
          (place * 512 + px va (suc level)) va t i x place' h
          (h.children table level place (px va (suc level)) o (px_bound va (suc level)) valid) last)

pub put-IsTree :
    (owner : Owner) (m : Memory) (t i x place : ℕ)
    → IsTree owner m
    → owner t ≡ some (0, place)
    → IsTree owner (put m t i x)
put-IsTree owner m t i x place h last = record {
  children = λ table level q j o inside.
      rw (above_last owner table t level q place o last) (h.children table level q j o inside);
  fresh = h.fresh;
}

-- Addresses of one page have one slot.
px_same : (va va' level : ℕ) → va / 4096 ≡ va' / 4096 → level ≤ 2 → px va level ≡ px va' level
px_same va va' zero e h = omega (arith, e)
px_same va va' (suc zero) e h = omega (arith, e)
px_same va va' (suc (suc zero)) e h = omega (arith, e)
px_same va va' (suc (suc (suc level))) e h = absurd (omega (arith, h))

pub slot_page :
    (m : Memory) (level table va va' : ℕ)
    → va / 4096 ≡ va' / 4096
    → level ≤ 2
    → slot level table va m ≡ slot level table va' m
unfolding slot
slot_page m zero table va va' e h = ap (λ i. some (table, i)) (px_same va va' 0 e (omega arith))
slot_page m (suc level) table va va' e h = rw (px_same va va' (suc level) e h) (
    ap (λ s. if is_v (m.entries table (px va' (suc level))) then s else none)
      (slot_page m level (to_pa (m.entries table (px va' (suc level)))) va va' e
        (omega (arith, h))))
