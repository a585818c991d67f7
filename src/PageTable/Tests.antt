-- ===== src/PageTable/Tests.antt =====
-- vm.rs: an empty page table, and two pages mapped in it.
use Prim.Native.Nat.{bit_or}
use web_os.Prelude.{
  ℕ, ◌+◌, ◌-◌, ◌*◌, ◌/◌, ◌<◌, ◌≡◌, ◌≢◌, refl, ap, none, some, true, false, ◌⊎◌, inl, inr, ◌∙◌, [],
  ◌∷◌, arith,
}
use web_os.Errors.{ok, err, out_of_memory}
use web_os.PageTable.{Memory, is_v, mappages, walkaddr, unmap, Space, entry, is_leaf, maxva}
use web_os.PageTable.Words.{is_v-entry, entry_lem}
use web_os.PageTable.Unmap.{Leaves, Cleared, unmap-Cleared}
use web_os.PageTable.Tree.{Owner, own, lookup, at_slot, slot_invalid}
use web_os.PageTable.Mapping.{HasRoot}
use web_os.PageTable.Ranges.{Among, Outside, Covered, RangeMapped}
use web_os.PageTable.Mappages.{mappages-RangeMapped}
use web_os.PageTable.Walkaddr.{walkaddr-mappages}

abbrev memory : Memory
memory = record { entries = λ t i. 0; free = 8192 ∷ 12288 ∷ 16384 ∷ 20480 ∷ [] }

abbrev owner : Owner
owner = own (λ t. none) 4096 2 0

invalid : is_v 0 ≡ true → ⊥
invalid e = ground (arith, e)

memory-HasRoot : HasRoot 4096 owner memory
memory-HasRoot = record {
  tree = record {
    children = λ t level place i o inside valid. absurd (invalid valid);
    fresh = (
      (refl, refl, (refl, (refl, (refl, tt)))),
      ((refl, refl, (refl, (refl, tt))), ((refl, refl, (refl, tt)), ((refl, refl, tt), tt))),
    );
  };
  top = refl;
}

unmapped : (va : ℕ) → is_v (lookup 2 4096 va memory) ≡ false
unmapped va = ap (λ s. is_v (at_slot s memory)) (slot_invalid memory 1 4096 va refl)

abbrev bytes : ℕ
bytes = 8000

some_bytes : bytes ≢ 0
some_bytes e = ground (arith, e)

-- R, W and U
walkaddr-mappages_example :
    (m' : Memory) × (mappages 4096 20500 0x80000000 8000 22 memory ≡ some (ok tt, m'))
    × ((a : ℕ)
        → Among 20480 1 a
        → walkaddr 4096 a m' ≡ some (ok (0x80000000 + (a - 20480) / 4096 * 4096)))
    × ((a : ℕ) → a < maxva → Outside 20480 1 a → walkaddr 4096 a m' ≡ walkaddr 4096 a memory)
walkaddr-mappages_example =
    walkaddr-mappages 4096 20500 0x80000000 8000 22 owner memory memory-HasRoot some_bytes
      (omega arith) refl (omega arith) refl (λ a among. unmapped a) (omega arith)

abbrev run :
    RangeMapped 4096 20480 1 0x80000000 22 memory (mappages 4096 20500 0x80000000 8000 22 memory)
run =
    mappages-RangeMapped 4096 20500 0x80000000 8000 22 owner memory memory-HasRoot some_bytes
      (omega arith) (λ a among. unmapped a)

run_covers :
    ((mappages 4096 20500 0x80000000 8000 22 memory ≡ some (ok tt, run.m'))
        × Covered 4096 20480 1 0x80000000 22 run.m')
      ⊎ ((mappages 4096 20500 0x80000000 8000 22 memory ≡ some (err out_of_memory, run.m'))
          × (4 < 4))
    → Covered 4096 20480 1 0x80000000 22 run.m'
run_covers (inl (ends, covered)) = covered
run_covers (inr (ends, few)) = absurd (omega (arith, few))

user_entry :
    (pa : ℕ) → (is_v (entry pa (bit_or 22 1)) ≡ true) × (is_leaf (entry pa (bit_or 22 1)) ≡ true)
user_entry pa =
    (is_v-entry pa 23 (omega arith) (omega arith), ground (arith, entry_lem pa 23 (omega arith)))

abbrev mapped : Space
mapped = record { memory = run.m'; refs = λ k. 1 }

mapped-Leaves : Leaves 4096 20480 2 mapped.memory
mapped-Leaves a from to =
    let same = run_covers run.result a (from, omega (arith, to)) in
    let both = user_entry (0x80000000 + (a - 20480) / 4096 * 4096) in
    (ap is_v same ∙ both.0, ap is_leaf same ∙ both.1)

mappages-RangeMapped_example :
    RangeMapped 4096 20480 1 0x80000000 22 memory (mappages 4096 20500 0x80000000 8000 22 memory)
mappages-RangeMapped_example =
    mappages-RangeMapped 4096 20500 0x80000000 8000 22 owner memory memory-HasRoot some_bytes
      (omega arith) (λ a among. unmapped a)

unmap-Cleared_example :
    (s' : Space) × (unmap 4096 20480 2 false mapped ≡ some s')
    × Cleared 4096 20480 2 run.owner' mapped s'
unmap-Cleared_example =
    unmap-Cleared 4096 20480 2 run.owner' mapped run.rooted refl (omega arith) mapped-Leaves
