-- ===== src/PageTable/Mappages.antt =====
-- vm.rs: `mappages`: the pages that it maps, and what a failure leaves.
use mathlib.Core.Path.{subst}
use Prim.Native.Nat.{bit_or}
use web_os.Prelude.{
  ℕ, zero, suc, ◌+◌, ◌-◌, ◌*◌, ◌/◌, ◌%◌, ◌^◌, ◌≤◌, ◌<◌, ◌≡◌, ◌≢◌, ◌∙◌, ap, sym, some, false, arith,
  length, ◌==◌, ◌⊎◌, inl, inr,
}
use web_os.Errors.{ok, err, out_of_memory}
use web_os.PageTable.{
  Memory, is_v, entry, map_page, map_from, mappages, maxva, pte_v, pgsize, rounddown,
}
use web_os.PageTable.Tree.{Owner}
use web_os.PageTable.Mapping.{HasRoot, PageMapped, Adds, Keeps, map_page-PageMapped}
use web_os.PageTable.Ranges.{Unmapped, RangeMapped, range_failed, range_last, range_next}

module _ (root perm : ℕ) where
  map_from-RangeMapped :
      (k last va pa : ℕ) (owner : Owner) (m : Memory)
      → HasRoot root owner m
      → va % 4096 ≡ 0
      → last < maxva
      → last ≡ va + k * 4096
      → Unmapped root m va k
      → RangeMapped root va k pa perm m (map_from (suc k) root last va pa perm m)
  map_from-RangeMapped zero last va pa owner m h aligned inside at unmapped = split p.result
    where
      p : PageMapped root m va (entry pa (bit_or perm (2 ^ pte_v))) (map_page root va pa perm m)
      p =
          map_page-PageMapped root va pa perm owner m h (omega (arith, inside, at))
            (unmapped va (omega arith, omega arith))

      split :
          ((map_page root va pa perm m ≡ some (ok tt, p.m'))
              × Adds root va (entry pa (bit_or perm (2 ^ pte_v))) m p.m')
            ⊎ ((map_page root va pa perm m ≡ some (err out_of_memory, p.m'))
                × Keeps root m p.m'
                × (length m.free < 2))
          → RangeMapped root va 0 pa perm m (map_from 1 root last va pa perm m)
      split (inl (e, adds)) =
          range_last root perm last va pa m p aligned (omega (arith, inside, at))
            (omega (arith, at)) e adds
      split (inr (e, keeps, few)) = range_failed root perm 0 last va pa m p e keeps few
  map_from-RangeMapped (suc k) last va pa owner m h aligned inside at unmapped =
      split p.result (λ rest_unmapped.
        map_from-RangeMapped k last (va + 4096) (pa + 4096) p.owner' p.m' p.rooted
          (omega (arith, aligned)) inside (omega (arith, at)) rest_unmapped)
    where
      p : PageMapped root m va (entry pa (bit_or perm (2 ^ pte_v))) (map_page root va pa perm m)
      p =
          map_page-PageMapped root va pa perm owner m h (omega (arith, inside, at))
            (unmapped va (omega arith, omega arith))

      still :
          Adds root va (entry pa (bit_or perm (2 ^ pte_v))) m p.m'
          → Unmapped root p.m' (va + 4096) k
      still adds a among =
          ap is_v (
            adds.1 a (omega (arith, among, inside, at, aligned))
              (λ e. omega (arith, e, among, aligned)))
          ∙ unmapped a (omega (arith, among), omega (arith, among))

      split :
          ((map_page root va pa perm m ≡ some (ok tt, p.m'))
              × Adds root va (entry pa (bit_or perm (2 ^ pte_v))) m p.m')
            ⊎ ((map_page root va pa perm m ≡ some (err out_of_memory, p.m'))
                × Keeps root m p.m'
                × (length m.free < 2))
          → (Unmapped root p.m' (va + 4096) k
              → RangeMapped root
                  (va + 4096)
                  k
                  (pa + 4096)
                  perm
                  p.m'
                  (map_from (suc k) root last (va + 4096) (pa + 4096) perm p.m'))
          → RangeMapped root va (suc k) pa perm m (map_from (suc (suc k)) root last va pa perm m)
      split (inl (e, adds)) rest =
          range_next root perm k last va pa m p aligned inside (omega (arith, at)) e adds
            (rest (still adds))
      split (inr (e, keeps, few)) rest = range_failed root perm (suc k) last va pa m p e keeps few

-- How many pages a range has behind its first.
abbrev pub more_pages : ℕ → ℕ → ℕ
more_pages va size = (rounddown (va + size - 1) - rounddown va) / pgsize

pub mappages-RangeMapped :
    (root va pa size perm : ℕ) (owner : Owner) (m : Memory)
    → HasRoot root owner m
    → size ≢ 0
    → va + size ≤ maxva
    → Unmapped root m (rounddown va) (more_pages va size)
    → RangeMapped root
        (rounddown va)
        (more_pages va size)
        pa
        perm
        m
        (mappages root va pa size perm m)
unfolding mappages
mappages-RangeMapped root va pa size perm owner m h some_bytes inside unmapped =
    subst (RangeMapped root (rounddown va) (more_pages va size) pa perm m) (sym entered) (
      map_from-RangeMapped root perm (more_pages va size) (rounddown (va + size - 1)) (rounddown va)
        pa owner m h (omega arith) (omega (arith, inside, some_bytes)) (omega (arith, some_bytes))
        unmapped)
  where
    nonzero : (size == 0) ≡ false
    nonzero = ground (arith, some_bytes)

    entered :
        mappages root va pa size perm m
        ≡ map_from
            (suc (more_pages va size))
            root
            (rounddown (va + size - 1))
            (rounddown va)
            pa
            perm
            m
    entered =
        rw (mappages, nonzero)
          (ap (λ rounds. map_from rounds root (rounddown (va + size - 1)) (rounddown va) pa perm m)
            (omega arith))
