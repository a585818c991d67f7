-- ===== src/PageTable.antt =====
-- crates/kernel/src/vm.rs: the Sv39 page tables. A page-table page is its physical address, and memory
-- is what the entries of these pages hold. The page allocator is the list of the pages that it gives
-- out, in this order. Addresses stay below 2^56, so that no shift loses a bit. `none` is a panic.
pub mod Words
pub mod Tree
pub mod Growth
pub mod Rounds
pub mod Walk
pub mod Mapping
pub mod Ranges
pub mod Mappages
pub mod Walkaddr
pub mod Unmap
mod Tests
use Prim.Native.Nat.{bit_or}
use web_os.Prelude.{
  ℕ, zero, suc, ◌+◌, ◌-◌, ◌*◌, ◌/◌, ◌%◌, ◌^◌, ◌≤◌, ◌<◌, ◌≡◌, Option, none, some, Bool, true, false,
  not, ◌&&◌, ◌||◌, List, [], ◌∷◌, ltb, leb, ◌==◌, if◌then◌else◌,
}
use web_os.Errors.{Result, ok, err, bad_virt_addr, out_of_memory}

abbrev pub pgsize : ℕ
pgsize = 4096

abbrev pub maxva : ℕ
maxva = 2 ^ 38

-- The bits of an entry, by their numbers.
abbrev pub pte_v : ℕ
pte_v = 0

abbrev pub pte_r : ℕ
pte_r = 1

abbrev pub pte_w : ℕ
pte_w = 2

abbrev pub pte_x : ℕ
pte_x = 3

abbrev pub pte_u : ℕ
pte_u = 4

-- `self.0 & (1 << k) != 0`
abbrev pub has_bit : ℕ → ℕ → Bool
has_bit pte k = pte / 2 ^ k % 2 == 1

abbrev pub is_v : ℕ → Bool
is_v pte = has_bit pte pte_v

abbrev pub is_u : ℕ → Bool
is_u pte = has_bit pte pte_u

abbrev pub is_leaf : ℕ → Bool
is_leaf pte = has_bit pte pte_r || (has_bit pte pte_w || has_bit pte pte_x)

abbrev pub to_pa : ℕ → ℕ
to_pa pte = pte / 2 ^ 10 * 2 ^ 12

-- The word that `set(pa, attr)` stores.
abbrev pub entry : ℕ → ℕ → ℕ
entry pa attr = bit_or (pa / 2 ^ 12 * 2 ^ 10) attr

abbrev pub px : ℕ → ℕ → ℕ
px va level = va / 2 ^ (12 + 9 * level) % 512

abbrev pub rounddown : ℕ → ℕ
rounddown a = a / pgsize * pgsize

pub record Memory : Type 0 where
  pub entries : ℕ → ℕ → ℕ
  pub free : List ℕ

abbrev pub put : Memory → ℕ → ℕ → ℕ → Memory
put m table i x = record m { entries = λ t j. if t == table && j == i then x else m.entries t j }

-- `RawPageTable::try_new_zeroed()`
pub new_table : Memory → Option (ℕ × Memory)
new_table m = elim m.free [
  | [] ↦ none
  | f ∷ rest ↦
      some (f, record { entries = λ t j. if t == f then 0 else m.entries t j; free = rest })
]

-- One round of the loop of `walk`: the table of the next level.
pub descend : ℕ → ℕ → ℕ → Bool → Memory → Option ℕ × Memory
descend level table va alloc m =
    let pte = m.entries table (px va level) in
    if is_v pte
    then (some (to_pa pte), m)
    else if not alloc
    then (none, m)
    else elim (new_table m) [
      | none ↦ (none, m)
      | some (f, m') ↦ (some f, put m' table (px va level) (entry f (2 ^ pte_v)))
    ]

-- `for level in (1..3).rev()`, from the level on. What is found is a table and an index in it.
pub walk_from : ℕ → ℕ → ℕ → Bool → Memory → Option (ℕ × ℕ) × Memory
walk_from zero table va alloc m = (some (table, px va 0), m)
walk_from (suc level) table va alloc m =
    let (next, m') = descend (suc level) table va alloc m in
    elim next [ none ↦ (none, m') | some f ↦ walk_from level f va alloc m' ]

pub walk : ℕ → ℕ → Bool → Memory → Option (Option (ℕ × ℕ) × Memory)
walk root va alloc m = if leb maxva va then none else some (walk_from 2 root va alloc m)

-- What the entry that was found says.
pub user_pa : ℕ → Result ℕ
user_pa pte =
    if not (is_v pte)
    then err bad_virt_addr
    else if not (is_u pte)
    then err bad_virt_addr
    else ok (to_pa pte)

pub walkaddr : ℕ → ℕ → Memory → Option (Result ℕ)
walkaddr root va m =
    if leb maxva va then some (err bad_virt_addr) else elim (walk root va false m) [
      | none ↦ none
      | some (none, m') ↦ some (err bad_virt_addr)
      | some (some (t, i), m') ↦ some (user_pa (m'.entries t i))
    ]

-- One round of the loop of `mappages`: `none` is the panic "remap".
pub map_page : ℕ → ℕ → ℕ → ℕ → Memory → Option (Result (Unit {0}) × Memory)
map_page root va pa perm m = elim (walk root va true m) [
  | none ↦ none
  | some (none, m') ↦ some (err out_of_memory, m')
  | some (some (t, i), m') ↦
      if is_v (m'.entries t i)
      then none
      else some (ok tt, put m' t i (entry pa (bit_or perm (2 ^ pte_v))))
]

-- The loop, with the rounds left.
pub map_from : ℕ → ℕ → ℕ → ℕ → ℕ → ℕ → Memory → Option (Result (Unit {0}) × Memory)
map_from zero root last va pa perm m = none
map_from (suc rounds) root last va pa perm m = elim (map_page root va pa perm m) [
  | none ↦ none
  | some (err e, m') ↦ some (err e, m')
  | some (ok u, m') ↦ elim (va == last) [
    | true ↦ some (ok tt, m')
    | false ↦ map_from rounds root last (va + pgsize) (pa + pgsize) perm m'
  ]
]

pub mappages : ℕ → ℕ → ℕ → ℕ → ℕ → Memory → Option (Result (Unit {0}) × Memory)
mappages root va pa size perm m =
    let first = rounddown va in
    let last = rounddown (va + size - 1) in
    if size == 0 then none else map_from ((last - first) / pgsize + 1) root last first pa perm m

-- kalloc.rs: how many page tables share a page, by the number of the page.
abbrev pub kernbase : ℕ
kernbase = 0x80000000

abbrev pub phystop : ℕ
phystop = kernbase + 512 * 1024 * 1024

pub record Space : Type 0 where
  pub memory : Memory
  pub refs : ℕ → ℕ

pub pa2idx : ℕ → Option ℕ
pa2idx pa =
    if leb kernbase pa && (ltb pa phystop && pa % pgsize == 0)
    then some ((pa - kernbase) / pgsize)
    else none

abbrev pub set_ref : Space → ℕ → ℕ → Space
set_ref s idx v = record s { refs = λ k. if k == idx then v else s.refs k }

pub page_ref_init : ℕ → Space → Option Space
page_ref_init pa s = elim (pa2idx pa) [
  | none ↦ none
  | some idx ↦ if s.refs idx == 0 then some (set_ref s idx 1) else none
]

pub page_ref_inc : ℕ → Space → Option Space
page_ref_inc pa s = elim (pa2idx pa) [
  | none ↦ none
  | some idx ↦ if s.refs idx == 2 ^ 16 - 1 then none else some (set_ref s idx (s.refs idx + 1))
]

pub page_ref_dec : ℕ → Space → Option (ℕ × Space)
page_ref_dec pa s = elim (pa2idx pa) [
  | none ↦ none
  | some idx ↦
      if s.refs idx == 0 then none else some (s.refs idx - 1, set_ref s idx (s.refs idx - 1))
]

pub page_ref_get : ℕ → Space → Option ℕ
page_ref_get pa s = elim (pa2idx pa) [ none ↦ none | some idx ↦ some (s.refs idx) ]

-- `if do_free`: the page goes back to the allocator with its last reference.
pub release : ℕ → Space → Option Space
release pa s = elim (page_ref_dec pa s) [
  | none ↦ none
  | some (left, s') ↦ some (
      if left == 0
      then record s' { memory = record (s'.memory) { free = pa ∷ s'.memory.free } }
      else s')
]

-- The entry that `unmap` found: it is cleared.
pub clear_entry : ℕ → ℕ → Bool → Space → Option Space
clear_entry t i do_free s =
    let pte = s.memory.entries t i in
    if not (is_v pte)
    then none
    else if not (is_leaf pte)
    then none
    else elim (if do_free then release (to_pa pte) s else some s) [
      | none ↦ none
      | some s' ↦ some (record s' { memory = put s'.memory t i 0 })
    ]

pub unmap_page : ℕ → ℕ → Bool → Space → Option Space
unmap_page root a do_free s = elim (walk root a false s.memory) [
  | none ↦ none
  | some (none, m) ↦ none
  | some (some (t, i), m) ↦ clear_entry t i do_free s
]

-- `while a < va + npages * PGSIZE`: one round for each page.
pub unmap_from : ℕ → ℕ → ℕ → Bool → Space → Option Space
unmap_from zero root a do_free s = some s
unmap_from (suc rounds) root a do_free s = elim (unmap_page root a do_free s) [
  | none ↦ none
  | some s' ↦ unmap_from rounds root (a + pgsize) do_free s'
]

pub unmap : ℕ → ℕ → ℕ → Bool → Space → Option Space
unmap root va npages do_free s =
    if va % pgsize == 0 then unmap_from npages root va do_free s else none
