-- ===== src/PageTable/Ranges.antt =====
-- vm.rs: the loop of `mappages`: what it says of a range of pages, round by round.
use Prim.Native.Nat.{bit_or}
use web_os.Prelude.{
  ℕ, suc, ◌+◌, ◌-◌, ◌*◌, ◌/◌, ◌%◌, ◌^◌, ◌≤◌, ◌<◌, ◌≡◌, ◌≢◌, ◌∙◌, ap, refl, Option, some, true,
  false, arith, length, ◌==◌, ◌⊎◌, inl, inr,
}
use native.Mathlib.Decide.{dec_lt}
use web_os.Errors.{Result, ok, err, out_of_memory}
use web_os.PageTable.{Memory, is_v, entry, map_page, map_from, maxva, pte_v, pgsize}
use web_os.PageTable.Tree.{Owner, lookup}
use web_os.PageTable.Mapping.{HasRoot, PageMapped, Adds, Keeps}

-- An address of the `k + 1` pages from `va` on.
abbrev pub Among : ℕ → ℕ → ℕ → Type 0
Among va k a = (va ≤ a) × (a < va + (k + 1) * 4096)

abbrev pub Outside : ℕ → ℕ → ℕ → Type 0
Outside va k a = (a < va) ⊎ (va + (k + 1) * 4096 ≤ a)

abbrev pub Unmapped : ℕ → Memory → ℕ → ℕ → Type 0
Unmapped root m va k = (a : ℕ) → Among va k a → is_v (lookup 2 root a m) ≡ false

-- Each page of the range leads to its own page from `pa` on.
abbrev pub Covered : ℕ → ℕ → ℕ → ℕ → ℕ → Memory → Type 0
Covered root va k pa perm m =
    (a : ℕ)
    → Among va k a
    → lookup 2 root a m ≡ entry (pa + (a - va) / 4096 * 4096) (bit_or perm (2 ^ pte_v))

-- The range is mapped, or there are too few free pages for tables; what lies outside stays.
pub record RangeMapped (root va k pa perm : ℕ) (m : Memory)
    (run : Option (Result (Unit {0}) × Memory)) : Type 0 where
  pub owner' : Owner
  pub m' : Memory
  pub rooted : HasRoot root owner' m'
  pub result :
      ((run ≡ some (ok tt, m')) × Covered root va k pa perm m')
      ⊎ ((run ≡ some (err out_of_memory, m')) × (length m.free < 2 * (k + 1)))
  pub outside : (a : ℕ) → a < maxva → Outside va k a → lookup 2 root a m' ≡ lookup 2 root a m

map_from_failed :
    (rounds root last va pa perm : ℕ) (m m' : Memory)
    → map_page root va pa perm m ≡ some (err out_of_memory, m')
    → map_from (suc rounds) root last va pa perm m ≡ some (err out_of_memory, m')
unfolding map_from
map_from_failed rounds root last va pa perm m m' e = rw (map_from, e) refl

map_from_last :
    (rounds root last va pa perm : ℕ) (m m' : Memory)
    → map_page root va pa perm m ≡ some (ok tt, m')
    → (va == last) ≡ true
    → map_from (suc rounds) root last va pa perm m ≡ some (ok tt, m')
unfolding map_from
map_from_last rounds root last va pa perm m m' e at = rw (map_from, e, at) refl

map_from_next :
    (rounds root last va pa perm : ℕ) (m m' : Memory)
    → map_page root va pa perm m ≡ some (ok tt, m')
    → (va == last) ≡ false
    → map_from (suc rounds) root last va pa perm m
      ≡ map_from rounds root last (va + pgsize) (pa + pgsize) perm m'
unfolding map_from
map_from_next rounds root last va pa perm m m' e at = rw (map_from, e, at) refl

module _ (root perm : ℕ) where
  pub range_failed :
      (k last va pa : ℕ) (m : Memory)
      (p : PageMapped root m va (entry pa (bit_or perm (2 ^ pte_v))) (map_page root va pa perm m))
      → map_page root va pa perm m ≡ some (err out_of_memory, p.m')
      → Keeps root m p.m'
      → length m.free < 2
      → RangeMapped root va k pa perm m (map_from (suc k) root last va pa perm m)
  range_failed k last va pa m p e keeps few = record {
    owner' = p.owner';
    m' = p.m';
    rooted = p.rooted;
    result = inr (map_from_failed k root last va pa perm m p.m' e, omega (arith, few));
    outside = λ a short out. keeps a;
  }

  pub range_last :
      (last va pa : ℕ) (m : Memory)
      (p : PageMapped root m va (entry pa (bit_or perm (2 ^ pte_v))) (map_page root va pa perm m))
      → va % 4096 ≡ 0
      → va < maxva
      → last ≡ va
      → map_page root va pa perm m ≡ some (ok tt, p.m')
      → Adds root va (entry pa (bit_or perm (2 ^ pte_v))) m p.m'
      → RangeMapped root va 0 pa perm m (map_from 1 root last va pa perm m)
  range_last last va pa m p aligned inside at e adds = record {
    owner' = p.owner';
    m' = p.m';
    rooted = p.rooted;
    result = inl (
      map_from_last 0 root last va pa perm m p.m' e (ground (arith, at)),
      (λ a among.
          adds.0 a (omega (arith, among, inside, aligned)) (omega (arith, among, aligned))
          ∙ ap (λ pa'. entry pa' (bit_or perm (2 ^ pte_v))) (omega (arith, among))),
    );
    outside = λ a short out. adds.1 a short (λ e. apart a out e);
  }
    where
      apart : (a : ℕ) → Outside va 0 a → a / 4096 ≢ va / 4096
      apart a (inl below) e = omega (arith, below, e, aligned)
      apart a (inr above) e = omega (arith, above, e, aligned)

  pub range_next :
      (k last va pa : ℕ) (m : Memory)
      (p : PageMapped root m va (entry pa (bit_or perm (2 ^ pte_v))) (map_page root va pa perm m))
      → va % 4096 ≡ 0
      → last < maxva
      → last ≡ va + (k + 1) * 4096
      → map_page root va pa perm m ≡ some (ok tt, p.m')
      → Adds root va (entry pa (bit_or perm (2 ^ pte_v))) m p.m'
      → RangeMapped root
          (va + 4096)
          k
          (pa + 4096)
          perm
          p.m'
          (map_from (suc k) root last (va + 4096) (pa + 4096) perm p.m')
      → RangeMapped root va (suc k) pa perm m (map_from (suc (suc k)) root last va pa perm m)
  range_next k last va pa m p aligned inside at e adds rest = record {
    owner' = rest.owner';
    m' = rest.m';
    rooted = rest.rooted;
    result = outcome rest.result;
    outside = λ a short out.
        rest.outside a short (out_next a out) ∙ adds.1 a short (λ e'. apart a out e');
  }
    where
      step :
          map_from (suc (suc k)) root last va pa perm m
          ≡ map_from (suc k) root last (va + 4096) (pa + 4096) perm p.m'
      step = map_from_next (suc k) root last va pa perm m p.m' e (ground (arith, at))

      apart : (a : ℕ) → Outside va (suc k) a → a / 4096 ≢ va / 4096
      apart a (inl below) e' = omega (arith, below, e', aligned)
      apart a (inr above) e' = omega (arith, above, e', aligned)

      out_next : (a : ℕ) → Outside va (suc k) a → Outside (va + 4096) k a
      out_next a (inl below) = inl (omega (arith, below))
      out_next a (inr above) = inr (omega (arith, above))

      first :
          (a : ℕ)
          → Among va (suc k) a
          → a < va + 4096
          → lookup 2 root a rest.m' ≡ entry (pa + (a - va) / 4096 * 4096) (bit_or perm (2 ^ pte_v))
      first a among near =
          rest.outside a (omega (arith, among, inside, at, near)) (inl near)
          ∙ adds.0 a (omega (arith, among, inside, at, near)) (omega (arith, among, near, aligned))
          ∙ ap (λ pa'. entry pa' (bit_or perm (2 ^ pte_v))) (omega (arith, among, near))

      later :
          Covered root (va + 4096) k (pa + 4096) perm rest.m'
          → (a : ℕ) → Among va (suc k) a
          → va + 4096 ≤ a
          → lookup 2 root a rest.m' ≡ entry (pa + (a - va) / 4096 * 4096) (bit_or perm (2 ^ pte_v))
      later covered a among far =
          covered a (far, omega (arith, among))
          ∙ ap (λ pa'. entry pa' (bit_or perm (2 ^ pte_v))) (omega (arith, among, far))

      outcome :
          ((map_from (suc k) root last (va + 4096) (pa + 4096) perm p.m' ≡ some (ok tt, rest.m'))
              × Covered root (va + 4096) k (pa + 4096) perm rest.m')
            ⊎ ((map_from (suc k) root last (va + 4096) (pa + 4096) perm p.m'
                  ≡ some (err out_of_memory, rest.m'))
                × (length p.m'.free < 2 * (k + 1)))
          → ((map_from (suc (suc k)) root last va pa perm m ≡ some (ok tt, rest.m'))
              × Covered root va (suc k) pa perm rest.m')
            ⊎ ((map_from (suc (suc k)) root last va pa perm m ≡ some (err out_of_memory, rest.m'))
                × (length m.free < 2 * (suc k + 1)))
      outcome (inl (ends, covered)) = inl (
        step ∙ ends,
        (λ a among. elim (dec_lt a (va + 4096)) [
          | yes near ↦ first a among near
          | no far ↦ later covered a among (omega (arith, far))
        ]),
      )
      outcome (inr (ends, few)) = inr (step ∙ ends, omega (arith, few, p.pages))
