-- ===== src/Volume/Search.antt =====
-- fs.rs: the search for a free bit in one block of the bit map.
use native.Mathlib.Decide.{ℕ_discrete}
use web_os.Prelude.{
  ℕ, zero, suc, ◌+◌, ◌≤◌, ◌<◌, ◌≡◌, ◌⊎◌, inl, inr, Option, none, some, true, false, arith, ltb,
  if_intro, if◌then◌else◌,
}
use web_os.BlockStore.{Block}
use web_os.Volume.{bit_used, find_free}

-- What the search says of the bits from `bi` up to `stop`.
abbrev pub Found : ℕ → ℕ → Block → ℕ → ℕ → Option ℕ → Type 0
Found bi stop block b size none =
    (j : ℕ) → bi ≤ j → j < stop → b + j < size → bit_used block j ≡ true
Found bi stop block b size (some r) = (r < stop) × (b + r < size) × (bit_used block r ≡ false)

module _ (block : Block) (b size : ℕ) where
  split_first : (bi j : ℕ) → bi ≤ j → (bi ≡ j) ⊎ (bi + 1 ≤ j)
  split_first bi j lo = elim (ℕ_discrete bi j) [
    | yes e ↦ inl e
    | no ne ↦ inr (omega (arith, lo, ne))
  ]

  widen :
      (bi stop : ℕ) (o : Option ℕ)
      → bit_used block bi ≡ true
      → Found (bi + 1) stop block b size o
      → Found bi stop block b size o
  widen bi stop none taken f = λ j lo hi inside. elim (split_first bi j lo) [
    | inl e ↦ rw (← e) taken
    | inr lt ↦ f j lt hi inside
  ]
  widen bi stop (some r) taken f = f

  pub find_free_lem :
      (rounds bi stop : ℕ)
      → bi + rounds ≡ stop
      → Found bi stop block b size (find_free rounds bi block b size)
  unfolding find_free
  find_free_lem zero bi stop e = λ j lo hi inside. absurd (omega (arith, e, lo, hi))
  find_free_lem (suc rounds) bi stop e =
      let rest = find_free rounds (bi + 1) block b size in
      if_intro (Found bi stop block b size) (ltb (b + bi) size)
        (if bit_used block bi then rest else some bi) none
        (λ inside.
          if_intro (Found bi stop block b size) (bit_used block bi) rest (some bi)
            (λ taken.
              widen bi stop rest taken (find_free_lem rounds (bi + 1) stop (omega (arith, e))))
            (λ unset. (omega (arith, e), ground (arith, inside), unset)))
        (λ past j lo hi inside. absurd (ground (arith, past, lo, inside)))
