-- ===== src/PageTable/Words.antt =====
-- vm.rs: what the words of page-table entries say.
use Prim.Native.Nat.{max, digits, bit_or, bit_or-bitwise}
use web_os.Prelude.{
  ℕ, zero, suc, ◌+◌, ◌*◌, ◌/◌, ◌%◌, ◌^◌, ◌≤◌, ◌<◌, ◌≡◌, ◌∙◌, ap, refl, true, arith,
}
use web_os.PageTable.{is_v, to_pa, entry}

abbrev joined : ℕ → ℕ → ℕ → ℕ
joined fuel x y = digits (λ z. z) max fuel x y

-- Any fuel that is enough gives the same.
joined_same : (x y fuel other : ℕ) → x ≤ fuel → x ≤ other → joined fuel x y ≡ joined other x y
joined_same zero y zero zero h k = refl
joined_same zero y zero (suc other) h k = refl
joined_same zero y (suc fuel) zero h k = refl
joined_same zero y (suc fuel) (suc other) h k = refl
joined_same (suc x) y zero other h k = absurd (omega (arith, h))
joined_same (suc x) y (suc fuel) zero h k = absurd (omega (arith, k))
joined_same (suc x) y (suc fuel) (suc other) h k =
    omega (arith, joined_same (suc x / 2) (y / 2) fuel other (omega (arith, h)) (omega (arith, k)))

-- The lowest digit and the rest.
bit_or_halves : (x y : ℕ) → bit_or x y ≡ bit_or (x / 2) (y / 2) * 2 + max (x % 2) (y % 2)
bit_or_halves zero y = omega (arith, bit_or-bitwise 0 y, bit_or-bitwise 0 (y / 2))
bit_or_halves (suc x) y = omega (
  arith,
  bit_or-bitwise (suc x) y,
  bit_or-bitwise (suc x / 2) (y / 2),
  joined_same (suc x / 2) (y / 2) x (suc x / 2) (omega arith) (omega arith),
)

bit_or_zero : (bound x : ℕ) → x ≤ bound → bit_or x 0 ≡ x
bit_or_zero zero zero h = refl
bit_or_zero zero (suc x) h = absurd (omega (arith, h))
bit_or_zero (suc bound) zero h = refl
bit_or_zero (suc bound) (suc x) h =
    omega (arith, bit_or_halves (suc x) 0, bit_or_zero bound (suc x / 2) (omega (arith, h)))

-- A digit more to the left.
abbrev shl : ℕ → ℕ → ℕ
shl zero x = x
shl (suc k) x = shl k x * 2

abbrev shr : ℕ → ℕ → ℕ
shr zero x = x
shr (suc k) x = shr k (x / 2)

bit_or-shl : (k x y : ℕ) → shr k y ≡ 0 → bit_or (shl k x) y ≡ shl k x + y
bit_or-shl zero x y h = rw h (bit_or_zero x x (omega arith) ∙ omega arith)
bit_or-shl (suc k) x y h =
    omega (arith, bit_or_halves (shl k x * 2) y, half (shl k x), bit_or-shl k x (y / 2) h)
  where
    half : (z : ℕ) → bit_or (z * 2 / 2) (y / 2) ≡ bit_or z (y / 2)
    half z = ap (λ a. bit_or a (y / 2)) (omega arith)

pub entry_lem : (pa attr : ℕ) → attr < 1024 → entry pa attr ≡ pa / 4096 * 1024 + attr
entry_lem pa attr h = omega (arith, bit_or-shl 10 (pa / 4096) attr (omega (arith, h)), shifted)
  where
    shifted : bit_or (pa / 2 ^ 12 * 2 ^ 10) attr ≡ bit_or (shl 10 (pa / 4096)) attr
    shifted = ap (λ a. bit_or a attr) (omega arith)

pub bit_or_one : (x : ℕ) → bit_or x 1 ≡ x / 2 * 2 + 1
bit_or_one x = omega (arith, bit_or_halves x 1, bit_or_zero (x / 2) (x / 2) (omega arith))

pub to_pa-entry : (pa attr : ℕ) → attr < 1024 → pa % 4096 ≡ 0 → to_pa (entry pa attr) ≡ pa
to_pa-entry pa attr h aligned = omega (arith, entry_lem pa attr h)

-- An entry for a next table is valid.
pub is_v-entry : (pa attr : ℕ) → attr < 1024 → attr % 2 ≡ 1 → is_v (entry pa attr) ≡ true
is_v-entry pa attr h odd = ground (arith, entry_lem pa attr h)
