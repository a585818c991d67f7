-- ===== src/Prelude/Ring.antt =====
-- The cells of an array that is used in a circle: what `buf[(head + i) % size]` holds for i < len.
use native.Mathlib.Nat.{add-zero, mod-add-mod, mod-eq_of_lt, mod-eq-sub-mod}
use native.Mathlib.Decide.{dec_lt}
use web_os.Prelude.{
  ℕ, zero, suc, ◌+◌, ◌-◌, ◌%◌, ◌≤◌, ◌<◌, ◌≡◌, ◌≢◌, refl, ap, ◌∙◌, List, [], ◌∷◌, ◌++◌, arith,
  length, get_or, set, get_or-set_self, get_or-set_ne,
}

module _ (buf : List ℕ) (size : ℕ) where
  abbrev pub cells : ℕ → ℕ → List ℕ
  cells head zero = []
  cells head (suc len) = get_or buf head 0 ∷ cells ((head + 1) % size) len

  pub length-cells : (head len : ℕ) → length (cells head len) ≡ len
  length-cells head zero = refl
  length-cells head (suc len) = ap suc (length-cells ((head + 1) % size) len)

  -- The code tests `len == 0` and uses `len - 1`.
  pub cells_pos :
      (head len : ℕ)
      → len ≢ 0
      → cells head len ≡ get_or buf head 0 ∷ cells ((head + 1) % size) (len - 1)
  cells_pos head zero h = absurd (h refl)
  cells_pos head (suc len) h = ap (λ k. cells head (suc k)) (omega arith)

-- Going on by less than a full turn never comes back to where it began.
turn-ne : (size head k : ℕ) → head < size → suc k < size → (head + suc k) % size ≢ head
turn-ne size head k inside short = elim (dec_lt (head + suc k) size) [
  | yes p ↦ omega (arith, mod-eq_of_lt p)
  | no p ↦ omega (
    arith,
    mod-eq-sub-mod {n = head + suc k} {m = size} (omega arith),
    mod-eq_of_lt {n = head + suc k - size} {m = size} (omega arith),
  )
]

turn_step : (size head n : ℕ) → (head + suc n) % size ≡ ((head + 1) % size + n) % size
turn_step size head n = rw mod-add-mod (ap (λ k. k % size) (omega arith))

-- A write to the cell behind the last one adds its value at the end.
pub cells-set :
    (buf : List ℕ) (size x len head tail : ℕ)
    → size ≤ length buf
    → head < size
    → len < size
    → tail ≡ (head + len) % size
    → cells (set buf tail x) size head (suc len) ≡ cells buf size head len ++ x ∷ []
cells-set buf size x zero head tail fits inside room e =
    let at : tail ≡ head = e ∙ rw add-zero (mod-eq_of_lt inside) in
    rw (at, get_or-set_self buf head x 0 (omega arith))
cells-set buf size x (suc len) head tail fits inside room e =
    let rest =
      cells-set buf size x len ((head + 1) % size) tail fits (omega arith) (omega arith)
        (e ∙ turn_step size head len) in
    let apart : tail ≢ head = rw e (turn-ne size head len inside room) in
    rw (get_or-set_ne buf x 0 apart) (ap (λ r. get_or buf head 0 ∷ r) rest)
