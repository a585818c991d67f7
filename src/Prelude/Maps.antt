-- ===== src/Prelude/Maps.antt =====
-- Maps from numbers as functions, with a point update.
use Prim.Native.Nat.{ℕ}
use mathlib.Core.Path.{◌≡◌}
use mathlib.Core.Logic.{◌≢◌}
use web_os.Prelude.Tests.{◌==◌, ==_refl, ==_ne, if◌then◌else◌}

module _ {ℓ} {A : Type ℓ} where
  abbrev pub update : (ℕ → A) → ℕ → A → ℕ → A
  update f k v j = if j == k then v else f j

  pub update_self : (f : ℕ → A) (k : ℕ) (v : A) → update f k v k ≡ v
  update_self f k v = rw ==_refl

  pub update_ne : (f : ℕ → A) {k j : ℕ} (v : A) → j ≢ k → update f k v j ≡ f j
  update_ne f v h = rw (==_ne _ _ h)
