-- ===== src/Log/Install.antt =====
-- log.rs, `install_trans`: what copying the logged blocks to their home blocks leaves.
use web_os.Prelude.{
  ℕ, zero, suc, ◌+◌, ◌-◌, ◌≤◌, ◌<◌, ◌≡◌, ◌≢◌, refl, ◌∙◌, sym, ap, some, Bool, true, false, inl, inr,
  Bool-cases, List, [], ◌∷◌, All, ◌⊎◌, arith, length, take, elem, update, update_self, update_ne,
  ==_refl,
}
use web_os.BlockStore.{Block, Machine, serve, bwrite, unpin}
use web_os.Log.{install_from}

-- `b` lies outside the `size` blocks of the log, which begin at `start`.
abbrev pub IsHome : ℕ → ℕ → ℕ → Type 0
IsHome start size b = (b < start) ⊎ (start + size ≤ b)

-- The blocks after copying log block `start + tail + 1` to the first entry, the next to the next.
pub installed : ℕ → ℕ → List ℕ → (ℕ → Block) → ℕ → Block
installed start tail [] v = v
installed start tail (b ∷ bs) v = installed start (tail + 1) bs (update v b (v (start + tail + 1)))

pub installed_other :
    (start tail : ℕ) (bs : List ℕ) (v : ℕ → Block) (x : ℕ)
    → elem x bs ≡ false
    → installed start tail bs v x ≡ v x
unfolding installed
installed_other start tail [] v x h = refl
installed_other start tail (b ∷ bs) v x h =
    ground (arith, installed_other start (tail + 1) bs (update v b (v (start + tail + 1))) x)

-- The log blocks from `start + tail + 1` on hold, in `v`, what `w` has for the entries.
abbrev pub Logged : ℕ → ℕ → List ℕ → (ℕ → Block) → (ℕ → Block) → Type 0
Logged start tail [] v w = Unit
Logged start tail (b ∷ bs) v w = (v (start + tail + 1) ≡ w b) × Logged start (tail + 1) bs v w

-- Only the blocks of the log matter for `Logged`, and a home block is none of them.
pub Logged-update :
    (start size tail : ℕ) (bs : List ℕ) (v w : ℕ → Block) (b : ℕ) (c : Block)
    → IsHome start size b
    → tail + length bs < size
    → Logged start tail bs v w
    → Logged start tail bs (update v b c) w
Logged-update start size tail [] v w b c home fits h = tt
Logged-update start size tail (a ∷ bs) v w b c home fits h = (
  update_ne v c (omega arith) ∙ h.0,
  Logged-update start size (tail + 1) bs v w b c home (omega arith) h.1,
)

installed_last :
    (start tail : ℕ) (bs : List ℕ) (v : ℕ → Block) (x b : ℕ) (c : Block)
    → x ≡ b
    → elem x bs ≡ false
    → installed start tail bs (update v b c) x ≡ c
installed_last start tail bs v x b c at last =
    installed_other start tail bs (update v b c) x last ∙ rw at (update_self v b c)

-- Installing a log that holds `w` gives every entry its block of `w`, the last copy of it counting.
pub installed_entries :
    (start size tail : ℕ) (bs : List ℕ) (v w : ℕ → Block)
    → All (IsHome start size) bs
    → tail + length bs < size
    → Logged start tail bs v w
    → (x : ℕ) → elem x bs ≡ true
    → installed start tail bs v x ≡ w x
unfolding installed
installed_entries start size tail [] v w homes fits h x e = cc
installed_entries start size tail (b ∷ bs) v w homes fits h x e = elim (Bool-cases (elem x bs)) [
  | inl later ↦
      installed_entries start size (tail + 1) bs (update v b (v (start + tail + 1))) w homes.1
        (omega arith)
        (Logged-update start size (tail + 1) bs v w b (v (start + tail + 1)) homes.0 (omega arith)
          h.1)
        x later
  | inr last ↦
      (let at : x ≡ b = ground (arith, e, last) in
        installed_other start (tail + 1) bs (update v b (v (start + tail + 1))) x last
        ∙ rw (at, ==_refl) h.0)
]

-- Two contents that agree on the blocks of the log install the same into the entries.
pub installed_agree :
    (start size tail : ℕ) (bs : List ℕ) (v w : ℕ → Block)
    → All (IsHome start size) bs
    → tail + length bs < size
    → ((x : ℕ) → start < x → x < start + size → v x ≡ w x)
    → (x : ℕ) → elem x bs ≡ true
    → installed start tail bs v x ≡ installed start tail bs w x
unfolding installed
installed_agree start size tail [] v w homes fits same x e = cc
installed_agree start size tail (b ∷ bs) v w homes fits same x e =
    let c = v (start + tail + 1) in
    let d = w (start + tail + 1) in
    let kept = λ (y : ℕ) (lo : start < y) (hi : y < start + size).
      let off : y ≢ b = omega (arith, homes.0) in
      update_ne v c off ∙ same y lo hi ∙ sym (update_ne w d off) in
    elim (Bool-cases (elem x bs)) [
      | inl later ↦
          installed_agree start size (tail + 1) bs (update v b c) (update w b d) homes.1
            (omega arith) kept x later
      | inr last ↦
          (let at : x ≡ b = ground (arith, e, last) in
            installed_last start (tail + 1) bs v x b c at last
            ∙ same (start + tail + 1) (omega arith) (omega arith)
            ∙ sym (installed_last start (tail + 1) bs w x b d at last))
    ]

-- What `install_from` leaves, on any power.
pub record Installs (start tail : ℕ) (recovering : Bool) (rounds : ℕ) (bs : List ℕ) (m : Machine)
    : Type 0 where
  pub after : Machine
  pub runs : install_from start recovering tail rounds bs m ≡ some after
  pub shows : after.view ≡ installed start tail (take rounds bs) m.view
  pub other : (x : ℕ) → elem x (take rounds bs) ≡ false → after.disk x ≡ m.disk x
  pub entries :
      rounds ≤ m.power → (x : ℕ) → elem x (take rounds bs) ≡ true → after.disk x ≡ after.view x
  pub dead : m.power ≡ 0 → after.disk ≡ m.disk
  pub left : after.power ≡ m.power - rounds
  pub flag : after.recovered ≡ m.recovered

pub serve_ne : (p : ℕ) (d : ℕ → Block) (b : ℕ) (c : Block) (x : ℕ) → x ≢ b → serve p d b c x ≡ d x
serve_ne zero d b c x h = refl
serve_ne (suc p) d b c x h = update_ne d c h

pub serve_self : (p : ℕ) (d : ℕ → Block) (b : ℕ) (c : Block) → 0 < p → serve p d b c b ≡ c
serve_self zero d b c h = absurd (omega arith)
serve_self (suc p) d b c h = update_self d b c

pub serve_dead : (p : ℕ) (d : ℕ → Block) (b : ℕ) (c : Block) (x : ℕ) → p ≡ 0 → serve p d b c x ≡ d x
serve_dead zero d b c x h = refl
serve_dead (suc p) d b c x h = absurd (omega arith)

-- One copy, to `t`, in front of the others.
Installs-cons :
    (start tail : ℕ) (recovering : Bool) (rounds b : ℕ) (bs : List ℕ) (m t : Machine)
    → (install_from start recovering tail (suc rounds) (b ∷ bs) m
        ≡ install_from start recovering (tail + 1) rounds bs t)
    → t.disk ≡ serve m.power m.disk b (m.view (start + tail + 1))
    → t.view ≡ update m.view b (m.view (start + tail + 1))
    → t.power ≡ m.power - 1
    → t.recovered ≡ m.recovered
    → Installs start (tail + 1) recovering rounds bs t
    → Installs start tail recovering (suc rounds) (b ∷ bs) m
unfolding installed
Installs-cons start tail recovering rounds b bs m t step on_disk in_view power flag rest = record {
  after = rest.after;
  runs = step ∙ rest.runs;
  shows = rest.shows ∙ ap (installed start (tail + 1) (take rounds bs)) in_view;
  other = λ x e.
      rest.other x (ground (arith, e))
      ∙ ap (λ d. d x) on_disk
      ∙ serve_ne m.power m.disk b (m.view (start + tail + 1)) x (ground (arith, e));
  entries = λ p x e. elim (Bool-cases (elem x (take rounds bs))) [
    | inl later ↦ rest.entries (omega (arith, power)) x later
    | inr last ↦
        (let at : x ≡ b = ground (arith, e, last) in
          let shown : rest.after.view x ≡ m.view (start + tail + 1) =
            ap (λ v. v x) rest.shows
            ∙ installed_other start (tail + 1) (take rounds bs) t.view x last
            ∙ ap (λ v. v x) in_view
            ∙ rw (at, ==_refl) refl in
          let stored : rest.after.disk x ≡ m.view (start + tail + 1) =
            rest.other x last
            ∙ ap (λ d. d x) on_disk
            ∙ rw at (serve_self m.power m.disk b (m.view (start + tail + 1)) (omega arith)) in
          stored ∙ sym shown)
  ];
  dead = λ e. rest.dead (omega (arith, power)) ∙ on_disk ∙ rw e refl;
  left = omega (arith, rest.left, power);
  flag = rest.flag ∙ flag;
}

-- `install_trans` never indexes past its array, on a power that may end anywhere in it.
pub install_from_lem :
    (start tail : ℕ) (recovering : Bool) (rounds : ℕ) (bs : List ℕ) (m : Machine)
    → rounds ≤ length bs
    → Installs start tail recovering rounds bs m
unfolding install_from installed
install_from_lem start tail recovering zero bs m h = record {
  after = m;
  runs = refl;
  shows = refl;
  other = λ x e. refl;
  entries = λ p x e. cc;
  dead = λ e. refl;
  left = omega arith;
  flag = refl;
}
install_from_lem start tail recovering (suc rounds) [] m h = absurd (omega arith)
install_from_lem start tail true (suc rounds) (b ∷ bs) m h =
    let t = bwrite m b (m.view (start + tail + 1)) in
    Installs-cons start tail true rounds b bs m t refl refl refl refl refl
      (install_from_lem start (tail + 1) true rounds bs t (omega arith))
install_from_lem start tail false (suc rounds) (b ∷ bs) m h =
    let t = unpin (bwrite m b (m.view (start + tail + 1))) b in
    Installs-cons start tail false rounds b bs m t refl refl refl refl refl
      (install_from_lem start (tail + 1) false rounds bs t (omega arith))
