-- ===== src/Log/Copy.antt =====
-- log.rs, `write_log`: what copying the logged blocks of the cache to the log leaves.
use web_os.Prelude.{
  ℕ, zero, suc, ◌+◌, ◌-◌, ◌≤◌, ◌<◌, ◌≡◌, ◌≢◌, ◌⊎◌, inl, inr, refl, ◌∙◌, some, List, [], ◌∷◌, All,
  arith, length, take, update_self, update_ne,
}
use web_os.BlockStore.{Block, Machine, bwrite}
use web_os.Log.{write_log_from}
use web_os.Log.Install.{IsHome, Logged, serve_ne, serve_self}

-- A home block, or one in front of the log block for entry `tail`.
abbrev pub Apart : ℕ → ℕ → ℕ → ℕ → Type 0
Apart start size tail x = (IsHome start size x) ⊎ (x ≤ start + tail)

Apart-suc : (start size tail x : ℕ) → Apart start size tail x → Apart start size (tail + 1) x
Apart-suc start size tail x (inl home) = inl home
Apart-suc start size tail x (inr front) = inr (omega arith)

-- What `write_log_from` leaves, on any power.
pub record Copies (start size tail rounds : ℕ) (bs : List ℕ) (m : Machine) : Type 0 where
  pub after : Machine
  pub runs : write_log_from start tail rounds bs m ≡ some after
  -- No home block, no header and no log block in front of `tail` changes.
  pub shows : (x : ℕ) → Apart start size tail x → after.view x ≡ m.view x
  pub disk : (x : ℕ) → Apart start size tail x → after.disk x ≡ m.disk x
  pub copied : Logged start tail (take rounds bs) after.view m.view
  pub stored : rounds ≤ m.power → Logged start tail (take rounds bs) after.disk m.view
  pub stage : after.crash_stage ≡ m.crash_stage
  pub left : after.power ≡ m.power - rounds
  pub flag : after.recovered ≡ m.recovered

-- Two contents of the cache that agree on the entries are logged alike.
Logged-agree :
    (start size tail : ℕ) (bs : List ℕ) (v w u : ℕ → Block)
    → All (IsHome start size) bs
    → ((x : ℕ) → IsHome start size x → w x ≡ u x)
    → Logged start tail bs v w
    → Logged start tail bs v u
Logged-agree start size tail [] v w u homes same h = tt
Logged-agree start size tail (b ∷ bs) v w u homes same h =
    (h.0 ∙ same b homes.0, Logged-agree start size (tail + 1) bs v w u homes.1 same h.1)

pub write_log_from_lem :
    (start size tail rounds : ℕ) (bs : List ℕ) (m : Machine)
    → rounds ≤ length bs
    → tail + rounds < size
    → All (IsHome start size) (take rounds bs)
    → Copies start size tail rounds bs m
unfolding write_log_from
write_log_from_lem start size tail zero bs m h fits homes = record {
  after = m;
  runs = refl;
  shows = λ x o. refl;
  disk = λ x o. refl;
  copied = tt;
  stored = λ p. tt;
  stage = refl;
  left = omega arith;
  flag = refl;
}
write_log_from_lem start size tail (suc rounds) [] m h fits homes = absurd (omega arith)
write_log_from_lem start size tail (suc rounds) (b ∷ bs) m h fits homes =
    let at = start + tail + 1 in
    let t = bwrite m at (m.view b) in
    let rest =
      write_log_from_lem start size (tail + 1) rounds bs t (omega arith) (omega arith) homes.1 in
    let same = λ (x : ℕ) (o : IsHome start size x).
      let off : x ≢ at = omega arith in update_ne m.view (m.view b) off in
    record {
      after = rest.after;
      runs = rest.runs;
      shows = λ x o.
          rest.shows x (Apart-suc start size tail x o) ∙ update_ne m.view (m.view b) (omega arith);
      disk = λ x o.
          rest.disk x (Apart-suc start size tail x o)
          ∙ serve_ne m.power m.disk at (m.view b) x (omega arith);
      copied = (
        rest.shows at (inr (omega arith)) ∙ update_self m.view at (m.view b),
        Logged-agree start size (tail + 1) (take rounds bs) rest.after.view t.view m.view homes.1
            same rest.copied,
      );
      stored = λ p. (
        rest.disk at (inr (omega arith)) ∙ serve_self m.power m.disk at (m.view b) (omega arith),
        Logged-agree start size (tail + 1) (take rounds bs) rest.after.disk t.view m.view homes.1
            same (rest.stored (omega arith)),
      );
      stage = rest.stage;
      left = omega (arith, rest.left);
      flag = rest.flag;
    }
