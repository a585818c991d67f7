-- ===== src/Log/Ops/Safety.antt =====
-- log.rs: no interleaving of transactions overruns the log, and none tears a commit.
use native.Mathlib.Decide.{dec_lt}
use web_os.Prelude.{
  ◌^◌, ◌+◌, ◌≤◌, ◌⊎◌, ℕ, suc, ◌<◌, ◌≡◌, refl, ap, none, some, Option-cases, inl, inr, Bool, true,
  List, [], ◌∷◌, ◌++◌, arith, length,
}
use web_os.BlockStore.{Machine}
use web_os.Log.{Log, log_size}
use web_os.Log.Atomic.{IsReady}
use web_os.Log.Ops.{Sys, Reach, write, end_op}
use web_os.Log.Ops.Invariant.{IsSafe, Reach-IsSafe, sum, sum-split, length-split}

fits_lem :
    {t : Sys} (xs ys : List ℕ) (k b : ℕ)
    → IsSafe t
    → t.todo ≡ xs ++ suc k ∷ ys
    → t.log.lh.n + 1 < t.log.size
    → ¬ (write t.log t.machine b ≡ none)
unfolding write
fits_lem {t} xs ys k b safe e less failed = ground (
  arith,
  safe.running,
  safe.room,
  less,
  safe.word,
  ap sum e,
  sum-split xs ys (suc k),
  ap (length {0}) e,
  length-split xs ys (suc k),
)

full_lem :
    (l : Log) (m : Machine) (b : ℕ) → l.size < 2 ^ 32 → l.size ≡ l.lh.n + 1 → write l m b ≡ none
unfolding write
full_lem l m b word full = ground (arith, word, full)

ends_lem :
    {t : Sys} (xs ys : List ℕ) (k : ℕ) → IsSafe t → t.todo ≡ xs ++ k ∷ ys → ¬ (end_op t.log ≡ none)
unfolding end_op
ends_lem {t} xs ys k safe e failed =
    ground (arith, safe.running, safe.alone, ap (length {0}) e, length-split xs ys k)

none_left : (xs : List ℕ) → length xs ≡ 0 → xs ≡ []
none_left [] e = refl
none_left (x ∷ xs) e = absurd (omega arith)

-- What `write` does for an operation that may still add a block: it succeeds while the log has fewer
-- than `size - 1` blocks, and panics when it has that many, which needs a log of at most LOGSIZE.
abbrev pub WriteAnswers : Log → Machine → ℕ → Type 0
WriteAnswers l m b =
    ((l.lh.n + 1 < l.size) × ((l' : Log) × (m' : Machine) × (write l m b ≡ some (l', m'))))
    ⊎ ((l.size ≡ l.lh.n + 1) × (l.size ≤ log_size) × (write l m b ≡ none))

-- In every state that threads reach from a safe one, a running operation that has added fewer than
-- MAXOPBLOCKS blocks can log any block if the log of size blocks has fewer than size - 1 entries; if
-- it has size - 1, write panics, and this needs a log of at most LOGSIZE blocks, such as mkfs makes.
-- A state is safe if as many operations run as are outstanding, each with at most MAXOPBLOCKS blocks
-- still to add, these and the entries together are at most LOGSIZE, none runs while a commit is due,
-- the entry array has LOGSIZE slots, the entries are home blocks and fewer than the blocks of the
-- log, whose number is below 2^32, and the header on disk is empty while the device is served.
pub write_fits :
    {s t : Sys} (xs ys : List ℕ) (k b : ℕ)
    → IsSafe s
    → Reach s t
    → t.todo ≡ xs ++ suc k ∷ ys
    → WriteAnswers t.log t.machine b
write_fits {t = t} xs ys k b h r e =
    let safe = Reach-IsSafe h r in
    elim (dec_lt (t.log.lh.n + 1) t.log.size) [
      | no full ↦ inr (
        omega (arith, full, safe.fits),
        omega (arith, full, safe.room, ap sum e, sum-split xs ys (suc k)),
        full_lem t.log t.machine b safe.word (omega (arith, full, safe.fits)),
      )
      | yes less ↦ inl (
        less,
        elim (Option-cases (write t.log t.machine b)) [
          | inl failed ↦ absurd (fits_lem xs ys k b safe e less failed)
          | inr ((l, m), done) ↦ (l, m, done)
        ],
      )
    ]

-- In every state that threads reach from a safe one a running operation can end: end_op neither
-- underflows nor finds a commit under way. A state is safe if as many operations run as are
-- outstanding, each with at most MAXOPBLOCKS blocks still to add, these and the entries together are
-- at most LOGSIZE, none runs while a commit is due, the entry array has LOGSIZE slots, the entries
-- are home blocks and fewer than the blocks of the log, whose number is below 2^32, and the header
-- on disk is empty while the device is served.
pub end_op_fits :
    {s t : Sys} (xs ys : List ℕ) (k : ℕ)
    → IsSafe s
    → Reach s t
    → t.todo ≡ xs ++ k ∷ ys
    → (l : Log) × (last : Bool) × (end_op t.log ≡ some (l, last))
end_op_fits {t = t} xs ys k h r e = elim (Option-cases (end_op t.log)) [
  | inl failed ↦ absurd (ends_lem xs ys k (Reach-IsSafe h r) e failed)
  | inr ((l, last), done) ↦ (l, last, done)
]

-- In every state that threads reach from a safe one with a commit due and the device still served,
-- no operation is running, and the log and the disk are as commit_atomic requires them. A state is
-- safe if as many operations run as are outstanding, each with at most MAXOPBLOCKS blocks still to
-- add, these and the entries together are at most LOGSIZE, none runs while a commit is due, the
-- entry array has LOGSIZE slots, the entries are home blocks and fewer than the blocks of the log,
-- whose number is below 2^32, and the header on disk is empty while the device is served.
pub commit-IsReady :
    {s t : Sys}
    → IsSafe s
    → Reach s t
    → t.log.committing ≡ true
    → 0 < t.machine.power
    → (t.todo ≡ []) × IsReady t.log t.machine
commit-IsReady {t = t} h r due power =
    let safe = Reach-IsSafe h r in
    (
      none_left t.todo (omega (arith, safe.running, safe.alone due)),
      record {
        laid_out = record {
          indexed = omega (arith, safe.room, safe.array);
          fits = safe.fits;
          homes = safe.homes;
        };
        array = safe.array;
        clean = safe.clean power;
      },
    )
