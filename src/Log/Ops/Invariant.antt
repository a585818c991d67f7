-- ===== src/Log/Ops/Invariant.antt =====
-- log.rs: what holds of the shared log after any steps of any threads.
use mathlib.Core.Path.{subst}
use native.Mathlib.Numerals.{add-one}
use web_os.Prelude.{
  ℕ, suc, ◌+◌, ◌-◌, ◌*◌, ◌^◌, ◌≤◌, ◌<◌, ◌≡◌, refl, sym, take, ◌∙◌, ap, some, Option-cases, inl, inr,
  Bool, true, false, List, [], ◌∷◌, ◌++◌, All, arith, length, length-set, take-set_end, set, elem,
  ◌==◌,
}
use web_os.BlockStore.{Block, Machine, modify, pin}
use web_os.Log.{Log, LogHeader, max_op_blocks, log_size, decode, commit, cleared}
use web_os.Log.Install.{IsHome}
use web_os.Log.Recovery.{entries}
use web_os.Log.Keeps.{commit_keeps}
use web_os.Log.Ops.{
  Sys, Step, begins, adds, absorbs, ends, syncs, commits, Reach, here, next, begin_op, end_op,
  run_commit, sync, go, write, size_less_one,
}

unfoldable pub sum : List ℕ → ℕ
sum [] = 0
sum (x ∷ xs) = x + sum xs

pub sum-split : (xs ys : List ℕ) (k : ℕ) → sum (xs ++ k ∷ ys) ≡ k + sum (xs ++ ys)
unfolding sum
sum-split [] ys k = refl
sum-split (x ∷ xs) ys k = omega (arith, sum-split xs ys k)

pub length-split : (xs ys : List ℕ) (k : ℕ) → length (xs ++ k ∷ ys) ≡ suc (length (xs ++ ys))
length-split [] ys k = refl
length-split (x ∷ xs) ys k = ap suc (length-split xs ys k)

All-split :
    (P : ℕ → Type 0) (xs ys : List ℕ) (k : ℕ) → All P (xs ++ k ∷ ys) → P k × All P (xs ++ ys)
All-split P [] ys k h = h
All-split P (x ∷ xs) ys k h = let (a, r) = All-split P xs ys k h.1 in (a, (h.0, r))

All-insert :
    (P : ℕ → Type 0) (xs ys : List ℕ) (k : ℕ) → P k → All P (xs ++ ys) → All P (xs ++ k ∷ ys)
All-insert P [] ys k a h = (a, h)
All-insert P (x ∷ xs) ys k a h = (h.0, All-insert P xs ys k a h.1)

All-snoc : (P : ℕ → Type 0) (xs : List ℕ) (k : ℕ) → All P xs → P k → All P (xs ++ k ∷ [])
All-snoc P [] k h a = (a, tt)
All-snoc P (x ∷ xs) k h a = (h.0, All-snoc P xs k h.1 a)

sum_bound : (c : ℕ) (xs : List ℕ) → All (λ k. k ≤ c) xs → sum xs ≤ length xs * c
unfolding sum
sum_bound c [] h = omega arith
sum_bound c (x ∷ xs) h = grind (arith, sum_bound c xs h.1)

-- The log of running operations: each may still add at most MAXOPBLOCKS blocks and what they may add
-- fits, nobody runs while a commit is due, the entries are home blocks and fewer than the blocks of the
-- log, and the header on disk is empty while the device is served.
pub record IsSafe (s : Sys) : Type 0 where
  pub running : s.log.outstanding ≡ length s.todo
  pub budgets : All (λ k. k ≤ max_op_blocks) s.todo
  pub room : s.log.lh.n + sum s.todo ≤ log_size
  pub alone : s.log.committing ≡ true → s.log.outstanding ≡ 0
  pub array : length s.log.lh.block ≡ log_size
  pub homes : All (IsHome s.log.start s.log.size) (entries s.log.lh)
  pub fits : s.log.lh.n < s.log.size
  pub word : s.log.size < 2 ^ 32
  pub clean : 0 < s.machine.power → (decode (s.machine.disk s.log.start)).n ≡ 0

-- An empty log of any size in which nobody runs is safe, that of a fresh volume among them.
pub fresh-IsSafe :
    (l : Log) (m : Machine)
    → l.outstanding ≡ 0
    → l.committing ≡ false
    → l.lh.n ≡ 0
    → length l.lh.block ≡ log_size
    → 0 < l.size
    → l.size < 2 ^ 32
    → (0 < m.power → (decode (m.disk l.start)).n ≡ 0)
    → IsSafe (record { log = l; machine = m; todo = [] })
unfolding sum
fresh-IsSafe l m free idle empty array some_block word clean = record {
  running = free;
  budgets = tt;
  room = omega (arith, empty);
  alone = λ c. free;
  array = array;
  homes = subst (λ n. All (IsHome l.start l.size) (take n l.lh.block)) (sym empty) tt;
  fits = omega (arith, empty, some_block);
  word = word;
  clean = clean;
}

begin_inv :
    (l : Log) {l' : Log}
    → begin_op l ≡ some l'
    → (record l { outstanding = l.outstanding + 1 } ≡ l')
      × (l.committing ≡ false)
      × (l.lh.n + (l.outstanding + 1) * max_op_blocks ≤ log_size)
unfolding begin_op
begin_inv l e = ground arith

begin-IsSafe :
    {s : Sys} (l : Log)
    → IsSafe s
    → begin_op s.log ≡ some l
    → IsSafe (record s { log = l; todo = max_op_blocks ∷ s.todo })
unfolding sum
begin-IsSafe {s} l h e =
    let (at, free, space) = begin_inv s.log e in
    subst (λ (k : Log). IsSafe (record s { log = k; todo = max_op_blocks ∷ s.todo })) at
      (record {
        running = omega (arith, h.running);
        budgets = (omega arith, h.budgets);
        room = omega (arith, h.running, space, sum_bound max_op_blocks s.todo h.budgets);
        alone = λ c. cc;
        array = h.array;
        homes = h.homes;
        fits = h.fits;
        word = h.word;
        clean = h.clean;
      })

write_inv :
    (l : Log) (m : Machine) (b : ℕ) {l' : Log} {m' : Machine}
    → write l m b ≡ some (l', m')
    → elem b (entries l.lh) ≡ false
    → (record l { lh = record { n = l.lh.n + 1; block = set l.lh.block l.lh.n b } } ≡ l')
      × (pin m b ≡ m')
      × (l.lh.n < log_size)
      × (l.lh.n < size_less_one l.size)
unfolding write
write_inv l m b e new = ground arith

entries-add :
    (lh : LogHeader) (b : ℕ)
    → lh.n < length lh.block
    → entries (record { n = lh.n + 1; block = set lh.block lh.n b }) ≡ entries lh ++ b ∷ []
entries-add lh b small = rw add-one (take-set_end lh.n lh.block b small)

add-IsSafe :
    {s : Sys} (xs ys : List ℕ) (k b : ℕ) (x : Block) (l : Log) (m : Machine)
    → IsSafe s
    → s.todo ≡ xs ++ suc k ∷ ys
    → IsHome s.log.start s.log.size b
    → elem b (entries s.log.lh) ≡ false
    → write s.log (modify s.machine b x) b ≡ some (l, m)
    → IsSafe (record { log = l; machine = m; todo = xs ++ k ∷ ys })
unfolding sum
add-IsSafe {s} xs ys k b x l m h e home new done =
    let (at, pinned, small, fit) = write_inv s.log (modify s.machine b x) b done new in
    let split =
      All-split (λ j. j ≤ max_op_blocks) xs ys (suc k)
        (subst (All (λ j. j ≤ max_op_blocks)) e h.budgets) in
    subst (λ (p : Log). IsSafe (record { log = p; machine = m; todo = xs ++ k ∷ ys })) at
      (subst (λ (p : Machine). IsSafe (record { log = added; machine = p; todo = xs ++ k ∷ ys }))
        pinned
        (record {
          running = omega (
            arith,
            h.running,
            ap (length {0}) e,
            length-split xs ys k,
            length-split xs ys (suc k),
          );
          budgets = All-insert (λ j. j ≤ max_op_blocks) xs ys k (omega (arith, split.0)) split.1;
          room = omega (arith, h.room, ap sum e, sum-split xs ys k, sum-split xs ys (suc k));
          alone = h.alone;
          array = length-set s.log.lh.block s.log.lh.n b ∙ h.array;
          homes =
              rw (entries-add s.log.lh b (omega (arith, h.array)))
                (All-snoc (IsHome s.log.start s.log.size) (entries s.log.lh) b h.homes home);
          fits = omega (arith, fit, h.fits, h.word);
          word = h.word;
          clean = h.clean;
        }))
  where
    added : Log
    added = record (s.log) {
      lh = record { n = s.log.lh.n + 1; block = set s.log.lh.block s.log.lh.n b };
    }

absorb_inv :
    (l : Log) (m : Machine) (b : ℕ) {l' : Log} {m' : Machine}
    → write l m b ≡ some (l', m')
    → elem b (entries l.lh) ≡ true
    → (l ≡ l') × (m ≡ m')
unfolding write
absorb_inv l m b e old = ground arith

end_inv :
    (l : Log) {l' : Log} {last : Bool}
    → end_op l ≡ some (l', last)
    → (record l { outstanding = l.outstanding - 1; committing = l.outstanding - 1 == 0 } ≡ l')
      × (l.committing ≡ false)
      × (0 < l.outstanding)
unfolding end_op
end_inv l e = ground arith

end-IsSafe :
    {s : Sys} (xs ys : List ℕ) (k : ℕ) (l : Log) (last : Bool)
    → IsSafe s
    → s.todo ≡ xs ++ k ∷ ys
    → end_op s.log ≡ some (l, last)
    → IsSafe (record s { log = l; todo = xs ++ ys })
end-IsSafe {s} xs ys k l last h e done =
    let (at, free, some_run) = end_inv s.log done in
    let split =
      All-split (λ j. j ≤ max_op_blocks) xs ys k
        (subst (All (λ j. j ≤ max_op_blocks)) e h.budgets) in
    subst (λ (p : Log). IsSafe (record s { log = p; todo = xs ++ ys })) at
      (record {
        running = omega (arith, h.running, ap (length {0}) e, length-split xs ys k);
        budgets = split.1;
        room = omega (arith, h.room, ap sum e, sum-split xs ys k);
        alone = λ c. ground (arith, c);
        array = h.array;
        homes = h.homes;
        fits = h.fits;
        word = h.word;
        clean = h.clean;
      })

sync_inv :
    (l : Log) {l' : Log}
    → sync l ≡ go l'
    → (record l { committing = true } ≡ l') × (l.outstanding ≡ 0)
unfolding sync
sync_inv l e = ground arith

sync-IsSafe : {s : Sys} (l : Log) → IsSafe s → sync s.log ≡ go l → IsSafe (record s { log = l })
sync-IsSafe {s} l h e =
    let (at, none_run) = sync_inv s.log e in
    subst (λ (k : Log). IsSafe (record s { log = k })) at
      (record {
        running = h.running;
        budgets = h.budgets;
        room = h.room;
        alone = λ c. none_run;
        array = h.array;
        homes = h.homes;
        fits = h.fits;
        word = h.word;
        clean = h.clean;
      })

commit-IsSafe :
    {s : Sys} (l : Log) (m : Machine)
    → IsSafe s
    → s.log.committing ≡ true
    → run_commit s.log s.machine ≡ some (l, m)
    → IsSafe (record s { log = l; machine = m })
unfolding run_commit
commit-IsSafe {s} l m h due e = elim (Option-cases (commit s.log s.machine)) [
  | inl failed ↦ absurd (ground (arith, failed))
  | inr ((c, t), ran) ↦
      (let (at, clean) = commit_keeps s.log s.machine h.clean ran in
        let parts : (record c { committing = false } ≡ l) × (t ≡ m) = ground (arith, ran) in
        subst (λ (p : Log). IsSafe (record s { log = p; machine = m })) parts.0
          (subst
            (λ (p : Log). IsSafe (record s { log = record p { committing = false }; machine = m }))
            at
            (subst (λ (p : Machine). IsSafe (record s { log = idle; machine = p })) parts.1
              (record {
                running = h.running;
                budgets = h.budgets;
                room = omega (arith, h.room);
                alone = λ f. cc;
                array = h.array;
                homes = tt;
                fits = omega (arith, h.fits);
                word = h.word;
                clean = clean;
              }))))
]
  where
    idle : Log
    idle = record (cleared s.log) { committing = false }

pub Step-IsSafe : {s t : Sys} → Step s t → IsSafe s → IsSafe t
Step-IsSafe (begins l e) h = begin-IsSafe l h e
Step-IsSafe (adds xs ys k b x l m e home new done) h = add-IsSafe xs ys k b x l m h e home new done
Step-IsSafe {s} (absorbs b x l m old done) h =
    let (at, same) = absorb_inv s.log (modify s.machine b x) b done old in
    subst (λ (p : Log). IsSafe (record s { log = p; machine = m })) at
      (subst (λ (p : Machine). IsSafe (record s { machine = p })) same
        (record {
          running = h.running;
          budgets = h.budgets;
          room = h.room;
          alone = h.alone;
          array = h.array;
          homes = h.homes;
          fits = h.fits;
          word = h.word;
          clean = h.clean;
        }))
Step-IsSafe (ends xs ys k l last e done) h = end-IsSafe xs ys k l last h e done
Step-IsSafe (syncs l e) h = sync-IsSafe l h e
Step-IsSafe (commits l m due e) h = commit-IsSafe l m h due e

-- Whatever steps the threads take, in any order, a safe log stays safe.
pub Reach-IsSafe : {s t : Sys} → IsSafe s → Reach s t → IsSafe t
Reach-IsSafe h here = h
Reach-IsSafe h (next r st) = Step-IsSafe st (Reach-IsSafe h r)
