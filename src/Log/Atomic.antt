-- ===== src/Log/Atomic.antt =====
-- log.rs: a transaction is committed as a whole, whatever the block write at which the machine stops.
use web_os.Prelude.{
  ℕ, ◌+◌, ◌*◌, ◌≤◌, ◌<◌, ◌≡◌, refl, ◌∙◌, sym, ap, some, Bool-cases, arith, inl, inr, length,
  length-take_bound, drop, ◌-◌, elem, get_or, ltb, if◌then◌else◌,
}
use web_os.BlockStore.{Block, Machine, unarmed}
use web_os.Log.{Log, log_size, decode, cleared, commit, fired}
use web_os.Log.Install.{IsHome, serve_ne, serve_self}
use web_os.Log.Recovery.{
  entries, entries_zero, IsLaidOut, IsLaidOut-zero, restored, restored_zero, RecoversTo,
  recover_lem,
}
use web_os.Log.Crash.{
  all_or_nothing, final, final_head, final_restored, commit_runs, copy, install, done_entries,
  off_home, final_view,
}

-- The log between two commits: its entries are home blocks, and the log on disk is empty.
pub record IsReady (l : Log) (m : Machine) : Type 0 where
  pub laid_out : IsLaidOut l.start l.size l.lh
  pub array : length l.lh.block ≡ log_size
  pub clean : (decode (m.disk l.start)).n ≡ 0

restored_by :
    (l : Log) (d : ℕ → Block) (later : ℕ) (w : ℕ → Block)
    → IsLaidOut l.start l.size (decode (d l.start))
    → log_size ≤ later
    → ((x : ℕ) → IsHome l.start l.size x → restored l.start d x ≡ w x)
    → RecoversTo l d later w
restored_by l d later w ok' enough same =
    let r = recover_lem l d later ok' in
    record {
      log = r.log;
      after = r.after;
      runs = r.runs;
      home = λ x h.
          r.result (omega (arith, ok'.indexed, length-take_bound log_size (drop 1 (d l.start)))) x h
          ∙ same x h;
    }

idle_nothing : (l : Log) (m : Machine) (x : ℕ) → l.lh.n ≡ 0 → all_or_nothing l m x ≡ m.disk x
idle_nothing l m x e = rw (entries_zero l.lh e) (ground arith)

served :
    (l : Log) (m : Machine) (r : IsReady l m)
    → 0 < (install l m r.laid_out r.array r.clean).after.power
    → (x : ℕ) → IsHome l.start l.size x
    → (install l m r.laid_out r.array r.clean).after.disk x
      ≡ (if elem x (entries l.lh) then m.view x else m.disk x)
served l m r more x h = elim (Bool-cases (elem x (entries l.lh))) [
  | inl inside ↦ rw inside (done_entries l m r.laid_out r.array r.clean more x inside)
  | inr outside ↦ rw outside (off_home l m r.laid_out r.array r.clean x h outside)
]

-- A stopped commit never panics. Whatever the number `m.power` of block writes that the device served
-- before the machine stopped, a restart that is not cut off recovers without a panic, and then every
-- home block is on disk as the cache showed it, if it is an entry of the log and the header write
-- was served, and else as it was on disk before. An armed crash stage changes nothing of this.
pub commit_atomic :
    (l : Log) (m : Machine) (later : ℕ)
    → IsReady l m
    → log_size ≤ later
    → (l' : Log) × (m' : Machine) × (commit l m ≡ some (l', m'))
      × RecoversTo l m'.disk later (all_or_nothing l m)
commit_atomic l m later r enough = elim (Bool-cases (ltb 0 l.lh.n)) [
  | inl busy ↦ (
    cleared l,
    final l m r.laid_out r.array r.clean,
    commit_runs l m r.laid_out r.array r.clean (ground arith),
    restored_by l (final l m r.laid_out r.array r.clean).disk later (all_or_nothing l m)
        (final_head l m r.laid_out r.array r.clean) enough
        (final_restored l m r.laid_out r.array r.clean),
  )
  | inr idle ↦ (
    l,
    m,
    unfold commit in rw idle refl,
    restored_by l m.disk later (all_or_nothing l m)
        (IsLaidOut-zero l.start l.size (decode (m.disk l.start)) r.clean
          (omega (arith, r.laid_out.fits)))
        enough
        (λ x h. restored_zero l.start m.disk x r.clean ∙ sym (idle_nothing l m x (ground arith))),
  )
]

-- A commit that runs to its end on a machine whose power lasts and whose crash stage is not armed
-- puts what the cache shows of its entries on disk and leaves the other home blocks; it empties the
-- log in memory and on disk, and what a process reads of a home block stays the same.
pub commit_complete :
    (l : Log) (m : Machine)
    → IsReady l m
    → 0 < l.lh.n
    → m.crash_stage ≡ unarmed
    → 2 * l.lh.n + 2 ≤ m.power
    → (m' : Machine) × (commit l m ≡ some (cleared l, m'))
      × ((x : ℕ)
          → IsHome l.start l.size x
          → (m'.disk x ≡ (if elem x (entries l.lh) then m.view x else m.disk x))
            × (m'.view x ≡ m.view x))
      × ((decode (m'.disk l.start)).n ≡ 0)
commit_complete l m r busy calm power =
    let c = copy l m r.laid_out r.array r.clean in
    let i = install l m r.laid_out r.array r.clean in
    let stays : fired c.after.crash_stage (c.after.power - 1) ≡ c.after.power - 1 =
      rw (c.stage, calm) refl in
    let more : 0 < i.after.power = omega (arith, i.left, c.left, stays) in
    (
      final l m r.laid_out r.array r.clean,
      commit_runs l m r.laid_out r.array r.clean busy,
      (λ x h. (
        serve_ne i.after.power i.after.disk l.start _ x (omega (arith, r.laid_out.fits))
            ∙ served l m r more x h,
        final_view l m r.laid_out r.array r.clean x h,
      )),
      ap (λ w. get_or w 0 0) (serve_self i.after.power i.after.disk l.start _ more),
    )
