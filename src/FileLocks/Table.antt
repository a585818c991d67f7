-- ===== src/FileLocks/Table.antt =====
-- fcntl.rs: what is in the lock table after clearing and granting.
use mathlib.Core.Path.{subst}
use web_os.Errors.{ok, err, resource_busy}
use web_os.Prelude.{
  ℕ, ◌≡◌, ◌≢◌, refl, sym, Option, none, some, Option-cases, inl, inr, true, false, Bool-cases, ◌&&◌,
  ◌||◌, not, ◌⊎◌, [], ◌∷◌, ◌++◌, All, arith, ◌==◌, if◌then◌else◌,
}
use web_os.FileLocks.{
  LockKind, read, write, LockEntry, LockTable, excludes, conflict, owned, clear_pid, grant,
}

-- The lock that a process holds on a file.
pub held : LockTable → ℕ → ℕ → ℕ → Option LockKind
held [] dev inum pid = none
held (entry ∷ entries) dev inum pid =
    if owned entry dev inum pid then some entry.kind else held entries dev inum pid

-- Two entries on one file are read locks of two processes.
abbrev pub Agree : LockEntry → LockEntry → Type 0
Agree a b =
    (a.dev == b.dev && a.inum == b.inum) ≡ true
    → (a.pid ≢ b.pid) × (a.kind ≡ read) × (b.kind ≡ read)

-- A file has one writer, or any number of readers, and a process has one lock on it.
abbrev pub IsExclusive : LockTable → Type 0
IsExclusive [] = Unit
IsExclusive (entry ∷ entries) = All (Agree entry) entries × IsExclusive entries

All-append :
    (P : LockEntry → Type 0) (t : LockTable) (e : LockEntry) → All P t → P e → All P (t ++ e ∷ [])
All-append P [] e h a = (a, tt)
All-append P (entry ∷ t) e h a = (h.0, All-append P t e h.1 a)

IsExclusive-append :
    (t : LockTable) (e : LockEntry)
    → IsExclusive t
    → All (λ entry. Agree entry e) t
    → IsExclusive (t ++ e ∷ [])
IsExclusive-append [] e h a = (tt, tt)
IsExclusive-append (entry ∷ t) e h a =
    (All-append (Agree entry) t e h.0 a.0, IsExclusive-append t e h.1 a.1)

module _ (dev inum pid : ℕ) where
  pub All-clear_pid :
      (P : LockEntry → Type 0) (t : LockTable) → All P t → All P (clear_pid t dev inum pid)
  unfolding clear_pid
  All-clear_pid P [] h = tt
  All-clear_pid P (entry ∷ entries) h = elim (Bool-cases (owned entry dev inum pid)) [
    | inl mine ↦ rw mine (All-clear_pid P entries h.1)
    | inr other ↦ rw other (h.0, All-clear_pid P entries h.1)
  ]

  pub clear_pid-IsExclusive :
      (t : LockTable) → IsExclusive t → IsExclusive (clear_pid t dev inum pid)
  unfolding clear_pid
  clear_pid-IsExclusive [] h = tt
  clear_pid-IsExclusive (entry ∷ entries) h = elim (Bool-cases (owned entry dev inum pid)) [
    | inl mine ↦ rw mine (clear_pid-IsExclusive entries h.1)
    | inr other ↦
        rw other (All-clear_pid (Agree entry) entries h.0, clear_pid-IsExclusive entries h.1)
  ]

  -- Clearing takes away every lock of the process on the file, and no other.
  pub held-clear_pid :
      (t : LockTable) (d i p : ℕ)
      → held (clear_pid t dev inum pid) d i p
        ≡ (if d == dev && (i == inum && p == pid) then none else held t d i p)
  unfolding held clear_pid
  held-clear_pid [] d i p = ground arith
  held-clear_pid (entry ∷ entries) d i p = ground (arith, held-clear_pid entries d i p)

  -- A conflict is with another process, so clearing does not change it.
  pub conflict-clear_pid :
      (t : LockTable) (kind : LockKind)
      → conflict (clear_pid t dev inum pid) dev inum pid kind ≡ conflict t dev inum pid kind
  unfolding conflict clear_pid
  conflict-clear_pid [] kind = refl
  conflict-clear_pid (entry ∷ entries) kind = ground (arith, conflict-clear_pid entries kind)

  abbrev pub mine : LockKind → LockEntry
  mine kind = record { dev = dev; inum = inum; kind = kind; pid = pid }

  conflict-Agree_first :
      (entry : LockEntry) (entries : LockTable) (kind : LockKind)
      → conflict (entry ∷ entries) dev inum pid kind ≡ none
      → held (entry ∷ entries) dev inum pid ≡ none
      → Agree entry (mine kind)
  unfolding conflict held
  conflict-Agree_first entry entries read h own = λ same. ground (arith, h, own, same)
  conflict-Agree_first entry entries write h own = λ same. absurd (ground (arith, h, own, same))

  -- With no conflict and no lock of its own, a new lock agrees with each entry.
  conflict-Agree :
      (t : LockTable) (kind : LockKind)
      → conflict t dev inum pid kind ≡ none
      → held t dev inum pid ≡ none
      → All (λ entry. Agree entry (mine kind)) t
  unfolding conflict held
  conflict-Agree [] kind h own = tt
  conflict-Agree (entry ∷ entries) kind h own = (
    conflict-Agree_first entry entries kind h own,
    conflict-Agree entries kind (ground (arith, h, own)) (ground (arith, own)),
  )

  pub grant_free :
      (t : LockTable) (kind : LockKind)
      → conflict t dev inum pid kind ≡ none
      → grant t dev inum pid (some kind) ≡ (ok tt, t ++ mine kind ∷ [])
  unfolding grant
  grant_free t kind free = rw (free, grant) refl

  pub grant_busy :
      (t : LockTable) (kind : LockKind) (entry : LockEntry)
      → conflict t dev inum pid kind ≡ some entry
      → grant t dev inum pid (some kind) ≡ (err resource_busy, t)
  unfolding grant
  grant_busy t kind entry busy = rw (busy, grant) refl

  -- What a call leaves in the table keeps the table exclusive.
  pub grant-IsExclusive :
      (t : LockTable) (kind : Option LockKind)
      → IsExclusive t
      → held t dev inum pid ≡ none
      → IsExclusive (grant t dev inum pid kind).1
  grant-IsExclusive t none h own = unfold grant in h
  grant-IsExclusive t (some kind) h own = elim (Option-cases (conflict t dev inum pid kind)) [
    | inl free ↦
        subst (λ r. IsExclusive r.1) (sym (grant_free t kind free))
          (IsExclusive-append t (mine kind) h (conflict-Agree t kind free own))
    | inr (entry, busy) ↦ subst (λ r. IsExclusive r.1) (sym (grant_busy t kind entry busy)) h
  ]

  -- After the call the process has the lock that was granted, and the others have theirs.
  pub held-append :
      (t : LockTable) (kind : LockKind) (d i p : ℕ)
      → held (t ++ mine kind ∷ []) d i p ≡ (elim (held t d i p) [
        | some k ↦ some k
        | none ↦ if dev == d && (inum == i && pid == p) then some kind else none
      ])
  unfolding held
  held-append [] kind d i p = ground arith
  held-append (entry ∷ entries) kind d i p = ground (arith, held-append entries kind d i p)

  -- Without a conflict no other process holds a lock that the kind excludes.
  pub conflict-held :
      (t : LockTable) (kind : LockKind) (p : ℕ) (k : LockKind)
      → conflict t dev inum pid kind ≡ none
      → p ≢ pid
      → held t dev inum p ≡ some k
      → excludes kind k ≡ false
  unfolding conflict held
  conflict-held [] kind p k free other h = cc
  conflict-held (entry ∷ entries) kind p k free other h =
      ground (arith, free, other, h, conflict-held entries kind p k)

  conflict_cons :
      (entry : LockEntry) (entries : LockTable) (kind : LockKind) (e : LockEntry)
      → conflict (entry ∷ entries) dev inum pid kind ≡ some e
      → (entry ≡ e) ⊎ (conflict entries dev inum pid kind ≡ some e)
  unfolding conflict
  conflict_cons entry entries kind e busy =
      elim (Bool-cases (not (entry.dev == dev) || not (entry.inum == inum) || entry.pid == pid)) [
        | inl skip ↦ inr (ground (arith, busy, skip))
        | inr look ↦ elim (Bool-cases (excludes kind entry.kind)) [
          | inl clash ↦ inl (ground (arith, busy, look, clash))
          | inr fine ↦ inr (ground (arith, busy, look, fine))
        ]
      ]

  conflict-All :
      (P : LockEntry → Type 0) (t : LockTable) (kind : LockKind) (e : LockEntry)
      → All P t
      → conflict t dev inum pid kind ≡ some e
      → P e
  conflict-All P [] kind e h busy = absurd (unfold conflict in cc)
  conflict-All P (entry ∷ entries) kind e h busy = elim (conflict_cons entry entries kind e busy) [
    | inl here ↦ subst P here h.0
    | inr there ↦ conflict-All P entries kind e h.1 there
  ]

  pub conflict_facts :
      (t : LockTable) (kind : LockKind) (e : LockEntry)
      → conflict t dev inum pid kind ≡ some e
      → (e.dev ≡ dev) × (e.inum ≡ inum) × (e.pid ≢ pid) × (excludes kind e.kind ≡ true)
  unfolding conflict
  conflict_facts [] kind e busy = absurd (cc)
  conflict_facts (entry ∷ entries) kind e busy =
      elim (Bool-cases (not (entry.dev == dev) || not (entry.inum == inum) || entry.pid == pid)) [
        | inl skip ↦ conflict_facts entries kind e (ground (arith, busy, skip))
        | inr look ↦ elim (Bool-cases (excludes kind entry.kind)) [
          | inl clash ↦
              (let here : entry ≡ e = ground (arith, busy, look, clash) in
                subst
                  (λ a.
                    (a.dev ≡ dev) × (a.inum ≡ inum) × (a.pid ≢ pid) × (excludes kind a.kind ≡ true))
                  here
                  (
                    ground (arith, look),
                    ground (arith, look),
                    (λ q. ground (arith, look, q)),
                    clash,
                  ))
          | inr fine ↦ conflict_facts entries kind e (ground (arith, busy, look, fine))
        ]
      ]

  -- A conflict is with the lock that its process holds.
  pub held-conflict :
      (t : LockTable) (kind : LockKind) (e : LockEntry)
      → IsExclusive t
      → conflict t dev inum pid kind ≡ some e
      → held t dev inum e.pid ≡ some e.kind
  unfolding held
  held-conflict [] kind e h busy = absurd (unfold conflict in cc)
  held-conflict (entry ∷ entries) kind e h busy =
      let facts = conflict_facts (entry ∷ entries) kind e busy in
      elim (conflict_cons entry entries kind e busy) [
        | inl here ↦ ground (arith, here, facts)
        | inr there ↦ ground (
          arith,
          facts,
          held-conflict entries kind e h.1 there,
          conflict-All (Agree entry) entries kind e h.0 there,
        )
      ]
