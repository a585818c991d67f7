-- ===== src/FileLocks/Laws.antt =====
-- fcntl.rs: what `set_lock`, `get_lock` and `clear_locks` do for the processes that lock a file.
use mathlib.Core.Path.{subst}
use web_os.Prelude.{
  ℕ, ◌≡◌, ◌≢◌, refl, sym, ap, ◌∙◌, Option, none, some, Option-cases, inl, inr, true, false, ◌&&◌,
  ◌↔◌, ◌⊎◌, [], ◌∷◌, ◌++◌, arith, ◌==◌, if◌then◌else◌,
}
use web_os.Errors.{Error, Result, ok, err, ◌>>◌, resource_busy}
use web_os.FileLocks.{
  Flock, LockKind, read, write, LockEntry, LockTable, excludes, conflict, clear_pid, lock_kind,
  validate_flock, grant, set_lock, answer, get_lock, type_of, unlck,
}
use web_os.FileLocks.Table.{
  held, IsExclusive, mine, clear_pid-IsExclusive, held-clear_pid, conflict-clear_pid, grant_free,
  grant_busy, grant-IsExclusive, held-append, conflict-held, conflict_facts, held-conflict,
}

Result-cases {ℓ} :
    {A : Type ℓ} (r : Result A) → ((e : Error) × (r ≡ err e)) ⊎ ((a : A) × (r ≡ ok a))
Result-cases (ok a) = inr (a, refl)
Result-cases (err e) = inl (e, refl)

-- What a request asks for, or the error that it is refused with.
abbrev pub request : Flock → Result (Option LockKind)
request lock = validate_flock lock >> lock_kind lock.l_type

-- The answer of `get_lock`: no lock, or one that a process holds and the request excludes.
abbrev pub Named : LockTable → ℕ → ℕ → LockKind → Flock → Type 0
Named t dev inum kind f =
    (f.l_type ≡ unlck)
    ⊎ ((k : LockKind) × (f.l_type ≡ type_of k)
        × (held t dev inum f.l_pid ≡ some k)
        × (excludes kind k ≡ true))

module _ (t : LockTable) (dev inum pid : ℕ) where
  own_cleared : held (clear_pid t dev inum pid) dev inum pid ≡ none
  own_cleared = held-clear_pid dev inum pid t dev inum pid ∙ ground arith

  set_lock_err :
      (lock : Flock) (e : Error) → request lock ≡ err e → set_lock t dev inum pid lock ≡ (err e, t)
  unfolding set_lock
  set_lock_err lock e refused = rw (refused, set_lock) refl

  set_lock_ok :
      (lock : Flock) (kind : Option LockKind)
      → request lock ≡ ok kind
      → set_lock t dev inum pid lock ≡ grant (clear_pid t dev inum pid) dev inum pid kind
  unfolding set_lock
  set_lock_ok lock kind asked = rw (asked, set_lock) refl

  free_lem :
      (kind : LockKind)
      → conflict t dev inum pid kind ≡ none
      → grant (clear_pid t dev inum pid) dev inum pid (some kind)
        ≡ (ok tt, clear_pid t dev inum pid ++ mine dev inum pid kind ∷ [])
  free_lem kind free =
      grant_free dev inum pid (clear_pid t dev inum pid) kind
        (conflict-clear_pid dev inum pid t kind ∙ free)

  busy_lem :
      (kind : LockKind) (entry : LockEntry)
      → conflict t dev inum pid kind ≡ some entry
      → grant (clear_pid t dev inum pid) dev inum pid (some kind)
        ≡ (err resource_busy, clear_pid t dev inum pid)
  busy_lem kind entry busy =
      grant_busy dev inum pid (clear_pid t dev inum pid) kind entry
        (conflict-clear_pid dev inum pid t kind ∙ busy)

  -- Every call, granted or refused, keeps the table exclusive: on a file there is one writer, or
  -- there are readers, and a process has at most one lock.
  pub set_lock-IsExclusive :
      (lock : Flock) → IsExclusive t → IsExclusive (set_lock t dev inum pid lock).1
  set_lock-IsExclusive lock h = elim (Result-cases (request lock)) [
    | inl (e, refused) ↦ subst (λ r. IsExclusive r.1) (sym (set_lock_err lock e refused)) h
    | inr (kind, asked) ↦
        subst (λ r. IsExclusive r.1) (sym (set_lock_ok lock kind asked))
          (grant-IsExclusive dev inum pid (clear_pid t dev inum pid) kind
            (clear_pid-IsExclusive dev inum pid t h) own_cleared)
  ]

  -- A valid request for a lock is granted exactly when no other process holds a lock on the file that
  -- the requested kind excludes.
  pub set_lock_granted :
      (lock : Flock) (kind : LockKind)
      → IsExclusive t
      → request lock ≡ ok (some kind)
      → ((set_lock t dev inum pid lock).0 ≡ ok tt)
        ↔ ((p : ℕ) (k : LockKind) → p ≢ pid → held t dev inum p ≡ some k → excludes kind k ≡ false)
  set_lock_granted lock kind h asked = elim (Option-cases (conflict t dev inum pid kind)) [
    | inl free ↦ (
      (λ done p k other has. conflict-held dev inum pid t kind p k free other has),
      (λ all. ap (λ r. r.0) (set_lock_ok lock (some kind) asked ∙ free_lem kind free)),
    )
    | inr (e, busy) ↦
        (let refused = ap (λ r. r.0) (set_lock_ok lock (some kind) asked ∙ busy_lem kind e busy) in
          let facts = conflict_facts dev inum pid t kind e busy in
          (
            (λ done. absurd (cc (refused))),
            (λ all. absurd (
                cc (
                  all e.pid e.kind facts.2 (held-conflict dev inum pid t kind e h busy),
                  facts.3,
                ))),
          ))
  ]

  -- What the processes hold after a valid request. The caller loses the lock that it held, and has
  -- the requested one instead if the call is granted. So a refused request for a lock leaves the
  -- caller without the lock that it had. All else is as before.
  pub held-set_lock :
      (lock : Flock) (kind : Option LockKind) (d i p : ℕ)
      → request lock ≡ ok kind
      → held (set_lock t dev inum pid lock).1 d i p ≡ (
          if d == dev && (i == inum && p == pid)
          then (elim (set_lock t dev inum pid lock).0 [ ok u ↦ kind | err e ↦ none ])
          else held t d i p)
  held-set_lock lock none d i p asked =
      rw (set_lock_ok lock none asked) (unfold grant in held-clear_pid dev inum pid t d i p)
  held-set_lock lock (some kind) d i p asked = elim (Option-cases (conflict t dev inum pid kind)) [
    | inl free ↦
        rw (set_lock_ok lock (some kind) asked, free_lem kind free)
          (ground (
            arith,
            held-append dev inum pid (clear_pid t dev inum pid) kind d i p,
            held-clear_pid dev inum pid t d i p,
          ))
    | inr (e, busy) ↦
        rw (set_lock_ok lock (some kind) asked, busy_lem kind e busy)
          (held-clear_pid dev inum pid t d i p)
  ]

  get_ok :
      (lock : Flock) (kind : LockKind)
      → request lock ≡ ok (some kind)
      → get_lock t dev inum pid lock ≡ ok (answer t dev inum pid lock (some kind))
  unfolding get_lock
  get_ok lock kind asked = ground (arith, asked)

  type_of-ne : (k : LockKind) → ¬ (type_of k ≡ unlck)
  type_of-ne read e = absurd (omega arith)
  type_of-ne write e = absurd (omega arith)

  -- `get_lock` foretells `set_lock`: it answers F_UNLCK exactly if the same request would be granted,
  -- and else names a process that holds a lock which the request excludes.
  pub get_lock_lem :
      (lock : Flock) (kind : LockKind)
      → IsExclusive t
      → request lock ≡ ok (some kind)
      → (f : Flock) × (get_lock t dev inum pid lock ≡ ok f)
        × ((f.l_type ≡ unlck) ↔ ((set_lock t dev inum pid lock).0 ≡ ok tt))
        × Named t dev inum kind f
  get_lock_lem lock kind h asked = elim (Option-cases (conflict t dev inum pid kind)) [
    | inl free ↦
        (let done = ap (λ r. r.0) (set_lock_ok lock (some kind) asked ∙ free_lem kind free) in
          (
            record lock { l_type = unlck; l_pid = 0 },
            get_ok lock kind asked ∙ ap ok (unfold answer in rw (free, answer) refl),
            ((λ u. done), (λ u. refl)),
            inl refl,
          ))
    | inr (e, busy) ↦
        (let refused = ap (λ r. r.0) (set_lock_ok lock (some kind) asked ∙ busy_lem kind e busy) in
          (
            record lock { l_type = type_of e.kind; l_pid = e.pid },
            get_ok lock kind asked ∙ ap ok (unfold answer in rw (busy, answer) refl),
            ((λ u. absurd (type_of-ne e.kind u)), (λ done. absurd (cc (refused)))),
            inr (
              e.kind,
              refl,
              held-conflict dev inum pid t kind e h busy,
              (conflict_facts dev inum pid t kind e busy).3,
            ),
          ))
  ]
