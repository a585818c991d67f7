-- ===== src/Procs/Tree.antt =====
-- proc.rs: the tree of processes, and what the states of all processes together look like.
use mathlib.Core.Path.{subst}
use native.Mathlib.Decide.{ℕ_discrete}
use web_os.Prelude.{
  ℕ, ◌<◌, ◌≡◌, ◌≢◌, ◌∙◌, refl, sym, ap, Option, some, Bool, true, false, ◌&&◌, ◌||◌, arith, ltb,
  inl, inr, update, update_self, update_ne,
}
use web_os.Prelude.Sums.{sum, one_if}
use web_os.RunQueue.{nproc, ncpu}
use web_os.Procs.{
  System, Proc, ProcState, CpuState, unused, used, sleeping, stopped, runnable, running, zombie,
  same_state, put,
}
use web_os.Procs.Balance.{IsQueued, IsOnCpus, IsQueued-keep, in_state, ran}
use web_os.Procs.Waking.{Woke, Woken, Wakes, is_blocked}

abbrev pub is_alive : ProcState → Bool
is_alive sleeping = true
is_alive stopped = true
is_alive runnable = true
is_alive running = true
is_alive unused = false
is_alive used = false
is_alive zombie = false

-- The states of a process that has a place in the tree.
abbrev pub is_placed : ProcState → Bool
is_placed a = is_alive a || same_state a zombie

-- Parents are alive, every process but init has one, and init is alive.
pub record IsFamily (s : System) : Type 0 where
  pub alive_parent :
      (i p : ℕ)
      → i < nproc
      → s.parents i ≡ some p
      → (p < nproc) × (is_alive (s.pool p).state ≡ true)
  pub has_parent :
      (i : ℕ)
      → i < nproc
      → i ≢ 0
      → is_placed (s.pool i).state ≡ true
      → (p : ℕ) × (s.parents i ≡ some p)
  pub init_alive : is_alive (s.pool 0).state ≡ true

pub record IsGood (s : System) : Type 0 where
  pub queued : IsQueued s
  pub on_cpus : IsOnCpus s
  pub family : IsFamily s

-- An operation that does not panic and leaves a good table.
abbrev pub Safe : Option System → Type 0
Safe run = (s' : System) × (run ≡ some s') × IsGood s'

pub IsFamily-keep :
    (s s' : System)
    → s'.parents ≡ s.parents
    → ((i : ℕ) → is_alive (s.pool i).state ≡ true → is_alive (s'.pool i).state ≡ true)
    → ((i : ℕ) → is_placed (s'.pool i).state ≡ true → is_placed (s.pool i).state ≡ true)
    → IsFamily s
    → IsFamily s'
IsFamily-keep s s' same alive placed h = record {
  alive_parent = λ i p inside e.
      let old = h.alive_parent i p inside (sym (ap (λ (f : ℕ → Option ℕ). f i) same) ∙ e) in
      (old.0, alive p old.1);
  has_parent = λ i inside ne e.
      let (p, e') = h.has_parent i inside ne (placed i e) in
      (p, ap (λ (f : ℕ → Option ℕ). f i) same ∙ e');
  init_alive = alive 0 h.init_alive;
}

pub IsOnCpus-keep :
    (s s' : System)
    → s'.cpus ≡ s.cpus
    → ((i : ℕ) → in_state s' running i ≡ in_state s running i)
    → IsOnCpus s
    → IsOnCpus s'
IsOnCpus-keep s s' same bits h i =
    ap (λ (c : ℕ → CpuState). sum ncpu (λ cpu. ran i (c cpu))) same ∙ h i ∙ ap one_if (sym (bits i))

blocked_bits :
    (a : ProcState) → is_blocked a ≡ true → (same_state a running ≡ false) × (is_alive a ≡ true)
blocked_bits sleeping h = (refl, refl)
blocked_bits stopped h = (refl, refl)
blocked_bits unused h = absurd (ground (arith, h))
blocked_bits used h = absurd (ground (arith, h))
blocked_bits runnable h = absurd (ground (arith, h))
blocked_bits running h = absurd (ground (arith, h))
blocked_bits zombie h = absurd (ground (arith, h))

-- What a wake-up keeps of one state.
pub Woke-bits :
    (a b : ProcState)
    → Woke a b
    → (same_state b running ≡ same_state a running)
      × (is_alive a ≡ true → is_alive b ≡ true)
      × (is_placed b ≡ true → is_placed a ≡ true)
Woke-bits a b (inl e) =
    (ap (λ k. same_state k running) e, (λ h. ap is_alive e ∙ h), (λ h. sym (ap is_placed e) ∙ h))
Woke-bits a b (inr (blocked, e)) =
    let bits = blocked_bits a blocked in
    (
      ap (λ k. same_state k running) e ∙ sym bits.0,
      (λ h. ap is_alive e),
      (λ h. ap (λ k. k || same_state a zombie) bits.1),
    )

pub Woken-IsGood : (s s' : System) → IsGood s → IsQueued s' → Woken s s' → IsGood s'
Woken-IsGood s s' h q w = record {
  queued = q;
  on_cpus = IsOnCpus-keep s s' w.cpus (λ i. ap (λ b. ltb i nproc && b) (bits i).0) h.on_cpus;
  family = IsFamily-keep s s' w.parents (λ i. (bits i).1) (λ i. (bits i).2) h.family;
}
  where
    bits :
        (i : ℕ)
        → (same_state (s'.pool i).state running ≡ same_state (s.pool i).state running)
          × (is_alive (s.pool i).state ≡ true → is_alive (s'.pool i).state ≡ true)
          × (is_placed (s'.pool i).state ≡ true → is_placed (s.pool i).state ≡ true)
    bits i = Woke-bits (s.pool i).state (s'.pool i).state (w.moved i).woke

pub Wakes-Safe : (s : System) (run : Option System) → IsGood s → Wakes s run → Safe run
Wakes-Safe s run h (s', e, q, w) = (s', e, Woken-IsGood s s' h q w)

-- A property of all processes, when one of them changes.
pub put_each :
    (P : ℕ → Proc → Type 0) (s : System) (idx : ℕ) (p : Proc)
    → P idx p
    → ((i : ℕ) → i ≢ idx → P i (s.pool i))
    → (i : ℕ) → P i (update s.pool idx p i)
put_each P s idx p here other i = elim (ℕ_discrete i idx) [
  | yes e ↦
      subst (λ k. P k (update s.pool idx p k)) (sym e)
        (subst (P idx) (sym (update_self s.pool idx p)) here)
  | no ne ↦ subst (P i) (sym (update_ne s.pool p ne)) (other i ne)
]

-- What a change of a process must keep for the table to stay good.
pub record SameBits (a b : ProcState) : Type 0 where
  pub runs_same : same_state b running ≡ same_state a running
  pub ready_same : same_state b runnable ≡ same_state a runnable
  pub alive_same : is_alive a ≡ true → is_alive b ≡ true
  pub placed_same : is_placed b ≡ true → is_placed a ≡ true

SameBits-refl : (a : ProcState) → SameBits a a
SameBits-refl a = record {
  runs_same = refl;
  ready_same = refl;
  alive_same = λ h. h;
  placed_same = λ h. h;
}

pub put-IsGood :
    (s : System) (idx : ℕ) (p : Proc)
    → SameBits (s.pool idx).state p.state
    → IsGood s
    → IsGood (put s idx p)
put-IsGood s idx p b h = record {
  queued =
      IsQueued-keep s (put s idx p) refl refl (λ i. ap (λ k. ltb i nproc && k) (bits i).ready_same)
        h.queued;
  on_cpus =
      IsOnCpus-keep s (put s idx p) refl (λ i. ap (λ k. ltb i nproc && k) (bits i).runs_same)
        h.on_cpus;
  family =
      IsFamily-keep s (put s idx p) refl (λ i. (bits i).alive_same) (λ i. (bits i).placed_same)
        h.family;
}
  where
    bits : (i : ℕ) → SameBits (s.pool i).state (update s.pool idx p i).state
    bits =
        put_each (λ i q. SameBits (s.pool i).state q.state) s idx p b
          (λ i ne. SameBits-refl (s.pool i).state)

-- A change that keeps the state.
pub put_state-IsGood :
    (s : System) (idx : ℕ) (p : Proc)
    → p.state ≡ (s.pool idx).state
    → IsGood s
    → IsGood (put s idx p)
put_state-IsGood s idx p e h =
    put-IsGood s idx p
      (subst (SameBits (s.pool idx).state) (sym e) (SameBits-refl (s.pool idx).state)) h
