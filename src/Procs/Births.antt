-- ===== src/Procs/Births.antt =====
-- proc.rs: alloc, fork and clone keep a good table good, and so does the first process.
use mathlib.Core.Path.{subst}
use native.Mathlib.Decide.{ℕ_discrete}
use web_os.Prelude.{
  ℕ, zero, suc, ◌+◌, ◌≤◌, ◌<◌, ◌≡◌, ◌≢◌, ◌∙◌, refl, sym, ap, Option, some, true, ◌&&◌, arith, ltb,
  if_intro, update_self,
}
use web_os.Errors.{Result, ok, err}
use web_os.RunQueue.{nproc}
use web_os.Procs.States.{same_state-eq}
use web_os.Procs.{
  System, Proc, ProcState, unused, used, runnable, running, same_state, put, allocated, alloc_slot,
  alloc_from, alloc, free,
}
use web_os.Procs.Balance.{IsOnCpus, IsQueued-keep, MadeRunnable}
use web_os.Procs.Tree.{
  IsGood, IsFamily-keep, IsOnCpus-keep, SameBits, is_alive, is_placed, put-IsGood,
}

-- The states of a slot that is not in use yet, or is taken back.
pub unused_used : SameBits unused used
unused_used = record {
  runs_same = refl;
  ready_same = refl;
  alive_same = λ h. absurd (ground (arith, h));
  placed_same = λ h. absurd (ground (arith, h));
}

pub used_unused : SameBits used unused
used_unused = record {
  runs_same = refl;
  ready_same = refl;
  alive_same = λ h. absurd (ground (arith, h));
  placed_same = λ h. absurd (ground (arith, h));
}

renumber-IsGood : (s : System) (n : ℕ) → IsGood s → IsGood (record s { next_pid = n })
renumber-IsGood s n h = record {
  queued = IsQueued-keep s _ refl refl (λ i. refl) h.queued;
  on_cpus = h.on_cpus;
  family = IsFamily-keep s _ refl (λ i e. e) (λ i e. e) h.family;
}

pub free-IsGood :
    (idx : ℕ) (s : System) → (s.pool idx).state ≡ used → IsGood s → IsGood (free idx s)
unfolding free
free-IsGood idx s e h = put-IsGood s idx _ (subst (λ a. SameBits a unused) (sym e) used_unused) h

-- What `alloc` answers, and the table that it leaves.
abbrev pub Allocated : System → Result ℕ × System → Type 0
Allocated s (err e, s') = IsGood s'
Allocated s (ok c, s') = IsGood s' × (c < nproc) × ((s'.pool c).state ≡ used) × (s'.cpus ≡ s.cpus)

alloc_slot-Allocated :
    (memory : Result (Unit {0})) (idx : ℕ) (s : System)
    → idx < nproc
    → (s.pool idx).state ≡ unused
    → IsGood s
    → Allocated s (alloc_slot memory idx s)
unfolding alloc_slot
alloc_slot-Allocated memory idx s inside e h = by_memory memory
  where
    t : System
    t = record (put s idx (allocated s.next_pid (s.pool idx))) { next_pid = s.next_pid + 1 }

    good : IsGood t
    good =
        renumber-IsGood _ (s.next_pid + 1)
          (put-IsGood s idx _ (subst (λ a. SameBits a used) (sym e) unused_used) h)

    state : (t.pool idx).state ≡ used
    state = ap (λ (p : Proc). p.state) (update_self s.pool idx _)

    by_memory :
        (m : Result (Unit {0}))
        → Allocated s (elim m as (λ r. Result ℕ × System) [
          | err e' ↦ (err e', free idx t)
          | ok u ↦ (ok idx, t)
        ])
    by_memory (err e') = free-IsGood idx t state good
    by_memory (ok u) = (good, inside, state, refl)

alloc_from-Allocated :
    (memory : Result (Unit {0})) (rounds idx : ℕ) (s : System)
    → idx + rounds ≤ nproc
    → IsGood s
    → Allocated s (alloc_from memory rounds idx s)
unfolding alloc_from
alloc_from-Allocated memory zero idx s le h = h
alloc_from-Allocated memory (suc rounds) idx s le h =
    if_intro (Allocated s) (same_state (s.pool idx).state unused) _ _
      (λ e.
        alloc_slot-Allocated memory idx s (omega (arith, le))
          (same_state-eq (s.pool idx).state unused e) h)
      (λ e. alloc_from-Allocated memory rounds (idx + 1) s (omega (arith, le)) h)

pub alloc-Allocated :
    (memory : Result (Unit {0})) (s : System) → IsGood s → Allocated s (alloc memory s)
unfolding alloc
alloc-Allocated memory s h = alloc_from-Allocated memory nproc 0 s (omega arith) h

-- A used slot becomes runnable: it is init, or has a parent.
module _ (s : System) (idx : ℕ) (state : (s.pool idx).state ≡ used) (on_cpus : IsOnCpus s)
    (alive_parent : (i p : ℕ)
      → i < nproc
      → s.parents i ≡ some p
      → (p < nproc) × (is_alive (s.pool p).state ≡ true))
    (has_parent : (i : ℕ)
      → i < nproc
      → i ≢ 0
      → is_placed (s.pool i).state ≡ true
      → (p : ℕ) × (s.parents i ≡ some p))
    (own_parent : idx ≢ 0 → (p : ℕ) × (s.parents idx ≡ some p))
    (init_alive : idx ≢ 0 → is_alive (s.pool 0).state ≡ true) (t : System)
    (m : MadeRunnable s idx t) where
  made_each :
      (P : ℕ → ProcState → Type 0)
      → P idx runnable
      → ((i : ℕ) → i ≢ idx → P i (s.pool i).state)
      → (i : ℕ) → P i (t.pool i).state
  made_each P here other i = elim (ℕ_discrete i idx) [
    | yes e ↦
        subst (λ k. P k (t.pool k).state) (sym e)
          (subst (P idx) (sym (ap (λ (p : Proc). p.state) m.now.1)) here)
    | no ne ↦ subst (P i) (sym (ap (λ (p : Proc). p.state) (m.others i ne))) (other i ne)
  ]

  bits :
      (i : ℕ)
      → (same_state (t.pool i).state running ≡ same_state (s.pool i).state running)
        × (is_alive (s.pool i).state ≡ true → is_alive (t.pool i).state ≡ true)
  bits =
      made_each
        (λ i a.
          (same_state a running ≡ same_state (s.pool i).state running)
          × (is_alive (s.pool i).state ≡ true → is_alive a ≡ true))
        (ap (λ a. same_state a running) (sym state), (λ e. refl)) (λ i ne. (refl, (λ e. e)))

  same_parent : (i : ℕ) → t.parents i ≡ s.parents i
  same_parent i = ap (λ (f : ℕ → Option ℕ). f i) m.parents

  pub begun-IsGood : IsGood t
  begun-IsGood = record {
    queued = m.queued;
    on_cpus = IsOnCpus-keep s t m.cpus (λ i. ap (λ b. ltb i nproc && b) (bits i).0) on_cpus;
    family = record {
      alive_parent = λ i p inside e.
          let old = alive_parent i p inside (sym (same_parent i) ∙ e) in (old.0, (bits p).1 old.1);
      has_parent = λ i inside ne placed.
          let (p, e) =
            made_each
              (λ i a. i < nproc → i ≢ 0 → is_placed a ≡ true → (p : ℕ) × (s.parents i ≡ some p))
              (λ inside ne placed. own_parent ne)
              (λ i ne inside ne' placed. has_parent i inside ne' placed) i inside ne placed in
          (p, same_parent i ∙ e);
      init_alive =
          made_each (λ i a. i ≡ 0 → is_alive a ≡ true) (λ e. refl)
            (λ i ne e.
              subst (λ k. is_alive (s.pool k).state ≡ true) (sym e)
                (init_alive (λ e'. ne (e ∙ sym e'))))
            0 refl;
    };
  }

pub some_inj : (p q : ℕ) → some p ≡ some q → p ≡ q
some_inj p q h = cc
