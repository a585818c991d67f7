-- ===== src/Procs/Wakeups.antt =====
-- proc.rs: `wakeup` wakes the processes that sleep on the channel, and no other.
use mathlib.Core.Path.{subst}
use native.Mathlib.Decide.{ℕ_discrete}
use web_os.Prelude.{
  ℕ, zero, suc, ◌+◌, ◌≤◌, ◌<◌, ◌≡◌, ◌∙◌, refl, sym, ap, Option, none, some, Bool, true, false, not,
  ◌&&◌, arith, ◌==◌, inl, inr, ◌⊎◌, if_intro,
}
use web_os.RunQueue.{nproc, ncpu}
use web_os.Procs.{
  System, Proc, sleeping, runnable, same_state, is_index, myproc, for_from, wake_one, wakeup,
}
use web_os.Procs.Balance.{IsQueued, MadeRunnable, make_runnable-MadeRunnable}
use web_os.Procs.States.{same_state-eq}

-- A loop over the processes that keeps an invariant of how far it has come.
pub for_from-each :
    (P : ℕ → System → Type 0) (body : ℕ → System → Option System)
    → ((i : ℕ) (t : System) → i < nproc → P i t → (u : System) × (body i t ≡ some u) × P (i + 1) u)
    → (rounds i : ℕ) (s : System) → i + rounds ≡ nproc
    → P i s
    → (u : System) × (for_from body rounds i s ≡ some u) × P nproc u
unfolding for_from
for_from-each P body each zero i s e h = (s, refl, subst (λ k. P k s) (omega (arith, e)) h)
for_from-each P body each (suc rounds) i s e h =
    let (t, e', h') = each i s (omega (arith, e)) h in
    let (u, e'', h'') = for_from-each P body each rounds (i + 1) t (omega (arith, e)) h' in
    (
      u,
      ap (λ (o : Option System). elim o [ none ↦ none | some x ↦ for_from body rounds (i + 1) x ])
            e'
          ∙ e'',
      h'',
    )

-- The process has become runnable.
abbrev pub IsRoused : Proc → Proc → Type 0
IsRoused p q =
    (p.state ≡ sleeping) × ((cpu : ℕ) × (q ≡ record p { state = runnable; last_cpu = cpu }))

-- Whether `wakeup` on the channel wakes a process, which the current one never is.
abbrev pub is_waked : Option ℕ → ℕ → ℕ → Proc → Bool
is_waked cur chan idx p = not (is_index cur idx) && (same_state p.state sleeping && p.chan == chan)

abbrev pub Effect : Option ℕ → ℕ → ℕ → Proc → Proc → Type 0
Effect cur chan idx p q =
    ((is_waked cur chan idx p ≡ true) × IsRoused p q)
    ⊎ ((is_waked cur chan idx p ≡ false) × (q ≡ p))

-- What is left of the table.
pub record Kept (s t : System) : Type 0 where
  pub queued : IsQueued t
  pub cpus : t.cpus ≡ s.cpus
  pub parents : t.parents ≡ s.parents
  pub next_pid : t.next_pid ≡ s.next_pid
  pub addresses : t.addresses ≡ s.addresses

record IsWaking (cur : Option ℕ) (chan : ℕ) (s : System) (i : ℕ) (t : System) : Type 0 where
  kept : Kept s t
  waked : (j : ℕ) → j < i → Effect cur chan j (s.pool j) (t.pool j)
  rest : (j : ℕ) → i ≤ j → t.pool j ≡ s.pool j

-- The loop goes past a process that it leaves alone, or has made runnable.
module _ (cur : Option ℕ) (chan : ℕ) (s : System) (i : ℕ) (t : System)
    (h : IsWaking cur chan s i t) where
  leave_alone : is_waked cur chan i (s.pool i) ≡ false → IsWaking cur chan s (i + 1) t
  leave_alone e = record {
    kept = h.kept;
    waked = λ j lt. elim (ℕ_discrete j i) [
      | yes same ↦
          inr (ap (λ k. is_waked cur chan k (s.pool k)) same ∙ e, h.rest j (omega (arith, same)))
      | no ne ↦ h.waked j (omega (arith, lt, ne))
    ];
    rest = λ j le. h.rest j (omega (arith, le));
  }

  go_past :
      is_waked cur chan i (s.pool i) ≡ true
      → (s.pool i).state ≡ sleeping
      → (u : System) → MadeRunnable t i u
      → IsWaking cur chan s (i + 1) u
  go_past e state u m = record {
    kept = record {
      queued = m.queued;
      cpus = m.cpus ∙ h.kept.cpus;
      parents = m.parents ∙ h.kept.parents;
      next_pid = m.next_pid ∙ h.kept.next_pid;
      addresses = m.addresses ∙ h.kept.addresses;
    };
    waked = λ j lt. elim (ℕ_discrete j i) [
      | yes same ↦
          subst (λ k. Effect cur chan k (s.pool k) (u.pool k)) (sym same)
            (inl (
              e,
              (
                state,
                (
                  m.now.0,
                  m.now.1
                      ∙ ap (λ (p : Proc). record p { state = runnable; last_cpu = m.now.0 })
                          (h.rest i (omega arith)),
                ),
              ),
            ))
      | no ne ↦
          subst (Effect cur chan j (s.pool j)) (sym (m.others j ne))
            (h.waked j (omega (arith, lt, ne)))
    ];
    rest = λ j le. m.others j (omega (arith, le)) ∙ h.rest j (omega (arith, le));
  }

module _ (cpu : ℕ) (small : cpu < ncpu) (cur : Option ℕ) (chan : ℕ) (s : System) where
  wake_one-IsWaking :
      (i : ℕ) (t : System)
      → i < nproc
      → IsWaking cur chan s i t
      → (u : System) × (wake_one cur cpu chan i t ≡ some u) × IsWaking cur chan s (i + 1) u
  unfolding wake_one
  wake_one-IsWaking i t inside h =
      if_intro Next (is_index cur i) _ _
        (λ e. (t, refl, leave_alone cur chan s i t h (ap (λ b. not b && wanted) e)))
        (λ current.
          if_intro Next (same_state (t.pool i).state sleeping && (t.pool i).chan == chan) _ _
            (λ e.
              let state = same_state-eq (s.pool i).state sleeping (conj _ _ (sym same ∙ e)) in
              let (u, e', m) = make_runnable-MadeRunnable cpu i t h.kept.queued small inside (
                ap (λ (p : Proc). same_state p.state runnable) (h.rest i (omega arith))
                ∙ ap (λ a. same_state a runnable) state) in
              (
                u,
                e',
                go_past cur chan s i t h (ap (λ b. not b && wanted) current ∙ sym same ∙ e) state u
                    m,
              ))
            (λ e. (
              t,
              refl,
              leave_alone cur chan s i t h (ap (λ b. not b && wanted) current ∙ sym same ∙ e),
            )))
    where
      Next : Option System → Type 0
      Next o = (u : System) × (o ≡ some u) × IsWaking cur chan s (i + 1) u

      wanted : Bool
      wanted = same_state (s.pool i).state sleeping && (s.pool i).chan == chan

      same : (same_state (t.pool i).state sleeping && (t.pool i).chan == chan) ≡ wanted
      same =
          ap (λ (p : Proc). same_state p.state sleeping && p.chan == chan) (h.rest i (omega arith))

      conj : (a b : Bool) → (a && b) ≡ true → a ≡ true
      conj a b e = ground arith

-- On queued processes wakeup fails no assertion. It makes runnable, once each, all processes but
-- the current one that sleep on the channel, and leaves every other process as it was.
pub wakeup_lem :
    (cpu chan : ℕ) (s : System)
    → IsQueued s
    → cpu < ncpu
    → (t : System) × (wakeup cpu chan s ≡ some t)
      × Kept s t
      × ((j : ℕ) → j < nproc → Effect (myproc s cpu) chan j (s.pool j) (t.pool j))
      × ((j : ℕ) → nproc ≤ j → t.pool j ≡ s.pool j)
unfolding wakeup
wakeup_lem cpu chan s h small =
    let (t, e, w) =
      for_from-each (IsWaking (myproc s cpu) chan s) (wake_one (myproc s cpu) cpu chan)
        (wake_one-IsWaking cpu small (myproc s cpu) chan s) nproc 0 s refl
        (record {
          kept = record {
            queued = h;
            cpus = refl;
            parents = refl;
            next_pid = refl;
            addresses = refl;
          };
          waked = λ j lt. absurd (omega (arith, lt));
          rest = λ j le. refl;
        }) in
    (t, e, w.kept, w.waked, w.rest)
