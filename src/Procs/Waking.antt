-- ===== src/Procs/Waking.antt =====
-- proc.rs: wake-ups, signals and clock ticks make blocked processes runnable and change no other state.
use mathlib.Core.Path.{subst}
use native.Mathlib.Decide.{ℕ_discrete}
use web_os.Prelude.{
  ℕ, zero, suc, ◌+◌, ◌≤◌, ◌<◌, ◌≡◌, ◌∙◌, refl, sym, ap, Option, none, some, Bool, true, false, ◌&&◌,
  arith, ltb, ◌==◌, inl, inr, ◌⊎◌, if_intro, update, update_self, update_ne,
}
use web_os.RunQueue.{nproc, ncpu}
use web_os.Procs.States.{same_state-eq}
use web_os.Procs.{
  System, Proc, ProcState, unused, used, sleeping, stopped, runnable, running, zombie, same_state,
  put, make_runnable, for_from,
}
use web_os.Procs.Signals.{sigcont, noted, wake_if}
use web_os.Procs.Balance.{IsQueued, IsQueued-keep, MadeRunnable, make_runnable-MadeRunnable}

abbrev pub is_blocked : ProcState → Bool
is_blocked sleeping = true
is_blocked stopped = true
is_blocked unused = false
is_blocked used = false
is_blocked runnable = false
is_blocked running = false
is_blocked zombie = false

abbrev pub Woke : ProcState → ProcState → Type 0
Woke a b = (b ≡ a) ⊎ ((is_blocked a ≡ true) × (b ≡ runnable))

pub record Moved (p q : Proc) : Type 0 where
  pub woke : Woke p.state q.state
  pub pid : q.pid ≡ p.pid
  pub thread : q.is_thread ≡ p.is_thread

pub record Woken (s s' : System) : Type 0 where
  pub moved : (i : ℕ) → Moved (s.pool i) (s'.pool i)
  pub parents : s'.parents ≡ s.parents
  pub cpus : s'.cpus ≡ s.cpus
  pub next_pid : s'.next_pid ≡ s.next_pid
  pub addresses : s'.addresses ≡ s.addresses

Moved-refl : (p : Proc) → Moved p p
Moved-refl p = record { woke = inl refl; pid = refl; thread = refl }

Woke-trans : (a b c : ProcState) → Woke a b → Woke b c → Woke a c
Woke-trans a b c (inl e) w = subst (λ k. Woke k c) e w
Woke-trans a b c (inr (blocked, e)) (inl e') = inr (blocked, e' ∙ e)
Woke-trans a b c (inr (blocked, e)) (inr (blocked', e')) = inr (blocked, e')

Moved-trans : (p q r : Proc) → Moved p q → Moved q r → Moved p r
Moved-trans p q r f g = record {
  woke = Woke-trans p.state q.state r.state f.woke g.woke;
  pid = g.pid ∙ f.pid;
  thread = g.thread ∙ f.thread;
}

pub Woken-refl : (s : System) → Woken s s
Woken-refl s = record {
  moved = λ i. Moved-refl (s.pool i);
  parents = refl;
  cpus = refl;
  next_pid = refl;
  addresses = refl;
}

pub Woken-trans : (s t u : System) → Woken s t → Woken t u → Woken s u
Woken-trans s t u f g = record {
  moved = λ i. Moved-trans (s.pool i) (t.pool i) (u.pool i) (f.moved i) (g.moved i);
  parents = g.parents ∙ f.parents;
  cpus = g.cpus ∙ f.cpus;
  next_pid = g.next_pid ∙ f.next_pid;
  addresses = g.addresses ∙ f.addresses;
}

-- An operation that does not panic and only wakes.
abbrev pub Wakes : System → Option System → Type 0
Wakes s run = (s' : System) × (run ≡ some s') × IsQueued s' × Woken s s'

pub Wakes-refl : (s : System) → IsQueued s → Wakes s (some s)
Wakes-refl s h = (s, refl, h, Woken-refl s)

-- A change of one process that keeps its state, its number and its kind.
pub put-Wakes :
    (s : System) (idx : ℕ) (p : Proc)
    → IsQueued s
    → p.state ≡ (s.pool idx).state
    → p.pid ≡ (s.pool idx).pid
    → p.is_thread ≡ (s.pool idx).is_thread
    → IsQueued (put s idx p) × Woken s (put s idx p)
put-Wakes s idx p h state pid thread = (
  IsQueued-keep s (put s idx p) refl refl
      (λ i. ap (λ k. ltb i nproc && same_state k runnable) (states i)) h,
  record { moved = each; parents = refl; cpus = refl; next_pid = refl; addresses = refl },
)
  where
    states : (i : ℕ) → (update s.pool idx p i).state ≡ (s.pool i).state
    states i = elim (ℕ_discrete i idx) [
      | yes e ↦
          ap (λ (q : Proc). q.state) (ap (update s.pool idx p) e ∙ update_self s.pool idx p)
          ∙ state
          ∙ ap (λ k. (s.pool k).state) (sym e)
      | no ne ↦ ap (λ (q : Proc). q.state) (update_ne s.pool p ne)
    ]

    each : (i : ℕ) → Moved (s.pool i) (update s.pool idx p i)
    each i = elim (ℕ_discrete i idx) [
      | yes e ↦
          subst (λ k. Moved (s.pool k) (update s.pool idx p k)) (sym e)
            (subst (Moved (s.pool idx)) (sym (update_self s.pool idx p))
              (record { woke = inl state; pid = pid; thread = thread }))
      | no ne ↦ subst (Moved (s.pool i)) (sym (update_ne s.pool p ne)) (Moved-refl (s.pool i))
    ]

pub blocked-ne : (a : ProcState) → is_blocked a ≡ true → same_state a runnable ≡ false
blocked-ne sleeping h = refl
blocked-ne stopped h = refl
blocked-ne unused h = ground (arith, h)
blocked-ne used h = ground (arith, h)
blocked-ne runnable h = ground (arith, h)
blocked-ne running h = ground (arith, h)
blocked-ne zombie h = ground (arith, h)

pub make_runnable-Wakes :
    (cpu idx : ℕ) (s : System)
    → IsQueued s
    → cpu < ncpu
    → idx < nproc
    → is_blocked (s.pool idx).state ≡ true
    → Wakes s (make_runnable cpu idx s)
make_runnable-Wakes cpu idx s h small inside blocked =
    let (s', e, m) =
      make_runnable-MadeRunnable cpu idx s h small inside (blocked-ne (s.pool idx).state blocked) in
    (
      s',
      e,
      m.queued,
      record {
        moved = each s' m;
        parents = m.parents;
        cpus = m.cpus;
        next_pid = m.next_pid;
        addresses = m.addresses;
      },
    )
  where
    each : (s' : System) → MadeRunnable s idx s' → (i : ℕ) → Moved (s.pool i) (s'.pool i)
    each s' m i = elim (ℕ_discrete i idx) [
      | yes e ↦
          subst (λ k. Moved (s.pool k) (s'.pool k)) (sym e)
            (subst (Moved (s.pool idx)) (sym m.now.1)
              (record { woke = inr (blocked, refl); pid = refl; thread = refl }))
      | no ne ↦ subst (Moved (s.pool i)) (sym (m.others i ne)) (Moved-refl (s.pool i))
    ]

-- One operation after another.
pub Wakes-then :
    (s : System) (run : Option System) (f : System → Option System)
    → Wakes s run
    → ((t : System) → IsQueued t → Woken s t → Wakes t (f t))
    → Wakes s (elim run [ none ↦ none | some t ↦ f t ])
Wakes-then s run f (t, e, h, w) g =
    let (u, e', h', w') = g t h w in
    (
      u,
      ap (λ (o : Option System). elim o [ none ↦ none | some t' ↦ f t' ]) e ∙ e',
      h',
      Woken-trans s t u w w',
    )

pub for_from-Wakes :
    (body : ℕ → System → Option System)
    → ((idx : ℕ) (t : System) → idx < nproc → IsQueued t → Wakes t (body idx t))
    → (rounds idx : ℕ) (s : System) → idx + rounds ≤ nproc
    → IsQueued s
    → Wakes s (for_from body rounds idx s)
unfolding for_from
for_from-Wakes body each zero idx s h q = Wakes-refl s q
for_from-Wakes body each (suc rounds) idx s h q =
    Wakes-then s (body idx s) (for_from body rounds (idx + 1)) (each idx s (omega (arith, h)) q)
      (λ t q' w. for_from-Wakes body each rounds (idx + 1) t (omega (arith, h)) q')

pub wake_if-Wakes :
    (b : Bool) (cpu idx : ℕ) (s : System)
    → IsQueued s
    → cpu < ncpu
    → idx < nproc
    → (b ≡ true → is_blocked (s.pool idx).state ≡ true)
    → Wakes s (wake_if b cpu idx s)
wake_if-Wakes true cpu idx s h small inside blocked =
    make_runnable-Wakes cpu idx s h small inside (blocked refl)
wake_if-Wakes false cpu idx s h small inside blocked = Wakes-refl s h

pub sleeping-blocked : (a : ProcState) → same_state a sleeping ≡ true → is_blocked a ≡ true
sleeping-blocked a e = ap is_blocked (same_state-eq a sleeping e)

pub stopped-blocked : (a : ProcState) → same_state a stopped ≡ true → is_blocked a ≡ true
stopped-blocked a e = ap is_blocked (same_state-eq a stopped e)

pub both : (a b : Bool) → (a && b) ≡ true → (a ≡ true) × (b ≡ true)
both a b h = (ground arith, ground arith)

-- A change that keeps the states, and then an operation that only wakes.
pub Wakes-after :
    (s t : System) (run : Option System) → IsQueued t × Woken s t → Wakes t run → Wakes s run
Wakes-after s t run (h, w) (u, e, h', w') = (u, e, h', Woken-trans s t u w w')

abbrev pub KeepsState : Proc → Proc → Type 0
KeepsState p q = (q.state ≡ p.state) × (q.pid ≡ p.pid) × (q.is_thread ≡ p.is_thread)

pub noted-KeepsState : (sig : ℕ) (p : Proc) → KeepsState p (noted sig p)
unfolding noted
noted-KeepsState sig p =
    if_intro (KeepsState p) (sig == sigcont) _ _ (λ e. (refl, refl, refl)) (λ e. (refl, refl, refl))
