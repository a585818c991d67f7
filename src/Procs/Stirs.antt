-- ===== src/Procs/Stirs.antt =====
-- proc.rs: a process that is made runnable under a test, and what stays.
use mathlib.Core.Path.{subst}
use web_os.Prelude.{
  ◌⊎◌, ℕ, ◌<◌, ◌≡◌, ◌≢◌, ◌∙◌, refl, sym, ap, some, Bool, true, false, ◌&&◌, ◌||◌, arith, inl, inr,
}
use web_os.RunQueue.{nproc, ncpu}
use web_os.Procs.{System, Proc, sleeping, stopped, runnable, same_state}
use web_os.Procs.Signals.{wake_if}
use web_os.Procs.Balance.{IsQueued, make_runnable-MadeRunnable}
use web_os.Procs.Waking.{is_blocked, blocked-ne}

-- A process that is made runnable, or stays.
abbrev pub Stays : Bool → Proc → Proc → Type 0
Stays b p q =
    ((b ≡ true) × ((cpu : ℕ) × (q ≡ record p { state = runnable; last_cpu = cpu })))
    ⊎ ((b ≡ false) × (q ≡ p))

-- Only the state and the last CPU differ.
abbrev pub IsMoved : Proc → Proc → Type 0
IsMoved p q = q ≡ record p { state = q.state; last_cpu = q.last_cpu }

pub Stays-IsMoved : (b : Bool) (p q : Proc) → Stays b p q → IsMoved p q
Stays-IsMoved b p q (inl (e, (cpu, same))) = subst (IsMoved p) (sym same) refl
Stays-IsMoved b p q (inr (e, same)) = subst (IsMoved p) (sym same) refl

pub IsMoved-trans : (p q r : Proc) → IsMoved p q → IsMoved q r → IsMoved p r
IsMoved-trans p q r f g =
    g ∙ ap (λ (k : Proc). record k { state = r.state; last_cpu = r.last_cpu }) f

-- What is not about the processes themselves, but for the queues.
abbrev pub SameRest : System → System → Type 0
SameRest s t =
    (t.parents ≡ s.parents)
    × (t.cpus ≡ s.cpus)
    × (t.next_pid ≡ s.next_pid)
    × (t.addresses ≡ s.addresses)

-- Process `idx` is made runnable if `b` is true, and all else stays.
pub record Stirred (b : Bool) (idx : ℕ) (s t : System) : Type 0 where
  pub queued : IsQueued t
  pub now : Stays b (s.pool idx) (t.pool idx)
  pub others : (i : ℕ) → i ≢ idx → t.pool i ≡ s.pool i
  pub rest : SameRest s t

pub wake_if-Stirred :
    (b : Bool) (cpu idx : ℕ) (s : System)
    → IsQueued s
    → cpu < ncpu
    → idx < nproc
    → (b ≡ true → is_blocked (s.pool idx).state ≡ true)
    → (t : System) × (wake_if b cpu idx s ≡ some t) × Stirred b idx s t
wake_if-Stirred false cpu idx s h small inside blocked = (
  s,
  refl,
  record {
    queued = h;
    now = inr (refl, refl);
    others = λ i ne. refl;
    rest = (refl, refl, refl, refl);
  },
)
wake_if-Stirred true cpu idx s h small inside blocked =
    let (t, e, m) =
      make_runnable-MadeRunnable cpu idx s h small inside
        (blocked-ne (s.pool idx).state (blocked refl)) in
    (
      t,
      e,
      record {
        queued = m.queued;
        now = inl (refl, m.now);
        others = m.others;
        rest = (m.parents, m.cpus, m.next_pid, m.addresses);
      },
    )

-- The states after the two tests: the second one asks for a sleeping process.
pub two_tests :
    (d : Bool) (x y z : Proc)
    → Stays (same_state x.state stopped && d) x y
    → Stays (same_state y.state sleeping) y z
    → ((same_state x.state sleeping || (same_state x.state stopped && d)) ≡ true
        → z.state ≡ runnable)
      × ((same_state x.state sleeping || (same_state x.state stopped && d)) ≡ false
          → (z.state ≡ x.state) × (z.last_cpu ≡ x.last_cpu))
two_tests d x y z (inl (e, (c, same))) (inl (e', (c', same'))) =
    ((λ h. ap (λ (k : Proc). k.state) same'), (λ h. absurd (ground (arith, e, h))))
two_tests d x y z (inl (e, (c, same))) (inr (e', same')) =
    ((λ h. ap (λ (k : Proc). k.state) (same' ∙ same)), (λ h. absurd (ground (arith, e, h))))
two_tests d x y z (inr (e, same)) (inl (e', (c', same'))) = (
  (λ h. ap (λ (k : Proc). k.state) same'),
  (λ h. absurd (ground (arith, h, e', ap (λ (k : Proc). same_state k.state sleeping) same))),
)
two_tests d x y z (inr (e, same)) (inr (e', same')) = (
  (λ h. absurd (ground (arith, h, e, e', ap (λ (k : Proc). same_state k.state sleeping) same))),
  (λ h. (ap (λ (k : Proc). k.state) (same' ∙ same), ap (λ (k : Proc). k.last_cpu) (same' ∙ same))),
)
