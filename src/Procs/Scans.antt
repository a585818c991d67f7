-- ===== src/Procs/Scans.antt =====
-- proc.rs: what `waitpid` finds, and that it finds a process that has exited.
use mathlib.Core.Path.{subst}
use native.Mathlib.Decide.{ℕ_discrete}
use web_os.Prelude.{
  ℕ, zero, suc, ◌+◌, ◌≤◌, ◌<◌, ◌≡◌, ◌≢◌, ◌∙◌, refl, sym, ap, Option, Bool, true, false, not, ◌||◌,
  arith, ◌==◌, Bool-cases, inl, inr, ◌⊎◌, if_intro, update_self, if◌then◌else◌,
}
use web_os.Errors.{Result, ok, err, no_child_processes, interrupted}
use web_os.RunQueue.{nproc}
use web_os.Procs.{System, put}
use web_os.Procs.Ignored.{HeedsPending, drop_ignored-HeedsPending}
use web_os.Procs.Signals.{nsig}
use web_os.Procs.Reaping.{
  Scan, found, nothing, Wait, returns, sleeps, wait_child, scan_from, wait_round, drop_ignored,
  is_wanted, wnohang, has_option,
}

module _ (copyout : ℕ → Result (Unit {0})) (want : Option ℕ) (options idx : ℕ) (s : System) where
  -- The slots from `i` to `n` that are wanted have nothing to report.
  abbrev pub NothingIn : ℕ → ℕ → Type 0
  NothingIn i n =
      (c : ℕ)
      → i ≤ c
      → c < n
      → is_wanted want idx c s ≡ true
      → wait_child copyout options c s ≡ nothing

  -- The answer is that of the first wanted slot from `i` on that has one.
  pub record FirstFound (i : ℕ) (r : Result ℕ) (t : System) : Type 0 where
    pub child : ℕ
    pub from : i ≤ child
    pub below : child < nproc
    pub wanted : is_wanted want idx child s ≡ true
    pub answer : wait_child copyout options child s ≡ found r t
    pub first : NothingIn i child

  -- A scan from `i` on, which starts with `havekids`.
  abbrev Scanned : ℕ → Bool → Scan × Bool → Type 0
  Scanned i havekids (found r t, b) = FirstFound i r t
  Scanned i havekids (nothing, b) =
      NothingIn i nproc
      × ((b ≡ true) → (havekids ≡ true) ⊎ ((c : ℕ) × (c < nproc) × (is_wanted want idx c s ≡ true)))
      × ((b ≡ false) → (c : ℕ) → i ≤ c → c < nproc → is_wanted want idx c s ≡ false)

  -- One slot more in front, from which nothing is reported.
  Scanned-more :
      (i : ℕ) (havekids more : Bool)
      → i < nproc
      → (is_wanted want idx i s ≡ true → wait_child copyout options i s ≡ nothing)
      → (more ≡ true → (havekids ≡ true) ⊎ (is_wanted want idx i s ≡ true))
      → (is_wanted want idx i s ≡ true → more ≡ true)
      → (o : Scan × Bool) → (more ≡ true → o.1 ≡ false → ⊥)
      → Scanned (i + 1) more o
      → Scanned i havekids o
  Scanned-more i havekids more inside quiet kids kid (found r t, b) keeps f = record {
    child = f.child;
    from = omega (arith, f.from);
    below = f.below;
    wanted = f.wanted;
    answer = f.answer;
    first = λ c le lt w. elim (ℕ_discrete c i) [
      | yes e ↦
          subst (λ k. is_wanted want idx k s ≡ true → wait_child copyout options k s ≡ nothing)
            (sym e) quiet w
      | no ne ↦ f.first c (omega (arith, le, ne)) lt w
    ];
  }
  Scanned-more i havekids more inside quiet kids kid (nothing, b) keeps
        (none_found, some_kid, no_kid) =
      (
        (λ c le lt w. elim (ℕ_discrete c i) [
          | yes e ↦
              subst (λ k. is_wanted want idx k s ≡ true → wait_child copyout options k s ≡ nothing)
                (sym e) quiet w
          | no ne ↦ none_found c (omega (arith, le, ne)) lt w
        ]),
        (λ e. known (some_kid e)),
        λ e c le lt. elim (ℕ_discrete c i) [
          | yes same ↦ subst (λ k. is_wanted want idx k s ≡ false) (sym same) (not_wanted e)
          | no ne ↦ no_kid e c (omega (arith, le, ne)) lt
        ],
      )
    where
      known :
          (more ≡ true) ⊎ ((c : ℕ) × (c < nproc) × (is_wanted want idx c s ≡ true))
          → (havekids ≡ true) ⊎ ((c : ℕ) × (c < nproc) × (is_wanted want idx c s ≡ true))
      known (inr k) = inr k
      known (inl e) = elim (kids e) [ inl h ↦ inl h | inr w ↦ inr (i, inside, w) ]

      not_wanted : b ≡ false → is_wanted want idx i s ≡ false
      not_wanted e = elim (Bool-cases (is_wanted want idx i s)) [
        | inr w ↦ w
        | inl w ↦ absurd (keeps (kid w) e)
      ]

  -- The flag is never taken back.
  scan_from-flag : (rounds i : ℕ) → (scan_from copyout rounds i want idx options true s).1 ≡ true
  unfolding scan_from
  scan_from-flag zero i = refl
  scan_from-flag (suc rounds) i =
      if_intro (λ (o : Scan × Bool). o.1 ≡ true) (is_wanted want idx i s) _ _
        (λ e. by_child (scan_from-flag rounds (i + 1)) (wait_child copyout options i s))
        (λ e. scan_from-flag rounds (i + 1))
    where
      by_child :
          (scan_from copyout rounds (i + 1) want idx options true s).1 ≡ true
          → (seen : Scan)
          → (elim seen as (λ k. Scan × Bool) [
            | nothing ↦ scan_from copyout rounds (i + 1) want idx options true s
            | found r t ↦ (found r t, true)
          ]).1
            ≡ true
      by_child h nothing = h
      by_child h (found r t) = refl

  true_ne : (b : Bool) → b ≡ true → b ≢ false
  true_ne b e e' = ground (arith, e, e')

  pub scan_from-Scanned :
      (rounds i : ℕ) (havekids : Bool)
      → i + rounds ≡ nproc
      → Scanned i havekids (scan_from copyout rounds i want idx options havekids s)
  unfolding scan_from
  scan_from-Scanned zero i havekids e = (
    (λ c le lt. absurd (omega (arith, e, le, lt))),
    (λ b. inl b),
    (λ b c le lt. absurd (omega (arith, e, le, lt))),
  )
  scan_from-Scanned (suc rounds) i havekids e =
      if_intro (Scanned i havekids) (is_wanted want idx i s) _ _
        (λ w.
          by_child w (scan_from-Scanned rounds (i + 1) true (omega (arith, e)))
            (wait_child copyout options i s) refl)
        (λ w.
          Scanned-more i havekids havekids (omega (arith, e)) (λ w'. absurd (true_ne _ w' w))
            (λ h. inl h) (λ w'. absurd (true_ne _ w' w)) _
            (λ h. true_ne _ (
              ap (λ b. (scan_from copyout rounds (i + 1) want idx options b s).1) h
              ∙ scan_from-flag rounds (i + 1)))
            (scan_from-Scanned rounds (i + 1) havekids (omega (arith, e))))
    where
      by_child :
          is_wanted want idx i s ≡ true
          → Scanned (i + 1) true (scan_from copyout rounds (i + 1) want idx options true s)
          → (seen : Scan) → wait_child copyout options i s ≡ seen
          → Scanned i havekids (elim seen as (λ k. Scan × Bool) [
            | nothing ↦ scan_from copyout rounds (i + 1) want idx options true s
            | found r t ↦ (found r t, true)
          ])
      by_child w h (found r t) e' = record {
        child = i;
        from = omega arith;
        below = omega (arith, e);
        wanted = w;
        answer = e';
        first = λ c le lt. absurd (omega (arith, le, lt));
      }
      by_child w h nothing e' =
          Scanned-more i havekids true (omega (arith, e)) (λ w'. e') (λ h. inr w) (λ w'. refl) _
            (λ h. true_ne _ (scan_from-flag rounds (i + 1))) h

  -- The answer when no wanted slot has one: the tests in their order, each with those before it failed.
  pub data IsIdle : Wait → Type 0 where
    at_once : has_option options wnohang ≡ true → IsIdle (returns (ok 0) s)
    childless :
        has_option options wnohang ≡ false
        → ((c : ℕ) → c < nproc → is_wanted want idx c s ≡ false)
        → IsIdle (returns (err no_child_processes) s)
    was_killed :
        has_option options wnohang ≡ false
        → (s.pool idx).killed ≡ true
        → IsIdle (returns (err no_child_processes) s)
    disturbed :
        {t : System} (c : ℕ)
        → has_option options wnohang ≡ false
        → c < nproc
        → is_wanted want idx c s ≡ true
        → (s.pool idx).killed ≡ false
        → t ≡ put s idx (drop_ignored nsig 1 (s.pool idx))
        → (HeedsPending (s.pool idx) → t.pool idx ≡ s.pool idx)
        → (t.pool idx).sig_pending ≢ 0
        → IsIdle (returns (err interrupted) t)
    waiting :
        {t : System} (c : ℕ)
        → has_option options wnohang ≡ false
        → c < nproc
        → is_wanted want idx c s ≡ true
        → (s.pool idx).killed ≡ false
        → t ≡ put s idx (drop_ignored nsig 1 (s.pool idx))
        → (HeedsPending (s.pool idx) → t.pool idx ≡ s.pool idx)
        → (t.pool idx).sig_pending ≡ 0
        → IsIdle (sleeps t)

  abbrev pub WaitAnswers : Wait → Type 0
  WaitAnswers w =
      ((r : Result ℕ) × (t : System) × (w ≡ returns r t) × FirstFound 0 r t)
      ⊎ (NothingIn 0 nproc × IsIdle w)

  idle-IsIdle :
      (b : Bool)
      → ((b ≡ true) → (c : ℕ) × (c < nproc) × (is_wanted want idx c s ≡ true))
      → ((b ≡ false) → (c : ℕ) → c < nproc → is_wanted want idx c s ≡ false)
      → (t : System) → t ≡ put s idx (drop_ignored nsig 1 (s.pool idx))
      → IsIdle (
          if has_option options wnohang
          then returns (ok 0) s
          else if not b || (s.pool idx).killed
          then returns (err no_child_processes) s
          else if not ((t.pool idx).sig_pending == 0)
          then returns (err interrupted) t
          else sleeps t)
  idle-IsIdle b kid none_wanted t same =
      if_intro IsIdle (has_option options wnohang) _ _ at_once (λ hangs.
        if_intro IsIdle (not b || (s.pool idx).killed) _ _
          (λ e. elim (Bool-cases b) [
            | inl yes_kid ↦ was_killed hangs (ground (arith, e, yes_kid))
            | inr no_kid ↦ childless hangs (none_wanted no_kid)
          ])
          (λ e.
            let (c, lt, w) = kid (ground (arith, e)) in
            if_intro IsIdle (not ((t.pool idx).sig_pending == 0)) _ _
              (λ e'.
                disturbed c hangs lt w (ground (arith, e)) same (heeds same)
                  (λ z. ground (arith, e', z)))
              (λ e'.
                waiting c hangs lt w (ground (arith, e)) same (heeds same) (ground (arith, e')))))
    where
      heeds :
          t ≡ put s idx (drop_ignored nsig 1 (s.pool idx))
          → HeedsPending (s.pool idx)
          → t.pool idx ≡ s.pool idx
      heeds e h =
          ap (λ (x : System). x.pool idx) e
          ∙ update_self s.pool idx (drop_ignored nsig 1 (s.pool idx))
          ∙ drop_ignored-HeedsPending nsig 1 (s.pool idx) h (omega arith) (omega arith)

  pub wait_round_lem : WaitAnswers (wait_round copyout want options idx s)
  unfolding wait_round
  wait_round_lem =
      by_scan (scan_from copyout nproc 0 want idx options false s)
        (scan_from-Scanned nproc 0 false refl)
    where
      dropped : System
      dropped = put s idx (drop_ignored nsig 1 (s.pool idx))

      a_kid :
          (false ≡ true) ⊎ ((c : ℕ) × (c < nproc) × (is_wanted want idx c s ≡ true))
          → (c : ℕ) × (c < nproc) × (is_wanted want idx c s ≡ true)
      a_kid (inl e) = absurd (ground (arith, e))
      a_kid (inr k) = k

      by_scan :
          (o : Scan × Bool)
          → Scanned 0 false o
          → WaitAnswers (elim o.0 as (λ k. Wait) [
            | found r t ↦ returns r t
            | nothing ↦
                if has_option options wnohang
                then returns (ok 0) s
                else if not o.1 || (s.pool idx).killed
                then returns (err no_child_processes) s
                else if not ((dropped.pool idx).sig_pending == 0)
                then returns (err interrupted) dropped
                else sleeps dropped
          ])
      by_scan (found r t, b) f = inl (r, t, refl, f)
      by_scan (nothing, b) (none_found, some_kid, no_kid) = inr (
        none_found,
        idle-IsIdle b (λ e. a_kid (some_kid e)) (λ e c lt. no_kid e c (omega arith) lt) dropped
            refl,
      )
