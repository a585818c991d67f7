-- ===== src/Procs/Children.antt =====
-- proc.rs: fork and clone keep a good table good.
use mathlib.Core.Path.{subst}
use native.Mathlib.Decide.{ℕ_discrete}
use web_os.Prelude.{
  ℕ, ◌<◌, ◌≡◌, ◌∙◌, refl, sym, ap, Option, none, some, true, if_intro, update, update_self,
  update_ne,
}
use web_os.Errors.{Result, ok, err}
use web_os.RunQueue.{nproc, ncpu}
use web_os.Procs.{System, Proc, CpuState, used, runnable, same_state, runs, put, alloc, free}
use web_os.Procs.Family.{set_parent, start, fork, fork_into, clone, clone_into, is_stack}
use web_os.Procs.Steps.{after_call}
use web_os.Procs.Balance.{IsQueued-keep, make_runnable-MadeRunnable}
use web_os.Procs.Tree.{IsGood, Safe, is_alive, put_state-IsGood}
use web_os.Procs.Cpus.{runs-is_alive}
use web_os.Procs.Births.{Allocated, alloc-Allocated, begun-IsGood, free-IsGood, some_inj}

-- The child of a process that runs.
module _ (cpu idx : ℕ) (small : cpu < ncpu) where
  pub parent-IsGood :
      (s : System) (child p : ℕ)
      → IsGood s
      → (p < nproc) × (is_alive (s.pool p).state ≡ true)
      → IsGood (set_parent s child (some p))
  parent-IsGood s child p h alive = record {
    queued = IsQueued-keep s _ refl refl (λ i. refl) h.queued;
    on_cpus = h.on_cpus;
    family = record {
      alive_parent = λ i q inside e. elim (ℕ_discrete i child) [
        | yes e' ↦
            subst (λ k. (k < nproc) × (is_alive (s.pool k).state ≡ true))
              (some_inj p q (
                sym (update_self s.parents child (some p))
                ∙ ap (update s.parents child (some p)) (sym e')
                ∙ e))
              alive
        | no ne ↦ h.family.alive_parent i q inside (sym (update_ne s.parents (some p) ne) ∙ e)
      ];
      has_parent = λ i inside ne placed. elim (ℕ_discrete i child) [
        | yes e' ↦
            (p, ap (update s.parents child (some p)) e' ∙ update_self s.parents child (some p))
        | no ne' ↦
            let (q, e) = h.family.has_parent i inside ne placed in
            (q, update_ne s.parents (some p) ne' ∙ e)
      ];
      init_alive = h.family.init_alive;
    };
  }

  start-Safe :
      (s : System) (child : ℕ)
      → IsGood s
      → s.cpus cpu ≡ runs idx
      → child < nproc
      → (s.pool child).state ≡ used
      → Safe (after_call (start cpu idx child s))
  unfolding start
  start-Safe s child h here inside state =
      let good = parent-IsGood s child idx h (runs-is_alive s cpu idx h small here) in
      let t = set_parent s child (some idx) in
      let (u, e, m) =
        make_runnable-MadeRunnable cpu child t good.queued small inside
          (ap (λ a. same_state a runnable) state) in
      (
        u,
        ap
            (λ (o : Option System).
              after_call (elim o [ none ↦ none | some x ↦ some (numbered, x) ]))
            e,
        begun-IsGood t child state good.on_cpus good.family.alive_parent good.family.has_parent
            (λ ne. (idx, update_self s.parents child (some idx))) (λ ne. good.family.init_alive) u
            m,
      )
    where
      numbered : Result ℕ
      numbered = ok (s.pool child).pid

  -- A child that has got its registers starts.
  child-Safe :
      (s t : System) (c : ℕ) (p : Proc)
      → Allocated s (ok c, t)
      → s.cpus cpu ≡ runs idx
      → p.state ≡ (t.pool c).state
      → Safe (after_call (start cpu idx c (put t c p)))
  child-Safe s t c p (good, inside, state, same) here keeps =
      start-Safe (put t c p) c (put_state-IsGood t c p keeps good)
        (ap (λ (f : ℕ → CpuState). f cpu) same ∙ here) inside
        (ap (λ (q : Proc). q.state) (update_self t.pool c p) ∙ keeps ∙ state)

  fork_into-Safe :
      {s : System} (r : Result ℕ × System) (copied mapped : Result (Unit {0}))
      → IsGood s
      → s.cpus cpu ≡ runs idx
      → Allocated s r
      → Safe (after_call (fork_into cpu idx copied mapped r))
  unfolding fork_into
  fork_into-Safe (err e, t) copied mapped h here a = (t, refl, a)
  fork_into-Safe (ok c, t) (err e) mapped h here (good, inside, state, same) =
      (free c t, refl, free-IsGood c t state good)
  fork_into-Safe (ok c, t) (ok u) (err e) h here (good, inside, state, same) =
      (_, refl, put_state-IsGood t c _ refl good)
  fork_into-Safe {s} (ok c, t) (ok u) (ok v) h here a = child-Safe s t c _ a here refl

  clone_into-Safe :
      {s : System} (fcn arg1 arg2 stack : ℕ) (r : Result ℕ × System) (mapped : Result (Unit {0}))
      → IsGood s
      → s.cpus cpu ≡ runs idx
      → Allocated s r
      → Safe (after_call (clone_into cpu idx fcn arg1 arg2 stack mapped r))
  unfolding clone_into
  clone_into-Safe fcn arg1 arg2 stack (err e, t) mapped h here a = (t, refl, a)
  clone_into-Safe fcn arg1 arg2 stack (ok c, t) (err e) h here (good, inside, state, same) =
      (t, refl, good)
  clone_into-Safe {s} fcn arg1 arg2 stack (ok c, t) (ok u) h here a = child-Safe s t c _ a here refl

  pub fork-Safe :
      (memory copied mapped : Result (Unit {0})) (s : System)
      → IsGood s
      → s.cpus cpu ≡ runs idx
      → Safe (after_call (fork cpu idx memory copied mapped s))
  unfolding fork
  fork-Safe memory copied mapped s h here =
      fork_into-Safe (alloc memory s) copied mapped h here (alloc-Allocated memory s h)

  pub clone-Safe :
      (sz fcn arg1 arg2 stack : ℕ) (memory mapped : Result (Unit {0})) (s : System)
      → IsGood s
      → s.cpus cpu ≡ runs idx
      → Safe (after_call (clone cpu idx sz fcn arg1 arg2 stack memory mapped s))
  unfolding clone
  clone-Safe sz fcn arg1 arg2 stack memory mapped s h here =
      if_intro (λ (o : Option (Result ℕ × System)). Safe (after_call o)) (is_stack sz stack) _ _
        (λ e.
          clone_into-Safe fcn arg1 arg2 stack (alloc memory s) mapped h here
            (alloc-Allocated memory s h))
        (λ e. (s, refl, h))
