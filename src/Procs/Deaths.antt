-- ===== src/Procs/Deaths.antt =====
-- proc.rs: a zombie that is reaped leaves a good table.
use mathlib.Core.Path.{subst}
use native.Mathlib.Decide.{ℕ_discrete}
use web_os.Prelude.{
  ℕ, ◌≡◌, ◌≢◌, ◌∙◌, refl, sym, ap, none, some, true, false, arith, update, update_self, update_ne,
}
use web_os.Procs.{System, Proc, unused, zombie, same_state, free}
use web_os.Procs.Family.{set_parent}
use web_os.Procs.Reaping.{reap}
use web_os.Procs.Balance.{IsQueued-keep}
use web_os.Procs.Tree.{IsGood, SameBits, is_placed, put-IsGood}
use web_os.Procs.States.{same_state-eq}

zombie_unused : SameBits zombie unused
zombie_unused = record {
  runs_same = refl;
  ready_same = refl;
  alive_same = λ h. absurd (ground (arith, h));
  placed_same = λ h. absurd (ground (arith, h));
}

-- A slot out of the tree has no parent to keep.
unparent-IsGood :
    (s : System) (c : ℕ)
    → is_placed (s.pool c).state ≡ false
    → IsGood s
    → IsGood (set_parent s c none)
unparent-IsGood s c out h = record {
  queued = IsQueued-keep s _ refl refl (λ i. refl) h.queued;
  on_cpus = h.on_cpus;
  family = record {
    alive_parent = λ i p inside e. elim (ℕ_discrete i c) [
      | yes same ↦ absurd (
          none_ne p
            (sym (update_self s.parents c none) ∙ ap (update s.parents c none) (sym same) ∙ e))
      | no ne ↦ h.family.alive_parent i p inside (sym (update_ne s.parents none ne) ∙ e)
    ];
    has_parent = λ i inside ne placed. elim (ℕ_discrete i c) [
      | yes same ↦ absurd (ground (arith, placed, out, ap (λ k. is_placed (s.pool k).state) same))
      | no ne' ↦
          let (p, e) = h.family.has_parent i inside ne placed in
          (p, update_ne s.parents none ne' ∙ e)
    ];
    init_alive = h.family.init_alive;
  };
}
  where
    none_ne : (p : ℕ) → none ≢ some p
    none_ne p e = cc

pub reap-IsGood :
    (c : ℕ) (s : System) → same_state (s.pool c).state zombie ≡ true → IsGood s → IsGood (reap c s)
unfolding reap free
reap-IsGood c s state h =
    unparent-IsGood (free c s) c (ap (λ (p : Proc). is_placed p.state) (update_self s.pool c _)) (
      put-IsGood s c _
        (subst (λ a. SameBits a unused) (sym (same_state-eq (s.pool c).state zombie state))
          zombie_unused)
        h)
