-- ===== src/Procs/Ignored.antt =====
-- proc.rs: the signals that a wait drops.
use Prim.Native.Nat.{bit_and}
use web_os.Prelude.{
  ℕ, zero, suc, ◌+◌, ◌-◌, ◌^◌, ◌≤◌, ◌<◌, ◌≡◌, ◌≢◌, ◌∙◌, refl, ap, Bool, true, false, not, ◌&&◌,
  ◌||◌, [], ◌∷◌, elem, arith, ◌==◌, if◌then◌else◌,
}
use web_os.Procs.{Proc, sig_ign, sig_dfl}
use web_os.Procs.Signals.{ignore, default_action, nsig, sig_mask}
use web_os.Procs.Handlers.{without}
use web_os.Procs.Reaping.{drop_ignored}

-- The process takes no notice of the signal: it has said so, or has said nothing of one that neither
-- kills nor stops nor continues a process.
abbrev pub is_unheeded : ℕ → Proc → Bool
is_unheeded sig p =
    p.sig_handlers (sig - 1) == sig_ign
    || (p.sig_handlers (sig - 1) == sig_dfl
        && not (elem sig (2 ∷ 9 ∷ 10 ∷ 12 ∷ 14 ∷ 15 ∷ 18 ∷ 20 ∷ 21 ∷ 22 ∷ [])))

-- No signal that is pending is ignored.
abbrev pub HeedsPending : Proc → Type 0
HeedsPending p =
    (sig : ℕ)
    → 0 < sig
    → sig ≤ nsig
    → bit_and p.sig_pending (2 ^ (sig - 1)) ≢ 0
    → is_unheeded sig p ≡ false

unheeded_lem :
    (sig : ℕ) (p : Proc)
    → (p.sig_handlers (sig - 1) == sig_ign
        || (p.sig_handlers (sig - 1) == sig_dfl
            && (elim (default_action sig) [ ignore ↦ true | _ ↦ false ])))
      ≡ is_unheeded sig p
unfolding default_action
unheeded_lem sig p = ground arith

not_taken : (a b : Bool) (p q : Proc) → (a ≡ true → b ≡ false) → (if a && b then q else p) ≡ p
not_taken true true p q h = absurd (ground (arith, h refl))
not_taken true false p q h = refl
not_taken false b p q h = refl

is_pending : (k : ℕ) → not (k == 0) ≡ true → k ≢ 0
is_pending k e z = ground (arith, e, z)

-- A wait drops nothing where no pending signal is ignored.
pub drop_ignored-HeedsPending :
    (rounds sig : ℕ) (p : Proc)
    → HeedsPending p
    → 0 < sig
    → sig + rounds ≤ nsig + 1
    → drop_ignored rounds sig p ≡ p
unfolding drop_ignored
drop_ignored-HeedsPending zero sig p h from to = refl
drop_ignored-HeedsPending (suc rounds) sig p h from to =
    ap (drop_ignored rounds (sig + 1)) kept
    ∙ drop_ignored-HeedsPending rounds (sig + 1) p h (omega arith) (omega (arith, to))
  where
    mask : sig_mask sig ≡ 2 ^ (sig - 1)
    mask = ground (arith, from, to)

    kept :
        (if not (bit_and p.sig_pending (sig_mask sig) == 0)
            && (p.sig_handlers (sig - 1) == sig_ign
                || (p.sig_handlers (sig - 1) == sig_dfl
                    && (elim (default_action sig) [ ignore ↦ true | _ ↦ false ])))
          then record p { sig_pending = without p.sig_pending sig }
          else p)
        ≡ p
    kept =
        not_taken (not (bit_and p.sig_pending (sig_mask sig) == 0))
          (p.sig_handlers (sig - 1) == sig_ign
            || (p.sig_handlers (sig - 1) == sig_dfl
                && (elim (default_action sig) [ ignore ↦ true | _ ↦ false ])))
          p (record p { sig_pending = without p.sig_pending sig })
          (λ e.
            unheeded_lem sig p
            ∙ h sig from (omega (arith, to)) (λ z.
              is_pending (bit_and p.sig_pending (sig_mask sig)) e
                (ap (bit_and p.sig_pending) mask ∙ z)))
