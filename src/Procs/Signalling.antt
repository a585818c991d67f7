-- ===== src/Procs/Signalling.antt =====
-- proc.rs: what a signal does to the process that it is for.
use Prim.Native.Nat.{bit_or}
use mathlib.Core.Path.{subst}
use web_os.Prelude.{
  ◌^◌, [], ◌∷◌, elem, if◌then◌else◌, ℕ, ◌-◌, ◌<◌, ◌≡◌, ◌≢◌, ◌∙◌, refl, sym, ap, Option, none, some,
  Bool, true, false, not, ◌&&◌, ◌||◌, arith, ◌==◌, if_intro, update_self, update_ne,
}
use web_os.RunQueue.{nproc, ncpu}
use web_os.Procs.{System, Proc, sleeping, stopped, runnable, same_state, put, sig_ign, sig_dfl}
use web_os.Procs.Signals.{
  bad_signal, default_action, sigcont, sig_mask, noted, is_deadly, wake_if, signal_one,
}
use web_os.Procs.Balance.{IsQueued}
use web_os.Procs.Stirs.{
  Stays, Stays-IsMoved, IsMoved-trans, SameRest, Stirred, wake_if-Stirred, two_tests,
}
use web_os.Procs.Waking.{
  is_blocked, sleeping-blocked, stopped-blocked, noted-KeepsState, put-Wakes, both,
}

abbrev pub is_ignored : ℕ → Proc → Bool
is_ignored sig p = not (sig == 9) && p.sig_handlers (sig - 1) == sig_ign

-- The signals that kill a process which has not caught them, SIGKILL all the same.
abbrev pub kills : ℕ → Proc → Bool
kills sig p =
    sig == 9 || (p.sig_handlers (sig - 1) == sig_dfl && elem sig (2 ∷ 9 ∷ 10 ∷ 12 ∷ 14 ∷ 15 ∷ []))

-- The processes that a signal makes runnable, if it is not ignored.
abbrev pub is_roused : ℕ → Proc → Bool
is_roused sig p =
    same_state p.state sleeping || (same_state p.state stopped && (sig == 18 || kills sig p))

-- What a signal does to the process that it is for: all of its fields.
pub record Signalled (sig : ℕ) (p q : Proc) : Type 0 where
  pub ignored : is_ignored sig p ≡ true → q ≡ record p { killed = p.killed || kills sig p }
  pub heeded :
      is_ignored sig p ≡ false
      → q ≡ record p {
        killed = p.killed || kills sig p;
        sig_pending = bit_or p.sig_pending (2 ^ (sig - 1));
        stop_sig = if sig == 18 then 0 else p.stop_sig;
        stop_reported = if sig == 18 then false else p.stop_reported;
        cont_pending = if sig == 18 then true else p.cont_pending;
        state = q.state;
        last_cpu = q.last_cpu;
      }
  pub roused : is_ignored sig p ≡ false → is_roused sig p ≡ true → q.state ≡ runnable
  pub left :
      is_ignored sig p ≡ false
      → is_roused sig p ≡ false
      → (q.state ≡ p.state) × (q.last_cpu ≡ p.last_cpu)

deadly_lem : (sig : ℕ) (p : Proc) → is_deadly sig p ≡ kills sig p
unfolding is_deadly default_action
deadly_lem sig p = ground arith

mask_lem : (sig : ℕ) → bad_signal sig ≡ false → sig_mask sig ≡ 2 ^ (sig - 1)
mask_lem sig good = ap (λ b. if b then 0 else 2 ^ (sig - 1)) good

noted_cont :
    (b : Bool) (p : Proc)
    → (if b then record p { stop_sig = 0; stop_reported = false; cont_pending = true } else p)
      ≡ record p {
        stop_sig = if b then 0 else p.stop_sig;
        stop_reported = if b then false else p.stop_reported;
        cont_pending = if b then true else p.cont_pending;
      }
noted_cont true p = refl
noted_cont false p = refl

noted_lem :
    (sig : ℕ) (p : Proc)
    → bad_signal sig ≡ false
    → noted sig p ≡ record p {
      killed = p.killed || kills sig p;
      sig_pending = bit_or p.sig_pending (2 ^ (sig - 1));
      stop_sig = if sig == 18 then 0 else p.stop_sig;
      stop_reported = if sig == 18 then false else p.stop_reported;
      cont_pending = if sig == 18 then true else p.cont_pending;
    }
unfolding noted
noted_lem sig p good =
    ap (λ (q : Proc). record q { sig_pending = bit_or p.sig_pending (sig_mask sig) })
      (noted_cont (sig == sigcont) (record p { killed = p.killed || is_deadly sig p }))
    ∙ ap
        (λ d. record p {
          killed = p.killed || d;
          sig_pending = bit_or p.sig_pending (sig_mask sig);
          stop_sig = if sig == 18 then 0 else p.stop_sig;
          stop_reported = if sig == 18 then false else p.stop_reported;
          cont_pending = if sig == 18 then true else p.cont_pending;
        })
        (deadly_lem sig p)
    ∙ ap
        (λ k. record p {
          killed = p.killed || kills sig p;
          sig_pending = bit_or p.sig_pending k;
          stop_sig = if sig == 18 then 0 else p.stop_sig;
          stop_reported = if sig == 18 then false else p.stop_reported;
          cont_pending = if sig == 18 then true else p.cont_pending;
        })
        (mask_lem sig good)

module _ (cpu sig idx : ℕ) (s : System) (h : IsQueued s) (small : cpu < ncpu)
    (good : bad_signal sig ≡ false) (inside : idx < nproc) where
  -- The table once the signal is noted.
  seen : System
  seen = put s idx (noted sig (s.pool idx))

  here : seen.pool idx ≡ noted sig (s.pool idx)
  unfolding seen
  here = update_self s.pool idx (noted sig (s.pool idx))

  seen-IsQueued : IsQueued seen
  unfolding seen
  seen-IsQueued =
      let keeps = noted-KeepsState sig (s.pool idx) in
      (put-Wakes s idx (noted sig (s.pool idx)) h keeps.0 keeps.1 keeps.2).0

  continues : Bool
  continues =
      same_state (s.pool idx).state stopped && (sig == sigcont || is_deadly sig (s.pool idx))

  seen_state : (seen.pool idx).state ≡ (s.pool idx).state
  seen_state = ap (λ (p : Proc). p.state) here ∙ (noted-KeepsState sig (s.pool idx)).0

  continues-is_blocked : continues ≡ true → is_blocked (seen.pool idx).state ≡ true
  unfolding continues
  continues-is_blocked e =
      ap is_blocked seen_state ∙ stopped-blocked (s.pool idx).state (both _ _ e).0

  not_ignored :
      is_ignored sig (s.pool idx) ≡ false
      → (t u : System) → Stirred continues idx seen t
      → Stirred (same_state (t.pool idx).state sleeping) idx t u
      → Signalled sig (s.pool idx) (u.pool idx)
  unfolding continues
  not_ignored e t u a b = record {
    ignored = λ e'. absurd (ground (arith, e, e'));
    heeded = λ e'.
        IsMoved-trans (seen.pool idx) (t.pool idx) (u.pool idx)
          (Stays-IsMoved continues (seen.pool idx) (t.pool idx) a.now)
          (Stays-IsMoved (same_state (t.pool idx).state sleeping) (t.pool idx) (u.pool idx) b.now)
        ∙ ap
            (λ (k : Proc). record k {
              state = (u.pool idx).state;
              last_cpu = (u.pool idx).last_cpu;
            })
            (here ∙ noted_lem sig (s.pool idx) good);
    roused = λ e' r. tested.0 (same_roused ∙ r);
    left = λ e' r.
        let (state, last) = tested.1 (same_roused ∙ r) in
        (
          state ∙ seen_state,
          last ∙ ap (λ (k : Proc). k.last_cpu) (here ∙ noted_lem sig (s.pool idx) good),
        );
  }
    where
      d : Bool
      d = sig == 18 || kills sig (s.pool idx)

      same_test : continues ≡ (same_state (seen.pool idx).state stopped && d)
      same_test =
          ap (λ k. same_state (s.pool idx).state stopped && (sig == 18 || k))
            (deadly_lem sig (s.pool idx))
          ∙ ap (λ k. same_state k stopped && d) (sym seen_state)

      same_roused :
          (same_state (seen.pool idx).state sleeping
            || (same_state (seen.pool idx).state stopped && d))
          ≡ is_roused sig (s.pool idx)
      same_roused = ap (λ k. same_state k sleeping || (same_state k stopped && d)) seen_state

      tested :
          ((same_state (seen.pool idx).state sleeping
                || (same_state (seen.pool idx).state stopped && d))
              ≡ true
            → (u.pool idx).state ≡ runnable)
          × ((same_state (seen.pool idx).state sleeping
                  || (same_state (seen.pool idx).state stopped && d))
                ≡ false
              → ((u.pool idx).state ≡ (seen.pool idx).state)
                × ((u.pool idx).last_cpu ≡ (seen.pool idx).last_cpu))
      tested =
          two_tests d (seen.pool idx) (t.pool idx) (u.pool idx)
            (subst (λ k. Stays k (seen.pool idx) (t.pool idx)) same_test a.now) b.now

  -- What `signal_one` does.
  pub signal_one_lem :
      (t : System) × (signal_one cpu sig idx s ≡ some t)
      × Signalled sig (s.pool idx) (t.pool idx)
      × ((i : ℕ) → i ≢ idx → t.pool i ≡ s.pool i)
      × SameRest s t
      × IsQueued t
  unfolding signal_one seen continues
  signal_one_lem =
      if_intro
        (λ (o : Option System).
          (t : System) × (o ≡ some t)
          × Signalled sig (s.pool idx) (t.pool idx)
          × ((i : ℕ) → i ≢ idx → t.pool i ≡ s.pool i)
          × SameRest s t
          × IsQueued t)
        (is_ignored sig (s.pool idx)) _ _
        (λ e. (
          put s idx doomed,
          refl,
          subst (Signalled sig (s.pool idx)) (sym (update_self s.pool idx doomed)) (record {
            ignored = λ e'.
                ap (λ d. record (s.pool idx) { killed = (s.pool idx).killed || d })
                  (deadly_lem sig (s.pool idx));
            heeded = λ e'. absurd (ground (arith, e, e'));
            roused = λ e'. absurd (ground (arith, e, e'));
            left = λ e'. absurd (ground (arith, e, e'));
          }),
          λ i ne. update_ne s.pool doomed ne,
          (refl, refl, refl, refl),
          (put-Wakes s idx doomed h refl refl refl).0,
        ))
        (λ e.
          let (t, e', a) =
            wake_if-Stirred continues cpu idx seen seen-IsQueued small inside
              continues-is_blocked in
          let (u, e'', b) =
            wake_if-Stirred (same_state (t.pool idx).state sleeping) cpu idx t a.queued small inside
              (sleeping-blocked (t.pool idx).state) in
          (
            u,
            ap
                  (λ (o : Option System). elim o [
                    | none ↦ none
                    | some x ↦ wake_if (same_state (x.pool idx).state sleeping) cpu idx x
                  ])
                  e'
                ∙ e'',
            not_ignored e t u a b,
            λ i ne. b.others i ne ∙ a.others i ne ∙ update_ne s.pool (noted sig (s.pool idx)) ne,
            (b.rest.0 ∙ a.rest.0, b.rest.1 ∙ a.rest.1, b.rest.2 ∙ a.rest.2, b.rest.3 ∙ a.rest.3),
            b.queued,
          ))
    where
      doomed : Proc
      doomed = record (s.pool idx) { killed = (s.pool idx).killed || is_deadly sig (s.pool idx) }
