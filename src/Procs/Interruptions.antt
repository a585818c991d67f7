-- ===== src/Procs/Interruptions.antt =====
-- proc.rs: a process that returns from a signal handler has its registers back.
use web_os.Prelude.{
  ℕ, ◌+◌, ◌-◌, ◌≡◌, ◌≢◌, ◌∙◌, refl, ap, some, true, false, ◌==◌, ==_ne, if_intro, if◌then◌else◌,
  update_self,
}
use web_os.Errors.{ok}
use web_os.Procs.{System, Proc, put, sig_dfl, sig_ign}
use web_os.Procs.Signals.{sigkill, sigcont}
use web_os.Procs.Handlers.{
  without, enter_handler, deliver, deliver_signals, trailing_zeros, sigreturn,
}

-- A handler is entered with the signal off the pending ones.
caught : ℕ → Proc → Proc
caught sig p =
    enter_handler sig (p.sig_handlers (sig - 1))
      (record (if sig == sigcont then record p { cont_pending = false } else p) {
        sig_pending = without p.sig_pending sig;
      })

deliver-caught :
    (sig cpu idx : ℕ) (s : System)
    → sig ≢ sigkill
    → (s.pool idx).sig_handlers (sig - 1) ≢ sig_dfl
    → (s.pool idx).sig_handlers (sig - 1) ≢ sig_ign
    → (s.pool idx).sig_restorer ≢ 0
    → deliver sig cpu idx s ≡ some (put s idx (caught sig (s.pool idx)))
unfolding deliver caught
deliver-caught sig cpu idx s kill dfl ign restorer =
    rw
      (
        ==_ne sig sigkill kill,
        ==_ne ((s.pool idx).sig_handlers (sig - 1)) sig_ign ign,
        ==_ne ((s.pool idx).sig_handlers (sig - 1)) sig_dfl dfl,
        ==_ne (s.pool idx).sig_restorer 0 restorer,
      )
      refl

caught_kept :
    (sig : ℕ) (p : Proc)
    → ((caught sig p).sig_trapframe ≡ p.trapframe)
      × ((caught sig p).trapframe.epc ≡ p.sig_handlers (sig - 1))
      × ((caught sig p).trapframe.a0 ≡ sig)
unfolding caught
caught_kept sig p =
    if_intro
      (λ (q : Proc).
        (q.trapframe ≡ p.trapframe)
        × (p.sig_handlers (sig - 1) ≡ p.sig_handlers (sig - 1))
        × (sig ≡ sig))
      (sig == sigcont) (record p { cont_pending = false }) p (λ e. (refl, refl, refl))
      (λ e. (refl, refl, refl))

entered : (sig : ℕ) (p : Proc) → (caught sig p).sig_active ≡ true
unfolding caught
entered sig p = refl

sigreturn_active :
    (idx : ℕ) (s : System)
    → (s.pool idx).sig_active ≡ true
    → sigreturn idx s ≡ (
      ok tt,
      put s idx
          (record (s.pool idx) { trapframe = (s.pool idx).sig_trapframe; sig_active = false }),
    )
unfolding sigreturn
sigreturn_active idx s e = rw (e) refl

-- Entered and left again.
sigreturn-deliver :
    (sig cpu idx : ℕ) (s : System)
    → sig ≢ sigkill
    → (s.pool idx).sig_handlers (sig - 1) ≢ sig_dfl
    → (s.pool idx).sig_handlers (sig - 1) ≢ sig_ign
    → (s.pool idx).sig_restorer ≢ 0
    → (t u : System) × (deliver sig cpu idx s ≡ some t)
      × (sigreturn idx t ≡ (ok tt, u))
      × ((t.pool idx).trapframe.epc ≡ (s.pool idx).sig_handlers (sig - 1))
      × ((t.pool idx).trapframe.a0 ≡ sig)
      × ((t.pool idx).sig_active ≡ true)
      × ((u.pool idx).trapframe ≡ (s.pool idx).trapframe)
      × ((u.pool idx).sig_active ≡ false)
sigreturn-deliver sig cpu idx s kill dfl ign restorer = (
  t,
  put t idx after,
  deliver-caught sig cpu idx s kill dfl ign restorer,
  sigreturn_active idx t active,
  ap (λ (p : Proc). p.trapframe.epc) here ∙ (caught_kept sig (s.pool idx)).1,
  ap (λ (p : Proc). p.trapframe.a0) here ∙ (caught_kept sig (s.pool idx)).2,
  active,
  ap (λ (p : Proc). p.trapframe) (update_self t.pool idx after)
      ∙ ap (λ (p : Proc). p.sig_trapframe) here
      ∙ (caught_kept sig (s.pool idx)).0,
  ap (λ (p : Proc). p.sig_active) (update_self t.pool idx after),
)
  where
    t : System
    t = put s idx (caught sig (s.pool idx))

    after : Proc
    after = record (t.pool idx) { trapframe = (t.pool idx).sig_trapframe; sig_active = false }

    here : t.pool idx ≡ caught sig (s.pool idx)
    here = update_self s.pool idx (caught sig (s.pool idx))

    active : (t.pool idx).sig_active ≡ true
    active = ap (λ (p : Proc). p.sig_active) here ∙ entered sig (s.pool idx)

deliver_signals_now :
    (cpu idx : ℕ) (s : System)
    → (s.pool idx).sig_active ≡ false
    → (s.pool idx).sig_pending ≢ 0
    → deliver_signals cpu idx s ≡ deliver (trailing_zeros (s.pool idx).sig_pending + 1) cpu idx s
unfolding deliver_signals
deliver_signals_now cpu idx s active pending =
    rw (active, ==_ne (s.pool idx).sig_pending 0 pending) refl

-- If the lowest pending signal of a process that is in no handler is not SIGKILL and has a handler
-- and a restorer, its delivery enters the handler with the signal's number, and a sigreturn after
-- it succeeds and gives the process all the registers back that it had.
pub sigreturn-deliver_signals :
    (sig cpu idx : ℕ) (s : System)
    → (s.pool idx).sig_active ≡ false
    → (s.pool idx).sig_pending ≢ 0
    → trailing_zeros (s.pool idx).sig_pending + 1 ≡ sig
    → sig ≢ sigkill
    → (s.pool idx).sig_handlers (sig - 1) ≢ sig_dfl
    → (s.pool idx).sig_handlers (sig - 1) ≢ sig_ign
    → (s.pool idx).sig_restorer ≢ 0
    → (t u : System) × (deliver_signals cpu idx s ≡ some t)
      × (sigreturn idx t ≡ (ok tt, u))
      × ((t.pool idx).trapframe.epc ≡ (s.pool idx).sig_handlers (sig - 1))
      × ((t.pool idx).trapframe.a0 ≡ sig)
      × ((t.pool idx).sig_active ≡ true)
      × ((u.pool idx).trapframe ≡ (s.pool idx).trapframe)
      × ((u.pool idx).sig_active ≡ false)
sigreturn-deliver_signals sig cpu idx s active pending lowest kill dfl ign restorer =
    let (t, u, e, back, at_handler, with_sig, busy, restored, over) =
      sigreturn-deliver sig cpu idx s kill dfl ign restorer in
    (
      t,
      u,
      deliver_signals_now cpu idx s active pending ∙ ap (λ k. deliver k cpu idx s) lowest ∙ e,
      back,
      at_handler,
      with_sig,
      busy,
      restored,
      over,
    )
